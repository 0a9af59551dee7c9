-- ===== src/Worker/Protocol/Parts.antt =====
-- The parts of the worker follow the order of the calls.
use ai_memmail.Prelude.{ℕ, zero, suc, String, true, false, Option, none, some, refl}
use ai_memmail.Prelude.Result.{Result, ok, err}
use ai_memmail.Text.{Text}
use ai_memmail.Config.{MailboxConfig}
use ai_memmail.Mail.{dedupe_key, InboundMessage, OutboundActionKind, MailError}
use ai_memmail.Storage.{StorageError, ProcessingClaim, claimed, in_progress, already_finished}
use ai_memmail.Ai.{AiError}
use ai_memmail.Worker.Services.{Services, Operation, LogLevel, AiStep}
use ai_memmail.Worker.Events.{
  M, log_event, log_message, mark_answer, mark_seen, claim_answer, claim_before_side_effect,
  log_store_error, update_processing_status, log_retryable_message_error, log_optional_prompt_skip,
}
use ai_memmail.Worker.Steps.{beat, heartbeats, run_ai_step}
use ai_memmail.Worker.Protocol.{
  Phase, idle, working, stopped, claim_phase, status_phase, seen_phase, advance,
}
use ai_memmail.Worker.Protocol.Rules.{
  advance-claim, advance-status_set, advance-seen, Leads, Leads-pure, Leads-draw, Leads-call,
  Leads-bind, if_true,
}

module _ (x : Services) (run_id : Text) (message : InboundMessage) where
  pub log_message-Leads :
      {p : Phase} (level : LogLevel) (action status : Text) (detail : Option Text)
      → Leads
          (dedupe_key message.metadata)
          p
          (log_message x run_id message level action status detail)
          (λ _. p)
  unfolding log_message log_event advance
  log_message-Leads level action status detail = Leads-call _ _ (λ _. refl)

  pub log_store_error-Leads :
      {p : Phase} (action : Text) (answer : Result StorageError (Unit {0}))
      → Leads
          (dedupe_key message.metadata)
          p
          (log_store_error x run_id message action answer)
          (λ _. p)
  unfolding log_store_error
  log_store_error-Leads action (ok _) = Leads-pure tt refl
  log_store_error-Leads action (err e) = log_message-Leads _ _ _ _

  pub update_processing_status-Leads :
      {p : Phase} (status : String) (kind : Option OutboundActionKind)
      → Leads
          (dedupe_key message.metadata)
          p
          (update_processing_status x run_id message status kind)
          (λ _. status_phase p status)
  unfolding update_processing_status
  update_processing_status-Leads {p} status kind =
      Leads-bind (Leads-call _ _ (advance-status_set (dedupe_key message.metadata) p status kind))
        (λ answer. log_store_error-Leads _ answer)

  mark_answer-Leads :
      {p : Phase} (status : String) (answer : Result MailError (Unit {0}))
      → Leads (dedupe_key message.metadata) p (mark_answer x run_id message status answer) (λ _. p)
  unfolding mark_answer
  mark_answer-Leads status (ok _) = log_message-Leads _ _ _ _
  mark_answer-Leads status (err e) = log_message-Leads _ _ _ _

  pub mark_seen-Leads :
      {p : Phase} (mailbox : MailboxConfig) (status : String)
      → Leads
          (dedupe_key message.metadata)
          p
          (mark_seen x run_id message mailbox status)
          (λ _. seen_phase p)
  unfolding mark_seen dedupe_key
  mark_seen-Leads {p} mailbox status =
      Leads-bind (Leads-call _ _ (advance-seen (dedupe_key message.metadata) p))
        (λ answer. mark_answer-Leads status answer)

  claim_answer-Leads :
      (mailbox : MailboxConfig) (answer : Result StorageError ProcessingClaim)
      → Leads
          (dedupe_key message.metadata)
          (claim_phase answer)
          (claim_answer x run_id message mailbox answer)
          (if_true working stopped)
  unfolding claim_answer
  claim_answer-Leads mailbox (ok claimed) =
      Leads-bind (log_message-Leads _ _ _ _) (λ _. Leads-pure true refl)
  claim_answer-Leads mailbox (ok (already_finished status)) =
      Leads-bind (log_message-Leads _ _ _ _)
        (λ _. Leads-bind (mark_seen-Leads mailbox _) (λ _. Leads-pure false refl))
  claim_answer-Leads mailbox (ok (in_progress status)) =
      Leads-bind (log_message-Leads _ _ _ _) (λ _. Leads-pure false refl)
  claim_answer-Leads mailbox (err e) =
      Leads-bind (log_message-Leads _ _ _ _) (λ _. Leads-pure false refl)

  -- The message is worked on exactly where the claim was granted.
  pub claim_before_side_effect-Leads :
      (mailbox : MailboxConfig)
      → Leads
          (dedupe_key message.metadata)
          idle
          (claim_before_side_effect x run_id message mailbox)
          (if_true working stopped)
  unfolding claim_before_side_effect
  claim_before_side_effect-Leads mailbox =
      Leads-bind {Q = claim_phase}
        (Leads-call _ _ (advance-claim (dedupe_key message.metadata) idle))
        (λ answer. claim_answer-Leads mailbox answer)

  pub log_retryable_message_error-Leads :
      (action detail : Text)
      → Leads
          (dedupe_key message.metadata)
          working
          (log_retryable_message_error x run_id message action detail)
          (λ _. stopped)
  unfolding log_retryable_message_error status_phase
  log_retryable_message_error-Leads action detail =
      Leads-bind (log_message-Leads _ _ _ _) (λ _. update_processing_status-Leads _ _)

  pub log_optional_prompt_skip-Leads :
      {p : Phase} (action detail : Text)
      → Leads
          (dedupe_key message.metadata)
          p
          (log_optional_prompt_skip x run_id message action detail)
          (λ _. p)
  unfolding log_optional_prompt_skip
  log_optional_prompt_skip-Leads action detail = log_message-Leads _ _ _ _

module _ (x : Services) (message : InboundMessage) where
  beat-Leads :
      (later : M x (Option StorageError)) (answer : Result StorageError (Unit {0}))
      → Leads (dedupe_key message.metadata) working later (λ _. working)
      → Leads (dedupe_key message.metadata) working (beat x message later answer) (λ _. working)
  unfolding beat
  beat-Leads later (ok _) h = h
  beat-Leads later (err e) h = Leads-pure (some e) refl

  heartbeats-Leads :
      (n : ℕ) → Leads (dedupe_key message.metadata) working (heartbeats x message n) (λ _. working)
  unfolding heartbeats advance
  heartbeats-Leads zero = Leads-pure none refl
  heartbeats-Leads (suc n) =
      Leads-bind (Leads-call _ _ (λ _. refl))
        (λ answer. beat-Leads (heartbeats x message n) answer (heartbeats-Leads n))

  pub run_ai_step-Leads :
      {A : Type 0} (step : AiStep) (future : Operation x.World AiError A)
      → Leads
          (dedupe_key message.metadata)
          working
          (run_ai_step x message step future)
          (λ _. working)
  unfolding run_ai_step advance
  run_ai_step-Leads step future = Leads-bind (Leads-call _ _ (λ _. refl)) (λ answer.
      Leads-bind (Leads-draw _)
        (λ schedule. Leads-bind (heartbeats-Leads schedule.ticks) (λ failed. Leads-pure _ refl)))
