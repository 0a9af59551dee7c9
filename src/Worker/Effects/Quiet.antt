-- ===== src/Worker/Effects/Quiet.antt =====
-- The parts of the worker that send no mail: all but one make no request to the model either.
use ai_memmail.Prelude.{ℕ, zero, suc, String, Bool, true, false, Option, none, some}
use ai_memmail.Prelude.Result.{Result, ok, err}
use ai_memmail.Text.{Text}
use ai_memmail.Config.{MailboxConfig}
use ai_memmail.Mail.{InboundMessage, OutboundActionKind, MailError}
use ai_memmail.Storage.{StorageError, ProcessingClaim, claimed, in_progress, already_finished}
use ai_memmail.Ai.{AiError}
use ai_memmail.Worker.Services.{Services, Operation, LogLevel, AiStep}
use ai_memmail.Worker.Events.{
  M, log_event, log_message, mark_answer, mark_seen, claim_answer, claim_before_side_effect,
  log_store_error, update_processing_status, log_retryable_message_error, log_optional_prompt_skip,
}
use ai_memmail.Worker.Steps.{beat, heartbeats, run_ai_step, step_result}
use ai_memmail.Mail.{OutboundAction}
use ai_memmail.Worker.Effects.{
  Allowed, Makes, Makes-pure, Makes-draw, Makes-call, Makes-answer, Makes-bind, Anything,
}

-- What holds of an answer that is no error.
abbrev pub IfOk : {E A : Type 0} → (A → Type 0) → Result E A → Type 0
IfOk R (ok a) = R a
IfOk R (err e) = Unit

step_result-IfOk :
    {A : Type 0} (R : A → Type 0) (step : AiStep) (timed_out : Bool) (failed : Option StorageError)
    (answer : Result AiError A)
    → IfOk R answer
    → IfOk R (step_result step timed_out failed answer)
unfolding step_result
step_result-IfOk R step timed_out (some e) answer h = tt
step_result-IfOk R step true none answer h = tt
step_result-IfOk R step false none answer h = h

module _ {Mailed : OutboundAction → Type 0} {Asked : AiStep → Type 0} (x : Services) (run_id : Text)
    (message : InboundMessage) where
  pub log_message-Makes :
      (level : LogLevel) (action status : Text) (detail : Option Text)
      → Makes
          (Allowed Mailed Asked)
          (log_message x run_id message level action status detail)
          Anything
  unfolding log_message log_event
  log_message-Makes level action status detail = Makes-call _ _ (λ _. tt)

  pub log_store_error-Makes :
      (action : Text) (answer : Result StorageError (Unit {0}))
      → Makes (Allowed Mailed Asked) (log_store_error x run_id message action answer) Anything
  unfolding log_store_error
  log_store_error-Makes action (ok _) = Makes-pure tt tt
  log_store_error-Makes action (err e) = log_message-Makes _ _ _ _

  pub update_processing_status-Makes :
      (status : String) (kind : Option OutboundActionKind)
      → Makes
          (Allowed Mailed Asked)
          (update_processing_status x run_id message status kind)
          Anything
  unfolding update_processing_status
  update_processing_status-Makes status kind =
      Makes-bind (Makes-call _ _ (λ _. tt)) (λ answer _. log_store_error-Makes _ answer)

  mark_answer-Makes :
      (status : String) (answer : Result MailError (Unit {0}))
      → Makes (Allowed Mailed Asked) (mark_answer x run_id message status answer) Anything
  unfolding mark_answer
  mark_answer-Makes status (ok _) = log_message-Makes _ _ _ _
  mark_answer-Makes status (err e) = log_message-Makes _ _ _ _

  pub mark_seen-Makes :
      (mailbox : MailboxConfig) (status : String)
      → Makes (Allowed Mailed Asked) (mark_seen x run_id message mailbox status) Anything
  unfolding mark_seen
  mark_seen-Makes mailbox status =
      Makes-bind (Makes-call _ _ (λ _. tt)) (λ answer _. mark_answer-Makes status answer)

  claim_answer-Makes :
      (mailbox : MailboxConfig) (answer : Result StorageError ProcessingClaim)
      → Makes (Allowed Mailed Asked) (claim_answer x run_id message mailbox answer) Anything
  unfolding claim_answer
  claim_answer-Makes mailbox (ok claimed) =
      Makes-bind (log_message-Makes _ _ _ _) (λ _ _. Makes-pure true tt)
  claim_answer-Makes mailbox (ok (already_finished status)) =
      Makes-bind (log_message-Makes _ _ _ _)
        (λ _ _. Makes-bind (mark_seen-Makes mailbox _) (λ _ _. Makes-pure false tt))
  claim_answer-Makes mailbox (ok (in_progress status)) =
      Makes-bind (log_message-Makes _ _ _ _) (λ _ _. Makes-pure false tt)
  claim_answer-Makes mailbox (err e) =
      Makes-bind (log_message-Makes _ _ _ _) (λ _ _. Makes-pure false tt)

  pub claim_before_side_effect-Makes :
      (mailbox : MailboxConfig)
      → Makes (Allowed Mailed Asked) (claim_before_side_effect x run_id message mailbox) Anything
  unfolding claim_before_side_effect
  claim_before_side_effect-Makes mailbox =
      Makes-bind (Makes-call _ _ (λ _. tt)) (λ answer _. claim_answer-Makes mailbox answer)

  pub log_retryable_message_error-Makes :
      (action detail : Text)
      → Makes
          (Allowed Mailed Asked)
          (log_retryable_message_error x run_id message action detail)
          Anything
  unfolding log_retryable_message_error
  log_retryable_message_error-Makes action detail =
      Makes-bind (log_message-Makes _ _ _ _) (λ _ _. update_processing_status-Makes _ _)

  pub log_optional_prompt_skip-Makes :
      (action detail : Text)
      → Makes
          (Allowed Mailed Asked)
          (log_optional_prompt_skip x run_id message action detail)
          Anything
  unfolding log_optional_prompt_skip
  log_optional_prompt_skip-Makes action detail = log_message-Makes _ _ _ _

module _ {Mailed : OutboundAction → Type 0} {Asked : AiStep → Type 0} (x : Services)
    (message : InboundMessage) where
  beat-Makes :
      (later : M x (Option StorageError)) (answer : Result StorageError (Unit {0}))
      → Makes (Allowed Mailed Asked) later Anything
      → Makes (Allowed Mailed Asked) (beat x message later answer) Anything
  unfolding beat
  beat-Makes later (ok _) h = h
  beat-Makes later (err e) h = Makes-pure (some e) tt

  heartbeats-Makes : (n : ℕ) → Makes (Allowed Mailed Asked) (heartbeats x message n) Anything
  unfolding heartbeats
  heartbeats-Makes zero = Makes-pure none tt
  heartbeats-Makes (suc n) =
      Makes-bind (Makes-call _ _ (λ _. tt))
        (λ answer _. beat-Makes (heartbeats x message n) answer (heartbeats-Makes n))

  -- What a request answers is what its operation answers in some world, or an error.
  pub run_ai_step-Makes :
      {A : Type 0} {R : A → Type 0} (step : AiStep) (future : Operation x.World AiError A)
      → Asked step
      → ((w : x.World) → IfOk R (future w).0)
      → Makes (Allowed Mailed Asked) (run_ai_step x message step future) (IfOk R)
  unfolding run_ai_step
  run_ai_step-Makes {R} step future h k =
      Makes-bind {R = IfOk R} (Makes-answer _ _ (λ _. h) k) (λ answer asked.
        Makes-bind (Makes-draw _) (λ schedule _.
          Makes-bind (heartbeats-Makes schedule.ticks) (λ failed _.
            Makes-pure _ (step_result-IfOk R step schedule.timed_out failed answer asked))))
