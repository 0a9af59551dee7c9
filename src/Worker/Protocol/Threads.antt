-- ===== src/Worker/Protocol/Threads.antt =====
-- The handoff of a thread follows the order of the calls.
use ai_memmail.Prelude.{String, Option, none, refl}
use ai_memmail.Prelude.Result.{Result, ok, err}
use ai_memmail.Text.{Text, eq_ignore_ascii_case}
use ai_memmail.Config.{MailboxConfig}
use ai_memmail.Mail.{dedupe_key, InboundMessage, OutboundAction, MailError, ThreadContext}
use ai_memmail.Mail.Parser.{reply_recipient}
use ai_memmail.Storage.{
  ThreadHandoffDelivery, StorageError, ThreadHandoff, NewThreadHandoffDelivery,
}
use ai_memmail.Worker.Services.{Services}
use ai_memmail.Worker.Handoff.{
  finish, sent_answer, hand_off, begin_delivery, prevent_loop, route_active_thread_handoff,
}
use ai_memmail.Worker.Protocol.{
  Phase, working, stopped, send_phase, finish_phase, status_phase, advance,
}
use ai_memmail.Worker.Protocol.Rules.{Leads, Leads-draw, Leads-call, Leads-bind, Leads-if}
use ai_memmail.Worker.Protocol.Parts.{
  log_message-Leads, update_processing_status-Leads, mark_seen-Leads,
  log_retryable_message_error-Leads,
}
use ai_memmail.Worker.Protocol.Sending.{
  record_outbound_action_for_history-Leads, forward_context_limit_message-Leads,
}

module _ (x : Services) (mailbox : MailboxConfig) (run_id : Text) (message : InboundMessage) where
  finish-Leads :
      {p : Phase} (d : NewThreadHandoffDelivery) (status : String) (detail : Option Text)
      → Leads
          (dedupe_key message.metadata)
          p
          (finish x mailbox run_id message d status detail)
          (λ _. finish_phase p)
  unfolding finish advance
  finish-Leads d status detail = Leads-call _ _ (λ _. refl)

  sent_answer-Leads :
      (destination : Text) (d : NewThreadHandoffDelivery) (answer : Result MailError (Unit {0}))
      → Leads
          (dedupe_key message.metadata)
          (send_phase answer)
          (sent_answer x mailbox run_id message destination d answer)
          (λ _. stopped)
  unfolding sent_answer status_phase
  sent_answer-Leads destination d (ok _) = Leads-bind (finish-Leads d "sent" none) (λ _.
      Leads-bind (log_message-Leads x run_id message _ _ _ _) (λ _.
        Leads-bind (update_processing_status-Leads x run_id message _ _)
          (λ _. mark_seen-Leads x run_id message mailbox _)))
  sent_answer-Leads destination d (err e) = Leads-bind (finish-Leads d "failed" _) (λ _.
      Leads-bind (update_processing_status-Leads x run_id message _ _)
        (λ _. log_message-Leads x run_id message _ _ _ _))

  hand_off-Leads :
      (destination : Text) (action : OutboundAction) (d : NewThreadHandoffDelivery)
      (answer : Result StorageError ThreadHandoffDelivery)
      → Leads
          (dedupe_key message.metadata)
          working
          (hand_off x mailbox run_id message destination action d answer)
          (λ _. stopped)
  unfolding hand_off advance
  hand_off-Leads destination action d (err e) =
      log_retryable_message_error-Leads x run_id message _ _
  hand_off-Leads destination action d (ok _) =
      Leads-bind (record_outbound_action_for_history-Leads x run_id message action) (λ _.
        Leads-bind {Q = send_phase} (Leads-call _ _ (λ _. refl))
          (λ answer. sent_answer-Leads destination d answer))

  begin_delivery-Leads :
      (context : ThreadContext) (handoff : ThreadHandoff) (destination : Text)
      (action : Result MailError OutboundAction)
      → Leads
          (dedupe_key message.metadata)
          working
          (begin_delivery x mailbox run_id message context handoff destination action)
          (λ _. stopped)
  unfolding begin_delivery advance
  begin_delivery-Leads context handoff destination (err e) =
      forward_context_limit_message-Leads x mailbox run_id message _
  begin_delivery-Leads context handoff destination (ok action) =
      Leads-bind (Leads-draw _) (λ request_id.
        Leads-bind (Leads-call _ _ (λ _. refl))
          (λ answer. hand_off-Leads destination action _ answer))

  prevent_loop-Leads :
      (destination : Text)
      → Leads
          (dedupe_key message.metadata)
          working
          (prevent_loop x mailbox run_id message destination)
          (λ _. stopped)
  unfolding prevent_loop status_phase
  prevent_loop-Leads destination = Leads-bind (log_message-Leads x run_id message _ _ _ _) (λ _.
      Leads-bind (update_processing_status-Leads x run_id message _ _)
        (λ _. mark_seen-Leads x run_id message mailbox _))

  pub route_active_thread_handoff-Leads :
      (context : ThreadContext) (handoff : ThreadHandoff)
      → Leads
          (dedupe_key message.metadata)
          working
          (route_active_thread_handoff x mailbox run_id message context handoff)
          (λ _. stopped)
  unfolding route_active_thread_handoff
  route_active_thread_handoff-Leads context handoff =
      Leads-if
        (eq_ignore_ascii_case (reply_recipient x.parser message.metadata.from_addr)
          (reply_recipient x.parser handoff.destination))
        (prevent_loop-Leads _)
        (Leads-bind (Leads-draw _) (λ timestamp.
          Leads-bind (Leads-draw _) (λ uuid. begin_delivery-Leads context handoff _ _)))
