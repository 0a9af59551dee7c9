-- ===== src/Worker/Effects/Threads.antt =====
-- The handoff of a thread sends forwards only, and makes no request to the model.
use ai_memmail.Prelude.{String, Option, some, none, ◌≡◌, refl}
use ai_memmail.Prelude.Result.{Result, ok, err}
use ai_memmail.Text.{Text, eq_ignore_ascii_case}
use ai_memmail.Config.{MailboxConfig}
use ai_memmail.Mail.{InboundMessage, OutboundAction, MailError, ThreadContext}
use ai_memmail.Mail.Parser.{reply_recipient}
use ai_memmail.Storage.{
  ThreadHandoffDelivery, StorageError, ThreadHandoff, NewThreadHandoffDelivery,
}
use ai_memmail.Mail.{forward, ThreadMessage}
use ai_memmail.Worker.Services.{Services, AiStep}
use ai_memmail.Mail.Forwarding.{thread_handoff_body}
use ai_memmail.Worker.Effects.Quiet.{IfOk}
use ai_memmail.Worker.Handoff.{
  handoff_action_of, handoff_action_for, latest_inbound, thread_handoff_action, finish, sent_answer,
  hand_off, begin_delivery, prevent_loop, route_active_thread_handoff,
}
use ai_memmail.Worker.Effects.{
  Allowed, Makes, Makes-draw, Makes-call, Makes-bind, Makes-if, Anything,
}
use ai_memmail.Worker.Effects.Quiet.{
  log_message-Makes, update_processing_status-Makes, mark_seen-Makes,
  log_retryable_message_error-Makes,
}
use ai_memmail.Worker.Effects.Sending.{
  record_outbound_action_for_history-Makes, forward_context_limit_message-Makes,
}

abbrev IsForward : OutboundAction → Type 0
IsForward action = action.kind ≡ forward

handoff_action_of-IfOk :
    (mailbox : MailboxConfig) (handoff : ThreadHandoff) (uuid : Text) (latest : ThreadMessage)
    (body : Result MailError Text)
    → IfOk IsForward (handoff_action_of mailbox handoff uuid latest body)
handoff_action_of-IfOk mailbox handoff uuid latest (ok body) = refl
handoff_action_of-IfOk mailbox handoff uuid latest (err e) = tt

handoff_action_for-IfOk :
    (mailbox : MailboxConfig) (context : ThreadContext) (handoff : ThreadHandoff) (uuid : Text)
    (latest : Option ThreadMessage)
    → IfOk IsForward (handoff_action_for mailbox context handoff uuid latest)
handoff_action_for-IfOk mailbox context handoff uuid none = tt
handoff_action_for-IfOk mailbox context handoff uuid (some latest) =
    handoff_action_of-IfOk mailbox handoff uuid latest (thread_handoff_body context)

thread_handoff_action-IfOk :
    (mailbox : MailboxConfig) (context : ThreadContext) (handoff : ThreadHandoff) (uuid : Text)
    → IfOk IsForward (thread_handoff_action mailbox context handoff uuid)
unfolding thread_handoff_action
thread_handoff_action-IfOk mailbox context handoff uuid =
    handoff_action_for-IfOk mailbox context handoff uuid (latest_inbound context.messages)

module _ {Mailed : OutboundAction → Type 0} {Asked : AiStep → Type 0} (x : Services)
    (mailbox : MailboxConfig) (run_id : Text) (message : InboundMessage)
    (forwards : (a : OutboundAction) → a.kind ≡ forward → Mailed a) where
  finish-Makes :
      (d : NewThreadHandoffDelivery) (status : String) (detail : Option Text)
      → Makes (Allowed Mailed Asked) (finish x mailbox run_id message d status detail) Anything
  unfolding finish
  finish-Makes d status detail = Makes-call _ _ (λ _. tt)

  sent_answer-Makes :
      (destination : Text) (d : NewThreadHandoffDelivery) (answer : Result MailError (Unit {0}))
      → Makes
          (Allowed Mailed Asked)
          (sent_answer x mailbox run_id message destination d answer)
          Anything
  unfolding sent_answer
  sent_answer-Makes destination d (ok _) = Makes-bind (finish-Makes d "sent" none) (λ _ _.
      Makes-bind (log_message-Makes x run_id message _ _ _ _) (λ _ _.
        Makes-bind (update_processing_status-Makes x run_id message _ _)
          (λ _ _. mark_seen-Makes x run_id message mailbox _)))
  sent_answer-Makes destination d (err e) = Makes-bind (finish-Makes d "failed" _) (λ _ _.
      Makes-bind (update_processing_status-Makes x run_id message _ _)
        (λ _ _. log_message-Makes x run_id message _ _ _ _))

  hand_off-Makes :
      (destination : Text) (action : OutboundAction) (d : NewThreadHandoffDelivery)
      (answer : Result StorageError ThreadHandoffDelivery)
      → action.kind ≡ forward
      → Makes
          (Allowed Mailed Asked)
          (hand_off x mailbox run_id message destination action d answer)
          Anything
  unfolding hand_off
  hand_off-Makes destination action d (err e) h =
      log_retryable_message_error-Makes x run_id message _ _
  hand_off-Makes destination action d (ok _) h =
      Makes-bind (record_outbound_action_for_history-Makes x run_id message action) (λ _ _.
        Makes-bind (Makes-call _ _ (λ _. forwards action h))
          (λ answer _. sent_answer-Makes destination d answer))

  begin_delivery-Makes :
      (context : ThreadContext) (handoff : ThreadHandoff) (destination : Text)
      (action : Result MailError OutboundAction)
      → IfOk IsForward action
      → Makes
          (Allowed Mailed Asked)
          (begin_delivery x mailbox run_id message context handoff destination action)
          Anything
  unfolding begin_delivery
  begin_delivery-Makes context handoff destination (err e) h =
      forward_context_limit_message-Makes x mailbox run_id message _ forwards
  begin_delivery-Makes context handoff destination (ok action) h =
      Makes-bind (Makes-draw _) (λ request_id _.
        Makes-bind (Makes-call _ _ (λ _. tt))
          (λ answer _. hand_off-Makes destination action _ answer h))

  prevent_loop-Makes :
      (destination : Text)
      → Makes (Allowed Mailed Asked) (prevent_loop x mailbox run_id message destination) Anything
  unfolding prevent_loop
  prevent_loop-Makes destination = Makes-bind (log_message-Makes x run_id message _ _ _ _) (λ _ _.
      Makes-bind (update_processing_status-Makes x run_id message _ _)
        (λ _ _. mark_seen-Makes x run_id message mailbox _))

  pub route_active_thread_handoff-Makes :
      (context : ThreadContext) (handoff : ThreadHandoff)
      → Makes
          (Allowed Mailed Asked)
          (route_active_thread_handoff x mailbox run_id message context handoff)
          Anything
  unfolding route_active_thread_handoff
  route_active_thread_handoff-Makes context handoff =
      Makes-if
        (eq_ignore_ascii_case (reply_recipient x.parser message.metadata.from_addr)
          (reply_recipient x.parser handoff.destination))
        (prevent_loop-Makes _)
        (Makes-bind (Makes-draw _) (λ timestamp _. Makes-bind (Makes-draw _) (λ uuid _.
          begin_delivery-Makes context handoff _ _
            (thread_handoff_action-IfOk mailbox _ handoff uuid))))
