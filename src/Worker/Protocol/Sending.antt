-- ===== src/Worker/Protocol/Sending.antt =====
-- Storing history, sending a mail and reviewing one follow the order of the calls.
use ai_memmail.Prelude.{String, true, false, Option, ◌≡◌, refl}
use ai_memmail.Prelude.Result.{Result, ok, err}
use ai_memmail.Text.{Text}
use ai_memmail.Config.{AppConfig, MailboxConfig}
use ai_memmail.Mail.{
  dedupe_key, InboundMessage, OutboundAction, OutboundActionKind, reply, forward, noop, MailError,
  ThreadContext,
}
use ai_memmail.Safety.{SafetyScanResult, SafetyDecision}
use ai_memmail.Classification.{ResolvedEmailClassification, EmailRule}
use ai_memmail.Ai.{AgentDecision, OutboundReviewDecision, AiError}
use ai_memmail.Storage.{StorageError}
use ai_memmail.Worker.Services.{Services, Operation, LogLevel}
use ai_memmail.Worker.History.{
  write, log_decision, record_safety_result_for_history, record_agent_decision_for_history,
  record_email_classification_for_history, record_outbound_action_for_history,
  record_outbound_review_for_history, persisted_answer, review_sender, record_quarantine_state,
}
use ai_memmail.Worker.Outbound.{
  runtime_fields, action_with_runtime_fields, delivery_answer, deliver, send_and_mark_seen,
  forward_context_limit_message, reviewed_as, context_limit_forward, review_failed, review_verdict,
  review_answer, reviewed_outbound_action,
}
use ai_memmail.Worker.Steps.{ai_error_is_context_limit}
use ai_memmail.Worker.Protocol.{
  Phase, working, stopped, send_phase, status_phase, is_final, advance,
}
use ai_memmail.Worker.Protocol.Rules.{
  Leads, Leads-pure, Leads-draw, Leads-call, Leads-bind, Leads-if,
}
use ai_memmail.Worker.Protocol.Parts.{
  log_message-Leads, log_store_error-Leads, update_processing_status-Leads, mark_seen-Leads,
  run_ai_step-Leads,
}

module _ (x : Services) (run_id : Text) (message : InboundMessage) where
  write-Leads :
      {p : Phase} (name : Text) (operation : Operation x.World StorageError (Unit {0}))
      → Leads (dedupe_key message.metadata) p (write x run_id message name operation) (λ _. p)
  unfolding write advance
  write-Leads name operation =
      Leads-bind (Leads-call _ _ (λ _. refl))
        (λ answer. log_store_error-Leads x run_id message _ answer)

  pub log_decision-Leads :
      {p : Phase} (decision : AgentDecision) (name : Text)
      → Leads (dedupe_key message.metadata) p (log_decision x run_id message decision name) (λ _. p)
  unfolding log_decision
  log_decision-Leads decision name = log_message-Leads x run_id message _ _ _ _

  pub record_safety_result_for_history-Leads :
      {p : Phase} (scan : SafetyScanResult)
      → Leads
          (dedupe_key message.metadata)
          p
          (record_safety_result_for_history x run_id message scan)
          (λ _. p)
  unfolding record_safety_result_for_history
  record_safety_result_for_history-Leads scan = write-Leads _ _

  pub record_agent_decision_for_history-Leads :
      {p : Phase} (decision : AgentDecision)
      → Leads
          (dedupe_key message.metadata)
          p
          (record_agent_decision_for_history x run_id message decision)
          (λ _. p)
  unfolding record_agent_decision_for_history
  record_agent_decision_for_history-Leads decision = write-Leads _ _

  pub record_email_classification_for_history-Leads :
      {p : Phase} (c : ResolvedEmailClassification) (source : String) (rule : Option EmailRule)
      → Leads
          (dedupe_key message.metadata)
          p
          (record_email_classification_for_history x run_id message c source rule)
          (λ _. p)
  unfolding record_email_classification_for_history
  record_email_classification_for_history-Leads c source rule = write-Leads _ _

  pub record_outbound_action_for_history-Leads :
      {p : Phase} (action : OutboundAction)
      → Leads
          (dedupe_key message.metadata)
          p
          (record_outbound_action_for_history x run_id message action)
          (λ _. p)
  unfolding record_outbound_action_for_history
  record_outbound_action_for_history-Leads action = write-Leads _ _

  pub record_outbound_review_for_history-Leads :
      {p : Phase} (status : String) (reason : Text)
      → Leads
          (dedupe_key message.metadata)
          p
          (record_outbound_review_for_history x run_id message status reason)
          (λ _. p)
  unfolding record_outbound_review_for_history
  record_outbound_review_for_history-Leads status reason = write-Leads _ _

  persisted_answer-Leads :
      {p : Phase} (name : Text) (answer : Result StorageError (Unit {0}))
      → Leads
          (dedupe_key message.metadata)
          p
          (persisted_answer x run_id message name answer)
          (λ _. p)
  unfolding persisted_answer
  persisted_answer-Leads name (ok _) = Leads-pure true refl
  persisted_answer-Leads name (err e) =
      Leads-bind (log_store_error-Leads x run_id message name (err e)) (λ _. Leads-pure false refl)

  review_sender-Leads :
      (decision : SafetyDecision)
      → Leads
          (dedupe_key message.metadata)
          working
          (review_sender x run_id message decision)
          (λ _. working)
  unfolding review_sender advance
  review_sender-Leads decision =
      Leads-bind (Leads-call _ _ (λ _. refl)) (λ answer. persisted_answer-Leads _ answer)

  pub record_quarantine_state-Leads :
      (scan : SafetyScanResult) (decision : SafetyDecision)
      → Leads
          (dedupe_key message.metadata)
          working
          (record_quarantine_state x run_id message scan decision)
          (λ _. working)
  unfolding record_quarantine_state advance
  record_quarantine_state-Leads scan decision = Leads-bind (Leads-call _ _ (λ _. refl)) (λ answer.
      Leads-bind (persisted_answer-Leads _ answer) (λ persisted.
        Leads-bind
          (Leads-if decision.add_sender_to_review (review_sender-Leads decision)
            (Leads-pure true refl))
          (λ reviewed. Leads-pure _ refl)))

module _ (x : Services) (mailbox : MailboxConfig) (run_id : Text) (message : InboundMessage) where
  runtime_fields-Leads :
      {p : Phase} (kind : OutboundActionKind) (action : OutboundAction)
      → Leads
          (dedupe_key message.metadata)
          p
          (runtime_fields x mailbox run_id message kind action)
          (λ _. p)
  unfolding runtime_fields
  runtime_fields-Leads reply action = Leads-bind (Leads-draw _) (λ uuid. Leads-pure _ refl)
  runtime_fields-Leads forward action = Leads-pure _ refl
  runtime_fields-Leads noop action = Leads-pure _ refl

  pub action_with_runtime_fields-Leads :
      {p : Phase} (action : OutboundAction)
      → Leads
          (dedupe_key message.metadata)
          p
          (action_with_runtime_fields x mailbox run_id message action)
          (λ _. p)
  unfolding action_with_runtime_fields
  action_with_runtime_fields-Leads action = runtime_fields-Leads action.kind action

  delivery_answer-Leads :
      (action : OutboundAction) (status : String) (answer : Result MailError (Unit {0}))
      → is_final status ≡ true
      → Leads
          (dedupe_key message.metadata)
          (send_phase answer)
          (delivery_answer x mailbox run_id message action status answer)
          (λ _. stopped)
  unfolding delivery_answer status_phase
  delivery_answer-Leads action status (ok _) h =
      Leads-bind (log_message-Leads x run_id message _ _ _ _) (λ _.
        Leads-bind (update_processing_status-Leads x run_id message _ _)
          (λ _. rw h (mark_seen-Leads x run_id message mailbox status)))
  delivery_answer-Leads action status (err e) h =
      Leads-bind (update_processing_status-Leads x run_id message _ _)
        (λ _. log_message-Leads x run_id message _ _ _ _)

  pub send_and_mark_seen-Leads :
      (action : OutboundAction) (status : String)
      → is_final status ≡ true
      → Leads
          (dedupe_key message.metadata)
          working
          (send_and_mark_seen x mailbox run_id message action status)
          (λ _. stopped)
  unfolding send_and_mark_seen deliver advance
  send_and_mark_seen-Leads action status h =
      Leads-bind (record_outbound_action_for_history-Leads x run_id message _) (λ _.
        Leads-bind {Q = send_phase} (Leads-call _ _ (λ _. refl))
          (λ answer. delivery_answer-Leads _ status answer h))

  pub forward_context_limit_message-Leads :
      (reason : Text)
      → Leads
          (dedupe_key message.metadata)
          working
          (forward_context_limit_message x mailbox run_id message reason)
          (λ _. stopped)
  unfolding forward_context_limit_message
  forward_context_limit_message-Leads reason =
      Leads-bind (log_decision-Leads x run_id message _ _) (λ _.
        Leads-bind (record_agent_decision_for_history-Leads x run_id message _) (λ _.
          Leads-bind (action_with_runtime_fields-Leads _)
            (λ action. send_and_mark_seen-Leads action "forwarded" (unfold is_final in refl))))

  reviewed_as-Leads :
      {p : Phase} (level : LogLevel) (status : String) (detail reason : Text)
      → Leads
          (dedupe_key message.metadata)
          p
          (reviewed_as x mailbox run_id message level status detail reason)
          (λ _. p)
  unfolding reviewed_as
  reviewed_as-Leads level status detail reason =
      Leads-bind (log_message-Leads x run_id message _ _ _ _)
        (λ _. record_outbound_review_for_history-Leads x run_id message _ _)

  review_verdict-Leads :
      (action : OutboundAction) (r : OutboundReviewDecision)
      → Leads
          (dedupe_key message.metadata)
          working
          (review_verdict x mailbox run_id message action r)
          (λ _. working)
  unfolding review_verdict
  review_verdict-Leads action r =
      Leads-if r.approved (Leads-bind (reviewed_as-Leads _ _ _ _) (λ _. Leads-pure _ refl))
        (Leads-bind (reviewed_as-Leads _ _ _ _) (λ _. Leads-pure _ refl))

  context_limit_forward-Leads :
      (e : AiError)
      → Leads
          (dedupe_key message.metadata)
          working
          (context_limit_forward x mailbox run_id message e)
          (λ _. working)
  unfolding context_limit_forward
  context_limit_forward-Leads e =
      Leads-bind (reviewed_as-Leads _ _ _ _)
        (λ _. Leads-bind (action_with_runtime_fields-Leads _) (λ action. Leads-pure _ refl))

  review_failed-Leads :
      (e : AiError)
      → Leads
          (dedupe_key message.metadata)
          working
          (review_failed x mailbox run_id message e)
          (λ _. working)
  unfolding review_failed
  review_failed-Leads e = Leads-bind (reviewed_as-Leads _ _ _ _) (λ _. Leads-pure _ refl)

  review_answer-Leads :
      (action : OutboundAction) (answer : Result AiError OutboundReviewDecision)
      → Leads
          (dedupe_key message.metadata)
          working
          (review_answer x mailbox run_id message action answer)
          (λ _. working)
  unfolding review_answer
  review_answer-Leads action (ok r) = review_verdict-Leads action r
  review_answer-Leads action (err e) =
      Leads-if (ai_error_is_context_limit e) (context_limit_forward-Leads e) (review_failed-Leads e)

  pub reviewed_outbound_action-Leads :
      (config : AppConfig) (thread_context : ThreadContext) (decision : AgentDecision)
      → Leads
          (dedupe_key message.metadata)
          working
          (reviewed_outbound_action x mailbox run_id message config thread_context decision)
          (λ _. working)
  unfolding reviewed_outbound_action
  reviewed_outbound_action-Leads config thread_context decision =
      Leads-if config.ai.review.enabled
        (Leads-bind (run_ai_step-Leads x message _ _)
          (λ answer. review_answer-Leads decision.action answer))
        (Leads-pure _ refl)
