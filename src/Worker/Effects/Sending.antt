-- ===== src/Worker/Effects/Sending.antt =====
-- Storing history makes no request and sends no mail; sending and reviewing make those they are to.
use ai_memmail.Prelude.{String, true, false, Option, ◌≡◌, refl, ◌∙◌, arith}
use ai_memmail.Prelude.Result.{Result, ok, err}
use ai_memmail.Text.{Text}
use ai_memmail.Config.{MailboxConfig}
use ai_memmail.Mail.{
  InboundMessage, OutboundAction, OutboundActionKind, reply, forward, noop, MailError,
}
use ai_memmail.Mail.Signature.{apply_reply_signature}
use ai_memmail.Safety.{SafetyScanResult, SafetyDecision}
use ai_memmail.Classification.{ResolvedEmailClassification, EmailRule}
use ai_memmail.Ai.{AgentDecision}
use ai_memmail.Storage.{StorageError}
use ai_memmail.Ai.Routing.{forward_decision}
use ai_memmail.Worker.Services.{Services, AiStep, Operation}
use ai_memmail.Worker.History.{
  write, log_decision, record_safety_result_for_history, record_agent_decision_for_history,
  record_email_classification_for_history, record_outbound_action_for_history,
  record_outbound_review_for_history, persisted_answer, review_sender, record_quarantine_state,
}
use ai_memmail.Worker.Outbound.{
  runtime_fields, action_with_runtime_fields, delivery_answer, deliver, send_and_mark_seen,
  forward_context_limit_message,
}
use ai_memmail.Worker.Effects.{
  Allowed, Makes, Makes-pure, Makes-draw, Makes-call, Makes-bind, Makes-if, Anything,
}
use ai_memmail.Worker.Effects.Quiet.{
  log_message-Makes, log_store_error-Makes, update_processing_status-Makes, mark_seen-Makes,
}

-- Two actions of the same kind to the same recipients.
abbrev pub SameTarget : OutboundAction → OutboundAction → Type 0
SameTarget a b = (b.kind ≡ a.kind) × (b.recipients ≡ a.recipients)

pub apply_reply_signature-kind :
    (mailbox : MailboxConfig) (action : OutboundAction)
    → (apply_reply_signature mailbox action).kind ≡ action.kind
unfolding apply_reply_signature
apply_reply_signature-kind mailbox action = ground arith

module _ {Mailed : OutboundAction → Type 0} {Asked : AiStep → Type 0} (x : Services) (run_id : Text)
    (message : InboundMessage) where
  write-Makes :
      (name : Text) (operation : Operation x.World StorageError (Unit {0}))
      → Makes (Allowed Mailed Asked) (write x run_id message name operation) Anything
  unfolding write
  write-Makes name operation =
      Makes-bind (Makes-call _ _ (λ _. tt))
        (λ answer _. log_store_error-Makes x run_id message _ answer)

  pub log_decision-Makes :
      (decision : AgentDecision) (name : Text)
      → Makes (Allowed Mailed Asked) (log_decision x run_id message decision name) Anything
  unfolding log_decision
  log_decision-Makes decision name = log_message-Makes x run_id message _ _ _ _

  pub record_safety_result_for_history-Makes :
      (scan : SafetyScanResult)
      → Makes
          (Allowed Mailed Asked)
          (record_safety_result_for_history x run_id message scan)
          Anything
  unfolding record_safety_result_for_history
  record_safety_result_for_history-Makes scan = write-Makes _ _

  pub record_agent_decision_for_history-Makes :
      (decision : AgentDecision)
      → Makes
          (Allowed Mailed Asked)
          (record_agent_decision_for_history x run_id message decision)
          Anything
  unfolding record_agent_decision_for_history
  record_agent_decision_for_history-Makes decision = write-Makes _ _

  pub record_email_classification_for_history-Makes :
      (c : ResolvedEmailClassification) (source : String) (rule : Option EmailRule)
      → Makes
          (Allowed Mailed Asked)
          (record_email_classification_for_history x run_id message c source rule)
          Anything
  unfolding record_email_classification_for_history
  record_email_classification_for_history-Makes c source rule = write-Makes _ _

  pub record_outbound_action_for_history-Makes :
      (action : OutboundAction)
      → Makes
          (Allowed Mailed Asked)
          (record_outbound_action_for_history x run_id message action)
          Anything
  unfolding record_outbound_action_for_history
  record_outbound_action_for_history-Makes action = write-Makes _ _

  pub record_outbound_review_for_history-Makes :
      (status : String) (reason : Text)
      → Makes
          (Allowed Mailed Asked)
          (record_outbound_review_for_history x run_id message status reason)
          Anything
  unfolding record_outbound_review_for_history
  record_outbound_review_for_history-Makes status reason = write-Makes _ _

  persisted_answer-Makes :
      (name : Text) (answer : Result StorageError (Unit {0}))
      → Makes (Allowed Mailed Asked) (persisted_answer x run_id message name answer) Anything
  unfolding persisted_answer
  persisted_answer-Makes name (ok _) = Makes-pure true tt
  persisted_answer-Makes name (err e) =
      Makes-bind (log_store_error-Makes x run_id message name (err e)) (λ _ _. Makes-pure false tt)

  review_sender-Makes :
      (decision : SafetyDecision)
      → Makes (Allowed Mailed Asked) (review_sender x run_id message decision) Anything
  unfolding review_sender
  review_sender-Makes decision =
      Makes-bind (Makes-call _ _ (λ _. tt)) (λ answer _. persisted_answer-Makes _ answer)

  pub record_quarantine_state-Makes :
      (scan : SafetyScanResult) (decision : SafetyDecision)
      → Makes
          (Allowed Mailed Asked)
          (record_quarantine_state x run_id message scan decision)
          Anything
  unfolding record_quarantine_state
  record_quarantine_state-Makes scan decision = Makes-bind (Makes-call _ _ (λ _. tt)) (λ answer _.
      Makes-bind (persisted_answer-Makes _ answer) (λ persisted _.
        Makes-bind
          (Makes-if decision.add_sender_to_review (review_sender-Makes decision)
            (Makes-pure true tt))
          (λ reviewed _. Makes-pure _ tt)))

module _ {Mailed : OutboundAction → Type 0} {Asked : AiStep → Type 0} (x : Services)
    (mailbox : MailboxConfig) (run_id : Text) (message : InboundMessage) where
  -- What the program sets in an action leaves its kind and its recipients as they are.
  runtime_fields-Makes :
      (kind : OutboundActionKind) (action : OutboundAction)
      → Makes
          (Allowed Mailed Asked)
          (runtime_fields x mailbox run_id message kind action)
          (SameTarget action)
  unfolding runtime_fields
  runtime_fields-Makes reply action =
      Makes-bind (Makes-draw _) (λ uuid _. Makes-pure _ (refl, refl))
  runtime_fields-Makes forward action = Makes-pure _ (refl, refl)
  runtime_fields-Makes noop action = Makes-pure _ (refl, refl)

  pub action_with_runtime_fields-Makes :
      (action : OutboundAction)
      → Makes
          (Allowed Mailed Asked)
          (action_with_runtime_fields x mailbox run_id message action)
          (SameTarget action)
  unfolding action_with_runtime_fields
  action_with_runtime_fields-Makes action = runtime_fields-Makes action.kind action

  delivery_answer-Makes :
      (action : OutboundAction) (status : String) (answer : Result MailError (Unit {0}))
      → Makes
          (Allowed Mailed Asked)
          (delivery_answer x mailbox run_id message action status answer)
          Anything
  unfolding delivery_answer
  delivery_answer-Makes action status (ok _) =
      Makes-bind (log_message-Makes x run_id message _ _ _ _) (λ _ _.
        Makes-bind (update_processing_status-Makes x run_id message _ _)
          (λ _ _. mark_seen-Makes x run_id message mailbox status))
  delivery_answer-Makes action status (err e) =
      Makes-bind (update_processing_status-Makes x run_id message _ _)
        (λ _ _. log_message-Makes x run_id message _ _ _ _)

  pub send_and_mark_seen-Makes :
      (action : OutboundAction) (status : String)
      → Mailed (apply_reply_signature mailbox action)
      → Makes
          (Allowed Mailed Asked)
          (send_and_mark_seen x mailbox run_id message action status)
          Anything
  unfolding send_and_mark_seen deliver
  send_and_mark_seen-Makes action status h =
      Makes-bind (record_outbound_action_for_history-Makes x run_id message _) (λ _ _.
        Makes-bind (Makes-call _ _ (λ _. h)) (λ answer _. delivery_answer-Makes _ status answer))

  -- What is sent when a message is too long for the model is a forward.
  pub forward_context_limit_message-Makes :
      (reason : Text)
      → ((a : OutboundAction) → a.kind ≡ forward → Mailed a)
      → Makes
          (Allowed Mailed Asked)
          (forward_context_limit_message x mailbox run_id message reason)
          Anything
  unfolding forward_context_limit_message forward_decision
  forward_context_limit_message-Makes reason forwards =
      Makes-bind (log_decision-Makes x run_id message _ _) (λ _ _.
        Makes-bind (record_agent_decision_for_history-Makes x run_id message _) (λ _ _.
          Makes-bind (action_with_runtime_fields-Makes _) (λ action same.
            send_and_mark_seen-Makes action "forwarded"
              (forwards _ (apply_reply_signature-kind mailbox action ∙ same.0)))))
