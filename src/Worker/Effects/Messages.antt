-- ===== src/Worker/Effects/Messages.antt =====
-- The mails and the requests of the processing of a message, for a predicate of each that every
-- forward satisfies.
use ai_memmail.Prelude.{Bool, true, false, Option, none, some, ltb, length, ◌≡◌, if◌then◌else◌}
use ai_memmail.Prelude.Result.{Result, ok, err}
use ai_memmail.Text.{Text}
use ai_memmail.Config.{AppConfig, MailboxConfig}
use ai_memmail.Mail.{
  InboundMessage, OutboundAction, OutboundActionKind, reply, forward, noop, ThreadContext,
  has_truncated_body,
}
use ai_memmail.Safety.{SafetyScanResult, SafetyDecision, decide}
use ai_memmail.Ai.{AgentDecision, AiError}
use ai_memmail.Ai.Routing.{human_review_requested}
use ai_memmail.Storage.{StorageError, ThreadHandoff}
use ai_memmail.Worker.Action.{pure}
use ai_memmail.Worker.Services.{Services, AiStep, scan, classification, agent, rule}
use ai_memmail.Worker.Steps.{ai_error_is_context_limit}
use ai_memmail.Worker.History.{log_safety_scan_result}
use ai_memmail.Worker.Classify.{ClassificationContext}
use ai_memmail.Worker.Process.{
  max_serialized_prompt_chars, SenderPrecheck, allowed, banned, should_forward_for_human_review,
  precheck_sender, send_reviewed, after_review, review_and_send, do_nothing, carry_out,
  execute_decision, decide_and_execute, classify_and_decide, handoff_answer, with_thread_context,
  context_answer, process_safe, quarantine, scanned, scan_answer, process_claimed, process_checked,
  process_message,
}
use ai_memmail.Mail.Signature.{apply_reply_signature}
use ai_memmail.Worker.Outbound.{safety_forward_action, reviewed_outbound_action}
use ai_memmail.Worker.Effects.{
  Allowed, Makes, Makes-pure, Makes-bind, Makes-if, Makes-or_return, Makes-weaken, Anything, IfSome,
}
use ai_memmail.Worker.Effects.Quiet.{
  log_message-Makes, update_processing_status-Makes, mark_seen-Makes,
  log_retryable_message_error-Makes, run_ai_step-Makes, claim_before_side_effect-Makes,
}
use ai_memmail.Worker.Effects.Sending.{
  record_safety_result_for_history-Makes, record_agent_decision_for_history-Makes,
  record_outbound_action_for_history-Makes, record_quarantine_state-Makes,
  action_with_runtime_fields-Makes, apply_reply_signature-kind, send_and_mark_seen-Makes,
  forward_context_limit_message-Makes,
}
use ai_memmail.Worker.Effects.Threads.{route_active_thread_handoff-Makes}
use ai_memmail.Worker.Effects.Classifying.{read-Makes, any_ok, classify_message_for_rules-Makes}
use ai_memmail.Worker.Effects.Deciding.{decide_message-Makes}

module _ {Mailed : OutboundAction → Type 0} {Asked : AiStep → Type 0} (x : Services)
    (config : AppConfig) (mailbox : MailboxConfig) (run_id : Text) (message : InboundMessage) where
  pub quarantine-Makes :
      (result : SafetyScanResult) (decision : SafetyDecision)
      → Mailed
          (apply_reply_signature mailbox (safety_forward_action mailbox message decision.reason))
      → Makes
          (Allowed Mailed Asked)
          (quarantine x config mailbox run_id message result decision)
          Anything
  unfolding quarantine
  quarantine-Makes result decision h =
      Makes-bind (record_quarantine_state-Makes x run_id message result decision) (λ persisted _.
        Makes-if persisted (send_and_mark_seen-Makes x mailbox run_id message _ "quarantined" h)
          (update_processing_status-Makes x run_id message _ _))

-- What the review lets through, from a decision that satisfies `D`, satisfies `Mailed` once signed.
module _ {Mailed : OutboundAction → Type 0} {Asked : AiStep → Type 0}
    {D : OutboundActionKind → Type 0} (x : Services) (config : AppConfig) (mailbox : MailboxConfig)
    (run_id : Text) (message : InboundMessage)
    (forwards : (a : OutboundAction) → a.kind ≡ forward → Mailed a) (decisions : D forward)
    (asks : Asked scan × Asked classification)
    (free : human_review_requested message ≡ false
      → Asked agent × Asked rule × ((k : OutboundActionKind) → D k))
    (reviewed : (context : ThreadContext) (decision : AgentDecision)
      → D decision.action.kind
      → Makes
          (Allowed Mailed Asked)
          (reviewed_outbound_action x mailbox run_id message config context decision)
          (IfSome (λ action. Mailed (apply_reply_signature mailbox action)))) where
  safety_forwarded :
      (reason : Text)
      → Mailed (apply_reply_signature mailbox (safety_forward_action mailbox message reason))
  unfolding safety_forward_action
  safety_forwarded reason =
      forwards _ (apply_reply_signature-kind mailbox (safety_forward_action mailbox message reason))

  send_reviewed-Makes :
      (action : OutboundAction)
      → Mailed (apply_reply_signature mailbox action)
      → Makes (Allowed Mailed Asked) (send_reviewed x config mailbox run_id message action) Anything
  unfolding send_reviewed
  send_reviewed-Makes action h = send_and_mark_seen-Makes x mailbox run_id message action _ h

  after_review-Makes :
      (action : Option OutboundAction)
      → IfSome (λ a. Mailed (apply_reply_signature mailbox a)) action
      → Makes (Allowed Mailed Asked) (after_review x config mailbox run_id message action) Anything
  unfolding after_review
  after_review-Makes none h = update_processing_status-Makes x run_id message _ _
  after_review-Makes (some action) h = send_reviewed-Makes action h

  review_and_send-Makes :
      (context : ThreadContext) (decision : AgentDecision)
      → D decision.action.kind
      → Makes
          (Allowed Mailed Asked)
          (review_and_send x config mailbox run_id message context decision)
          Anything
  unfolding review_and_send
  review_and_send-Makes context decision h =
      Makes-bind (reviewed context decision h) (λ action k. after_review-Makes action k)

  do_nothing-Makes :
      (action : OutboundAction)
      → Makes (Allowed Mailed Asked) (do_nothing x config mailbox run_id message action) Anything
  unfolding do_nothing
  do_nothing-Makes action =
      Makes-bind (record_outbound_action_for_history-Makes x run_id message action) (λ _ _.
        Makes-bind (update_processing_status-Makes x run_id message _ _)
          (λ _ _. mark_seen-Makes x run_id message mailbox _))

  carry_out-Makes :
      (context : ThreadContext) (decision : AgentDecision) (kind : OutboundActionKind)
      → D decision.action.kind
      → Makes
          (Allowed Mailed Asked)
          (carry_out x config mailbox run_id message context decision kind)
          Anything
  unfolding carry_out
  carry_out-Makes context decision noop h = do_nothing-Makes decision.action
  carry_out-Makes context decision reply h = review_and_send-Makes context decision h
  carry_out-Makes context decision forward h = review_and_send-Makes context decision h

  execute_decision-Makes :
      (context : ThreadContext) (decision : AgentDecision)
      → D decision.action.kind
      → Makes
          (Allowed Mailed Asked)
          (execute_decision x config mailbox run_id message context decision)
          Anything
  unfolding execute_decision
  execute_decision-Makes context decision h =
      Makes-bind (record_agent_decision_for_history-Makes x run_id message decision) (λ _ _.
        Makes-bind (action_with_runtime_fields-Makes x mailbox run_id message _)
          (λ action same. carry_out-Makes context _ action.kind (rw same.0 h)))

  decide_and_execute-Makes :
      (context : ThreadContext) (classified : Option ClassificationContext)
      → Makes
          (Allowed Mailed Asked)
          (decide_and_execute x config mailbox run_id message context classified)
          Anything
  unfolding decide_and_execute
  decide_and_execute-Makes context classified =
      Makes-or_return
        (decide_message-Makes {D = λ d. D d.action.kind} x config mailbox run_id message context
          forwards (λ d h. rw h decisions) (human_review_requested message) classified
          (λ h. let f = free h in (f.0, f.1, λ d. f.2 d.action.kind)))
        (λ decision h. execute_decision-Makes context decision h)

  classify_and_decide-Makes :
      (context : ThreadContext)
      → Makes
          (Allowed Mailed Asked)
          (classify_and_decide x config mailbox run_id message context)
          Anything
  unfolding classify_and_decide
  classify_and_decide-Makes context =
      Makes-or_return
        (Makes-weaken {S = IfSome Anything} (elim [ none ↦ λ _. tt | some a ↦ λ _. tt ])
          (classify_message_for_rules-Makes x config mailbox run_id message context
            (human_review_requested message) forwards asks.1))
        (λ classified h. decide_and_execute-Makes context classified)

  handoff_answer-Makes :
      (context : ThreadContext) (answer : Result StorageError (Option ThreadHandoff))
      → Makes
          (Allowed Mailed Asked)
          (handoff_answer x config mailbox run_id message context answer)
          Anything
  unfolding handoff_answer
  handoff_answer-Makes context (ok (some handoff)) =
      route_active_thread_handoff-Makes x mailbox run_id message forwards context handoff
  handoff_answer-Makes context (ok none) = classify_and_decide-Makes context
  handoff_answer-Makes context (err e) = log_retryable_message_error-Makes x run_id message _ _

  with_thread_context-Makes :
      (context : ThreadContext)
      → Makes
          (Allowed Mailed Asked)
          (with_thread_context x config mailbox run_id message context)
          Anything
  unfolding with_thread_context
  with_thread_context-Makes context =
      Makes-if (has_truncated_body context)
        (forward_context_limit_message-Makes x mailbox run_id message _ forwards)
        (Makes-bind (read-Makes x _) (λ answer _. handoff_answer-Makes context answer))

  context_answer-Makes :
      (answer : Result StorageError ThreadContext)
      → Makes
          (Allowed Mailed Asked)
          (context_answer x config mailbox run_id message answer)
          Anything
  unfolding context_answer
  context_answer-Makes (ok context) = with_thread_context-Makes context
  context_answer-Makes (err e) = log_retryable_message_error-Makes x run_id message _ _

  process_safe-Makes :
      Makes (Allowed Mailed Asked) (process_safe x config mailbox run_id message) Anything
  unfolding process_safe
  process_safe-Makes = Makes-bind (read-Makes x _) (λ answer _. context_answer-Makes answer)

  scanned-Makes :
      (result : SafetyScanResult)
      → Makes (Allowed Mailed Asked) (scanned x config mailbox run_id message result) Anything
  unfolding scanned log_safety_scan_result
  scanned-Makes result = Makes-bind (log_message-Makes x run_id message _ _ _ _) (λ _ _.
      Makes-bind (record_safety_result_for_history-Makes x run_id message result) (λ _ _.
        Makes-if (should_forward_for_human_review (decide result))
          (quarantine-Makes x config mailbox run_id message result (decide result)
            (safety_forwarded (decide result).reason))
          process_safe-Makes))

  scan_answer-Makes :
      (answer : Result AiError SafetyScanResult)
      → Makes (Allowed Mailed Asked) (scan_answer x config mailbox run_id message answer) Anything
  unfolding scan_answer
  scan_answer-Makes (ok result) = scanned-Makes result
  scan_answer-Makes (err e) =
      Makes-if (ai_error_is_context_limit e)
        (forward_context_limit_message-Makes x mailbox run_id message _ forwards)
        (log_retryable_message_error-Makes x run_id message _ _)

  process_claimed-Makes :
      Makes (Allowed Mailed Asked) (process_claimed x config mailbox run_id message) Anything
  unfolding process_claimed
  process_claimed-Makes =
      Makes-if (ltb max_serialized_prompt_chars (length message.plain_text))
        (forward_context_limit_message-Makes x mailbox run_id message _ forwards)
        (Makes-bind (run_ai_step-Makes x message {R = Anything} _ _ asks.0 (λ w. any_ok _))
          (λ answer _. scan_answer-Makes answer))

  process_checked-Makes :
      (precheck : SenderPrecheck)
      → Makes
          (Allowed Mailed Asked)
          (process_checked x config mailbox run_id message precheck)
          Anything
  unfolding process_checked
  process_checked-Makes (banned reason) =
      send_and_mark_seen-Makes x mailbox run_id message _ "banned_sender" (safety_forwarded reason)
  process_checked-Makes allowed = process_claimed-Makes

  claimed-Makes :
      (claimed : Bool)
      → Makes
          (Allowed Mailed Asked)
          (if claimed
            then process_checked x config mailbox run_id message
                (precheck_sender x config mailbox run_id message)
            else pure tt)
          Anything
  claimed-Makes true = process_checked-Makes _
  claimed-Makes false = Makes-pure tt tt

  pub process_message-Makes :
      Makes (Allowed Mailed Asked) (process_message x config mailbox run_id message) Anything
  unfolding process_message
  process_message-Makes =
      Makes-bind (claim_before_side_effect-Makes x run_id message mailbox)
        (λ claimed _. claimed-Makes claimed)
