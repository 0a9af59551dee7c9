-- ===== src/Worker/Protocol/Messages.antt =====
-- The processing of a message follows the order of the calls.
use ai_memmail.Prelude.{
  Bool, true, false, Option, none, some, ltb, length, ◌≡◌, refl, if◌then◌else◌,
}
use ai_memmail.Prelude.Result.{Result, ok, err}
use ai_memmail.Text.{Text}
use ai_memmail.Config.{AppConfig, MailboxConfig}
use ai_memmail.Mail.{
  dedupe_key, InboundMessage, OutboundAction, OutboundActionKind, reply, forward, noop,
  ThreadContext, has_truncated_body,
}
use ai_memmail.Safety.{SafetyScanResult, SafetyDecision, decide}
use ai_memmail.Ai.{AgentDecision, AiError}
use ai_memmail.Ai.Routing.{human_review_requested}
use ai_memmail.Storage.{StorageError, ThreadHandoff}
use ai_memmail.Worker.Action.{pure}
use ai_memmail.Worker.Services.{Services}
use ai_memmail.Worker.Steps.{ai_error_is_context_limit}
use ai_memmail.Worker.History.{log_safety_scan_result}
use ai_memmail.Worker.Outbound.{outbound_status}
use ai_memmail.Worker.Classify.{ClassificationContext}
use ai_memmail.Worker.Process.{
  max_serialized_prompt_chars, SenderPrecheck, allowed, banned, should_forward_for_human_review,
  precheck_sender, send_reviewed, after_review, review_and_send, do_nothing, carry_out,
  execute_decision, decide_and_execute, classify_and_decide, handoff_answer, with_thread_context,
  context_answer, process_safe, quarantine, scanned, scan_answer, process_claimed, process_checked,
  process_message,
}
use ai_memmail.Worker.Protocol.{idle, working, stopped, is_final, status_phase}
use ai_memmail.Worker.Protocol.Rules.{
  Leads, Leads-pure, Leads-bind, Leads-if, Leads-or_return, if_true,
}
use ai_memmail.Worker.Protocol.Parts.{
  log_message-Leads, update_processing_status-Leads, mark_seen-Leads,
  log_retryable_message_error-Leads, run_ai_step-Leads, claim_before_side_effect-Leads,
}
use ai_memmail.Worker.Protocol.Sending.{
  record_safety_result_for_history-Leads, record_agent_decision_for_history-Leads,
  record_outbound_action_for_history-Leads, record_quarantine_state-Leads,
  action_with_runtime_fields-Leads, send_and_mark_seen-Leads, forward_context_limit_message-Leads,
  reviewed_outbound_action-Leads,
}
use ai_memmail.Worker.Protocol.Threads.{route_active_thread_handoff-Leads}
use ai_memmail.Worker.Protocol.Classifying.{read-Leads, classify_message_for_rules-Leads}
use ai_memmail.Worker.Protocol.Deciding.{decide_message-Leads}

outbound_status-is_final : (kind : OutboundActionKind) → is_final (outbound_status kind) ≡ true
unfolding is_final outbound_status
outbound_status-is_final reply = refl
outbound_status-is_final forward = refl
outbound_status-is_final noop = refl

module _ (x : Services) (config : AppConfig) (mailbox : MailboxConfig) (run_id : Text)
    (message : InboundMessage) where
  send_reviewed-Leads :
      (action : OutboundAction)
      → Leads
          (dedupe_key message.metadata)
          working
          (send_reviewed x config mailbox run_id message action)
          (λ _. stopped)
  unfolding send_reviewed
  send_reviewed-Leads action =
      send_and_mark_seen-Leads x mailbox run_id message action _
        (outbound_status-is_final action.kind)

  after_review-Leads :
      (reviewed : Option OutboundAction)
      → Leads
          (dedupe_key message.metadata)
          working
          (after_review x config mailbox run_id message reviewed)
          (λ _. stopped)
  unfolding after_review status_phase
  after_review-Leads none = update_processing_status-Leads x run_id message _ _
  after_review-Leads (some action) = send_reviewed-Leads action

  review_and_send-Leads :
      (context : ThreadContext) (decision : AgentDecision)
      → Leads
          (dedupe_key message.metadata)
          working
          (review_and_send x config mailbox run_id message context decision)
          (λ _. stopped)
  unfolding review_and_send
  review_and_send-Leads context decision =
      Leads-bind (reviewed_outbound_action-Leads x mailbox run_id message config context decision)
        (λ reviewed. after_review-Leads reviewed)

  do_nothing-Leads :
      (action : OutboundAction)
      → Leads
          (dedupe_key message.metadata)
          working
          (do_nothing x config mailbox run_id message action)
          (λ _. stopped)
  unfolding do_nothing status_phase is_final
  do_nothing-Leads action =
      Leads-bind (record_outbound_action_for_history-Leads x run_id message action) (λ _.
        Leads-bind (update_processing_status-Leads x run_id message _ _)
          (λ _. mark_seen-Leads x run_id message mailbox _))

  carry_out-Leads :
      (context : ThreadContext) (decision : AgentDecision) (kind : OutboundActionKind)
      → Leads
          (dedupe_key message.metadata)
          working
          (carry_out x config mailbox run_id message context decision kind)
          (λ _. stopped)
  unfolding carry_out
  carry_out-Leads context decision noop = do_nothing-Leads decision.action
  carry_out-Leads context decision reply = review_and_send-Leads context decision
  carry_out-Leads context decision forward = review_and_send-Leads context decision

  execute_decision-Leads :
      (context : ThreadContext) (decision : AgentDecision)
      → Leads
          (dedupe_key message.metadata)
          working
          (execute_decision x config mailbox run_id message context decision)
          (λ _. stopped)
  unfolding execute_decision
  execute_decision-Leads context decision =
      Leads-bind (record_agent_decision_for_history-Leads x run_id message decision) (λ _.
        Leads-bind (action_with_runtime_fields-Leads x mailbox run_id message _)
          (λ action. carry_out-Leads context _ action.kind))

  decide_and_execute-Leads :
      (context : ThreadContext) (classified : Option ClassificationContext)
      → Leads
          (dedupe_key message.metadata)
          working
          (decide_and_execute x config mailbox run_id message context classified)
          (λ _. stopped)
  unfolding decide_and_execute
  decide_and_execute-Leads context classified =
      Leads-or_return
        (decide_message-Leads x config mailbox run_id message context
          (human_review_requested message) classified)
        (λ decision. execute_decision-Leads context decision)

  classify_and_decide-Leads :
      (context : ThreadContext)
      → Leads
          (dedupe_key message.metadata)
          working
          (classify_and_decide x config mailbox run_id message context)
          (λ _. stopped)
  unfolding classify_and_decide
  classify_and_decide-Leads context =
      Leads-or_return
        (classify_message_for_rules-Leads x config mailbox run_id message context
          (human_review_requested message))
        (λ classified. decide_and_execute-Leads context classified)

  handoff_answer-Leads :
      (context : ThreadContext) (answer : Result StorageError (Option ThreadHandoff))
      → Leads
          (dedupe_key message.metadata)
          working
          (handoff_answer x config mailbox run_id message context answer)
          (λ _. stopped)
  unfolding handoff_answer
  handoff_answer-Leads context (ok (some handoff)) =
      route_active_thread_handoff-Leads x mailbox run_id message context handoff
  handoff_answer-Leads context (ok none) = classify_and_decide-Leads context
  handoff_answer-Leads context (err e) = log_retryable_message_error-Leads x run_id message _ _

  with_thread_context-Leads :
      (context : ThreadContext)
      → Leads
          (dedupe_key message.metadata)
          working
          (with_thread_context x config mailbox run_id message context)
          (λ _. stopped)
  unfolding with_thread_context
  with_thread_context-Leads context =
      Leads-if (has_truncated_body context)
        (forward_context_limit_message-Leads x mailbox run_id message _)
        (Leads-bind (read-Leads x _) (λ answer. handoff_answer-Leads context answer))

  context_answer-Leads :
      (answer : Result StorageError ThreadContext)
      → Leads
          (dedupe_key message.metadata)
          working
          (context_answer x config mailbox run_id message answer)
          (λ _. stopped)
  unfolding context_answer
  context_answer-Leads (ok context) = with_thread_context-Leads context
  context_answer-Leads (err e) = log_retryable_message_error-Leads x run_id message _ _

  process_safe-Leads :
      Leads
        (dedupe_key message.metadata)
        working
        (process_safe x config mailbox run_id message)
        (λ _. stopped)
  unfolding process_safe
  process_safe-Leads = Leads-bind (read-Leads x _) (λ answer. context_answer-Leads answer)

  quarantine-Leads :
      (result : SafetyScanResult) (decision : SafetyDecision)
      → Leads
          (dedupe_key message.metadata)
          working
          (quarantine x config mailbox run_id message result decision)
          (λ _. stopped)
  unfolding quarantine is_final status_phase
  quarantine-Leads result decision =
      Leads-bind (record_quarantine_state-Leads x run_id message result decision) (λ persisted.
        Leads-if persisted (send_and_mark_seen-Leads x mailbox run_id message _ "quarantined" refl)
          (update_processing_status-Leads x run_id message _ _))

  scanned-Leads :
      (result : SafetyScanResult)
      → Leads
          (dedupe_key message.metadata)
          working
          (scanned x config mailbox run_id message result)
          (λ _. stopped)
  unfolding scanned log_safety_scan_result
  scanned-Leads result = Leads-bind (log_message-Leads x run_id message _ _ _ _) (λ _.
      Leads-bind (record_safety_result_for_history-Leads x run_id message result) (λ _.
        Leads-if (should_forward_for_human_review (decide result))
          (quarantine-Leads result (decide result)) process_safe-Leads))

  scan_answer-Leads :
      (answer : Result AiError SafetyScanResult)
      → Leads
          (dedupe_key message.metadata)
          working
          (scan_answer x config mailbox run_id message answer)
          (λ _. stopped)
  unfolding scan_answer
  scan_answer-Leads (ok result) = scanned-Leads result
  scan_answer-Leads (err e) =
      Leads-if (ai_error_is_context_limit e)
        (forward_context_limit_message-Leads x mailbox run_id message _)
        (log_retryable_message_error-Leads x run_id message _ _)

  process_claimed-Leads :
      Leads
        (dedupe_key message.metadata)
        working
        (process_claimed x config mailbox run_id message)
        (λ _. stopped)
  unfolding process_claimed
  process_claimed-Leads =
      Leads-if (ltb max_serialized_prompt_chars (length message.plain_text))
        (forward_context_limit_message-Leads x mailbox run_id message _)
        (Leads-bind (run_ai_step-Leads x message _ _) (λ answer. scan_answer-Leads answer))

  process_checked-Leads :
      (precheck : SenderPrecheck)
      → Leads
          (dedupe_key message.metadata)
          working
          (process_checked x config mailbox run_id message precheck)
          (λ _. stopped)
  unfolding process_checked is_final
  process_checked-Leads (banned reason) =
      send_and_mark_seen-Leads x mailbox run_id message _ "banned_sender" refl
  process_checked-Leads allowed = process_claimed-Leads

  claimed-Leads :
      (claimed : Bool)
      → Leads
          (dedupe_key message.metadata)
          (if_true working stopped claimed)
          (if claimed
            then process_checked x config mailbox run_id message
                (precheck_sender x config mailbox run_id message)
            else pure tt)
          (λ _. stopped)
  claimed-Leads true = process_checked-Leads _
  claimed-Leads false = Leads-pure tt refl

  pub process_message-Leads :
      Leads
        (dedupe_key message.metadata)
        idle
        (process_message x config mailbox run_id message)
        (λ _. stopped)
  unfolding process_message
  process_message-Leads =
      Leads-bind (claim_before_side_effect-Leads x run_id message mailbox)
        (λ claimed. claimed-Leads claimed)
