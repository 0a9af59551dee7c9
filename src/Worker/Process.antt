-- ===== src/Worker/Process.antt =====
-- worker/process.rs: `process_message`, from the claim to the mark.
use ai_memmail.Prelude.{ℕ, Bool, true, false, Option, none, some, ltb, length, if◌then◌else◌}
use ai_memmail.Prelude.Result.{Result, ok, err}
use ai_memmail.Text.{Text, text}
use ai_memmail.Config.{AppConfig, MailboxConfig}
use ai_memmail.Mail.{
  InboundMessage, OutboundAction, OutboundActionKind, reply, forward, noop, ThreadContext,
  has_truncated_body,
}
use ai_memmail.Safety.{
  SafetyScanResult, SafetyDecision, SafetyDisposition, continue, quarantine_and_forward, decide,
}
use ai_memmail.Safety.Senders.{sender_is_banned}
use ai_memmail.Ai.{AgentDecision, AiError, ai_error_text}
use ai_memmail.Ai.Routing.{human_review_requested}
use ai_memmail.Storage.{StorageError, ThreadHandoff, status_retryable_failed}
use ai_memmail.Worker.Action.{pure, call, ◌>>=◌, ◌>>◌, or_return}
use ai_memmail.Worker.Services.{Services, scan, read}
use ai_memmail.Worker.Events.{
  M, claim_before_side_effect, update_processing_status, mark_seen, log_retryable_message_error,
}
use ai_memmail.Worker.Steps.{run_ai_step, ai_error_is_context_limit}
use ai_memmail.Worker.History.{
  log_safety_scan_result, record_safety_result_for_history, record_agent_decision_for_history,
  record_outbound_action_for_history, record_quarantine_state,
}
use ai_memmail.Worker.Outbound.{
  safety_forward_action, action_with_runtime_fields, send_and_mark_seen,
  forward_context_limit_message, reviewed_outbound_action, outbound_status,
}
use ai_memmail.Worker.Handoff.{route_active_thread_handoff}
use ai_memmail.Worker.Classify.{
  ClassificationContext, context_limit_reason, classify_message_for_rules,
}
use ai_memmail.Worker.Decide.{decide_message}

abbrev pub max_serialized_prompt_chars : ℕ
max_serialized_prompt_chars = 1000000

pub data SenderPrecheck : Type 0 where
  allowed : SenderPrecheck
  banned : Text → SenderPrecheck

abbrev is_quarantine : SafetyDisposition → Bool
is_quarantine continue = false
is_quarantine quarantine_and_forward = true

unfoldable pub should_forward_for_human_review : SafetyDecision → Bool
should_forward_for_human_review decision = is_quarantine decision.disposition

module _ (x : Services) (config : AppConfig) (mailbox : MailboxConfig) (run_id : Text)
    (message : InboundMessage) where
  unfoldable pub precheck_sender : SenderPrecheck
  precheck_sender =
      if sender_is_banned x.parser message.metadata.from_addr config.banned_senders
      then banned (text "sender is on the banned sender list")
      else allowed

  unfoldable pub send_reviewed : OutboundAction → M x (Unit {0})
  send_reviewed action =
      send_and_mark_seen x mailbox run_id message action (outbound_status action.kind)

  unfoldable pub after_review : Option OutboundAction → M x (Unit {0})
  after_review none = update_processing_status x run_id message status_retryable_failed none
  after_review (some action) = send_reviewed action

  unfoldable pub review_and_send : ThreadContext → AgentDecision → M x (Unit {0})
  review_and_send thread_context decision = do
    reviewed ← reviewed_outbound_action x mailbox run_id message config thread_context decision
    after_review reviewed

  unfoldable pub do_nothing : OutboundAction → M x (Unit {0})
  do_nothing action = do
    record_outbound_action_for_history x run_id message action
    update_processing_status x run_id message "noop" (some noop)
    mark_seen x run_id message mailbox "noop"

  unfoldable pub carry_out : ThreadContext → AgentDecision → OutboundActionKind → M x (Unit {0})
  carry_out thread_context decision noop = do_nothing decision.action
  carry_out thread_context decision reply = review_and_send thread_context decision
  carry_out thread_context decision forward = review_and_send thread_context decision

  unfoldable pub execute_decision : ThreadContext → AgentDecision → M x (Unit {0})
  execute_decision thread_context decision = do
    record_agent_decision_for_history x run_id message decision
    action ← action_with_runtime_fields x mailbox run_id message decision.action
    carry_out thread_context (record decision { action = action }) action.kind

  unfoldable pub decide_and_execute : ThreadContext → Option ClassificationContext → M x (Unit {0})
  decide_and_execute thread_context context =
      or_return
        (decide_message x config mailbox run_id message thread_context
          (human_review_requested message) context)
        (execute_decision thread_context)

  unfoldable pub classify_and_decide : ThreadContext → M x (Unit {0})
  classify_and_decide thread_context =
      or_return
        (classify_message_for_rules x config mailbox run_id message thread_context
          (human_review_requested message))
        (decide_and_execute thread_context)

  unfoldable pub handoff_answer :
      ThreadContext → Result StorageError (Option ThreadHandoff) → M x (Unit {0})
  handoff_answer thread_context (ok (some handoff)) =
      route_active_thread_handoff x mailbox run_id message thread_context handoff
  handoff_answer thread_context (ok none) = classify_and_decide thread_context
  handoff_answer thread_context (err e) =
      log_retryable_message_error x run_id message (text "thread_handoff_lookup") e.message

  unfoldable pub with_thread_context : ThreadContext → M x (Unit {0})
  with_thread_context thread_context =
      if has_truncated_body thread_context
      then forward_context_limit_message x mailbox run_id message
          (text "stored thread history was truncated")
      else (do
        answer ← call (λ _. read) (x.active_thread_handoff mailbox.id thread_context.thread_id)
        handoff_answer thread_context answer)

  unfoldable pub context_answer : Result StorageError ThreadContext → M x (Unit {0})
  context_answer (ok thread_context) = with_thread_context thread_context
  context_answer (err e) =
      log_retryable_message_error x run_id message (text "thread_context") e.message

  unfoldable pub process_safe : M x (Unit {0})
  process_safe = do
    answer ← call (λ _. read) (x.load_thread_context mailbox message)
    context_answer answer

  unfoldable pub quarantine : SafetyScanResult → SafetyDecision → M x (Unit {0})
  quarantine result decision = do
    persisted ← record_quarantine_state x run_id message result decision
    if persisted
        then send_and_mark_seen x mailbox run_id message
            (safety_forward_action mailbox message decision.reason) "quarantined"
        else update_processing_status x run_id message status_retryable_failed none

  unfoldable pub scanned : SafetyScanResult → M x (Unit {0})
  scanned result = do
    log_safety_scan_result x run_id message result
    record_safety_result_for_history x run_id message result
    if should_forward_for_human_review (decide result)
        then quarantine result (decide result)
        else process_safe

  unfoldable pub scan_answer : Result AiError SafetyScanResult → M x (Unit {0})
  scan_answer (ok result) = scanned result
  scan_answer (err e) =
      if ai_error_is_context_limit e
      then forward_context_limit_message x mailbox run_id message context_limit_reason
      else log_retryable_message_error x run_id message (text "safety_scan") (ai_error_text e)

  unfoldable pub process_claimed : M x (Unit {0})
  process_claimed =
      if ltb max_serialized_prompt_chars (length message.plain_text)
      then forward_context_limit_message x mailbox run_id message
          (text "current message exceeded the configured context limit")
      else (do
        answer ← run_ai_step x message scan (x.safety_scan config mailbox message)
        scan_answer answer)

  unfoldable pub process_checked : SenderPrecheck → M x (Unit {0})
  process_checked (banned reason) =
      send_and_mark_seen x mailbox run_id message (safety_forward_action mailbox message reason)
        "banned_sender"
  process_checked allowed = process_claimed

  unfoldable pub process_message : M x (Unit {0})
  process_message = do
    claimed ← claim_before_side_effect x run_id message mailbox
    if claimed then process_checked precheck_sender else pure tt
