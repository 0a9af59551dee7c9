-- ===== src/Worker/Outbound.antt =====
-- worker/outbound.rs, with the actions that worker/processing.rs builds, and
-- `forward_context_limit_message` of worker/thread_context.rs.
use ai_memmail.Prelude.{String, Option, none, some, [], ◌++◌, if◌then◌else◌}
use ai_memmail.Prelude.Result.{Result, ok, err}
use ai_memmail.Text.{Text, text, trim, join}
use ai_memmail.Config.{AppConfig, MailboxConfig}
use ai_memmail.Mail.{
  InboundMessage, OutboundAction, OutboundActionKind, reply, forward, noop, MailError,
  ThreadContext, mail_error_text, reply_references,
}
use ai_memmail.Mail.Forwarding.{forward_body, outbound_message_id}
use ai_memmail.Mail.Signature.{apply_reply_signature}
use ai_memmail.Safety.{suspicious_forward_subject, suspicious_forward_intro}
use ai_memmail.Ai.{AgentDecision, OutboundReviewDecision, AiError, ai_error_text}
use ai_memmail.Ai.Routing.{forward_decision, forward_recipients}
use ai_memmail.Storage.{status_send_failed}
use ai_memmail.Worker.Action.{pure, call, draw, ◌>>=◌, ◌>>◌}
use ai_memmail.Worker.Services.{Services, LogLevel, info, warn, error, review, sent}
use ai_memmail.Worker.Events.{M, log_message, update_processing_status, mark_seen}
use ai_memmail.Worker.Steps.{run_ai_step, ai_error_is_context_limit}
use ai_memmail.Worker.History.{
  log_decision, record_agent_decision_for_history, record_outbound_action_for_history,
  record_outbound_review_for_history,
}

unfoldable pub safety_forward_action : MailboxConfig → InboundMessage → Text → OutboundAction
safety_forward_action mailbox message reason = record {
  kind = forward;
  recipients = mailbox.safety_forward_to;
  subject = suspicious_forward_subject message.metadata.subject;
  body = forward_body (suspicious_forward_intro reason message.metadata.from_addr) message;
  html_body = none;
  reason = reason;
  reply_to = none;
  message_id = none;
  in_reply_to = none;
  references = [];
}

-- `{:?}` of a kind.
abbrev kind_debug : OutboundActionKind → Text
kind_debug reply = text "Reply"
kind_debug forward = text "Forward"
kind_debug noop = text "Noop"

unfoldable pub outbound_review_intro :
    InboundMessage → OutboundAction → OutboundReviewDecision → Text
outbound_review_intro message proposed r =
    text "ai-memmail outbound review rejected a proposed "
    ++ (kind_debug proposed.kind
        ++ (text " for message from "
            ++ (message.metadata.from_addr
                ++ (text ".\n\nReason: "
                    ++ (r.reason
                        ++ (text "\n\nProposed recipients: "
                            ++ (join (text ", ") proposed.recipients
                                ++ (text "\nProposed subject: "
                                    ++ (proposed.subject
                                        ++ (text "\nProposed reason: "
                                            ++ (proposed.reason
                                                ++ text
                                                    "\n\nThe original message is forwarded below for human review.")))))))))))

unfoldable pub outbound_review_forward_action :
    MailboxConfig → InboundMessage → OutboundAction → OutboundReviewDecision → OutboundAction
outbound_review_forward_action mailbox message proposed r = record {
  kind = forward;
  recipients = forward_recipients mailbox;
  subject = text "Fwd: " ++ message.metadata.subject;
  body = forward_body (outbound_review_intro message proposed r) message;
  html_body = none;
  reason = text "outbound review rejected: " ++ r.reason;
  reply_to = none;
  message_id = none;
  in_reply_to = none;
  references = [];
}

unfoldable pub outbound_status : OutboundActionKind → String
outbound_status reply = "replied"
outbound_status forward = "forwarded"
outbound_status noop = "noop"

module _ (x : Services) (mailbox : MailboxConfig) (run_id : Text) (message : InboundMessage) where
  -- The fields that the program, and not the model, decides.
  unfoldable pub runtime_fields : OutboundActionKind → OutboundAction → M x OutboundAction
  runtime_fields forward action = pure (record action {
    body = forward_body (trim action.body) message;
    message_id = none;
    in_reply_to = none;
    references = [];
  })
  runtime_fields reply action = do
    uuid ← draw x.new_uuid
    pure (record action {
      message_id = some (outbound_message_id mailbox uuid);
      in_reply_to = message.metadata.message_id;
      references = reply_references message.metadata;
    })
  runtime_fields noop action =
      pure (record action { message_id = none; in_reply_to = none; references = [] })

  unfoldable pub action_with_runtime_fields : OutboundAction → M x OutboundAction
  action_with_runtime_fields action = runtime_fields action.kind action

  unfoldable pub delivery_answer :
      OutboundAction → String → Result MailError (Unit {0}) → M x (Unit {0})
  delivery_answer action status (ok _) = do
    log_message x run_id message info (text "smtp_send") (text status) (some action.reason)
    update_processing_status x run_id message status (some action.kind)
    mark_seen x run_id message mailbox status
  delivery_answer action status (err e) = do
    update_processing_status x run_id message status_send_failed (some action.kind)
    log_message x run_id message error (text "smtp_send") (text "failed") (some (mail_error_text e))

  unfoldable pub deliver : OutboundAction → String → M x (Unit {0})
  deliver action status = do
    record_outbound_action_for_history x run_id message action
    answer ← call (sent mailbox.smtp action) (x.send mailbox.smtp action)
    delivery_answer action status answer

  unfoldable pub send_and_mark_seen : OutboundAction → String → M x (Unit {0})
  send_and_mark_seen action status = deliver (apply_reply_signature mailbox action) status

  unfoldable pub forward_context_limit_message : Text → M x (Unit {0})
  forward_context_limit_message reason = do
    let decision = forward_decision mailbox message reason
    log_decision x run_id message decision (text "context_limit")
    record_agent_decision_for_history x run_id message decision
    action ← action_with_runtime_fields decision.action
    send_and_mark_seen action "forwarded"

  -- An answer of the review is logged and stored under the status that it gives.
  unfoldable pub reviewed_as : LogLevel → String → Text → Text → M x (Unit {0})
  reviewed_as level status detail reason = do
    log_message x run_id message level (text "outbound_review") (text status) (some detail)
    record_outbound_review_for_history x run_id message status reason

  unfoldable pub context_limit_forward : AiError → M x (Option OutboundAction)
  context_limit_forward e = do
    reviewed_as warn "context_limit_forward" (ai_error_text e)
        (text "AI input exceeded the configured context limit")
    let decision =
        forward_decision mailbox message (text "AI input exceeded the configured context limit")
    action ← action_with_runtime_fields decision.action
    pure (some action)

  unfoldable pub review_failed : AiError → M x (Option OutboundAction)
  review_failed e = do reviewed_as error "failed" (ai_error_text e) (ai_error_text e); pure none

  unfoldable pub review_verdict :
      OutboundAction → OutboundReviewDecision → M x (Option OutboundAction)
  review_verdict action r =
      if r.approved
      then (do reviewed_as info "approved" r.reason r.reason; pure (some action))
      else (do
        reviewed_as warn "rejected" r.reason r.reason
        pure (some (outbound_review_forward_action mailbox message action r)))

  unfoldable pub review_answer :
      OutboundAction → Result AiError OutboundReviewDecision → M x (Option OutboundAction)
  review_answer action (ok r) = review_verdict action r
  review_answer action (err e) =
      if ai_error_is_context_limit e then context_limit_forward e else review_failed e

  unfoldable pub reviewed_outbound_action :
      AppConfig → ThreadContext → AgentDecision → M x (Option OutboundAction)
  reviewed_outbound_action config thread_context decision =
      if config.ai.review.enabled
      then (do
        answer ←
            run_ai_step x message review
              (x.outbound_review config mailbox message thread_context decision)
        review_answer decision.action answer)
      else pure (some decision.action)
