-- ===== src/Worker/Handoff.antt =====
-- worker/handoff.rs: a message of a thread that was handed off to a personal inbox.
use ai_memmail.Prelude.Int.{ℤ}
use ai_memmail.Prelude.{String, Option, none, some, List, [], ◌∷◌, ◌++◌, ltb, length, if◌then◌else◌}
use ai_memmail.Prelude.Result.{Result, ok, err}
use ai_memmail.Text.{Text, text, eq_ignore_ascii_case}
use ai_memmail.Config.{MailboxConfig}
use ai_memmail.Mail.{
  InboundMessage, OutboundAction, forward, MailError, build, mail_error_text, MessageDirection,
  inbound, outbound, ThreadMessage, ThreadContext, with_reference,
}
use ai_memmail.Mail.Parser.{reply_recipient}
use ai_memmail.Mail.Forwarding.{thread_handoff_body, outbound_message_id}
use ai_memmail.Storage.{
  ThreadHandoffDelivery, StorageError, ThreadHandoff, NewThreadHandoffDelivery, status_handed_off,
  status_send_failed, inbound_body_storage_max_chars,
}
use ai_memmail.Worker.Action.{call, draw, ◌>>=◌, ◌>>◌}
use ai_memmail.Worker.Services.{
  Services, info, warn, error, sent, delivery_begun, delivery_finished,
}
use ai_memmail.Worker.Events.{
  M, log_message, update_processing_status, mark_seen, log_retryable_message_error,
}
use ai_memmail.Worker.History.{record_outbound_action_for_history}
use ai_memmail.Worker.Outbound.{forward_context_limit_message}

unfoldable pub handoff_context_with_current : ThreadContext → InboundMessage → ℤ → ThreadContext
handoff_context_with_current context message timestamp = record context {
  messages =
      context.messages
      ++ record {
        direction = inbound;
        message_id = message.metadata.message_id;
        in_reply_to = message.metadata.in_reply_to;
        references = message.metadata.references;
        from_addr = message.metadata.from_addr;
        recipients = message.metadata.recipients;
        subject = message.metadata.subject;
        authored_text = message.plain_text;
        body_truncated = ltb inbound_body_storage_max_chars (length message.plain_text);
        timestamp = timestamp;
      }
        ∷ [];
}

-- The last inbound message: `iter().rev().find(…)`.
abbrev later_or : ThreadMessage → Option ThreadMessage → MessageDirection → Option ThreadMessage
later_or m (some later) d = some later
later_or m none inbound = some m
later_or m none outbound = none

unfoldable pub latest_inbound : List ThreadMessage → Option ThreadMessage
latest_inbound [] = none
latest_inbound (m ∷ rest) = later_or m (latest_inbound rest) m.direction

abbrev pub handoff_action_of :
    MailboxConfig
    → ThreadHandoff
    → Text
    → ThreadMessage
    → Result MailError Text
    → Result MailError OutboundAction
handoff_action_of mailbox handoff uuid latest (err e) = err e
handoff_action_of mailbox handoff uuid latest (ok body) = ok (record {
  kind = forward;
  recipients = handoff.destination ∷ [];
  subject = latest.subject;
  body = body;
  html_body = none;
  reason = text "thread handed off for manual handling";
  reply_to = some handoff.remote_target;
  message_id = some (outbound_message_id mailbox uuid);
  in_reply_to = latest.message_id;
  references = with_reference latest.references latest.message_id;
})

abbrev pub handoff_action_for :
    MailboxConfig
    → ThreadContext
    → ThreadHandoff
    → Text
    → Option ThreadMessage
    → Result MailError OutboundAction
handoff_action_for mailbox context handoff uuid none =
    err (build (text "thread handoff has no inbound message"))
handoff_action_for mailbox context handoff uuid (some latest) =
    handoff_action_of mailbox handoff uuid latest (thread_handoff_body context)

-- `uuid` is drawn for the message id.
unfoldable pub thread_handoff_action :
    MailboxConfig → ThreadContext → ThreadHandoff → Text → Result MailError OutboundAction
unfolding latest_inbound
thread_handoff_action mailbox context handoff uuid =
    handoff_action_for mailbox context handoff uuid (latest_inbound context.messages)

abbrev id_or_empty : Option Text → Text
id_or_empty none = []
id_or_empty (some id) = id

module _ (x : Services) (mailbox : MailboxConfig) (run_id : Text) (message : InboundMessage) where
  unfoldable pub finish :
      NewThreadHandoffDelivery → String → Option Text → M x (Result StorageError (Unit {0}))
  finish d status detail =
      call (λ _. delivery_finished status)
        (x.finish_thread_handoff_delivery d.mailbox_id d.thread_id d.request_id status detail)

  unfoldable pub sent_answer :
      Text → NewThreadHandoffDelivery → Result MailError (Unit {0}) → M x (Unit {0})
  sent_answer destination d (ok _) = do
    _ ← finish d "sent" none
    log_message x run_id message info (text "thread_handoff") (text "sent")
        (some (text "destination=" ++ destination))
    update_processing_status x run_id message status_handed_off (some forward)
    mark_seen x run_id message mailbox status_handed_off
  sent_answer destination d (err e) = do
    _ ← finish d "failed" (some (mail_error_text e))
    update_processing_status x run_id message status_send_failed (some forward)
    log_message x run_id message error (text "thread_handoff") (text "failed")
        (some (mail_error_text e))

  unfoldable pub hand_off :
      Text
      → OutboundAction
      → NewThreadHandoffDelivery
      → Result StorageError ThreadHandoffDelivery
      → M x (Unit {0})
  hand_off destination action d (err e) =
      log_retryable_message_error x run_id message (text "thread_handoff") e.message
  hand_off destination action d (ok _) = do
    record_outbound_action_for_history x run_id message action
    answer ← call (sent mailbox.smtp action) (x.send mailbox.smtp action)
    sent_answer destination d answer

  unfoldable pub begin_delivery :
      ThreadContext → ThreadHandoff → Text → Result MailError OutboundAction → M x (Unit {0})
  begin_delivery context handoff destination (err e) =
      forward_context_limit_message x mailbox run_id message (mail_error_text e)
  begin_delivery context handoff destination (ok action) = do
    request_id ← draw x.new_uuid
    let d : NewThreadHandoffDelivery = record {
      request_id = request_id;
      mailbox_id = mailbox.id;
      thread_id = context.thread_id;
      source_run_id = x.parse_uuid run_id;
      destination = destination;
      remote_target = handoff.remote_target;
      outbound_message_id = id_or_empty action.message_id;
    }
    answer ← call (λ _. delivery_begun) (x.begin_thread_handoff_delivery d)
    hand_off destination action d answer

  -- The sender is the inbox that the thread was handed to.
  unfoldable pub prevent_loop : Text → M x (Unit {0})
  prevent_loop destination = do
    log_message x run_id message warn (text "thread_handoff") (text "loop_prevented")
        (some (text "sender matches handoff destination " ++ destination))
    update_processing_status x run_id message status_handed_off none
    mark_seen x run_id message mailbox "handoff_loop"

  unfoldable pub route_active_thread_handoff : ThreadContext → ThreadHandoff → M x (Unit {0})
  route_active_thread_handoff context handoff =
      let destination = reply_recipient x.parser handoff.destination in
      if eq_ignore_ascii_case (reply_recipient x.parser message.metadata.from_addr) destination
      then prevent_loop destination
      else (do
        timestamp ← draw x.now
        let current = handoff_context_with_current context message timestamp
        uuid ← draw x.new_uuid
        begin_delivery context handoff destination
            (thread_handoff_action mailbox current handoff uuid))
