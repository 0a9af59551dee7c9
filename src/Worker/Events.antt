-- ===== src/Worker/Events.antt =====
-- worker/processing.rs and worker/process.rs: events, claims, statuses and the mark of a message.
use ai_memmail.Prelude.{String, Bool, true, false, Option, none, some}
use ai_memmail.Prelude.Result.{Result, ok, err}
use ai_memmail.Text.{Text, text}
use ai_memmail.Config.{MailboxConfig}
use ai_memmail.Mail.{InboundMessage, OutboundActionKind, MailError, dedupe_key, mail_error_text}
use ai_memmail.Storage.{
  StorageError, ProcessingClaim, claimed, in_progress, already_finished, status_retryable_failed,
}
use ai_memmail.Worker.Action.{Action, pure, call, ◌>>=◌, ◌>>◌}
use ai_memmail.Worker.Services.{
  Services, LogLevel, debug, info, warn, error, ActionEvent, Call, claim, status_set, seen, logged,
}

-- `mailbox_event` and `message_event`.
unfoldable pub mailbox_event : LogLevel → Text → Text → Text → Text → Option Text → ActionEvent
mailbox_event level run_id mailbox_id action status detail = record {
  level = level;
  run_id = run_id;
  mailbox_id = some mailbox_id;
  message_uid_validity = none;
  message_uid = none;
  action = action;
  status = status;
  detail = detail;
}

unfoldable pub message_event :
    LogLevel → Text → InboundMessage → Text → Text → Option Text → ActionEvent
unfolding mailbox_event
message_event level run_id message action status detail =
    record (mailbox_event level run_id message.metadata.mailbox_id action status detail) {
      message_uid_validity = some message.metadata.uid_validity;
      message_uid = some message.metadata.uid;
    }

module _ (x : Services) where
  abbrev pub M : Type 0 → Type 0
  M A = Action Call x.World A

  unfoldable pub log_event : ActionEvent → M (Unit {0})
  log_event event = call (λ _. logged event) (λ w. (tt, x.log event w))

module _ (x : Services) (run_id : Text) (message : InboundMessage) where
  -- `logger.log(message_event(…))`
  unfoldable pub log_message : LogLevel → Text → Text → Option Text → M x (Unit {0})
  log_message level action status detail =
      log_event x (message_event level run_id message action status detail)

  unfoldable pub mark_answer : String → Result MailError (Unit {0}) → M x (Unit {0})
  mark_answer status (ok _) = log_message info (text "imap_mark_seen") (text status) none
  mark_answer status (err e) =
      log_message error (text "imap_mark_seen") (text "failed") (some (mail_error_text e))

  unfoldable pub mark_seen : MailboxConfig → String → M x (Unit {0})
  mark_seen mailbox status = do
    answer ← call (seen message.metadata.uid) (x.mark_seen mailbox message.metadata.uid)
    mark_answer status answer

  -- The four answers to a claim, and whether the message is to be processed.
  unfoldable pub claim_answer : MailboxConfig → Result StorageError ProcessingClaim → M x Bool
  claim_answer mailbox (ok claimed) = do
    log_message debug (text "processing_claim") (text "claimed") none
    pure true
  claim_answer mailbox (ok (already_finished status)) = do
    log_message info (text "processing_claim") (text "dedupe_skip") (some (text status))
    mark_seen mailbox "dedupe_skip"
    pure false
  claim_answer mailbox (ok (in_progress status)) = do
    log_message warn (text "processing_claim") (text "in_progress") (some (text status))
    pure false
  claim_answer mailbox (err e) = do
    log_message error (text "processing_claim") (text "failed") (some e.message)
    pure false

  unfoldable pub claim_before_side_effect : MailboxConfig → M x Bool
  claim_before_side_effect mailbox = do
    answer ← call (claim (dedupe_key message.metadata)) (x.claim_message run_id message)
    claim_answer mailbox answer

  -- An error of the store is logged under the name of what failed.
  unfoldable pub log_store_error : Text → Result StorageError (Unit {0}) → M x (Unit {0})
  log_store_error action (ok _) = pure tt
  log_store_error action (err e) = log_message error action (text "failed") (some e.message)

  unfoldable pub update_processing_status : String → Option OutboundActionKind → M x (Unit {0})
  update_processing_status status outbound_action = do
    answer ←
        call (status_set (dedupe_key message.metadata) status outbound_action)
          (x.update_message_status (dedupe_key message.metadata) status outbound_action)
    log_store_error (text "processing_update") answer

  unfoldable pub log_retryable_message_error : Text → Text → M x (Unit {0})
  log_retryable_message_error action detail = do
    log_message error action (text "failed") (some detail)
    update_processing_status status_retryable_failed none

  unfoldable pub log_optional_prompt_skip : Text → Text → M x (Unit {0})
  log_optional_prompt_skip action detail = log_message warn action (text "skipped") (some detail)
