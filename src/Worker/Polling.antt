-- ===== src/Worker/Polling.antt =====
-- worker.rs, worker/sent_sync.rs and worker/process.rs: one run over the mailboxes.
pub mod Runs
pub mod Gate
pub mod Limits
pub mod Guarantees
use ai_memmail.Prelude.{
  ℕ, ◌*◌, Bool, true, false, Option, none, some, List, [], ◌∷◌, ◌++◌, map, select, length, ltb,
  is_empty, if◌then◌else◌, ◌==◌, ℕ_eq, ◌-◌,
}
use ai_memmail.Prelude.Int.{ℤ, minus_ℕ}
use ai_memmail.Prelude.Result.{Result, ok, err}
use ai_memmail.Text.{Text, text, decimal}
use ai_memmail.Config.{AppConfig, MailboxConfig}
use ai_memmail.Mail.{InboundMessage, MailError, mail_error_text}
use ai_memmail.Mail.Conditions.{message_matches_accepted_conditions}
use ai_memmail.Storage.{StorageError}
use ai_memmail.Worker.Action.{Action, Run, pure, call, draw, ◌>>=◌, ◌>>◌}
use ai_memmail.Worker.Services.{
  Services, Operation, Call, LogLevel, debug, info, warn, error, ActionEvent,
}
use ai_memmail.Worker.Events.{mailbox_event}
use ai_memmail.Worker.Plans.{enabled_mailboxes, poll_plans}
use ai_memmail.Worker.Process.{process_message}

pub record SentSyncCursor : Type 0 where
  pub folder_name : Text
  pub uid_validity : ℕ
  pub last_uid : ℕ
  pub backfill_cutoff : ℤ

pub record SentSyncState : Type 0 where
  pub cursor : SentSyncCursor
  pub initial_backfill_complete : Bool

pub record SentMessage : Type 0 where
  pub message : InboundMessage
  pub internal_date : Option ℤ

pub record SentFetchBatch : Type 0 where
  pub folder_name : Text
  pub uid_validity : ℕ
  pub messages : List SentMessage
  pub complete : Bool

-- The services of a run: those of a message, the operations on whole mailboxes, and the regex crate.
pub record Polling : Type 1 where
  pub services : Services
  pub is_match : Text → Text → Bool
  pub fetch_unseen : MailboxConfig → ℕ → Operation services.World MailError (List InboundMessage)
  pub fetch_sent :
      MailboxConfig
      → Option SentSyncCursor
      → ℤ
      → ℕ
      → Operation services.World MailError SentFetchBatch
  pub sent_sync_state : Text → Operation services.World StorageError (Option SentSyncState)
  pub record_sent_batch :
      Text → ℤ → SentFetchBatch → Operation services.World StorageError (Unit {0})
  pub ensure_default_classification_policy :
      AppConfig → Operation services.World StorageError (Unit {0})

-- The notes of a run. `complete` says whether a recorded batch was the last one.
pub data PollCall : Type 0 where
  policy_ensured : PollCall
  sync_read : Text → PollCall
  sent_fetched : Text → PollCall
  sent_recorded : Text → Bool → Result StorageError (Unit {0}) → PollCall
  unseen_fetched : Text → PollCall
  about : MailboxConfig → Text → InboundMessage → Call → PollCall
  noted : ActionEvent → PollCall

-- An action on a message, as a part of a run: each note says which message it is about.
module _ {C D W A : Type 0} where
  unfoldable pub part_of : (C → D) → Action C W A → Action D W A
  part_of f m w =
      let run = m w in record { result = run.result; world = run.world; calls = map f run.calls }

unfoldable pub action_event : LogLevel → Text → Text → Text → ActionEvent
action_event level run_id action status = record {
  level = level;
  run_id = run_id;
  mailbox_id = none;
  message_uid_validity = none;
  message_uid = none;
  action = action;
  status = status;
  detail = none;
}

abbrev pub sent_sync_batch_size : ℕ
sent_sync_batch_size = 200

abbrev pub cursor_of : Option SentSyncState → Option SentSyncCursor
cursor_of none = none
cursor_of (some state) = some state.cursor

module _ (x : Polling) where
  abbrev pub P : Type 0 → Type 0
  P A = Action PollCall x.services.World A

  unfoldable pub note : ActionEvent → P (Unit {0})
  note event = call (λ _. noted event) (λ w. (tt, x.services.log event w))

  module _ (mailbox : MailboxConfig) (run_id : Text) where
    unfoldable pub log_sent_sync_failure : Text → Text → P (Unit {0})
    log_sent_sync_failure action detail =
        note (mailbox_event error run_id mailbox.id action (text "failed_closed") (some detail))

    unfoldable pub sync_closed : Text → Text → P Bool
    sync_closed action detail = do log_sent_sync_failure action detail; pure false

    unfoldable pub recorded_answer : SentFetchBatch → Result StorageError (Unit {0}) → P Bool
    recorded_answer batch (err e) = sync_closed (text "sent_sync_persist") e.message
    recorded_answer batch (ok _) = do
      note (
          mailbox_event info run_id mailbox.id (text "imap_sent_sync")
            (if batch.complete then text "complete" else text "backfilling")
            (some (
              text "folder="
              ++ (batch.folder_name ++ (text " messages=" ++ decimal (length batch.messages))))))
      pure batch.complete

    unfoldable pub batch_answer : ℤ → Result MailError SentFetchBatch → P Bool
    batch_answer cutoff (err e) = sync_closed (text "imap_sent_sync") (mail_error_text e)
    batch_answer cutoff (ok batch) = do
      answer ←
          call (sent_recorded mailbox.id batch.complete)
            (x.record_sent_batch mailbox.id cutoff batch)
      recorded_answer batch answer

    unfoldable pub state_answer : Result StorageError (Option SentSyncState) → P Bool
    state_answer (err e) = sync_closed (text "sent_sync_state") e.message
    state_answer (ok state) = do
      now ← draw x.services.now
      let cutoff = minus_ℕ now (mailbox.imap.sent_backfill_days * 24 * 60 * 60)
      batch ←
          call (λ _. sent_fetched mailbox.id)
            (x.fetch_sent mailbox (cursor_of state) cutoff sent_sync_batch_size)
      batch_answer cutoff batch

    unfoldable pub sync_sent_mailbox : P Bool
    sync_sent_mailbox = if mailbox.imap.sent_backfill_days == 0 then pure true else (do
      state ← call (λ _. sync_read mailbox.id) (x.sent_sync_state mailbox.id)
      state_answer state)

  module _ (config : AppConfig) (mailbox : MailboxConfig) (run_id : Text) where
    unfoldable pub process_messages : List InboundMessage → P (Unit {0})
    unfolding part_of
    process_messages [] = pure tt
    process_messages (message ∷ messages) = do
      message_run_id ← draw x.services.new_uuid
      part_of (about mailbox message_run_id message)
          (process_message x.services config mailbox message_run_id message)
      process_messages messages

    abbrev pub accepted : List InboundMessage → List InboundMessage
    accepted messages =
        select
          (λ message.
            message_matches_accepted_conditions x.is_match message mailbox.accepted_conditions)
          messages

    abbrev pub filtered_detail : ℕ → Option Text
    filtered_detail filtered_count =
        if ltb 0 filtered_count
        then some (text "filtered_by_accepted_conditions=" ++ decimal filtered_count)
        else none

    unfoldable pub unseen_answer : Result MailError (List InboundMessage) → P (Unit {0})
    unfolding process_messages note mailbox_event message_matches_accepted_conditions
    unseen_answer (ok messages) = do
      note (
          mailbox_event info run_id mailbox.id (text "imap_fetch")
            (text "messages=" ++ decimal (length (accepted messages)))
            (filtered_detail (length messages - length (accepted messages))))
      process_messages (accepted messages)
    unseen_answer (err e) = note (
        mailbox_event error run_id mailbox.id (text "imap_fetch") (text "failed")
          (some (mail_error_text e)))

    unfoldable pub process_mailbox : P (Unit {0})
    unfolding unseen_answer
    process_mailbox = do
      answer ← call (λ _. unseen_fetched mailbox.id) (x.fetch_unseen mailbox 10)
      unseen_answer answer

    -- The body of the loop over the mailboxes.
    unfoldable pub poll_mailbox : P (Unit {0})
    unfolding process_mailbox sync_sent_mailbox
    poll_mailbox = do
      synced ← sync_sent_mailbox mailbox run_id
      if synced then process_mailbox else pure tt

  module _ (config : AppConfig) (run_id : Text) where
    unfoldable pub poll_mailboxes : List MailboxConfig → P (Unit {0})
    unfolding poll_mailbox
    poll_mailboxes [] = pure tt
    poll_mailboxes (mailbox ∷ mailboxes) = do
      poll_mailbox config mailbox run_id
      poll_mailboxes mailboxes

    unfoldable pub policy_answer : Result StorageError (Unit {0}) → P (Unit {0})
    unfolding poll_mailboxes note action_event
    policy_answer (err e) =
        note (action_event error run_id (text "classification_policy_seed") (text "failed"))
    policy_answer (ok _) = poll_mailboxes (enabled_mailboxes config)

    unfoldable pub run_once_with_store : P (Unit {0})
    unfolding policy_answer poll_plans note action_event
    run_once_with_store = do
      note (
          action_event info run_id (text "worker_poll_plan")
            (text "mailboxes=" ++ decimal (length (poll_plans config))))
      answer ← call (λ _. policy_ensured) (x.ensure_default_classification_policy config)
      policy_answer answer
