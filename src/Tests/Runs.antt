-- ===== src/Tests/Runs.antt =====
-- The theorems about runs over the mailboxes and about the mail that they fetch, at sample values.
use ai_memmail.Prelude.{
  zero, suc, take, ℕ, ◌≤◌, ◌≡◌, ◌↔◌, ◌⊎◌, refl, none, some, List, [], ◌∷◌, true, any, contains,
  list_beq, All, arith, length, Bool,
}
use ai_memmail.Prelude.Result.{ok}
use ai_memmail.Text.{Text, Text_eq, text}
use ai_memmail.Config.{MailboxConfig, AcceptedCondition}
use ai_memmail.Mail.{InboundMessage}
use ai_memmail.Mail.Conditions.{
  normalized, accepted_condition_recipient_filter_values, message_matches_accepted_conditions,
}
use ai_memmail.Mail.Conditions.Prefilter.{message_matches_accepted_conditions-found, NamesRecipient}
use ai_memmail.Mail.Imap.{Session, fetch_unseen_with_session}
use ai_memmail.Mail.Imap.Limits.{IfOk, IsFetch, fetch_unseen_with_session-IsFetch}
use ai_memmail.Mail.Imap.Sent.{sent_sync_range}
use ai_memmail.Mail.Imap.Sent.Range.{Covers, sent_sync_range-Covers}
use ai_memmail.Prelude.Int.{pos}
use ai_memmail.Mail.Composed.{ComposedEmail, validate_composed_email}
use ai_memmail.Mail.Composed.Valid.{CanBeSent, validate_composed_email_iff}
use ai_memmail.Worker.Action.{◌>>=◌}
use ai_memmail.Worker.Polling.{
  state_answer, batch_answer, recorded_answer, Polling, run_once_with_store, poll_mailbox,
  sync_sent_mailbox, SentSyncCursor,
}
use ai_memmail.Worker.Polling.Runs.{EachAbout}
use ai_memmail.Worker.Polling.Guarantees.{IsReviewed, run_once_with_store-IsReviewed}
use ai_memmail.Worker.Polling.Limits.{mails, FetchesAtMost, poll_mailbox-mails}
use ai_memmail.Worker.Polling.Gate.{is_unseen, is_complete, poll_mailbox-synced}
use ai_memmail.Tests.Samples.{sample_services, sample_mailbox, sample_config, empty_store, question}

abbrev matching : Text → Text → Bool
matching pattern subject = true

-- A condition that the sample question meets.
abbrev to_support : List AcceptedCondition
to_support =
    record { recipients = text "Support <support@example.org>" ∷ []; subject_regex = [] } ∷ []

to_support-NamesRecipient : All NamesRecipient to_support
unfolding normalized text
to_support-NamesRecipient = (λ e. ground arith, tt)

to_support_matches : message_matches_accepted_conditions matching question to_support ≡ true
unfolding message_matches_accepted_conditions text list_beq
to_support_matches = refl

message_matches_accepted_conditions-found_example :
    any
      (contains (accepted_condition_recipient_filter_values to_support))
      (normalized question.metadata.recipients)
    ≡ true
message_matches_accepted_conditions-found_example =
    message_matches_accepted_conditions-found matching question to_support (λ e. ground arith)
      to_support-NamesRecipient to_support_matches

abbrev sample_session : Session
sample_session = record {
  select = λ folder. ok 7;
  uid_search = λ query. ok (3 ∷ 1 ∷ 2 ∷ []);
  uid_fetch = λ uid_validity uid. ok (ok question ∷ []);
}

fetch_unseen_with_session-IsFetch_example :
    IfOk
      (IsFetch sample_session matching [] 2)
      (fetch_unseen_with_session sample_session matching sample_mailbox 2)
fetch_unseen_with_session-IsFetch_example =
    fetch_unseen_with_session-IsFetch sample_session matching sample_mailbox 2

abbrev letter : ComposedEmail
letter = record {
  to = text "ann@example.com" ∷ [];
  cc = [];
  bcc = [];
  subject = text "Hello";
  text_body = text "How are you?";
  html_body = none;
  message_id = none;
  in_reply_to = none;
  references = [];
}

validate_composed_email_iff_example :
    (validate_composed_email (λ s. true) letter ≡ ok tt) ↔ CanBeSent (λ s. true) letter
validate_composed_email_iff_example = validate_composed_email_iff (λ s. true) letter

-- A transport with one message, whose synchronization of sent mail is complete.
abbrev polling : Polling
polling = record {
  services = sample_services (ok tt);
  is_match = matching;
  fetch_unseen = λ mailbox limit s. (ok (take limit (question ∷ [])), s);
  fetch_sent = λ mailbox cursor cutoff limit s. (
    ok (record { folder_name = text "Sent"; uid_validity = 1; messages = []; complete = true }),
    s,
  );
  sent_sync_state = λ id s. (ok none, s);
  record_sent_batch = λ id cutoff batch s. (ok tt, s);
  ensure_default_classification_policy = λ config s. (ok tt, s);
}

length-take_one : (n : ℕ) (q : InboundMessage) → length (take n (q ∷ [])) ≤ n
length-take_one zero q = omega arith
length-take_one (suc zero) q = omega arith
length-take_one (suc (suc n)) q = omega arith

polling-FetchesAtMost : FetchesAtMost polling
polling-FetchesAtMost mailbox limit w messages h = ground (arith, length-take_one limit question, h)

run_once_with_store-IsReviewed_example :
    All
      (EachAbout (IsReviewed polling sample_config))
      (run_once_with_store polling sample_config (text "run-1") empty_store).calls
run_once_with_store-IsReviewed_example =
    run_once_with_store-IsReviewed polling sample_config (text "run-1") refl empty_store

poll_mailbox-mails_example :
    mails (poll_mailbox polling sample_config sample_mailbox (text "run-1") empty_store).calls ≤ 10
poll_mailbox-mails_example =
    poll_mailbox-mails polling sample_config sample_mailbox (text "run-1") empty_store
      polling-FetchesAtMost

-- A mailbox that keeps a history of sent mail.
abbrev keeping : MailboxConfig
keeping = record sample_mailbox { imap = record (sample_mailbox.imap) { sent_backfill_days = 30 } }

keeping_fetches :
    any is_unseen (poll_mailbox polling sample_config keeping (text "run-1") empty_store).calls
    ≡ true
unfolding poll_mailbox is_unseen ◌>>=◌ state_answer batch_answer recorded_answer
keeping_fetches = refl

poll_mailbox-synced_example :
    (keeping.imap.sent_backfill_days ≡ 0)
    ⊎ (any is_complete (sync_sent_mailbox polling keeping (text "run-1") empty_store).calls ≡ true)
poll_mailbox-synced_example =
    poll_mailbox-synced polling sample_config keeping (text "run-1") empty_store keeping_fetches

-- A cursor of the folder, from before the requested cutoff.
abbrev older : SentSyncCursor
older = record {
  folder_name = text "Sent";
  uid_validity = 1;
  last_uid = 17;
  backfill_cutoff = pos 1000;
}

older_is_resumed : sent_sync_range (some older) (text "Sent") 1 (pos 2000) ≡ (17, pos 1000)
unfolding sent_sync_range text list_beq
older_is_resumed = refl

sent_sync_range-Covers_example :
    Covers
      (some older)
      (text "Sent")
      1
      (pos 2000)
      (sent_sync_range (some older) (text "Sent") 1 (pos 2000))
sent_sync_range-Covers_example = sent_sync_range-Covers (some older) (text "Sent") 1 (pos 2000)
