-- ===== src/Mail/Imap/Sent.antt =====
-- mail_external.rs: the fetch of a batch of sent mail. The session and chrono's dates are parameters.
pub mod Range
use ai_memmail.Prelude.{
  ℕ, suc, Bool, true, false, ◌&&◌, Option, none, some, List, [], ◌∷◌, ◌++◌, any, length, take, leb,
  select, not, if◌then◌else◌, ◌==◌, ℕ_eq, ◌≡◌, ◌⊎◌, inl, inr, refl, arith,
}
use ai_memmail.Prelude.Int.{ℤ, ltb_ℤ}
use ai_memmail.Prelude.Result.{Result, ok, err, ◌>>=◌}
use ai_memmail.Text.{Text, Text_eq, text, trim, decimal, eq_ignore_ascii_case}
use ai_memmail.Config.{MailboxConfig}
use ai_memmail.Mail.{MailError, imap}
use ai_memmail.Mail.Imap.{sort_unstable}
use ai_memmail.Worker.Polling.{SentSyncCursor, SentMessage, SentFetchBatch}

-- What is read of imap's NameAttribute.
pub data NameAttribute : Type 0 where
  standard_attribute : NameAttribute
  custom : Text → NameAttribute

pub record FolderName : Type 0 where
  pub name : Text
  pub attributes : List NameAttribute

-- What a session answers: the folders, the validity of the uids of a folder, the uids of a search,
-- and the messages that are fetched by a uid, each parsed.
pub record SentSession : Type 0 where
  pub list : Result MailError (List FolderName)
  pub examine : Text → Result MailError (Option ℕ)
  pub uid_search : Text → Result MailError (List ℕ)
  pub uid_fetch : ℕ → ℕ → Result MailError (List (Result MailError SentMessage))
  -- `DateTime::from_timestamp` and the format "%d-%b-%Y"
  pub date_of : ℤ → Option Text

abbrev pub is_sent : NameAttribute → Bool
is_sent standard_attribute = false
is_sent (custom value) = eq_ignore_ascii_case value (text "\\Sent")

abbrev pub only_folder : List FolderName → Result MailError Text
only_folder [] =
    err (imap (text "IMAP server did not advertise a \\Sent mailbox; configure imap.sent_folder"))
only_folder (folder ∷ []) = ok folder.name
only_folder (folder ∷ other ∷ more) =
    err (imap (text "IMAP server advertised multiple \\Sent mailboxes; configure imap.sent_folder"))

abbrev pub configured_or_listed : SentSession → Option Text → Result MailError Text
configured_or_listed session (some folder) = ok (trim folder)
configured_or_listed session none = session.list >>= λ names.
    only_folder (select (λ (name : FolderName). any is_sent name.attributes) names)

unfoldable pub sent_folder_name : SentSession → MailboxConfig → Result MailError Text
unfolding trim eq_ignore_ascii_case
sent_folder_name session mailbox = configured_or_listed session mailbox.imap.sent_folder

abbrev pub is_of : SentSyncCursor → Text → ℕ → Bool
is_of cursor folder_name uid_validity =
    cursor.folder_name == folder_name && cursor.uid_validity == uid_validity

unfoldable pub sent_sync_range : Option SentSyncCursor → Text → ℕ → ℤ → ℕ × ℤ
sent_sync_range none folder_name uid_validity requested_cutoff = (0, requested_cutoff)
sent_sync_range (some cursor) folder_name uid_validity requested_cutoff =
    if is_of cursor folder_name uid_validity && not (ltb_ℤ requested_cutoff cursor.backfill_cutoff)
    then (cursor.last_uid, cursor.backfill_cutoff)
    else (0, requested_cutoff)

abbrev pub u32_max : ℕ
u32_max = 4294967295

abbrev pub query_since : ℕ → Option Text → Result MailError (Option Text)
query_since last_uid none = err (imap (text "Sent backfill cutoff is invalid"))
query_since last_uid (some since) =
    if last_uid == 0
    then ok (some (text "SINCE " ++ since))
    else if leb u32_max last_uid
    then ok none
    else ok (
        some (
          text "UID "
          ++ (decimal (suc last_uid)
              ++ (text ":" ++ (decimal u32_max ++ (text " SINCE " ++ since))))))

unfoldable pub sent_uid_query : SentSession → ℕ → ℤ → Result MailError (Option Text)
unfolding decimal
sent_uid_query session last_uid cutoff = query_since last_uid (session.date_of cutoff)

abbrev pub search_query : SentSession → Option Text → Result MailError (List ℕ)
search_query session none = ok []
search_query session (some query) = session.uid_search query

unfoldable pub sent_uids : SentSession → ℕ → ℤ → Result MailError (List ℕ)
unfolding sent_uid_query
sent_uids session last_uid cutoff = sent_uid_query session last_uid cutoff >>= search_query session

unfoldable pub push_sent :
    List SentMessage → List (Result MailError SentMessage) → Result MailError (List SentMessage)
push_sent messages [] = ok messages
push_sent messages (err e ∷ fetches) = err e
push_sent messages (ok message ∷ fetches) = push_sent (messages ++ message ∷ []) fetches

unfoldable pub fetch_sent_uids :
    SentSession → ℕ → List SentMessage → List ℕ → Result MailError (List SentMessage)
unfolding push_sent
fetch_sent_uids session uid_validity messages [] = ok messages
fetch_sent_uids session uid_validity messages (uid ∷ uids) =
    session.uid_fetch uid_validity uid >>= λ fetches.
    push_sent messages fetches >>= λ more. fetch_sent_uids session uid_validity more uids

abbrev pub reported : Option ℕ → Result MailError ℕ
reported none = err (imap (text "Sent mailbox did not report UIDVALIDITY"))
reported (some uid_validity) = ok uid_validity

unfoldable pub fetch_sent_with_session :
    SentSession → MailboxConfig → Option SentSyncCursor → ℤ → ℕ → Result MailError SentFetchBatch
unfolding sent_folder_name sent_sync_range sent_uids fetch_sent_uids
fetch_sent_with_session session mailbox cursor backfill_cutoff limit =
    sent_folder_name session mailbox >>= λ folder_name.
    session.examine folder_name >>= reported >>= λ uid_validity.
    let (last_uid, cutoff) = sent_sync_range cursor folder_name uid_validity backfill_cutoff in
    sent_uids session last_uid cutoff >>= λ uids.
    fetch_sent_uids session uid_validity [] (take limit (sort_unstable uids)) >>= λ messages.
    ok (record {
      folder_name = folder_name;
      uid_validity = uid_validity;
      messages = messages;
      complete = leb (length uids) limit;
    })
