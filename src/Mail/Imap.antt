-- ===== src/Mail/Imap.antt =====
-- mail_external.rs: the searches on the IMAP server and the choice of the messages that are fetched.
-- A session is a parameter.
pub mod Limits
pub mod Sent
use ai_memmail.Prelude.{
  ℕ, zero, suc, ◌+◌, ◌-◌, Bool, true, false, Option, none, some, List, [], ◌∷◌, ◌++◌, map, is_empty,
  contains, length, leb, ltb, if◌then◌else◌, ◌==◌, ℕ_eq, ◌≡◌, refl,
}
use ai_memmail.Prelude.Result.{Result, ok, err, ◌>>=◌}
use ai_memmail.Text.{Text, Text_eq, text, decimal, replace}
use ai_memmail.Config.{MailboxConfig, AcceptedCondition}
use ai_memmail.Mail.{InboundMessage, MailError, imap}
use ai_memmail.Mail.Conditions.{
  accepted_conditions_can_prefilter_by_recipient, accepted_condition_recipient_filter_values,
  message_matches_accepted_conditions,
}

abbrev pub recipient_headers : List Text
recipient_headers =
    text "To" ∷ text "Cc" ∷ text "Delivered-To" ∷ text "X-Original-To" ∷ text "Envelope-To" ∷ []

unfoldable pub imap_search_string : Text → Text
unfolding replace
imap_search_string value =
    let escaped =
      replace (λ c. c == b'"') (text "\\\"") (replace (λ c. c == b'\\') (text "\\\\") value) in
    text "\"" ++ (escaped ++ text "\"")

abbrev pub header_queries : Text → List Text → List Text
header_queries recipient [] = []
header_queries recipient (header ∷ headers) =
    (text "UNSEEN HEADER " ++ (header ++ (text " " ++ recipient)))
    ∷ header_queries recipient headers

unfoldable pub recipient_queries : List Text → List Text
unfolding imap_search_string
recipient_queries [] = []
recipient_queries (recipient ∷ recipients) =
    header_queries (imap_search_string recipient) recipient_headers ++ recipient_queries recipients

unfoldable pub recipient_prefilter_queries : MailboxConfig → Option (List Text)
unfolding accepted_conditions_can_prefilter_by_recipient accepted_condition_recipient_filter_values
    recipient_queries
recipient_prefilter_queries mailbox =
    let recipients = accepted_condition_recipient_filter_values mailbox.accepted_conditions in
    if accepted_conditions_can_prefilter_by_recipient mailbox.accepted_conditions
    then (if is_empty recipients then none else some (recipient_queries recipients))
    else none

-- What a session answers: the validity of the uids of a folder, the uids of a search, and the
-- messages that are fetched by a uid, each parsed.
pub record Session : Type 0 where
  pub select : Text → Result MailError ℕ
  pub uid_search : Text → Result MailError (List ℕ)
  pub uid_fetch : ℕ → ℕ → Result MailError (List (Result MailError InboundMessage))

unfoldable pub push_new : List ℕ → List ℕ → List ℕ
unfolding contains
push_new uids [] = uids
push_new uids (uid ∷ found) = push_new (if contains uids uid then uids else uids ++ uid ∷ []) found

-- Vec::sort_unstable: equal numbers cannot be told apart.
abbrev pub insert_sorted : ℕ → List ℕ → List ℕ
insert_sorted uid [] = uid ∷ []
insert_sorted uid (v ∷ uids) = if leb uid v then uid ∷ v ∷ uids else v ∷ insert_sorted uid uids

abbrev pub sort_unstable : List ℕ → List ℕ
sort_unstable [] = []
sort_unstable (uid ∷ uids) = insert_sorted uid (sort_unstable uids)

module _ (session : Session) where
  unfoldable pub search_queries : List ℕ → List Text → Result MailError (List ℕ)
  unfolding push_new
  search_queries uids [] = ok uids
  search_queries uids (query ∷ queries) =
      session.uid_search query >>= λ found. search_queries (push_new uids found) queries

  abbrev pub search_uids : Option (List Text) → Result MailError (List ℕ)
  search_uids none = session.uid_search (text "UNSEEN")
  search_uids (some queries) = search_queries [] queries

  unfoldable pub search_unseen_uids : MailboxConfig → Result MailError (List ℕ)
  unfolding recipient_prefilter_queries search_queries
  search_unseen_uids mailbox = search_uids (recipient_prefilter_queries mailbox)

module _ (session : Session) (is_match : Text → Text → Bool) (conditions : List AcceptedCondition)
    (limit : ℕ) where
  -- The loop over what is fetched by one uid; it ends early where the limit is reached.
  unfoldable pub take_fetches :
      List InboundMessage
      → List (Result MailError InboundMessage)
      → Result MailError (List InboundMessage)
  unfolding message_matches_accepted_conditions
  take_fetches messages [] = ok messages
  take_fetches messages (err e ∷ fetches) = err e
  take_fetches messages (ok message ∷ fetches) =
      if message_matches_accepted_conditions is_match message conditions
      then (if leb limit (length (messages ++ message ∷ []))
          then ok (messages ++ message ∷ [])
          else take_fetches (messages ++ message ∷ []) fetches)
      else take_fetches messages fetches

  unfoldable pub fetch_uids :
      ℕ → List InboundMessage → List ℕ → Result MailError (List InboundMessage)
  unfolding take_fetches
  fetch_uids uid_validity messages [] = ok messages
  fetch_uids uid_validity messages (uid ∷ uids) =
      if leb limit (length messages)
      then ok messages
      else (session.uid_fetch uid_validity uid >>= λ fetches.
          take_fetches messages fetches >>= λ more. fetch_uids uid_validity more uids)

module _ (session : Session) (is_match : Text → Text → Bool) where
  unfoldable pub fetch_unseen_with_session :
      MailboxConfig → ℕ → Result MailError (List InboundMessage)
  unfolding search_unseen_uids fetch_uids
  fetch_unseen_with_session mailbox limit = session.select mailbox.imap.folder >>= λ uid_validity.
      search_unseen_uids session mailbox >>= λ uids.
      fetch_uids session is_match mailbox.accepted_conditions limit uid_validity []
        (sort_unstable uids)
