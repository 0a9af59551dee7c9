-- ===== src/Mail/Imap/Limits.antt =====
-- How many messages a fetch gives, and which.
use ai_memmail.Prelude.{
  ℕ, ◌≤◌, ◌<◌, Bool, true, List, [], ◌∷◌, ◌++◌, length, length-append, leb, All, All-append, ◌≡◌,
  arith, Bool-cases, inl, inr,
}
use ai_memmail.Prelude.Result.{Result, ok, err, ◌>>=◌}
use ai_memmail.Text.{Text}
use ai_memmail.Config.{MailboxConfig, AcceptedCondition}
use ai_memmail.Mail.{InboundMessage, MailError}
use ai_memmail.Mail.Conditions.{message_matches_accepted_conditions}
use ai_memmail.Mail.Imap.{
  Session, take_fetches, fetch_uids, search_unseen_uids, sort_unstable, fetch_unseen_with_session,
}

-- What holds of a result that is no error.
abbrev pub IfOk : {E A : Type 0} → (A → Type 0) → Result E A → Type 0
IfOk P (ok a) = P a
IfOk P (err e) = Unit

module _ {E A B : Type 0} (P : A → Type 0) (Q : B → Type 0) where
  IfOk-bind :
      (m : Result E A) (f : A → Result E B)
      → IfOk P m
      → ((a : A) → P a → IfOk Q (f a))
      → IfOk Q (m >>= f)
  IfOk-bind (ok a) f h k = k a h
  IfOk-bind (err e) f h k = tt

any_result : {E A : Type 0} (m : Result E A) → IfOk (λ _. Unit {0}) m
any_result (ok a) = tt
any_result (err e) = tt

module _ (session : Session) (is_match : Text → Text → Bool) (conditions : List AcceptedCondition)
    (limit : ℕ) where
  abbrev IsAccepted : InboundMessage → Type 0
  IsAccepted message = message_matches_accepted_conditions is_match message conditions ≡ true

  -- No more messages than the limit, each let in by the conditions.
  abbrev pub IsFetch : List InboundMessage → Type 0
  IsFetch messages = (length messages ≤ limit) × All IsAccepted messages

  one_more :
      (messages : List InboundMessage) (message : InboundMessage)
      → length messages < limit
      → All IsAccepted messages
      → IsAccepted message
      → IsFetch (messages ++ message ∷ [])
  one_more messages message h k a = (
    omega (arith, length-append messages (message ∷ [])),
    All-append IsAccepted messages (message ∷ []) k (a, tt),
  )

  take_fetches-IsFetch :
      (messages : List InboundMessage) (fetches : List (Result MailError InboundMessage))
      → length messages < limit
      → All IsAccepted messages
      → IfOk IsFetch (take_fetches session is_match conditions limit messages fetches)
  unfolding take_fetches
  take_fetches-IsFetch messages [] h k = (omega arith, k)
  take_fetches-IsFetch messages (err e ∷ fetches) h k = tt
  take_fetches-IsFetch messages (ok message ∷ fetches) h k =
      elim (Bool-cases (message_matches_accepted_conditions is_match message conditions)) [
        | inl accepted ↦ elim (Bool-cases (leb limit (length (messages ++ message ∷ [])))) [
          | inl full ↦ rw (accepted, full) (one_more messages message h k accepted)
          | inr room ↦
              rw (accepted, room)
                (take_fetches-IsFetch (messages ++ message ∷ []) fetches (ground arith)
                  (one_more messages message h k accepted).1)
        ]
        | inr other ↦ rw other (take_fetches-IsFetch messages fetches h k)
      ]

  fetch_uids-IsFetch :
      (uid_validity : ℕ) (messages : List InboundMessage) (uids : List ℕ)
      → IsFetch messages
      → IfOk IsFetch (fetch_uids session is_match conditions limit uid_validity messages uids)
  unfolding fetch_uids
  fetch_uids-IsFetch uid_validity messages [] h = h
  fetch_uids-IsFetch uid_validity messages (uid ∷ uids) h =
      elim (Bool-cases (leb limit (length messages))) [
        | inl full ↦ rw full h
        | inr room ↦ rw room (
            IfOk-bind (λ _. Unit {0}) IsFetch (session.uid_fetch uid_validity uid) _ (any_result _)
              (λ fetches _.
                IfOk-bind IsFetch IsFetch
                  (take_fetches session is_match conditions limit messages fetches) _
                  (take_fetches-IsFetch messages fetches (ground arith) h.1)
                  (λ more more_h. fetch_uids-IsFetch uid_validity more uids more_h)))
      ]

module _ (session : Session) (is_match : Text → Text → Bool) where
  -- What is fetched of a mailbox is at most as many messages as the limit says, and the accepted
  -- conditions of the mailbox let each of them in.
  pub fetch_unseen_with_session-IsFetch :
      (mailbox : MailboxConfig) (limit : ℕ)
      → IfOk
          (IsFetch session is_match mailbox.accepted_conditions limit)
          (fetch_unseen_with_session session is_match mailbox limit)
  unfolding fetch_unseen_with_session
  fetch_unseen_with_session-IsFetch mailbox limit =
      IfOk-bind (λ _. Unit {0}) (IsFetch session is_match mailbox.accepted_conditions limit)
        (session.select mailbox.imap.folder) _ (any_result _)
        (λ uid_validity _.
          IfOk-bind (λ _. Unit {0}) (IsFetch session is_match mailbox.accepted_conditions limit)
            (search_unseen_uids session mailbox) _ (any_result _)
            (λ uids _.
              fetch_uids-IsFetch session is_match mailbox.accepted_conditions limit uid_validity []
                (sort_unstable uids) (ground arith, tt)))
