-- ===== src/Worker/Polling/Runs.antt =====
-- What holds of the calls of a run over the mailboxes.
use ai_memmail.Prelude.{
  ◌==◌, ℕ_eq, select, Bool-cases, inl, inr, Bool, true, false, Option, List, [], ◌∷◌, map, All, ◌≡◌,
  refl, arith,
}
use ai_memmail.Prelude.Result.{Result, ok, err}
use ai_memmail.Text.{Text}
use ai_memmail.Config.{AppConfig, MailboxConfig}
use ai_memmail.Mail.{InboundMessage, MailError}
use ai_memmail.Storage.{StorageError}
use ai_memmail.Worker.Action.{Action, call, ◌>>=◌}
use ai_memmail.Worker.Services.{Call, ActionEvent}
use ai_memmail.Worker.Process.{process_message}
use ai_memmail.Worker.Plans.{enabled_mailboxes}
use ai_memmail.Worker.Effects.{
  Makes, Makes-pure, Makes-draw, Makes-call, Makes-bind, Makes-if, Anything,
}
use ai_memmail.Worker.Polling.{
  accepted, SentFetchBatch, message_matches_accepted_conditions, ℤ, SentSyncState, Polling,
  PollCall, policy_ensured, sync_read, sent_fetched, sent_recorded, unseen_fetched, about, noted,
  part_of, note, log_sent_sync_failure, sync_closed, recorded_answer, batch_answer, state_answer,
  sync_sent_mailbox, process_messages, unseen_answer, process_mailbox, poll_mailbox, poll_mailboxes,
  policy_answer, run_once_with_store,
}

-- The calls of a run, where those about a message satisfy a predicate.
abbrev pub EachAbout : (MailboxConfig → Text → InboundMessage → Call → Type 0) → PollCall → Type 0
EachAbout Q (about mailbox run_id message c) = Q mailbox run_id message c
EachAbout Q policy_ensured = Unit
EachAbout Q (sync_read id) = Unit
EachAbout Q (sent_fetched id) = Unit
EachAbout Q (sent_recorded id complete answer) = Unit
EachAbout Q (unseen_fetched id) = Unit
EachAbout Q (noted event) = Unit

All-map_about :
    {C D : Type 0} (P : D → Type 0) (f : C → D) (calls : List C)
    → All (λ c. P (f c)) calls
    → All P (map f calls)
All-map_about P f [] h = tt
All-map_about P f (c ∷ calls) (h, hs) = (h, All-map_about P f calls hs)

Makes-part_of :
    {C D W A : Type 0} (P : D → Type 0) (f : C → D) (m : Action C W A)
    → ((w : W) → All (λ c. P (f c)) (m w).calls)
    → Makes P (part_of f m) Anything
unfolding part_of
Makes-part_of P f m h = record { at = λ w. (All-map_about P f (m w).calls (h w), tt) }

All-select : {A : Type 0} (p : A → Bool) (xs : List A) → All (λ x. p x ≡ true) (select p xs)
All-select p [] = tt
All-select p (x ∷ xs) = elim (Bool-cases (p x)) [
  | inl e ↦ rw e (e, All-select p xs)
  | inr e ↦ rw e (All-select p xs)
]

module _ {P : PollCall → Type 0} {W A B : Type 0} where
  -- A call or a draw in front of an action.
  Makes-call_bind :
      {S : B → Type 0} (c : A → PollCall) (run : W → A × W) (f : A → Action PollCall W B)
      → ((a : A) → P (c a))
      → ((a : A) → Makes P (f a) S)
      → Makes P (call c run >>= f) S
  Makes-call_bind c run f h k = Makes-bind (Makes-call c run h) (λ a _. k a)

-- The calls of the synchronization of sent mail, and the events.
unfoldable pub is_sync : PollCall → Bool
is_sync (about mailbox run_id message c) = false
is_sync policy_ensured = false
is_sync (unseen_fetched id) = false
is_sync _ = true

module _ (x : Polling) (P : PollCall → Type 0)
    (quiet : (c : PollCall) → is_sync c ≡ true → P c) where
  note-Makes : (event : ActionEvent) → Makes P (note x event) Anything
  unfolding note is_sync
  note-Makes event = Makes-call _ _ (λ _. quiet _ refl)

  module _ (mailbox : MailboxConfig) (run_id : Text) where
    sync_closed-Makes :
        (action detail : Text) → Makes P (sync_closed x mailbox run_id action detail) Anything
    unfolding sync_closed log_sent_sync_failure
    sync_closed-Makes action detail =
        Makes-bind {R = Anything} (note-Makes _) (λ _ _. Makes-pure false tt)

    recorded_answer-Makes :
        (batch : SentFetchBatch) (answer : Result StorageError (Unit {0}))
        → Makes P (recorded_answer x mailbox run_id batch answer) Anything
    unfolding recorded_answer
    recorded_answer-Makes batch (err e) = sync_closed-Makes _ _
    recorded_answer-Makes batch (ok _) =
        Makes-bind {R = Anything} (note-Makes _) (λ _ _. Makes-pure batch.complete tt)

    batch_answer-Makes :
        (cutoff : ℤ) (answer : Result MailError SentFetchBatch)
        → Makes P (batch_answer x mailbox run_id cutoff answer) Anything
    unfolding batch_answer is_sync
    batch_answer-Makes cutoff (err e) = sync_closed-Makes _ _
    batch_answer-Makes cutoff (ok batch) =
        Makes-call_bind _ _ _ (λ _. quiet _ refl) (recorded_answer-Makes batch)

    state_answer-Makes :
        (answer : Result StorageError (Option SentSyncState))
        → Makes P (state_answer x mailbox run_id answer) Anything
    unfolding state_answer is_sync
    state_answer-Makes (err e) = sync_closed-Makes _ _
    state_answer-Makes (ok state) =
        Makes-bind (Makes-draw x.services.now)
          (λ now _. Makes-call_bind _ _ _ (λ _. quiet _ refl) (batch_answer-Makes _))

    pub sync_sent_mailbox-Makes : Makes P (sync_sent_mailbox x mailbox run_id) Anything
    unfolding sync_sent_mailbox is_sync
    sync_sent_mailbox-Makes =
        Makes-if (mailbox.imap.sent_backfill_days == 0) (Makes-pure true tt)
          (Makes-call_bind _ _ _ (λ _. quiet _ refl) state_answer-Makes)

module _ (x : Polling) (Q : MailboxConfig → Text → InboundMessage → Call → Type 0) where
  pub quiet_about : (c : PollCall) → is_sync c ≡ true → EachAbout Q c
  unfolding is_sync
  quiet_about (about mailbox run_id message c) h = absurd (ground (arith, h))
  quiet_about policy_ensured h = tt
  quiet_about (unseen_fetched id) h = tt
  quiet_about (sync_read id) h = tt
  quiet_about (sent_fetched id) h = tt
  quiet_about (sent_recorded id complete answer) h = tt
  quiet_about (noted event) h = tt

  module _ (config : AppConfig) (mailbox : MailboxConfig) (run_id : Text)
      (each_message : (run_id : Text) (message : InboundMessage)
        → message_matches_accepted_conditions x.is_match message mailbox.accepted_conditions ≡ true
        → (w : x.services.World)
        → All
            (Q mailbox run_id message)
            (process_message x.services config mailbox run_id message w).calls) where
    abbrev IsAccepted : InboundMessage → Type 0
    IsAccepted message =
        message_matches_accepted_conditions x.is_match message mailbox.accepted_conditions ≡ true

    process_messages-Makes :
        (messages : List InboundMessage)
        → All IsAccepted messages
        → Makes (EachAbout Q) (process_messages x config mailbox run_id messages) Anything
    unfolding process_messages
    process_messages-Makes [] h = Makes-pure tt tt
    process_messages-Makes (message ∷ messages) (h, hs) =
        Makes-bind (Makes-draw x.services.new_uuid) (λ message_run_id _.
          Makes-bind {R = Anything}
            (Makes-part_of (EachAbout Q) (about mailbox message_run_id message)
              (process_message x.services config mailbox message_run_id message)
              (each_message message_run_id message h))
            (λ _ _. process_messages-Makes messages hs))

    unseen_answer-Makes :
        (answer : Result MailError (List InboundMessage))
        → Makes (EachAbout Q) (unseen_answer x config mailbox run_id answer) Anything
    unfolding unseen_answer
    unseen_answer-Makes (ok messages) =
        Makes-bind {R = Anything} (note-Makes x (EachAbout Q) quiet_about _) (λ _ _.
          process_messages-Makes (accepted x config mailbox run_id messages) (
            All-select
              (λ message.
                message_matches_accepted_conditions x.is_match message mailbox.accepted_conditions)
              messages))
    unseen_answer-Makes (err e) = note-Makes x (EachAbout Q) quiet_about _

    poll_mailbox-Makes : Makes (EachAbout Q) (poll_mailbox x config mailbox run_id) Anything
    unfolding poll_mailbox process_mailbox
    poll_mailbox-Makes =
        Makes-bind (sync_sent_mailbox-Makes x (EachAbout Q) quiet_about mailbox run_id) (λ synced _.
          Makes-if synced (Makes-call_bind _ _ _ (λ _. tt) unseen_answer-Makes) (Makes-pure tt tt))

  module _ (config : AppConfig) (run_id : Text)
      (each_message : (mailbox : MailboxConfig) (run_id : Text) (message : InboundMessage)
        → mailbox.enabled ≡ true
        → message_matches_accepted_conditions x.is_match message mailbox.accepted_conditions ≡ true
        → (w : x.services.World)
        → All
            (Q mailbox run_id message)
            (process_message x.services config mailbox run_id message w).calls) where
    poll_mailboxes-Makes :
        (mailboxes : List MailboxConfig)
        → All (λ mailbox. mailbox.enabled ≡ true) mailboxes
        → Makes (EachAbout Q) (poll_mailboxes x config run_id mailboxes) Anything
    unfolding poll_mailboxes
    poll_mailboxes-Makes [] h = Makes-pure tt tt
    poll_mailboxes-Makes (mailbox ∷ mailboxes) (h, hs) =
        Makes-bind {R = Anything}
          (poll_mailbox-Makes config mailbox run_id
            (λ id message a. each_message mailbox id message h a))
          (λ _ _. poll_mailboxes-Makes mailboxes hs)

    policy_answer-Makes :
        (answer : Result StorageError (Unit {0}))
        → Makes (EachAbout Q) (policy_answer x config run_id answer) Anything
    unfolding policy_answer
    policy_answer-Makes (err e) = note-Makes x (EachAbout Q) quiet_about _
    policy_answer-Makes (ok _) =
        poll_mailboxes-Makes (enabled_mailboxes config)
          (All-select (λ (mailbox : MailboxConfig). mailbox.enabled) config.mailboxes)

    pub run_once_with_store-Makes :
        Makes (EachAbout Q) (run_once_with_store x config run_id) Anything
    unfolding run_once_with_store
    run_once_with_store-Makes =
        Makes-bind {R = Anything} (note-Makes x (EachAbout Q) quiet_about _)
          (λ _ _. Makes-call_bind _ _ _ (λ _. tt) policy_answer-Makes)
