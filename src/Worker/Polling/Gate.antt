-- ===== src/Worker/Polling/Gate.antt =====
-- No mail is fetched from a mailbox whose sent mail is not known.
use ai_memmail.Prelude.{
  Bool, true, false, ◌||◌, Option, List, [], ◌∷◌, ◌++◌, any, ◌≡◌, ◌⊎◌, inl, inr, refl, arith, ap,
  ◌==◌, ℕ_eq, if◌then◌else◌, All,
}
use ai_memmail.Prelude.Int.{ℤ}
use ai_memmail.Prelude.Result.{Result, ok, err}
use ai_memmail.Text.{Text}
use ai_memmail.Config.{AppConfig, MailboxConfig}
use ai_memmail.Mail.{MailError}
use ai_memmail.Storage.{StorageError}
use ai_memmail.Worker.Action.{pure, call, draw, ◌>>=◌}
use ai_memmail.Worker.Polling.Runs.{is_sync, sync_sent_mailbox-Makes}
use ai_memmail.Worker.Polling.{
  Polling, PollCall, sync_read, sent_recorded, unseen_fetched, SentFetchBatch, SentSyncState, P,
  sync_closed, recorded_answer, batch_answer, state_answer, sync_sent_mailbox, process_mailbox,
  poll_mailbox,
}

unfoldable pub is_unseen : PollCall → Bool
is_unseen (unseen_fetched id) = true
is_unseen _ = false

abbrev is_ok : Result StorageError (Unit {0}) → Bool
is_ok (ok _) = true
is_ok (err e) = false

-- The last batch of sent mail was recorded.
unfoldable pub is_complete : PollCall → Bool
is_complete (sent_recorded id true answer) = is_ok answer
is_complete _ = false

module _ (x : Polling) (mailbox : MailboxConfig) (run_id : Text) where
  closed_false :
      (action detail : Text) (w : x.services.World)
      → (sync_closed x mailbox run_id action detail w).result ≡ false
  unfolding sync_closed ◌>>=◌ pure
  closed_false action detail w = refl

  closed_absurd :
      {C : Type 0} (action detail : Text) (w : x.services.World)
      → (sync_closed x mailbox run_id action detail w).result ≡ true
      → C
  closed_absurd action detail w h = absurd (ground (arith, closed_false action detail w, h))

  recorded_true :
      (batch : SentFetchBatch) (answer : Result StorageError (Unit {0})) (w : x.services.World)
      → (recorded_answer x mailbox run_id batch answer w).result ≡ true
      → is_complete (sent_recorded mailbox.id batch.complete answer) ≡ true
  unfolding recorded_answer ◌>>=◌ pure is_complete
  recorded_true batch (ok _) w h = ground arith
  recorded_true batch (err e) w h = closed_absurd _ e.message w h

  batch_true :
      (cutoff : ℤ) (answer : Result MailError SentFetchBatch) (w : x.services.World)
      → (batch_answer x mailbox run_id cutoff answer w).result ≡ true
      → any is_complete (batch_answer x mailbox run_id cutoff answer w).calls ≡ true
  unfolding batch_answer ◌>>=◌ call
  batch_true cutoff (ok batch) w h =
      ap
        (λ b.
          b
          || any is_complete
              (recorded_answer x mailbox run_id batch
                (x.record_sent_batch mailbox.id cutoff batch w).0
                (x.record_sent_batch mailbox.id cutoff batch w).1).calls)
        (recorded_true batch _ _ h)
  batch_true cutoff (err e) w h = closed_absurd _ _ w h

  state_true :
      (answer : Result StorageError (Option SentSyncState)) (w : x.services.World)
      → (state_answer x mailbox run_id answer w).result ≡ true
      → any is_complete (state_answer x mailbox run_id answer w).calls ≡ true
  unfolding state_answer ◌>>=◌ call draw is_complete
  state_true (ok state) w h = batch_true _ _ _ h
  state_true (err e) w h = closed_absurd _ _ w h

  abbrev read_sync : P x Bool
  read_sync =
      call (λ _. sync_read mailbox.id) (x.sent_sync_state mailbox.id)
      >>= state_answer x mailbox run_id

  if_true :
      (off : Bool) (w : x.services.World)
      → ((if off then pure true else read_sync) w).result ≡ true
      → (off ≡ true) ⊎ (any is_complete ((if off then pure true else read_sync) w).calls ≡ true)
  unfolding ◌>>=◌ call is_complete
  if_true true w h = inl refl
  if_true false w h = inr (state_true _ _ h)

  synced_true :
      (w : x.services.World)
      → (sync_sent_mailbox x mailbox run_id w).result ≡ true
      → (mailbox.imap.sent_backfill_days ≡ 0)
        ⊎ (any is_complete (sync_sent_mailbox x mailbox run_id w).calls ≡ true)
  unfolding sync_sent_mailbox
  synced_true w h = elim (if_true (mailbox.imap.sent_backfill_days == 0) w h) [
    | inl off ↦ inl ((ℕ_eq.beq_iff mailbox.imap.sent_backfill_days 0).0 off)
    | inr complete ↦ inr complete
  ]

any-append :
    {A : Type 0} (p : A → Bool) (xs ys : List A) → any p (xs ++ ys) ≡ (any p xs || any p ys)
any-append p [] ys = refl
any-append p (x ∷ xs) ys = ground (arith, any-append p xs ys)

abbrev IsOther : PollCall → Type 0
IsOther c = is_unseen c ≡ false

quiet-IsOther : (c : PollCall) → is_sync c ≡ true → IsOther c
unfolding is_sync is_unseen
quiet-IsOther c h = ground arith

none_unseen : (calls : List PollCall) → All IsOther calls → any is_unseen calls ≡ false
none_unseen [] h = refl
none_unseen (c ∷ calls) (h, hs) = ground (arith, none_unseen calls hs)

module _ (x : Polling) (config : AppConfig) (mailbox : MailboxConfig) (run_id : Text) where
  abbrev next : Bool → P x (Unit {0})
  next synced = if synced then process_mailbox x config mailbox run_id else pure tt

  -- What is fetched behind the synchronization is fetched because it succeeded.
  next_unseen :
      (synced : Bool) (w : x.services.World)
      → any is_unseen (next synced w).calls ≡ true
      → synced ≡ true
  unfolding pure
  next_unseen true w h = refl
  next_unseen false w h = ground arith

  -- Unseen mail is fetched from a mailbox only if it keeps no history of sent mail, or behind a
  -- synchronization that recorded the last batch of it without an error.
  pub poll_mailbox-synced :
      (w : x.services.World)
      → any is_unseen (poll_mailbox x config mailbox run_id w).calls ≡ true
      → (mailbox.imap.sent_backfill_days ≡ 0)
        ⊎ (any is_complete (sync_sent_mailbox x mailbox run_id w).calls ≡ true)
  unfolding poll_mailbox ◌>>=◌
  poll_mailbox-synced w h =
      let sync = sync_sent_mailbox x mailbox run_id w in
      let later = next sync.result sync.world in
      let quiet =
        none_unseen sync.calls
          ((sync_sent_mailbox-Makes x IsOther quiet-IsOther mailbox run_id).at w).0 in
      synced_true x mailbox run_id w (
        next_unseen sync.result sync.world
          (ground (arith, any-append is_unseen sync.calls later.calls, quiet, h)))
