-- ===== src/Worker/Polling/Limits.antt =====
-- How many mails one poll of a mailbox sends.
use ai_memmail.Prelude.{
  ℕ, ◌+◌, ◌≤◌, Bool, true, false, List, [], ◌∷◌, ◌++◌, map, select, length, All, ◌≡◌, refl, arith,
  if◌then◌else◌,
}
use ai_memmail.Prelude.Result.{Result, ok, err}
use ai_memmail.Text.{Text}
use ai_memmail.Config.{AppConfig, MailboxConfig}
use ai_memmail.Mail.{InboundMessage, MailError}
use ai_memmail.Worker.Action.{Action, pure, call, draw, ◌>>=◌}
use ai_memmail.Worker.Services.{Call}
use ai_memmail.Worker.Process.{process_message}
use ai_memmail.Worker.Protocol.Balance.{total}
use ai_memmail.Worker.Protocol.Counts.{weight_of, count, is_sent}
use ai_memmail.Worker.Protocol.Traces.{process_message-sent}
use ai_memmail.Worker.Polling.{
  message_matches_accepted_conditions, ActionEvent, Polling, PollCall, policy_ensured, sync_read,
  sent_fetched, sent_recorded, unseen_fetched, about, noted, part_of, note, sync_sent_mailbox,
  process_messages, accepted, unseen_answer, process_mailbox, poll_mailbox,
}
use ai_memmail.Worker.Polling.Runs.{EachAbout, sync_sent_mailbox-Makes, quiet_about}

unfoldable pub is_mail : PollCall → ℕ
unfolding is_sent
is_mail (about mailbox run_id message c) = weight_of is_sent c
is_mail _ = 0

-- How often SMTP was asked to send a mail.
unfoldable pub mails : List PollCall → ℕ
unfolding is_mail
mails [] = 0
mails (c ∷ calls) = is_mail c + mails calls

mails-append : (cs ds : List PollCall) → mails (cs ++ ds) ≡ mails cs + mails ds
unfolding mails
mails-append [] ds = omega arith
mails-append (c ∷ cs) ds = omega (arith, mails-append cs ds)

mails-about :
    (mailbox : MailboxConfig) (run_id : Text) (message : InboundMessage) (calls : List Call)
    → mails (map (about mailbox run_id message) calls) ≡ count is_sent calls
unfolding mails is_mail total
mails-about mailbox run_id message [] = refl
mails-about mailbox run_id message (c ∷ calls) =
    omega (arith, mails-about mailbox run_id message calls)

-- Calls none of which is about a message.
mails-none : (calls : List PollCall) → All (EachAbout (λ _ _ _ _. ⊥)) calls → mails calls ≡ 0
unfolding mails is_mail
mails-none [] h = refl
mails-none (about mailbox run_id message c ∷ calls) (h, hs) = absurd h
mails-none (policy_ensured ∷ calls) (h, hs) = omega (arith, mails-none calls hs)
mails-none (sync_read id ∷ calls) (h, hs) = omega (arith, mails-none calls hs)
mails-none (sent_fetched id ∷ calls) (h, hs) = omega (arith, mails-none calls hs)
mails-none (sent_recorded id complete answer ∷ calls) (h, hs) = omega (arith, mails-none calls hs)
mails-none (unseen_fetched id ∷ calls) (h, hs) = omega (arith, mails-none calls hs)
mails-none (noted event ∷ calls) (h, hs) = omega (arith, mails-none calls hs)

length-select : {A : Type 0} (p : A → Bool) (xs : List A) → length (select p xs) ≤ length xs
length-select p [] = omega arith
length-select p (x ∷ xs) = ground (arith, length-select p xs)

module _ {W A B : Type 0} where
  mails-bind :
      (m : Action PollCall W A) (f : A → Action PollCall W B) (w : W)
      → mails ((m >>= f) w).calls ≡ mails (m w).calls + mails (f (m w).result (m w).world).calls
  unfolding ◌>>=◌
  mails-bind m f w = mails-append (m w).calls (f (m w).result (m w).world).calls

module _ {W A : Type 0} where
  mails-pure : (a : A) (w : W) → mails (pure a w).calls ≡ 0
  unfolding pure mails
  mails-pure a w = refl

  mails-draw : (run : W → A × W) (w : W) → mails (draw run w).calls ≡ 0
  unfolding draw mails
  mails-draw run w = refl

module _ {W A : Type 0} where
  mails-call :
      (c : A → PollCall) (run : W → A × W) (w : W)
      → ((a : A) → is_mail (c a) ≡ 0)
      → mails (call c run w).calls ≡ 0
  unfolding call mails
  mails-call c run w h = omega (arith, h (run w).0)

-- The transport gives no more messages than it is asked for.
abbrev pub FetchesAtMost : Polling → Type 0
FetchesAtMost x =
    (mailbox : MailboxConfig) (limit : ℕ) (w : x.services.World) (messages : List InboundMessage)
    → (x.fetch_unseen mailbox limit w).0 ≡ ok messages
    → length messages ≤ limit

module _ (x : Polling) (config : AppConfig) (mailbox : MailboxConfig) (run_id : Text) where
  abbrev one_message :
      InboundMessage → List InboundMessage → Text → Action PollCall x.services.World (Unit {0})
  one_message message messages id =
      part_of (about mailbox id message) (process_message x.services config mailbox id message)
      >>= λ _. process_messages x config mailbox run_id messages

  message-mails :
      (id : Text) (message : InboundMessage) (w : x.services.World)
      → mails
          (part_of
            (about mailbox id message)
            (process_message x.services config mailbox id message)
            w).calls
        ≤ 1
  unfolding part_of
  message-mails id message w = omega (
    arith,
    mails-about mailbox id message (process_message x.services config mailbox id message w).calls,
    (process_message-sent x.services config mailbox id message w).0,
    (process_message-sent x.services config mailbox id message w).1,
  )

  process_messages-mails :
      (messages : List InboundMessage) (w : x.services.World)
      → mails (process_messages x config mailbox run_id messages w).calls ≤ length messages
  unfolding process_messages
  process_messages-mails [] w = omega (arith, mails-pure tt w)
  process_messages-mails (message ∷ messages) w =
      let drawn : Action PollCall x.services.World Text = draw x.services.new_uuid in
      let id = (drawn w).result in
      let w1 = (drawn w).world in
      let first =
        part_of (about mailbox id message) (process_message x.services config mailbox id message) in
      let rest = λ (_ : Unit {0}). process_messages x config mailbox run_id messages in
      omega (
        arith,
        mails-draw x.services.new_uuid w,
        mails-bind drawn (one_message message messages) w,
        mails-bind first rest w1,
        message-mails id message w1,
        process_messages-mails messages (first w1).world,
      )

  note-mails : (event : ActionEvent) (w : x.services.World) → mails (note x event w).calls ≡ 0
  unfolding note is_mail
  note-mails event w = mails-call _ _ w (λ _. refl)

  unseen_answer-mails :
      (answer : Result MailError (List InboundMessage)) (w : x.services.World)
      → ((messages : List InboundMessage) → answer ≡ ok messages → length messages ≤ 10)
      → mails (unseen_answer x config mailbox run_id answer w).calls ≤ 10
  unfolding unseen_answer
  unseen_answer-mails (ok messages) w h =
      let chosen = accepted x config mailbox run_id messages in
      let rest = λ (_ : Unit {0}). process_messages x config mailbox run_id chosen in
      omega (
        arith,
        mails-bind (note x _) rest w,
        note-mails _ w,
        process_messages-mails chosen (note x _ w).world,
        length-select
            (λ message.
              message_matches_accepted_conditions x.is_match message mailbox.accepted_conditions)
            messages,
        h messages refl,
      )
  unseen_answer-mails (err e) w h = omega (arith, note-mails _ w)

  process_mailbox-mails :
      (w : x.services.World)
      → FetchesAtMost x
      → mails (process_mailbox x config mailbox run_id w).calls ≤ 10
  unfolding process_mailbox call is_mail
  process_mailbox-mails w h =
      let fetched : Action PollCall x.services.World (Result MailError (List InboundMessage)) =
        call (λ _. unseen_fetched mailbox.id) (x.fetch_unseen mailbox 10) in
      omega (
        arith,
        mails-bind fetched (unseen_answer x config mailbox run_id) w,
        mails-call (λ _. unseen_fetched mailbox.id) (x.fetch_unseen mailbox 10) w (λ _. refl),
        unseen_answer-mails (fetched w).result (fetched w).world
            (λ messages e. h mailbox 10 w messages e),
      )

  synced-mails :
      (synced : Bool) (w : x.services.World)
      → FetchesAtMost x
      → mails ((if synced then process_mailbox x config mailbox run_id else pure tt) w).calls ≤ 10
  synced-mails true w h = process_mailbox-mails w h
  synced-mails false w h = omega (arith, mails-pure tt w)

  -- If the transport gives no more messages than it is asked for, then one poll of a mailbox sends
  -- at most ten mails, whatever the other services answer.
  pub poll_mailbox-mails :
      (w : x.services.World)
      → FetchesAtMost x
      → mails (poll_mailbox x config mailbox run_id w).calls ≤ 10
  unfolding poll_mailbox
  poll_mailbox-mails w h =
      let sync = sync_sent_mailbox x mailbox run_id in
      let rest =
        λ (synced : Bool). if synced then process_mailbox x config mailbox run_id else pure tt in
      omega (
        arith,
        mails-bind sync rest w,
        mails-none (sync w).calls
            ((sync_sent_mailbox-Makes x (EachAbout (λ _ _ _ _. ⊥)) (quiet_about x (λ _ _ _ _. ⊥))
                mailbox run_id).at
              w).0,
        synced-mails (sync w).result (sync w).world h,
      )
