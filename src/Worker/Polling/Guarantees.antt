-- ===== src/Worker/Polling/Guarantees.antt =====
-- What a run over the mailboxes promises.
use ai_memmail.Prelude.{true, List, [], ◌∷◌, All, ◌≡◌, ℕ_eq}
use ai_memmail.Text.{Text}
use ai_memmail.Config.{AppConfig, MailboxConfig}
use ai_memmail.Mail.{InboundMessage}
use ai_memmail.Mail.Conditions.{message_matches_accepted_conditions}
use ai_memmail.Worker.Services.{Call}
use ai_memmail.Worker.Effects.{Allowed}
use ai_memmail.Worker.Effects.Guarantees.{IsForwardOrApproved, process_message-reviewed}
use ai_memmail.Worker.Polling.{process_message, Polling, run_once_with_store}
use ai_memmail.Worker.Polling.Runs.{EachAbout, run_once_with_store-Makes}

module _ (x : Polling) (config : AppConfig) where
  -- A call about a message that an enabled mailbox accepts; a mail is a forward, or the signed form
  -- of an action that the review approved.
  abbrev pub IsReviewed : MailboxConfig → Text → InboundMessage → Call → Type 0
  IsReviewed mailbox run_id message c =
      (mailbox.enabled ≡ true)
      × (message_matches_accepted_conditions x.is_match message mailbox.accepted_conditions ≡ true)
      × Allowed (IsForwardOrApproved x.services config mailbox run_id message) (λ step. Unit {0}) c

  All-with :
      {A : Type 0} {X Y : Type 0} (P : A → Type 0) (xs : List A)
      → X
      → Y
      → All P xs
      → All (λ a. X × Y × P a) xs
  All-with P [] h k l = tt
  All-with P (a ∷ xs) h k (l, ls) = ((h, k, l), All-with P xs h k ls)

  -- Where the review is switched on, a run deals only with messages that an enabled mailbox
  -- accepts, and each of its mails is a forward or the signed form of an action that the review
  -- approved.
  pub run_once_with_store-IsReviewed :
      (run_id : Text)
      → config.ai.review.enabled ≡ true
      → (w : x.services.World)
      → All (EachAbout IsReviewed) (run_once_with_store x config run_id w).calls
  run_once_with_store-IsReviewed run_id h w =
      ((run_once_with_store-Makes x IsReviewed config run_id
          (λ mailbox id message enabled accepted w.
            All-with
              (Allowed (IsForwardOrApproved x.services config mailbox id message)
                (λ step. Unit {0}))
              (process_message x.services config mailbox id message w).calls enabled accepted
              (process_message-reviewed x.services config mailbox id message h w))).at
        w).0
