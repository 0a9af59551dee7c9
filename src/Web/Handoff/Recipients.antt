-- ===== src/Web/Handoff/Recipients.antt =====
-- To whom a thread is handed off.
use mathlib.Core.List.{Memᴰ}
use mathlib.Core.List.Memᴰ.{head, tail}
use ai_memmail.Prelude.{
  All, String_eq, Bool, true, false, Option, none, some, List, [], ◌∷◌, find, if◌then◌else◌, ◌==◌,
  ◌≡◌, refl, arith,
}
use ai_memmail.Prelude.Result.{Result, ok, err}
use ai_memmail.Text.{Text, Text_eq, trim, eq_ignore_ascii_case}
use ai_memmail.Config.{MailboxConfig, AppConfig}
use ai_memmail.Mail.{OutboundAction, MailError, forward, ThreadMessage, ThreadContext}
use ai_memmail.Mail.Parser.{reply_recipient}
use ai_memmail.Mail.Forwarding.{thread_handoff_body}
use ai_memmail.Storage.{ThreadHandoffDelivery}
use ai_memmail.Worker.Services.{Operation}
use ai_memmail.Worker.Effects.{
  Makes, Makes-pure, Makes-draw, Makes-call, Makes-bind, Makes-if, Anything,
}
use ai_memmail.Worker.Effects.Quiet.{IfOk}
use ai_memmail.Worker.Handoff.{latest_inbound}
use ai_memmail.Web.Handoff.{
  StoreError, ApiError, ThreadHandoffSource, HandoffRequest, HandoffServices, WebCall, store_read,
  event_stored, begun, mailed, closed, validate_handoff_destination, validate_handoff_target,
  handoff_action, action_for, action_of, A, try, built, ask,
}
use ai_memmail.Web.Handoff.Create.{
  H, find_mailbox, mailbox_found, handoff_summary, log_handoff_event, sent_answer, delivered,
  hand_off, create_handoff,
}

abbrev OtherThan : Text → Text → Type 0
OtherThan s t = eq_ignore_ascii_case s t ≡ false

-- The address of a request, for a mailbox.
abbrev pub IsFreeAddress : HandoffServices → MailboxConfig → Text → Text → Type 0
IsFreeAddress x mailbox asked destination =
    (x.parse_mailbox (trim asked) ≡ ok destination)
    × OtherThan destination (reply_recipient x.parser mailbox.address)
    × OtherThan destination (reply_recipient x.parser mailbox.smtp.from)

-- A forward to one address, which answers to another.
abbrev pub IsForwardTo : Text → Text → OutboundAction → Type 0
IsForwardTo destination target action =
    (action.kind ≡ forward)
    × (action.recipients ≡ destination ∷ [])
    × (action.reply_to ≡ some target)

abbrev pub IsHandedOff : HandoffServices → AppConfig → Text → OutboundAction → Type 0
IsHandedOff x config asked action =
    (mailbox : MailboxConfig) × (destination : Text) × (target : Text) × Memᴰ mailbox
      config.mailboxes
    × IsFreeAddress x mailbox asked destination
    × IsForwardTo destination target action
    × OtherThan destination target

abbrev pub Handed : HandoffServices → AppConfig → Text → WebCall → Type 0
Handed x config asked (mailed action answer) = IsHandedOff x config asked action
Handed x config asked store_read = Unit
Handed x config asked event_stored = Unit
Handed x config asked (begun delivery) = Unit
Handed x config asked (closed status) = Unit

module _ (parser_of : HandoffServices) (mailbox : MailboxConfig) (asked : Text) where
  validate_handoff_destination-IsFreeAddress :
      IfOk
        (IsFreeAddress parser_of mailbox asked)
        (validate_handoff_destination parser_of.parser parser_of.parse_mailbox mailbox asked)
  unfolding validate_handoff_destination
  validate_handoff_destination-IsFreeAddress = ground arith

validate_handoff_target-OtherThan :
    (destination target : Text)
    → IfOk (λ _. OtherThan destination target) (validate_handoff_target destination target)
unfolding validate_handoff_target
validate_handoff_target-OtherThan destination target = ground arith

action_of-IsForwardTo :
    (mailbox : MailboxConfig) (destination target uuid : Text) (latest : ThreadMessage)
    (body : Result MailError Text)
    → IfOk
        (IsForwardTo destination target)
        (built (action_of mailbox destination target uuid latest body))
action_of-IsForwardTo mailbox destination target uuid latest (ok body) = (refl, refl, refl)
action_of-IsForwardTo mailbox destination target uuid latest (err e) = tt

action_for-IsForwardTo :
    (mailbox : MailboxConfig) (context : ThreadContext) (destination target uuid : Text)
    (latest : Option ThreadMessage)
    → IfOk
        (IsForwardTo destination target)
        (built (action_for mailbox context destination target uuid latest))
action_for-IsForwardTo mailbox context destination target uuid none = tt
action_for-IsForwardTo mailbox context destination target uuid (some latest) =
    action_of-IsForwardTo mailbox destination target uuid latest (thread_handoff_body context)

handoff_action-IsForwardTo :
    (mailbox : MailboxConfig) (context : ThreadContext) (destination target uuid : Text)
    → IfOk
        (IsForwardTo destination target)
        (built (handoff_action mailbox context destination target uuid))
unfolding handoff_action
handoff_action-IsForwardTo mailbox context destination target uuid =
    action_for-IsForwardTo mailbox context destination target uuid (latest_inbound context.messages)

find-Mem :
    (p : MailboxConfig → Bool) (xs : List MailboxConfig) (mailbox : MailboxConfig)
    → find p xs ≡ some mailbox
    → Memᴰ mailbox xs
find-Mem p [] mailbox h = absurd (ground (arith, h))
find-Mem p (x ∷ xs) mailbox h = from (p x) (find-Mem p xs mailbox) h
  where
    from :
        (b : Bool)
        → (find p xs ≡ some mailbox → Memᴰ mailbox xs)
        → (if b then some x else find p xs) ≡ some mailbox
        → Memᴰ mailbox (x ∷ xs)
    from true later k = head (ground (arith, k))
    from false later k = tail (later k)

found-Mem :
    (xs : List MailboxConfig) (id : Text) (o : Option MailboxConfig)
    → ((mailbox : MailboxConfig) → o ≡ some mailbox → Memᴰ mailbox xs)
    → IfOk (λ (mailbox : MailboxConfig). Memᴰ mailbox xs) (mailbox_found id o)
found-Mem xs id none h = tt
found-Mem xs id (some mailbox) h = h mailbox refl

find_mailbox-Mem :
    (config : AppConfig) (id : Text)
    → IfOk (λ (mailbox : MailboxConfig). Memᴰ mailbox config.mailboxes) (find_mailbox config id)
unfolding find_mailbox
find_mailbox-Mem config id = found-Mem config.mailboxes id _ (find-Mem _ config.mailboxes)

module _ {W : Type 0} {P : WebCall → Type 0} where
  Makes-try :
      {R S : Type 0} {Q : R → Type 0} {m : A W R} {f : R → A W S}
      → Makes P m (IfOk Q)
      → ((a : R) → Q a → Makes P (f a) Anything)
      → Makes P (try m f) Anything
  unfolding try
  Makes-try km kf = Makes-bind km (elim [ ok a ↦ λ h. kf a h | err e ↦ λ h. Makes-pure (err e) tt ])

module _ {W R : Type 0} {P : WebCall → Type 0} where
  Makes-ask :
      (note : Result StoreError R → WebCall) (run : Operation W StoreError R)
      → ((answer : Result StoreError R) → P (note answer))
      → Makes P (ask note run) (IfOk Anything)
  unfolding ask
  Makes-ask note run h =
      Makes-bind (Makes-call note run h)
        (elim [ ok a ↦ λ h. Makes-pure (ok a) tt | err e ↦ λ h. Makes-pure _ tt ])

module _ (x : HandoffServices) (config : AppConfig) (asked : Text) where
  abbrev Says : {R : Type 0} → H x R → Type 0
  Says m = Makes (Handed x config asked) m Anything

  handoff_summary-Says : (source : ThreadHandoffSource) → Says (handoff_summary x source)
  unfolding handoff_summary
  handoff_summary-Says source = Makes-try (Makes-ask _ _ (λ _. tt)) (λ handoff _. Makes-pure _ tt)

  sent_answer-Says :
      (source : ThreadHandoffSource) (request_id destination : Text)
      (answer : Result MailError (Unit {0}))
      → Says (sent_answer x source request_id destination answer)
  unfolding sent_answer log_handoff_event
  sent_answer-Says source request_id destination (ok _) =
      Makes-try (Makes-ask _ _ (λ _. tt))
        (λ _ _. Makes-try (Makes-ask _ _ (λ _. tt)) (λ _ _. handoff_summary-Says source))
  sent_answer-Says source request_id destination (err e) =
      Makes-try (Makes-ask _ _ (λ _. tt))
        (λ _ _. Makes-try (Makes-ask _ _ (λ _. tt)) (λ _ _. Makes-pure _ tt))

  delivered-Says :
      (source : ThreadHandoffSource) (mailbox : MailboxConfig) (request_id destination : Text)
      (action : OutboundAction)
      → IsHandedOff x config asked action
      → (delivery : ThreadHandoffDelivery)
      → Says (delivered x source mailbox request_id destination action delivery)
  delivered-Says source mailbox request_id destination action h delivery =
      Makes-if (delivery.status == "sent") (handoff_summary-Says source) (
        Makes-bind (Makes-call (mailed action) _ (λ _. h))
          (λ answer _. sent_answer-Says source request_id destination answer))

  hand_off-Says :
      (source : ThreadHandoffSource) (mailbox : MailboxConfig)
      (request_id destination target : Text)
      → Memᴰ mailbox config.mailboxes
      → IsFreeAddress x mailbox asked destination
      → Says (hand_off x source mailbox request_id destination target)
  unfolding hand_off
  hand_off-Says source mailbox request_id destination target m d =
      Makes-try (Makes-pure _ (validate_handoff_target-OtherThan destination target)) (λ _ differs.
        Makes-try (Makes-ask _ _ (λ _. tt)) (λ context _.
          Makes-bind (Makes-draw x.new_uuid) (λ uuid _.
            Makes-try
              (Makes-pure _ (handoff_action-IsForwardTo mailbox context destination target uuid))
              (λ action h. Makes-try (Makes-ask _ _ (λ _. tt)) (λ delivery _.
                delivered-Says source mailbox request_id destination action
                  (mailbox, destination, target, m, d, h, differs) delivery)))))

always : {R : Type 0} (r : Result ApiError R) → IfOk Anything r
always (ok a) = tt
always (err e) = tt

module _ (x : HandoffServices) where
  -- Each mail of a handoff from the portal is a forward to the one address that the request names,
  -- which answers to another one; the address is neither that one nor an address of the mailbox,
  -- which is one of the configured mailboxes.
  pub create_handoff-IsHandedOff :
      (config : AppConfig) (authorized : Result ApiError (Unit {0})) (run_id : Text)
      (request : HandoffRequest) (w : x.World)
      → All
          (Handed x config request.destination)
          (create_handoff x config authorized run_id request w).calls
  unfolding create_handoff
  create_handoff-IsHandedOff config authorized run_id request w =
      ((Makes-try (Makes-pure authorized (always authorized)) (λ _ _.
          Makes-try (Makes-ask _ _ (λ _. tt)) (λ _ _.
            Makes-try (Makes-ask _ _ (λ _. tt)) (λ source _.
              Makes-try (Makes-pure _ (find_mailbox-Mem config source.mailbox_id)) (λ mailbox m.
                Makes-try
                  (Makes-pure _
                    (validate_handoff_destination-IsFreeAddress x mailbox request.destination))
                  (λ destination d. Makes-try (Makes-ask _ _ (λ _. tt)) (λ _ _.
                    Makes-try (Makes-ask _ _ (λ _. tt)) (λ target _.
                      hand_off-Says x config request.destination source mailbox request.request_id
                        destination (reply_recipient x.parser target) m d)))))))).at
        w).0
