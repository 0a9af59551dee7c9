-- ===== src/Mail/Conditions/Prefilter.antt =====
-- The search on the server leaves out no message that the conditions let in.
use ai_memmail.Prelude.{
  ◌∙◌, ◌==◌, ap, Bool-cases, ◌⊎◌, inr, sym, inl, put, subst, Bool, true, false, ◌||◌, Option, none,
  some, List, [], ◌∷◌, ◌++◌, any, contains, All, ◌≡◌, ◌≢◌, refl, arith, if◌then◌else◌, ==-refl,
}
use ai_memmail.Text.{Text, Text_eq}
use ai_memmail.Config.{AcceptedCondition}
use ai_memmail.Mail.{InboundMessage}
use ai_memmail.Mail.Conditions.{
  normalize_email_address, normalized, any_recipient, condition_recipients_match,
  accepted_condition_matches, message_matches_accepted_conditions, push_unique,
  push_unique_normalized_address, push_recipients, push_conditions,
  accepted_condition_recipient_filter_values,
}

contains-append :
    (xs ys : List Text) (a : Text) → contains (xs ++ ys) a ≡ (contains xs a || contains ys a)
unfolding contains
contains-append [] ys a = refl
contains-append (x ∷ xs) ys a = ground (arith, contains-append xs ys a)

push_unique_keeps :
    (found : List Text) (value : Option Text) (a : Text)
    → contains found a ≡ true
    → contains (push_unique found value) a ≡ true
unfolding push_unique
push_unique_keeps found none a h = h
push_unique_keeps found (some address) a h = kept (contains found address) h
  where
    kept :
        (b : Bool)
        → contains found a ≡ true
        → contains (if b then found else found ++ address ∷ []) a ≡ true
    kept true h = h
    kept false h = ground (arith, contains-append found (address ∷ []) a)

push_unique_adds : (found : List Text) (a : Text) → contains (push_unique found (some a)) a ≡ true
unfolding push_unique contains
push_unique_adds found a = ground (arith, contains-append found (a ∷ []) a, ==-refl a)

push_recipients_keeps :
    (found recipients : List Text) (a : Text)
    → contains found a ≡ true
    → contains (push_recipients found recipients) a ≡ true
unfolding push_recipients push_unique_normalized_address
push_recipients_keeps found [] a h = h
push_recipients_keeps found (recipient ∷ recipients) a h =
    push_recipients_keeps (push_unique_normalized_address found recipient) recipients a
      (push_unique_keeps found (normalize_email_address recipient) a h)

push_conditions_keeps :
    (found : List Text) (conditions : List AcceptedCondition) (a : Text)
    → contains found a ≡ true
    → contains (push_conditions found conditions) a ≡ true
unfolding push_conditions
push_conditions_keeps found [] a h = h
push_conditions_keeps found (condition ∷ conditions) a h =
    push_conditions_keeps (push_recipients found condition.recipients) conditions a
      (push_recipients_keeps found condition.recipients a h)

-- An address that a list has in front of others is the first one or among the others.
put_cases :
    (value : Option Text) (xs : List Text) (a : Text)
    → contains (put value xs) a ≡ true
    → (value ≡ some a) ⊎ (contains xs a ≡ true)
unfolding contains
put_cases none xs a h = inr h
put_cases (some b) xs a h = elim (Bool-cases (b == a)) [
  | inl e ↦ inl (ap some ((Text_eq.beq_iff b a).0 e))
  | inr e ↦ inr (ground arith)
]

push_now :
    (found : List Text) (recipient a : Text)
    → normalize_email_address recipient ≡ some a
    → contains (push_unique_normalized_address found recipient) a ≡ true
unfolding push_unique_normalized_address
push_now found recipient a h =
    subst (λ o. contains (push_unique found o) a ≡ true) (sym h) (push_unique_adds found a)

push_recipients_adds :
    (found recipients : List Text) (a : Text)
    → contains (normalized recipients) a ≡ true
    → contains (push_recipients found recipients) a ≡ true
unfolding push_recipients normalized contains
push_recipients_adds found [] a h = ground arith
push_recipients_adds found (recipient ∷ recipients) a h =
    elim (put_cases (normalize_email_address recipient) (normalized recipients) a h) [
      | inl now ↦
          push_recipients_keeps (push_unique_normalized_address found recipient) recipients a
            (push_now found recipient a now)
      | inr later ↦
          push_recipients_adds (push_unique_normalized_address found recipient) recipients a later
    ]

-- A condition with a recipient that names an address.
abbrev pub NamesRecipient : AcceptedCondition → Type 0
NamesRecipient condition = normalized condition.recipients ≢ []

any_of :
    (candidates found : List Text) (r : Text)
    → contains candidates r ≡ true
    → contains found r ≡ true
    → any (contains found) candidates ≡ true
unfolding contains
any_of [] found r h k = ground arith
any_of (c ∷ candidates) found r h k = elim (Bool-cases (c == r)) [
  | inl same ↦
      ap (λ b. b || any (contains found) candidates)
        (ap (contains found) ((Text_eq.beq_iff c r).0 same) ∙ k)
  | inr other ↦ ground (arith, any_of candidates found r (ground arith) k)
]

any_recipient-named :
    (accepted candidates : List Text)
    → accepted ≢ []
    → any_recipient accepted candidates ≡ any (contains candidates) accepted
unfolding any_recipient
any_recipient-named [] candidates h = absurd (h refl)
any_recipient-named (r ∷ accepted) candidates h = refl

any_found :
    (accepted candidates found : List Text)
    → ((a : Text) → contains accepted a ≡ true → contains found a ≡ true)
    → any (contains candidates) accepted ≡ true
    → any (contains found) candidates ≡ true
unfolding contains
any_found [] candidates found h e = ground arith
any_found (r ∷ accepted) candidates found h e = elim (Bool-cases (contains candidates r)) [
  | inl here ↦ any_of candidates found r here (h r (ground (arith, ==-refl r)))
  | inr other ↦ any_found accepted candidates found (λ a k. h a (ground arith)) (ground arith)
]

recipients_found :
    (message : InboundMessage) (condition : AcceptedCondition) (found : List Text)
    → NamesRecipient condition
    → condition_recipients_match message condition ≡ true
    → ((a : Text) → contains (normalized condition.recipients) a ≡ true → contains found a ≡ true)
    → any (contains found) (normalized message.metadata.recipients) ≡ true
unfolding condition_recipients_match
recipients_found message condition found named e h =
    let accepted = normalized condition.recipients in
    let candidates = normalized message.metadata.recipients in
    any_found accepted candidates found h (sym (any_recipient-named accepted candidates named) ∙ e)

-- The conditions from one on: the recipients of each are found behind `found`.
matches_found :
    (is_match : Text → Text → Bool) (message : InboundMessage) (found : List Text)
    (conditions : List AcceptedCondition)
    → All NamesRecipient conditions
    → any (accepted_condition_matches is_match message) conditions ≡ true
    → any (contains (push_conditions found conditions)) (normalized message.metadata.recipients)
      ≡ true
unfolding push_conditions accepted_condition_matches
matches_found is_match message found [] h e = ground arith
matches_found is_match message found (condition ∷ conditions) (h, hs) e =
    elim (Bool-cases (condition_recipients_match message condition)) [
      | inl here ↦
          recipients_found message condition (push_conditions found (condition ∷ conditions)) h here
            (λ a k.
              push_conditions_keeps (push_recipients found condition.recipients) conditions a
                (push_recipients_adds found condition.recipients a k))
      | inr other ↦
          matches_found is_match message (push_recipients found condition.recipients) conditions hs
            (ground arith)
    ]

-- Where each condition names a recipient, a message that the conditions let in is addressed to one
-- of the recipients that the search on the server is narrowed to.
pub message_matches_accepted_conditions-found :
    (is_match : Text → Text → Bool) (message : InboundMessage) (conditions : List AcceptedCondition)
    → conditions ≢ []
    → All NamesRecipient conditions
    → message_matches_accepted_conditions is_match message conditions ≡ true
    → any
        (contains (accepted_condition_recipient_filter_values conditions))
        (normalized message.metadata.recipients)
      ≡ true
unfolding message_matches_accepted_conditions accepted_condition_recipient_filter_values
message_matches_accepted_conditions-found is_match message [] some_given h e =
    absurd (some_given refl)
message_matches_accepted_conditions-found is_match message (c ∷ conditions) some_given h e =
    matches_found is_match message [] (c ∷ conditions) h e
