-- ===== src/Mail/Conditions.antt =====
-- mail.rs: which messages the accepted conditions of a mailbox let in, and which recipients the
-- search on the server may be narrowed to. The regex crate is a parameter: whether a pattern
-- compiles and matches a subject.
pub mod Prefilter
use ai_memmail.Prelude.{
  ℕ, Bool, true, false, not, ◌&&◌, ◌||◌, Option, none, some, List, [], ◌∷◌, ◌++◌, any, all,
  is_empty, filter_map, contains, list_beq, if◌then◌else◌, ◌==◌, ℕ_eq, ◌≡◌, refl,
}
use ai_memmail.Text.{
  Text, Text_eq, text, trim, trim_matches, rsplit_once, contains_char, to_ascii_lowercase,
}
use ai_memmail.Config.{AcceptedCondition}
use ai_memmail.Mail.{InboundMessage}

-- What stands behind the last `<` and before the last `>`, if these stand in this order.
abbrev pub inside : Text → Option (Text × Text) → Text
inside whole none = whole
inside whole (some (before, behind)) = before

unfoldable pub bracketed : Text → Option (Text × Text) → Text
unfolding rsplit_once
bracketed whole none = whole
bracketed whole (some (before, behind)) = inside whole (rsplit_once behind b'>')

unfoldable pub normalize_email_address : Text → Option Text
unfolding trim trim_matches rsplit_once contains_char to_ascii_lowercase bracketed
normalize_email_address value =
    let trimmed = trim value in
    let found = bracketed trimmed (rsplit_once trimmed b'<') in
    let candidate = trim (trim_matches (λ c. c == b'"') (trim found)) in
    if contains_char candidate b'@' then some (to_ascii_lowercase candidate) else none

unfoldable pub normalized : List Text → List Text
unfolding normalize_email_address
normalized = filter_map normalize_email_address

-- `accepted.iter().any(|recipient| message_recipients.iter().any(|c| c == recipient))`, where there
-- is an accepted recipient.
unfoldable pub any_recipient : List Text → List Text → Bool
unfolding contains list_beq
any_recipient [] candidates = true
any_recipient (recipient ∷ accepted) candidates = any (contains candidates) (recipient ∷ accepted)

unfoldable pub condition_recipients_match : InboundMessage → AcceptedCondition → Bool
unfolding any_recipient normalized
condition_recipients_match message condition =
    any_recipient (normalized condition.recipients) (normalized message.metadata.recipients)

module _ (is_match : Text → Text → Bool) where
  unfoldable pub condition_subject_match : InboundMessage → AcceptedCondition → Bool
  condition_subject_match message condition =
      is_empty condition.subject_regex
      || any (λ pattern. is_match pattern message.metadata.subject) condition.subject_regex

  unfoldable pub accepted_condition_matches : InboundMessage → AcceptedCondition → Bool
  unfolding condition_recipients_match condition_subject_match
  accepted_condition_matches message condition =
      condition_recipients_match message condition && condition_subject_match message condition

  unfoldable pub message_matches_accepted_conditions :
      InboundMessage → List AcceptedCondition → Bool
  unfolding accepted_condition_matches
  message_matches_accepted_conditions message conditions =
      is_empty conditions || any (accepted_condition_matches message) conditions

unfoldable pub accepted_conditions_can_prefilter_by_recipient : List AcceptedCondition → Bool
unfolding trim
accepted_conditions_can_prefilter_by_recipient conditions =
    not (is_empty conditions)
    && all (λ condition. any (λ value. not (is_empty (trim value))) condition.recipients) conditions

unfoldable pub push_unique : List Text → Option Text → List Text
unfolding contains list_beq
push_unique recipients none = recipients
push_unique recipients (some address) =
    if contains recipients address then recipients else recipients ++ address ∷ []

unfoldable pub push_unique_normalized_address : List Text → Text → List Text
unfolding push_unique normalize_email_address
push_unique_normalized_address recipients value =
    push_unique recipients (normalize_email_address value)

-- The two loops, over the recipients of a condition and over the conditions.
unfoldable pub push_recipients : List Text → List Text → List Text
unfolding push_unique_normalized_address
push_recipients found [] = found
push_recipients found (recipient ∷ recipients) =
    push_recipients (push_unique_normalized_address found recipient) recipients

unfoldable pub push_conditions : List Text → List AcceptedCondition → List Text
unfolding push_recipients
push_conditions found [] = found
push_conditions found (condition ∷ conditions) =
    push_conditions (push_recipients found condition.recipients) conditions

unfoldable pub accepted_condition_recipient_filter_values : List AcceptedCondition → List Text
unfolding push_conditions
accepted_condition_recipient_filter_values conditions = push_conditions [] conditions

address_example :
    normalize_email_address (text " Ann <\"Ann@Example.com\" > ") ≡ some (text "ann@example.com")
unfolding normalize_email_address text
address_example = refl

-- A recipient that passes validation, and names no address.
no_address_example : normalize_email_address (text "ann@example.com <ann>") ≡ none
unfolding normalize_email_address text
no_address_example = refl
