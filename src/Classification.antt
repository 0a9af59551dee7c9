-- ===== src/Classification.antt =====
-- crates/server/src/classification.rs: the labels of an email, and the rules of a mailbox.
pub mod Labels
pub mod Stable
use ai_memmail.Prelude.{
  ℕ, ◌+◌, String, Bool, true, false, not, ◌&&◌, ◌||◌, List, [], ◌∷◌, ◌++◌, leb, if◌then◌else◌,
  is_empty, Eq, ◌==◌, ℕ_eq,
}
use ai_memmail.Prelude.Int.{ℤ}
use ai_memmail.Text.{Text, text, trim, trim_matches}
use ai_memmail.Mail.{OutboundActionKind}

-- A category or a topic: the two structs have the same fields. Identifiers are `i64` counters that
-- start at 1, and numbers here.
pub record EmailLabel : Type 0 where
  pub id : ℕ
  pub name : Text
  pub description : Text
  pub status : String
  pub source : String
  pub created_at : String
  pub updated_at : String

abbrev pub EmailCategory : Type 0
EmailCategory = EmailLabel

abbrev pub EmailTopic : Type 0
EmailTopic = EmailLabel

pub record EmailTaxonomy : Type 0 where
  pub categories : List EmailCategory
  pub topics : List EmailTopic

pub record EmailClassification : Type 0 where
  pub category : Text
  pub topics : List Text
  pub reason : Text
  pub confidence : ℕ

pub record ResolvedEmailClassification : Type 0 where
  pub category_id : ℕ
  pub category : Text
  pub topic_ids : List ℕ
  pub topics : List Text
  pub reason : Text
  pub confidence : ℕ

pub data EmailRuleAction : Type 0 where
  reply forward noop : EmailRuleAction

pub record EmailRule : Type 0 where
  pub id : ℕ
  pub mailbox_id : Text
  pub name : Text
  pub category_id : ℕ
  pub category : Text
  pub topic_ids : List ℕ
  pub topics : List Text
  pub action : EmailRuleAction
  pub reply_goal : Text
  pub enabled : Bool
  pub priority : ℤ
  pub created_at : String
  pub updated_at : String

pub record NewEmailRule : Type 0 where
  pub mailbox_id : Text
  pub name : Text
  pub category_id : ℕ
  pub topic_ids : List ℕ
  pub action : EmailRuleAction
  pub reply_goal : Text
  pub enabled : Bool
  pub priority : ℤ

unfoldable pub outbound_kind : EmailRuleAction → OutboundActionKind
outbound_kind reply = OutboundActionKind.reply
outbound_kind forward = OutboundActionKind.forward
outbound_kind noop = OutboundActionKind.noop

unfoldable pub is_ascii_alphanumeric : ℕ → Bool
is_ascii_alphanumeric c =
    (leb b'0' c && leb c b'9') || (leb b'A' c && leb c b'Z') || (leb b'a' c && leb c b'z')

-- char::to_lowercase, as far as the loop below can tell: U+0130 and U+212A are the characters
-- outside ASCII whose lower case has an ASCII letter, and every other one stays outside ASCII.
unfoldable pub to_lowercase : ℕ → Text
to_lowercase c =
    if leb b'A' c && leb c b'Z'
    then (c + 32) ∷ []
    else if c == 0x130
    then b'i' ∷ 0x307 ∷ []
    else if c == 0x212a
    then b'k' ∷ []
    else c ∷ []

unfoldable pub lowered : Text → Text
unfolding to_lowercase
lowered [] = []
lowered (c ∷ s) = to_lowercase c ++ lowered s

-- The loop of `normalize_label_name`: the characters that it pushes from here on.
unfoldable pub label_loop : Bool → Text → Text
unfolding is_ascii_alphanumeric
label_loop previous_separator [] = []
label_loop previous_separator (c ∷ s) =
    let later = label_loop (not (is_ascii_alphanumeric c)) s in
    if is_ascii_alphanumeric c
    then c ∷ later
    else if previous_separator
    then later
    else b'_' ∷ later

abbrev pub is_underscore : ℕ → Bool
is_underscore c = c == b'_'

unfoldable pub normalize_label_name : Text → Text
unfolding label_loop lowered trim trim_matches text
normalize_label_name value =
    let normalized = trim_matches is_underscore (label_loop false (lowered (trim value))) in
    if is_empty normalized then text "other" else normalized
