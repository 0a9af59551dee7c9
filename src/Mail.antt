-- ===== src/Mail.antt =====
-- crates/server/src/mail.rs and mail/threading.rs: messages, outbound actions and their parts.
-- `mailparse`, `lettre` and `regex` are not modelled: what the code asks of them is a parameter.
pub mod Parser
pub mod Actions
pub mod Conditions
pub mod Composed
pub mod Imap
pub mod Forwarding
pub mod Signature
use ai_memmail.Prelude.Int.{ℤ}
use ai_memmail.Prelude.{
  ℕ, String, Bool, Option, none, some, List, [], ◌∷◌, ◌++◌, any, contains, Eq, ◌==◌, ◌≡◌, ◌↔◌, ℕ_eq,
  ◌&&◌, true, false, arith,
}
use ai_memmail.Text.{Text, Text_eq, text, decimal}

pub record DedupeKey : Type 0 where
  pub mailbox_id : Text
  pub uid_validity : ℕ
  pub uid : ℕ

abbrev key_beq : DedupeKey → DedupeKey → Bool
key_beq a b = a.mailbox_id == b.mailbox_id && (a.uid_validity == b.uid_validity && a.uid == b.uid)

pub key_beq_iff : (a b : DedupeKey) → (key_beq a b ≡ true) ↔ (a ≡ b)
key_beq_iff a b = ground (arith, Text_eq.beq_iff a.mailbox_id b.mailbox_id)

instance abbrev pub DedupeKey_eq : Eq DedupeKey
DedupeKey_eq = record { beq = key_beq; beq_iff = key_beq_iff }

pub record MessageMetadata : Type 0 where
  pub mailbox_id : Text
  pub uid_validity : ℕ
  pub uid : ℕ
  pub message_id : Option Text
  pub in_reply_to : Option Text
  pub references : List Text
  pub from_addr : Text
  pub recipients : List Text
  pub subject : Text

pub data OutboundActionKind : Type 0 where
  reply forward noop : OutboundActionKind

pub record OutboundAction : Type 0 where
  pub kind : OutboundActionKind
  pub recipients : List Text
  pub subject : Text
  pub body : Text
  pub html_body : Option Text
  pub reason : Text
  pub reply_to : Option Text
  pub message_id : Option Text
  pub in_reply_to : Option Text
  pub references : List Text

pub record InboundMessage : Type 0 where
  pub metadata : MessageMetadata
  pub plain_text : Text

-- The payload of each constructor is the text that the failing library reported.
pub data MailError : Type 0 where
  task imap smtp parse build : Text → MailError

unfoldable pub mail_error_text : MailError → Text
mail_error_text (task e) = text "mail task failed: " ++ e
mail_error_text (imap e) = text "imap error: " ++ e
mail_error_text (smtp e) = text "smtp error: " ++ e
mail_error_text (parse e) = text "message parse error: " ++ e
mail_error_text (build e) = text "message build error: " ++ e

pub data MessageDirection : Type 0 where
  inbound outbound : MessageDirection

pub record ThreadMessage : Type 0 where
  pub direction : MessageDirection
  pub message_id : Option Text
  pub in_reply_to : Option Text
  pub references : List Text
  pub from_addr : Text
  pub recipients : List Text
  pub subject : Text
  pub authored_text : Text
  pub body_truncated : Bool
  pub timestamp : ℤ

pub record ThreadContext : Type 0 where
  pub thread_id : Text
  pub messages : List ThreadMessage

unfoldable pub has_truncated_body : ThreadContext → Bool
has_truncated_body context = any (λ message. message.body_truncated) context.messages

unfoldable pub dedupe_key : MessageMetadata → DedupeKey
dedupe_key m = record { mailbox_id = m.mailbox_id; uid_validity = m.uid_validity; uid = m.uid }

-- The first of the references, else what the message replies to, else its own id, else its key.
abbrev or_else {ℓ} : {A : Type ℓ} → Option A → Option A → Option A
or_else none b = b
or_else (some a) b = some a

abbrev first {ℓ} : {A : Type ℓ} → List A → Option A
first [] = none
first (a ∷ rest) = some a

abbrev unwrap_or {ℓ} : {A : Type ℓ} → Option A → A → A
unwrap_or none b = b
unwrap_or (some a) b = a

unfoldable pub thread_id : MessageMetadata → Text
thread_id m =
    unwrap_or (or_else (or_else (first m.references) m.in_reply_to) m.message_id)
      (m.mailbox_id ++ (text ":" ++ (decimal m.uid_validity ++ (text ":" ++ decimal m.uid))))

-- The references of an answer: those of the message, and its own id behind them.
abbrev pub with_reference : List Text → Option Text → List Text
with_reference references none = references
with_reference references (some message_id) = elim (contains references message_id) [
  | true ↦ references
  | false ↦ references ++ message_id ∷ []
]

unfoldable pub reply_references : MessageMetadata → List Text
unfolding contains
reply_references m = with_reference m.references m.message_id
