-- ===== src/Storage.antt =====
-- crates/server/src/storage.rs and storage/value_helpers.rs: what the processing store keeps, and
-- the rules for the status of a message. A status is one of a few words: a `String`.
pub mod Labels
pub mod Rules
pub mod Memory
pub mod Claims
pub mod Bodies
use ai_memmail.Prelude.{
  ℕ, zero, suc, ◌*◌, ◌++◌, String, Bool, true, false, ◌&&◌, ◌||◌, Option, none, some, List, [], ◌∷◌,
  if◌then◌else◌, is_empty, ◌==◌, String_eq,
}
use ai_memmail.Text.{Text, text, trim, decimal}
use ai_memmail.Mail.{OutboundAction, OutboundActionKind, reply, forward, noop, InboundMessage}
use ai_memmail.Safety.{
  SafetyCategory, safe, jailbreak, prompt_injection, hacking, sensitive_exfiltration, unknown,
}

-- An error of the store, by the message that it prints.
pub record StorageError : Type 0 where
  pub message : Text

abbrev pub status_processing : String
status_processing = "processing"

abbrev pub status_retryable_failed : String
status_retryable_failed = "retryable_failed"

abbrev pub status_send_failed : String
status_send_failed = "send_failed"

abbrev pub status_handed_off : String
status_handed_off = "handed_off"

pub data ProcessingClaim : Type 0 where
  claimed : ProcessingClaim
  in_progress already_finished : String → ProcessingClaim

pub record ThreadHandoff : Type 0 where
  pub mailbox_id : Text
  pub thread_id : Text
  pub destination : Text
  pub remote_target : Text
  pub state : String
  pub last_error : Option Text
  pub updated_at : String

pub record NewThreadHandoffDelivery : Type 0 where
  pub request_id : Text
  pub mailbox_id : Text
  pub thread_id : Text
  pub source_run_id : Option Text
  pub destination : Text
  pub remote_target : Text
  pub outbound_message_id : Text

pub record ThreadHandoffDelivery : Type 0 where
  pub request_id : Text
  pub mailbox_id : Text
  pub thread_id : Text
  pub source_run_id : Option Text
  pub destination : Text
  pub remote_target : Text
  pub outbound_message_id : Text
  pub status : String
  pub error : Option Text

pub record StoredSafetyResult : Type 0 where
  pub category : String
  pub reason : Text

pub record SenderReviewRecord : Type 0 where
  pub mailbox_id : Text
  pub reason : Text

pub record StoredAgentDecision : Type 0 where
  pub action : String
  pub safety_notes : Text

pub record StoredOutboundAction : Type 0 where
  pub kind : String
  pub recipients : List Text
  pub subject : Text
  pub body : Option Text
  pub html_body : Option Text
  pub body_redacted : Bool
  pub reason : Text
  pub message_id : Option Text

pub record StoredOutboundReview : Type 0 where
  pub status : String
  pub reason : Text

pub record StoredEmailClassification : Type 0 where
  pub category : Text
  pub topics : List Text
  pub reason : Text
  pub confidence : ℕ
  pub decision_source : String
  pub matched_rule_name : Option Text

unfoldable pub processing_status_can_reclaim : String → Bool → Bool
processing_status_can_reclaim status stale =
    status == status_send_failed
    || status == status_retryable_failed
    || (status == status_processing && stale)

unfoldable pub processing_claim_for_existing_status : String → ProcessingClaim
processing_claim_for_existing_status status =
    if status == status_processing then in_progress status else already_finished status

unfoldable pub outbound_action_value : OutboundActionKind → String
outbound_action_value reply = "reply"
outbound_action_value forward = "forward"
outbound_action_value noop = "noop"

unfoldable pub safety_category_value : SafetyCategory → String
safety_category_value safe = "safe"
safety_category_value jailbreak = "jailbreak"
safety_category_value prompt_injection = "prompt_injection"
safety_category_value hacking = "hacking"
safety_category_value sensitive_exfiltration = "sensitive_exfiltration"
safety_category_value unknown = "unknown"

abbrev body_of_kind : OutboundActionKind → OutboundAction → Option Text × Option Text × Bool
body_of_kind reply action = (some action.body, action.html_body, false)
body_of_kind forward action = (none, none, true)
body_of_kind noop action = (none, none, false)

unfoldable pub outbound_body_for_storage : OutboundAction → Option Text × Option Text × Bool
outbound_body_for_storage action = body_of_kind action.kind action

unfoldable pub inbound_body_storage_max_chars : ℕ
inbound_body_storage_max_chars = 64 * 1024

-- The loop of `inbound_body_for_storage`, with the characters that it may still push.
unfoldable pub bounded_body : Text → ℕ → Text × Bool
bounded_body [] room = ([], false)
bounded_body (c ∷ s) zero = ([], true)
bounded_body (c ∷ s) (suc room) =
    let (body, truncated) = bounded_body s room in (c ∷ body, truncated)

unfoldable pub inbound_body_for_storage : InboundMessage → Text × Bool
unfolding bounded_body
inbound_body_for_storage message = bounded_body message.plain_text inbound_body_storage_max_chars

unfoldable pub empty_string_as_none : Text → Option Text
empty_string_as_none value = if is_empty (trim value) then none else some value
