-- ===== src/Safety.antt =====
-- crates/server/src/safety.rs: what follows from a safety scan, and the senders that are banned.
-- The confidence of a scan is an `f32` that nothing reads, so a scan has no such field here.
pub mod Subject
pub mod Senders
use ai_memmail.Prelude.{Bool, true, false, ◌++◌, if◌then◌else◌, is_empty}
use ai_memmail.Text.{Text, text, trim, starts_with}

pub data SafetyCategory : Type 0 where
  safe jailbreak prompt_injection hacking sensitive_exfiltration unknown : SafetyCategory

pub record SafetyScanResult : Type 0 where
  pub category : SafetyCategory
  pub reason : Text

pub data SafetyDisposition : Type 0 where
  continue quarantine_and_forward : SafetyDisposition

pub record SafetyDecision : Type 0 where
  pub disposition : SafetyDisposition
  pub add_sender_to_review : Bool
  pub reason : Text

abbrev decide_category : SafetyCategory → Text → SafetyDecision
decide_category safe reason = record {
  disposition = continue;
  add_sender_to_review = false;
  reason = reason;
}
decide_category _ reason = record {
  disposition = quarantine_and_forward;
  add_sender_to_review = true;
  reason = reason;
}

unfoldable pub decide : SafetyScanResult → SafetyDecision
decide scan = decide_category scan.category scan.reason

unfoldable pub suspicious_subject_prefix : Text
suspicious_subject_prefix = text "[Potential jailbreak]"

unfoldable pub suspicious_forward_subject : Text → Text
suspicious_forward_subject original =
    let trimmed = trim original in
    if starts_with trimmed suspicious_subject_prefix
    then trimmed
    else if is_empty trimmed
    then suspicious_subject_prefix ++ text " (no subject)"
    else suspicious_subject_prefix ++ (text " " ++ trimmed)

unfoldable pub suspicious_forward_intro : Text → Text → Text
suspicious_forward_intro reason sender =
    text "ai-memmail quarantined a message from "
    ++ (sender
        ++ (text " before AI/MCP processing.\n\nReason: "
            ++ (reason ++ text "\n\nThe original message is forwarded below for human review.")))
