-- ===== src/Ai/Routing.antt =====
-- crates/server/src/ai/routing.rs: what is decided without the model.
pub mod Limits
use ai_memmail.Prelude.{
  ℕ, ◌-◌, ◌++◌, Bool, Option, none, some, List, [], ◌∷◌, any, is_empty, if◌then◌else◌, length, take,
  leb, zero, suc,
}
use ai_memmail.Text.{Text, text, to_ascii_lowercase, contains_text}
use ai_memmail.Config.{MailboxConfig}
use ai_memmail.Mail.{InboundMessage, OutboundAction, OutboundActionKind, forward}
use ai_memmail.Safety.{SafetyScanResult, SafetyCategory, prompt_injection, hacking}
use ai_memmail.Ai.{AgentDecision}

-- The subject and the text that the search for terms reads.
abbrev searched : InboundMessage → Text
searched message =
    to_ascii_lowercase message.metadata.subject
    ++ (text "\n" ++ to_ascii_lowercase message.plain_text)

unfoldable pub jailbreak_terms : List Text
jailbreak_terms =
    text "ignore previous instructions"
    ∷ text "ignore all previous instructions"
    ∷ text "reveal your system prompt"
    ∷ text "developer message"
    ∷ text "config.yaml"
    ∷ text "local.yaml"
    ∷ text "api key"
    ∷ text "password"
    ∷ text "jailbreak"
    ∷ []

unfoldable pub hacking_terms : List Text
hacking_terms =
    text "write malware"
    ∷ text "phishing kit"
    ∷ text "steal credentials"
    ∷ text "bypass authentication"
    ∷ text "exploit this server"
    ∷ []

unfoldable pub deterministic_safety_scan : InboundMessage → Option SafetyScanResult
deterministic_safety_scan message =
    if any (contains_text (searched message)) jailbreak_terms
    then some (record {
      category = prompt_injection;
      reason = text "message contains prompt-injection or secret-exfiltration language";
    })
    else if any (contains_text (searched message)) hacking_terms
    then some (record {
      category = hacking;
      reason = text "message requests malicious technical behavior";
    })
    else none

unfoldable pub human_review_terms : List Text
human_review_terms =
    text "forward to a human"
    ∷ text "forward this to a human"
    ∷ text "human review"
    ∷ text "manual review"
    ∷ text "escalation to human"
    ∷ text "escalate to human"
    ∷ text "please escalate"
    ∷ []

unfoldable pub human_review_requested : InboundMessage → Bool
human_review_requested message = any (contains_text (searched message)) human_review_terms

-- Where a message goes that a human is to answer.
unfoldable pub forward_recipients : MailboxConfig → List Text
forward_recipients mailbox =
    if is_empty mailbox.agent.default_forward_to
    then mailbox.safety_forward_to
    else mailbox.agent.default_forward_to

unfoldable pub forward_decision : MailboxConfig → InboundMessage → Text → AgentDecision
forward_decision mailbox message reason = record {
  action = record {
    kind = forward;
    recipients = forward_recipients mailbox;
    subject = text "Fwd: " ++ message.metadata.subject;
    body =
        text "Human review requested for message from " ++ (message.metadata.from_addr ++ text ".");
    html_body = none;
    reason = reason;
    reply_to = none;
    message_id = none;
    in_reply_to = none;
    references = [];
  };
  safety_notes = text "message passed deterministic human-review routing";
}

unfoldable pub truncation_marker : Text
truncation_marker = text "\n[truncated]"

-- The loop of `truncate_chars`, with the characters that it may still push.
unfoldable pub truncate_chars : Text → ℕ → Text
truncate_chars [] room = []
truncate_chars (c ∷ s) zero = truncation_marker
truncate_chars (c ∷ s) (suc room) = c ∷ truncate_chars s room

unfoldable pub truncate_chars_to_limit : Text → ℕ → Text
truncate_chars_to_limit value max_chars =
    if leb (length value) max_chars
    then value
    else if leb max_chars (length truncation_marker)
    then take max_chars value
    else take (max_chars - length truncation_marker) value ++ truncation_marker
