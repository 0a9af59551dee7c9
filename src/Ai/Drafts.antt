-- ===== src/Ai/Drafts.antt =====
-- What is checked of a decision of the model: `validate_agent_decision` of ai/routing.rs, and
-- `rule_draft_to_decision` of ai/payloads.rs.
pub mod Accepted
use ai_memmail.Prelude.{
  ℕ, ◌≡◌, ◌↔◌, refl, Bool, true, false, ◌&&◌, ◌||◌, Option, none, some, List, [], ◌∷◌, ◌++◌, map,
  any, is_empty, if◌then◌else◌, ◌==◌, ℕ_eq, arith,
}
use ai_memmail.Prelude.Result.{Result, ok, err}
use ai_memmail.Text.{Text, text, trim, join, to_ascii_lowercase, contains_text}
use ai_memmail.Config.{MailboxConfig}
use ai_memmail.Mail.{InboundMessage, OutboundAction, OutboundActionKind, reply, forward, noop}
use ai_memmail.Mail.Actions.{ValidationError, error_if, no_errors, validate_outbound_action}
use ai_memmail.Mail.Parser.{MailParser, reply_recipient}
use ai_memmail.Classification.{EmailRule, outbound_kind}
use ai_memmail.Ai.{AgentDecision, RuleActionDraft}
use ai_memmail.Ai.Routing.{forward_recipients}

abbrev newline_to_space : ℕ → ℕ
newline_to_space c = if c == b'\n' || c == b'\r' then 0x20 else c

unfoldable pub system_voice_terms : List Text
system_voice_terms =
    text "as an ai"
    ∷ text "as an assistant"
    ∷ text "as a bot"
    ∷ text "i am an ai"
    ∷ text "i'm an ai"
    ∷ text "ai assistant"
    ∷ text "i am an assistant"
    ∷ text "i'm an assistant"
    ∷ text "i am mark's email assistant"
    ∷ text "i'm mark's email assistant"
    ∷ text "i am your email assistant"
    ∷ text "i'm your email assistant"
    ∷ text "i am a bot"
    ∷ text "i'm a bot"
    ∷ text "bot handling this"
    ∷ text "mailbox agent"
    ∷ text "email-processing agent"
    ∷ text "i can help handle mail"
    ∷ text "sent to this mailbox"
    ∷ text "this mailbox"
    ∷ []

unfoldable pub reply_body_uses_system_voice : Text → Bool
reply_body_uses_system_voice body =
    any (contains_text (map newline_to_space (to_ascii_lowercase body))) system_voice_terms

abbrev pub errors_of : Result (List ValidationError) (Unit {0}) → List ValidationError
errors_of (ok _) = []
errors_of (err errors) = errors

abbrev pub is_delivered : OutboundActionKind → Bool
is_delivered reply = true
is_delivered forward = true
is_delivered noop = false

unfoldable pub validate_agent_decision : AgentDecision → Result (List ValidationError) (Unit {0})
unfolding error_if no_errors
validate_agent_decision decision = no_errors (
    errors_of (validate_outbound_action decision.action)
    ++ (error_if
          (is_delivered decision.action.kind && reply_body_uses_system_voice decision.action.body)
          (text "body") (text "reply body must not present the sender as an AI or mailbox agent")
        ++ error_if (is_empty (trim decision.safety_notes)) (text "safety_notes")
            (text "safety_notes is required")))

abbrev error_line : ValidationError → Text
error_line error = error.field ++ (text ": " ++ error.message)

-- `map_err` with the errors joined by "; ", and `Ok(decision)`.
abbrev pub checked :
    AgentDecision → Result (List ValidationError) (Unit {0}) → Result Text AgentDecision
checked decision (ok _) = ok decision
checked decision (err errors) = err (join (text "; ") (map error_line errors))

unfoldable pub non_empty_or : Text → Text → Text
non_empty_or value fallback = if is_empty (trim value) then fallback else value

unfoldable pub draft_action :
    MailParser
    → MailboxConfig
    → InboundMessage
    → RuleActionDraft
    → OutboundActionKind
    → OutboundAction
draft_action parser mailbox message draft reply = record {
  kind = reply;
  recipients = reply_recipient parser message.metadata.from_addr ∷ [];
  subject = non_empty_or draft.subject (text "Re: " ++ message.metadata.subject);
  body = draft.body;
  html_body = none;
  reason = draft.reason;
  reply_to = none;
  message_id = none;
  in_reply_to = none;
  references = [];
}
draft_action parser mailbox message draft forward = record {
  kind = forward;
  recipients = forward_recipients mailbox;
  subject = non_empty_or draft.subject (text "Fwd: " ++ message.metadata.subject);
  body = draft.body;
  html_body = none;
  reason = draft.reason;
  reply_to = none;
  message_id = none;
  in_reply_to = none;
  references = [];
}
draft_action parser mailbox message draft noop = record {
  kind = noop;
  recipients = [];
  subject = [];
  body = [];
  html_body = none;
  reason = draft.reason;
  reply_to = none;
  message_id = none;
  in_reply_to = none;
  references = [];
}

unfoldable pub rule_draft_to_decision :
    MailParser
    → MailboxConfig
    → InboundMessage
    → EmailRule
    → RuleActionDraft
    → Result Text AgentDecision
unfolding draft_action
rule_draft_to_decision parser mailbox message rule draft =
    let decision : AgentDecision = record {
      action = draft_action parser mailbox message draft (outbound_kind rule.action);
      safety_notes = draft.safety_notes;
    } in
    checked decision (validate_agent_decision decision)
