-- ===== src/Tests/Mails.antt =====
-- The theorems about mails, texts and decisions, at sample values.
use ai_memmail.Prelude.Int.{pos}
use ai_memmail.Prelude.{◌≤◌, false, none, [], ◌∷◌, ◌≡◌, ◌↔◌, refl, length, is_empty}
use ai_memmail.Prelude.Result.{ok}
use ai_memmail.Text.{Text, text, byte_len}
use ai_memmail.Mail.{OutboundAction, ThreadMessage, ThreadContext, inbound, has_truncated_body}
use ai_memmail.Mail.Actions.{IsWellFormed, validate_outbound_action, validate_outbound_action_iff}
use ai_memmail.Mail.Forwarding.{handoff_body_max_bytes, handoff_header, thread_handoff_body}
use ai_memmail.Mail.Forwarding.Handoff.{transcript, thread_handoff_body_iff}
use ai_memmail.Mail.Signature.Html.{plain_text_to_html}
use ai_memmail.Mail.Signature.Html.Escaped.{IsEscaped, plain_text_to_html-IsEscaped}
use ai_memmail.Classification.{normalize_label_name, outbound_kind}
use ai_memmail.Classification.Labels.{IsLabel, normalize_label_name-IsLabel}
use ai_memmail.Classification.Stable.{normalize_label_name_idempotent}
use ai_memmail.Ai.{AgentDecision, RuleActionDraft}
use ai_memmail.Ai.Drafts.{rule_draft_to_decision}
use ai_memmail.Ai.Drafts.Accepted.{recipients_for, HasOwnVoice, rule_draft_to_decision_sound}
use ai_memmail.Ai.Routing.{truncate_chars_to_limit}
use ai_memmail.Ai.Routing.Limits.{truncate_chars_to_limit-length}
use ai_memmail.Tests.Samples.{sample_parser, sample_mailbox, sample_rule, sample_decision, question}

validate_outbound_action_iff_example :
    (validate_outbound_action sample_decision.action ≡ ok tt)
    ↔ IsWellFormed sample_decision.action.kind sample_decision.action
validate_outbound_action_iff_example = validate_outbound_action_iff sample_decision.action

abbrev pub sample_thread : ThreadContext
sample_thread = record {
  thread_id = text "t1";
  messages =
      record {
        direction = inbound;
        message_id = none;
        in_reply_to = none;
        references = [];
        from_addr = text "ann@example.com";
        recipients = [];
        subject = text "Question";
        authored_text = text "Hello";
        body_truncated = false;
        timestamp = pos 1;
      }
      ∷ [];
}

abbrev pub sample_transcript : Text
sample_transcript = transcript 0 handoff_header sample_thread.messages

thread_handoff_body_iff_example : (thread_handoff_body sample_thread ≡ ok sample_transcript) ↔ (
    (is_empty sample_thread.messages ≡ false)
    × (has_truncated_body sample_thread ≡ false)
    × (byte_len (transcript 0 handoff_header sample_thread.messages) ≤ handoff_body_max_bytes)
    × (sample_transcript ≡ transcript 0 handoff_header sample_thread.messages))
thread_handoff_body_iff_example = thread_handoff_body_iff sample_thread sample_transcript

normalize_label_name-IsLabel_example : IsLabel (normalize_label_name (text " Community Help! "))
normalize_label_name-IsLabel_example = normalize_label_name-IsLabel (text " Community Help! ")

normalize_label_name_idempotent_example :
    normalize_label_name (normalize_label_name (text " Community Help! "))
    ≡ normalize_label_name (text " Community Help! ")
normalize_label_name_idempotent_example = normalize_label_name_idempotent (text " Community Help! ")

truncate_chars_to_limit-length_example :
    (length (truncate_chars_to_limit (text "a long reason") 5) ≤ 5)
    × (length (text "a long reason") ≤ 5
        → truncate_chars_to_limit (text "a long reason") 5 ≡ text "a long reason")
truncate_chars_to_limit-length_example = truncate_chars_to_limit-length (text "a long reason") 5

abbrev sample_draft : RuleActionDraft
sample_draft = record {
  subject = [];
  body = text "Please see the wiki.";
  reason = text "asks";
  safety_notes = text "none";
}

abbrev drafted : AgentDecision
drafted = record {
  action = record {
    kind = outbound_kind (sample_rule 1 [] 10).action;
    recipients = text "ann@example.com" ∷ [];
    subject = text "Re: Question";
    body = text "Please see the wiki.";
    html_body = none;
    reason = text "asks";
    reply_to = none;
    message_id = none;
    in_reply_to = none;
    references = [];
  };
  safety_notes = text "none";
}

draft_is_accepted :
    rule_draft_to_decision sample_parser sample_mailbox question (sample_rule 1 [] 10) sample_draft
    ≡ ok drafted
unfolding rule_draft_to_decision outbound_kind text ai_memmail.Text.trim
    ai_memmail.Text.contains_text ai_memmail.Text.to_ascii_lowercase
    ai_memmail.Ai.Drafts.validate_agent_decision ai_memmail.Ai.Drafts.reply_body_uses_system_voice
    ai_memmail.Ai.Drafts.system_voice_terms ai_memmail.Ai.Drafts.non_empty_or
    ai_memmail.Ai.Drafts.draft_action ai_memmail.Mail.Parser.reply_recipient
    ai_memmail.Mail.Actions.validate_outbound_action ai_memmail.Mail.Actions.outbound_errors
    ai_memmail.Mail.Actions.error_if ai_memmail.Mail.Actions.no_errors
draft_is_accepted = refl

rule_draft_to_decision_sound_example :
    (drafted.action.kind ≡ outbound_kind (sample_rule 1 [] 10).action)
    × (drafted.action.recipients
        ≡ recipients_for sample_parser sample_mailbox question
            (outbound_kind (sample_rule 1 [] 10).action))
    × IsWellFormed drafted.action.kind drafted.action
    × HasOwnVoice drafted
rule_draft_to_decision_sound_example =
    rule_draft_to_decision_sound sample_parser sample_mailbox question (sample_rule 1 [] 10)
      sample_draft drafted draft_is_accepted

plain_text_to_html-IsEscaped_example : IsEscaped (plain_text_to_html (text "<b>Tom & Ann</b>\nBye"))
plain_text_to_html-IsEscaped_example = plain_text_to_html-IsEscaped (text "<b>Tom & Ann</b>\nBye")
