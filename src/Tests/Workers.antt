-- ===== src/Tests/Workers.antt =====
-- The theorems about the processing of a message, at messages to the sample mailbox.
use ai_memmail.Prelude.{ℕ, ◌+◌, ◌≤◌, true, false, ◌≡◌, ◌≢◌, refl, arith, Bool}
use ai_memmail.Prelude.Result.{ok, err}
use ai_memmail.Text.{Text, text}
use ai_memmail.Mail.{InboundMessage, dedupe_key, MailError, smtp}
use ai_memmail.Safety.{SafetyScanResult, SafetyCategory, safe, hacking}
use ai_memmail.Safety.Senders.{sender_is_banned}
use ai_memmail.Ai.Routing.{human_review_requested}
use ai_memmail.Worker.Process.{process_message, scanned}
use ai_memmail.Worker.Protocol.{idle, stopped, after}
use ai_memmail.Worker.Protocol.Counts.{
  count, is_grant, is_sent, is_accepted, is_refused, is_mark, is_mark_of, is_update, is_update_of,
  is_final_update, is_final_update_of, is_failure_of, is_finish_of,
}
use ai_memmail.Worker.Protocol.Following.{followed_by, preceded_by}
use ai_memmail.Worker.Protocol.Traces.{
  calls_of, process_message-order, process_message-sent, process_message-closed,
  process_message-refused, process_message-seen,
}
use ai_memmail.Worker.Effects.Guarantees.{
  IsolatedCalls, ForwardingCalls, ReviewedCalls, process_message-banned, scanned-unsafe,
  process_message-human, process_message-reviewed,
}
use ai_memmail.Worker.Services.{Services}
use ai_memmail.Tests.Samples.{
  sample_parser, sample_mailbox, sample_config, sample_services, empty_store, message_from,
  question,
}

abbrev delivering : Services
delivering = sample_services (ok tt)

abbrev refusing : Services
refusing = sample_services (err (smtp (text "connection refused")))

abbrev run1 : Text
run1 = text "run-1"

process_message-order_example :
    after
      (dedupe_key question.metadata)
      idle
      (calls_of delivering sample_config sample_mailbox run1 question empty_store)
    ≡ stopped
process_message-order_example =
    process_message-order delivering sample_config sample_mailbox run1 question empty_store

process_message-sent_example :
    (count is_sent (calls_of delivering sample_config sample_mailbox run1 question empty_store)
      ≤ count is_grant (calls_of delivering sample_config sample_mailbox run1 question empty_store))
    × (count is_grant (calls_of delivering sample_config sample_mailbox run1 question empty_store)
        ≤ 1)
process_message-sent_example =
    process_message-sent delivering sample_config sample_mailbox run1 question empty_store

process_message-closed_example :
    (followed_by is_grant
        (is_update_of (dedupe_key question.metadata))
        (calls_of delivering sample_config sample_mailbox run1 question empty_store)
      ≡ true)
    × (preceded_by is_update is_grant
          (calls_of delivering sample_config sample_mailbox run1 question empty_store)
        ≡ true)
    × (count is_update (calls_of delivering sample_config sample_mailbox run1 question empty_store)
        ≡ count is_grant
            (calls_of delivering sample_config sample_mailbox run1 question empty_store))
process_message-closed_example =
    process_message-closed delivering sample_config sample_mailbox run1 question empty_store

process_message-refused_example :
    (followed_by is_refused
        (is_failure_of (dedupe_key question.metadata))
        (calls_of refusing sample_config sample_mailbox run1 question empty_store)
      ≡ true)
    × (count is_refused (calls_of refusing sample_config sample_mailbox run1 question empty_store)
          + count is_final_update
              (calls_of refusing sample_config sample_mailbox run1 question empty_store)
        ≤ 1)
    × (count is_refused (calls_of refusing sample_config sample_mailbox run1 question empty_store)
          + count is_mark (calls_of refusing sample_config sample_mailbox run1 question empty_store)
        ≤ 1)
process_message-refused_example =
    process_message-refused refusing sample_config sample_mailbox run1 question empty_store

process_message-seen_example :
    (followed_by is_accepted
        (is_final_update_of (dedupe_key question.metadata))
        (calls_of delivering sample_config sample_mailbox run1 question empty_store)
      ≡ true)
    × (followed_by is_final_update
          (is_mark_of (dedupe_key question.metadata))
          (calls_of delivering sample_config sample_mailbox run1 question empty_store)
        ≡ true)
    × (preceded_by is_mark
          (is_finish_of (dedupe_key question.metadata))
          (calls_of delivering sample_config sample_mailbox run1 question empty_store)
        ≡ true)
process_message-seen_example =
    process_message-seen delivering sample_config sample_mailbox run1 question empty_store

-- The question is claimed, answered by one mail that SMTP takes or refuses, and marked if it took it.
counts_if_delivered :
    (count is_sent (calls_of delivering sample_config sample_mailbox run1 question empty_store) ≡ 1)
    × (count is_mark (calls_of delivering sample_config sample_mailbox run1 question empty_store)
        ≡ 1)
unfolding ai_memmail.Worker.History.log_safety_scan_result ai_memmail.Worker.History.log_decision
    ai_memmail.Worker.History.log_email_classification ai_memmail.Worker.History.log_rule_match
    ai_memmail.Worker.History.write ai_memmail.Worker.History.record_safety_result_for_history
    ai_memmail.Worker.History.record_agent_decision_for_history
    ai_memmail.Worker.History.record_email_classification_for_history
    ai_memmail.Worker.History.record_outbound_action_for_history
    ai_memmail.Worker.History.record_outbound_review_for_history
    ai_memmail.Worker.History.persisted_answer ai_memmail.Worker.History.review_sender
    ai_memmail.Worker.History.record_quarantine_state ai_memmail.Worker.Protocol.is_final
    ai_memmail.Worker.Protocol.status_phase ai_memmail.Worker.Protocol.advance
    ai_memmail.Worker.Protocol.after ai_memmail.Worker.Action.pure ai_memmail.Worker.Action.call
    ai_memmail.Worker.Action.draw ai_memmail.Worker.Action.or_return
    ai_memmail.Worker.Process.should_forward_for_human_review
    ai_memmail.Worker.Process.precheck_sender ai_memmail.Worker.Process.send_reviewed
    ai_memmail.Worker.Process.after_review ai_memmail.Worker.Process.review_and_send
    ai_memmail.Worker.Process.do_nothing ai_memmail.Worker.Process.carry_out
    ai_memmail.Worker.Process.execute_decision ai_memmail.Worker.Process.decide_and_execute
    ai_memmail.Worker.Process.classify_and_decide ai_memmail.Worker.Process.handoff_answer
    ai_memmail.Worker.Process.with_thread_context ai_memmail.Worker.Process.context_answer
    ai_memmail.Worker.Process.process_safe ai_memmail.Worker.Process.quarantine
    ai_memmail.Worker.Process.scanned ai_memmail.Worker.Process.scan_answer
    ai_memmail.Worker.Process.process_claimed ai_memmail.Worker.Process.process_checked
    ai_memmail.Worker.Process.process_message ai_memmail.Worker.Outbound.safety_forward_action
    ai_memmail.Worker.Outbound.outbound_review_intro
    ai_memmail.Worker.Outbound.outbound_review_forward_action
    ai_memmail.Worker.Outbound.outbound_status ai_memmail.Worker.Outbound.runtime_fields
    ai_memmail.Worker.Outbound.action_with_runtime_fields ai_memmail.Worker.Outbound.delivery_answer
    ai_memmail.Worker.Outbound.deliver ai_memmail.Worker.Outbound.send_and_mark_seen
    ai_memmail.Worker.Outbound.forward_context_limit_message ai_memmail.Worker.Outbound.reviewed_as
    ai_memmail.Worker.Outbound.context_limit_forward ai_memmail.Worker.Outbound.review_failed
    ai_memmail.Worker.Outbound.review_verdict ai_memmail.Worker.Outbound.review_answer
    ai_memmail.Worker.Outbound.reviewed_outbound_action ai_memmail.Worker.Classify.retry
    ai_memmail.Worker.Classify.too_long ai_memmail.Worker.Classify.unclassified
    ai_memmail.Worker.Classify.conclude ai_memmail.Worker.Classify.rule_prompt
    ai_memmail.Worker.Classify.matched ai_memmail.Worker.Classify.rule_answer
    ai_memmail.Worker.Classify.match_rule ai_memmail.Worker.Classify.resolved_answer
    ai_memmail.Worker.Classify.classified ai_memmail.Worker.Classify.taxonomy_answer
    ai_memmail.Worker.Classify.prompt_answer ai_memmail.Worker.Classify.classify_message_for_rules
    ai_memmail.Worker.Steps.step_name ai_memmail.Worker.Steps.step_result
    ai_memmail.Worker.Steps.beat ai_memmail.Worker.Steps.heartbeats
    ai_memmail.Worker.Steps.run_ai_step ai_memmail.Worker.Steps.ai_error_is_missing_prompt
    ai_memmail.Worker.Steps.ai_error_is_context_limit ai_memmail.Worker.Events.mailbox_event
    ai_memmail.Worker.Events.message_event ai_memmail.Worker.Events.log_event
    ai_memmail.Worker.Events.log_message ai_memmail.Worker.Events.mark_answer
    ai_memmail.Worker.Events.mark_seen ai_memmail.Worker.Events.claim_answer
    ai_memmail.Worker.Events.claim_before_side_effect ai_memmail.Worker.Events.log_store_error
    ai_memmail.Worker.Events.update_processing_status
    ai_memmail.Worker.Events.log_retryable_message_error
    ai_memmail.Worker.Events.log_optional_prompt_skip ai_memmail.Worker.Decide.retry
    ai_memmail.Worker.Decide.too_long ai_memmail.Worker.Decide.decided
    ai_memmail.Worker.Decide.agent_answer ai_memmail.Worker.Decide.agent_decision_or_retry
    ai_memmail.Worker.Decide.without_rule_prompt ai_memmail.Worker.Decide.rule_answer
    ai_memmail.Worker.Decide.by_rule ai_memmail.Worker.Decide.by_context
    ai_memmail.Worker.Decide.decide_message ai_memmail.Worker.Handoff.handoff_context_with_current
    ai_memmail.Worker.Handoff.latest_inbound ai_memmail.Worker.Handoff.thread_handoff_action
    ai_memmail.Worker.Handoff.finish ai_memmail.Worker.Handoff.sent_answer
    ai_memmail.Worker.Handoff.hand_off ai_memmail.Worker.Handoff.begin_delivery
    ai_memmail.Worker.Handoff.prevent_loop ai_memmail.Worker.Handoff.route_active_thread_handoff
    ai_memmail.Worker.Protocol.Counts.is_grant ai_memmail.Worker.Protocol.Counts.is_sent
    ai_memmail.Worker.Protocol.Counts.is_refused ai_memmail.Worker.Protocol.Counts.is_mark
    ai_memmail.Worker.Protocol.Counts.is_update ai_memmail.Worker.Protocol.Counts.is_failure_of
    ai_memmail.Worker.Protocol.Counts.is_finish_of ai_memmail.Worker.Protocol.Counts.is_accepted
    ai_memmail.Worker.Protocol.Balance.total ai_memmail.Mail.mail_error_text
    ai_memmail.Mail.has_truncated_body ai_memmail.Mail.dedupe_key ai_memmail.Mail.thread_id
    ai_memmail.Mail.reply_references ai_memmail.Mail.Forwarding.forward_body
    ai_memmail.Mail.Forwarding.handoff_body_max_bytes ai_memmail.Mail.Forwarding.handoff_entry
    ai_memmail.Mail.Forwarding.handoff_header ai_memmail.Mail.Forwarding.handoff_loop
    ai_memmail.Mail.Forwarding.thread_handoff_body ai_memmail.Mail.Forwarding.outbound_message_id
    ai_memmail.Mail.Signature.automated_reply_notice ai_memmail.Mail.Signature.automated_reply_body
    ai_memmail.Mail.Signature.plain_reply_body_with_signature
    ai_memmail.Mail.Signature.html_reply_body_with_signature
    ai_memmail.Mail.Signature.apply_reply_signature ai_memmail.Ai.Routing.jailbreak_terms
    ai_memmail.Ai.Routing.hacking_terms ai_memmail.Ai.Routing.deterministic_safety_scan
    ai_memmail.Ai.Routing.human_review_terms ai_memmail.Ai.Routing.human_review_requested
    ai_memmail.Ai.Routing.forward_recipients ai_memmail.Ai.Routing.forward_decision
    ai_memmail.Ai.Routing.truncation_marker ai_memmail.Ai.Routing.truncate_chars
    ai_memmail.Ai.Routing.truncate_chars_to_limit ai_memmail.Ai.is_not_found
    ai_memmail.Ai.prompt_error_text ai_memmail.Ai.ai_error_text
    ai_memmail.Storage.processing_status_can_reclaim
    ai_memmail.Storage.processing_claim_for_existing_status ai_memmail.Storage.outbound_action_value
    ai_memmail.Storage.safety_category_value ai_memmail.Storage.outbound_body_for_storage
    ai_memmail.Storage.inbound_body_storage_max_chars ai_memmail.Storage.bounded_body
    ai_memmail.Storage.inbound_body_for_storage ai_memmail.Storage.empty_string_as_none
    ai_memmail.Storage.Memory.set_status ai_memmail.Storage.Memory.claim_message
    ai_memmail.Storage.Memory.update_message_status ai_memmail.Storage.Memory.record_safety_result
    ai_memmail.Storage.Memory.record_agent_decision ai_memmail.Storage.Memory.stored_action
    ai_memmail.Storage.Memory.record_outbound_action
    ai_memmail.Storage.Memory.record_outbound_review
    ai_memmail.Storage.Memory.record_email_classification
    ai_memmail.Storage.Memory.upsert_sender_review ai_memmail.Storage.Memory.active_thread_handoff
    ai_memmail.Storage.Memory.begin_thread_handoff_delivery
    ai_memmail.Storage.Memory.finish_thread_handoff_delivery ai_memmail.Storage.Labels.memory_label
    ai_memmail.Storage.Labels.named ai_memmail.Storage.Labels.find_or_add
    ai_memmail.Storage.Labels.resolve_topics ai_memmail.Storage.Labels.resolve_email_classification
    ai_memmail.Storage.Labels.active_email_taxonomy ai_memmail.Storage.Rules.rule_applies
    ai_memmail.Storage.Rules.rule_before ai_memmail.Storage.Rules.insert_rule
    ai_memmail.Storage.Rules.sort_rules ai_memmail.Storage.Rules.find_matching_email_rule
    ai_memmail.Storage.Rules.marketing_rule ai_memmail.Storage.Rules.default_marketing_reply_goal
    ai_memmail.Storage.Rules.has_rule_for ai_memmail.Storage.Rules.seed_rules
    ai_memmail.Storage.Rules.ensure_default_classification_policy ai_memmail.Storage.Rules.has_id
    ai_memmail.Storage.Rules.names_of ai_memmail.Storage.Rules.add_email_rule
    ai_memmail.Safety.Senders.normalized_mailbox_addresses
    ai_memmail.Safety.Senders.sender_is_banned ai_memmail.Safety.decide
    ai_memmail.Safety.suspicious_subject_prefix ai_memmail.Safety.suspicious_forward_subject
    ai_memmail.Safety.suspicious_forward_intro ai_memmail.Text.text ai_memmail.Text.is_whitespace
    ai_memmail.Text.lower_ascii_char ai_memmail.Text.to_ascii_lowercase
    ai_memmail.Text.eq_ignore_ascii_case ai_memmail.Text.trim_start_matches
    ai_memmail.Text.trim_end_matches ai_memmail.Text.trim_matches ai_memmail.Text.trim
    ai_memmail.Text.trim_end ai_memmail.Text.trim_start ai_memmail.Text.starts_with
    ai_memmail.Text.contains_text ai_memmail.Text.contains_char ai_memmail.Text.split_once
    ai_memmail.Text.rsplit_once ai_memmail.Text.join ai_memmail.Text.byte_len
    ai_memmail.Text.decimal ai_memmail.Classification.outbound_kind
    ai_memmail.Classification.is_ascii_alphanumeric ai_memmail.Classification.to_lowercase
    ai_memmail.Classification.lowered ai_memmail.Classification.label_loop
    ai_memmail.Classification.normalize_label_name ai_memmail.Prelude.Assoc.lookup
    ai_memmail.Prelude.Assoc.insert ai_memmail.Prelude.list_beq ai_memmail.Prelude.contains
    ai_memmail.Worker.Action.◌>>=◌
counts_if_delivered = (refl, refl)

abbrev spam : InboundMessage
spam = message_from (text "bot@spam.example") (text "Buy now")

spam_is_banned :
    sender_is_banned sample_parser spam.metadata.from_addr sample_config.banned_senders ≡ true
unfolding sender_is_banned ai_memmail.Safety.Senders.normalized_mailbox_addresses
    ai_memmail.Text.to_ascii_lowercase ai_memmail.Text.trim text ai_memmail.Text.split_once
    ai_memmail.Prelude.list_beq
spam_is_banned = refl

process_message-banned_example :
    IsolatedCalls sample_mailbox
      (process_message delivering sample_config sample_mailbox run1 spam empty_store).calls
process_message-banned_example =
    process_message-banned delivering sample_config sample_mailbox run1 spam spam_is_banned
      empty_store

abbrev attack : SafetyScanResult
attack = record { category = hacking; reason = text "asks for malware" }

scanned-unsafe_example :
    IsolatedCalls sample_mailbox
      (scanned delivering sample_config sample_mailbox run1 question attack empty_store).calls
scanned-unsafe_example =
    scanned-unsafe delivering sample_config sample_mailbox run1 question attack
      (λ e. ground (arith, e)) empty_store

abbrev plea : InboundMessage
plea = message_from (text "ann@example.com") (text "Please escalate this.")

plea_asks_for_a_human : human_review_requested plea ≡ true
unfolding human_review_requested ai_memmail.Ai.Routing.human_review_terms
    ai_memmail.Text.contains_text ai_memmail.Text.to_ascii_lowercase text
plea_asks_for_a_human = refl

process_message-human_example :
    ForwardingCalls
      (process_message delivering sample_config sample_mailbox run1 plea empty_store).calls
process_message-human_example =
    process_message-human delivering sample_config sample_mailbox run1 plea plea_asks_for_a_human
      empty_store

process_message-reviewed_example :
    ReviewedCalls delivering sample_config sample_mailbox run1 question
      (process_message delivering sample_config sample_mailbox run1 question empty_store).calls
process_message-reviewed_example =
    process_message-reviewed delivering sample_config sample_mailbox run1 question refl empty_store
