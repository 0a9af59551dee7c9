-- ===== src/Tests/Samples.antt =====
-- A configuration, messages, and services whose store is the store in memory.
use ai_memmail.Prelude.{ℕ, true, false, none, some, List, [], ◌∷◌}
use ai_memmail.Prelude.Int.{pos}
use ai_memmail.Prelude.Result.{Result, ok}
use ai_memmail.Text.{Text, text}
use ai_memmail.Config.{AppConfig, MailboxConfig, domain, openai}
use ai_memmail.Mail.{InboundMessage, reply, MailError}
use ai_memmail.Mail.Parser.{MailParser, single, group}
use ai_memmail.Safety.{safe}
use ai_memmail.Classification.{EmailClassification, EmailRule, EmailRuleAction}
use ai_memmail.Ai.{AgentDecision}
use ai_memmail.Storage.Labels.{
  ClassificationState, memory_label, resolve_email_classification, active_email_taxonomy,
}
use ai_memmail.Storage.Rules.{find_matching_email_rule}
use ai_memmail.Storage.Memory.{
  MemoryProcessingStore, claim_message, update_message_status, record_safety_result,
  upsert_sender_review, record_agent_decision, record_outbound_action, record_outbound_review,
  record_email_classification, active_thread_handoff, begin_thread_handoff_delivery,
  finish_thread_handoff_delivery,
}
use ai_memmail.Worker.Services.{Services}

abbrev pub sample_parser : MailParser
sample_parser = record {
  addrparse = λ s. some (single s ∷ []);
  extract_single_info = elim [
    | [] ↦ none
    | a ∷ rest ↦ elim a [ single address ↦ some address | group _ ↦ none ]
  ];
}

abbrev pub sample_mailbox : MailboxConfig
sample_mailbox = record {
  id = text "support";
  address = text "support@example.org";
  enabled = true;
  poll_interval_seconds = 60;
  safety_forward_to = text "safety@example.org" ∷ [];
  signature = none;
  accepted_conditions = [];
  mcp_servers = [];
  agent = record { system_prompt_path = text "agent.md"; default_forward_to = [] };
  imap = record {
    host = text "imap.example.org";
    port = 993;
    tls = true;
    username = text "support";
    password = text "secret";
    folder = text "INBOX";
    sent_folder = none;
    sent_backfill_days = 0;
  };
  smtp = record {
    host = text "smtp.example.org";
    port = 587;
    starttls = true;
    username = text "support";
    password = text "secret";
    from = text "support@example.org";
  };
}

abbrev pub sample_config : AppConfig
sample_config = record {
  version = 1;
  database = record {
    host = text "db";
    port = 5432;
    username = text "app";
    password = text "secret";
    database = text "mail";
  };
  logging = record {
    level = text "info";
    format = text "json";
    verbose_actions = false;
    retention_days = 30;
  };
  prompts = record {
    root = text "prompts";
    safety_scan = text "safety.md";
    email_classifier = text "classifier.md";
    rule_action = text "rule.md";
  };
  ai = record {
    protocol = openai;
    api_url = text "https://ai.example.org";
    api_secret = text "secret";
    model = text "model";
    review = record { enabled = true; prompt_path = text "review.md" };
  };
  mcp_servers = [];
  mailboxes = sample_mailbox ∷ [];
  banned_senders = record { kind = domain; value = text "spam.example"; reason = text "spam" } ∷ [];
}

-- A message by its sender and its text.
abbrev pub message_from : Text → Text → InboundMessage
message_from sender body = record {
  metadata = record {
    mailbox_id = text "support";
    uid_validity = 7;
    uid = 42;
    message_id = some (text "<m1@example.com>");
    in_reply_to = none;
    references = [];
    from_addr = sender;
    recipients = text "support@example.org" ∷ [];
    subject = text "Question";
  };
  plain_text = body;
}

abbrev pub question : InboundMessage
question = message_from (text "ann@example.com") (text "How do I join?")

abbrev pub sample_decision : AgentDecision
sample_decision = record {
  action = record {
    kind = reply;
    recipients = text "ann@example.com" ∷ [];
    subject = text "Re: Question";
    body = text "Please see the wiki.";
    html_body = none;
    reason = text "answered";
    reply_to = none;
    message_id = none;
    in_reply_to = none;
    references = [];
  };
  safety_notes = text "none";
}

abbrev pub sample_classification : EmailClassification
sample_classification = record {
  category = text "Community Help";
  topics = text "Joining" ∷ text "joining" ∷ [];
  reason = text "asks";
  confidence = 90;
}

abbrev pub sample_labels : ClassificationState
unfolding memory_label
sample_labels = record {
  categories = record {
    labels = memory_label 1 (text "marketing_vendor") (text "offers") "system" ∷ [];
    next_id = 2;
  };
  topics = record { labels = []; next_id = 1 };
  rules = [];
  next_rule_id = 1;
}

abbrev pub empty_store : MemoryProcessingStore
empty_store = record {
  statuses = [];
  safety_results = [];
  sender_reviews = [];
  agent_decisions = [];
  outbound_actions = [];
  outbound_reviews = [];
  classification = sample_labels;
  records = [];
  handoffs = [];
  handoff_deliveries = [];
}

-- Services over the store in memory, by what SMTP answers: the model answers the question and its
-- review approves.
abbrev pub sample_services : Result MailError (Unit {0}) → Services
sample_services smtp_answer = record {
  World = MemoryProcessingStore;
  parser = sample_parser;
  claim_message = λ run_id message s. let (claim, t) = claim_message message s in (ok claim, t);
  update_message_status = λ key status kind s. (ok tt, update_message_status key status s);
  touch_processing = λ key s. (ok tt, s);
  record_safety_result = λ key c reason s. (ok tt, record_safety_result key c reason s);
  upsert_sender_review = λ sender id reason s. (ok tt, upsert_sender_review sender id reason s);
  record_agent_decision = λ key d s. (ok tt, record_agent_decision key d s);
  record_outbound_action = λ key a s. (ok tt, record_outbound_action key a s);
  record_outbound_review = λ key status r s. (ok tt, record_outbound_review key status r s);
  active_email_taxonomy = λ s. (ok (active_email_taxonomy s.classification), s);
  resolve_email_classification = λ c s.
      let (r, state) = resolve_email_classification c s.classification in
      (ok r, record s { classification = state });
  find_matching_email_rule =
      λ id c s. (ok (find_matching_email_rule id c s.classification.rules), s);
  record_email_classification =
      λ key c source rule s. (ok tt, record_email_classification key c source rule s);
  load_thread_context =
      λ mailbox message s. (ok (record { thread_id = text "t1"; messages = [] }), s);
  active_thread_handoff =
      λ mailbox_id thread_id s. (ok (active_thread_handoff mailbox_id thread_id s), s);
  begin_thread_handoff_delivery =
      λ d s. let (delivery, t) = begin_thread_handoff_delivery d s in (ok delivery, t);
  finish_thread_handoff_delivery =
      λ m t r status e s. (ok tt, finish_thread_handoff_delivery m t r status e s);
  send = λ server action s. (smtp_answer, s);
  mark_seen = λ mailbox uid s. (ok tt, s);
  classifier_prompt_missing = λ config s. (ok false, s);
  rule_prompt_missing = λ config s. (ok false, s);
  safety_scan =
      λ config mailbox message s. (ok (record { category = safe; reason = text "no threat" }), s);
  classify_email = λ config mailbox message context taxonomy s. (ok sample_classification, s);
  agent_decision = λ config mailbox message context s. (ok sample_decision, s);
  rule_decision = λ config mailbox message context c rule s. (ok sample_decision, s);
  outbound_review = λ config mailbox message context decision s.
      (ok (record { approved = true; reason = text "fine" }), s);
  log = λ event s. s;
  schedule = λ s. (record { ticks = 1; timed_out = false }, s);
  now = λ s. (pos 1000, s);
  new_uuid = λ s. (text "u1", s);
  parse_uuid = λ s. some s;
}

-- A rule of the mailbox by its identifier, its topics and its priority.
abbrev pub sample_rule : ℕ → List ℕ → ℕ → EmailRule
sample_rule id topic_ids priority = record {
  id = id;
  mailbox_id = text "support";
  name = text "rule";
  category_id = 1;
  category = text "community";
  topic_ids = topic_ids;
  topics = [];
  action = EmailRuleAction.reply;
  reply_goal = text "help";
  enabled = true;
  priority = pos priority;
  created_at = "memory";
  updated_at = "memory";
}
