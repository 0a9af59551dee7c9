-- ===== src/Storage/Memory.antt =====
-- storage/memory_store.rs: `MemoryProcessingStore`. Its locks are never poisoned, so the operations
-- that only lock and write have no error here.
pub mod Deliveries
use ai_memmail.Prelude.{
  String, Bool, true, false, ◌||◌, Option, none, some, if◌then◌else◌, ◌==◌, String_eq, Eq, ◌&&◌,
  ◌≡◌, ◌↔◌, arith,
}
use ai_memmail.Prelude.Assoc.{Assoc, lookup, insert}
use ai_memmail.Text.{Text, Text_eq}
use ai_memmail.Mail.{DedupeKey, DedupeKey_eq, InboundMessage, OutboundAction, dedupe_key}
use ai_memmail.Safety.{SafetyCategory}
use ai_memmail.Classification.{ResolvedEmailClassification, EmailRule}
use ai_memmail.Ai.{AgentDecision}
use ai_memmail.Storage.{
  status_processing, ProcessingClaim, claimed, ThreadHandoff, ThreadHandoffDelivery,
  NewThreadHandoffDelivery, StoredSafetyResult, SenderReviewRecord, StoredAgentDecision,
  StoredOutboundAction, StoredOutboundReview, StoredEmailClassification,
  processing_status_can_reclaim, processing_claim_for_existing_status, outbound_action_value,
  safety_category_value, outbound_body_for_storage,
}
use ai_memmail.Storage.Labels.{ClassificationState}

-- The pair of a mailbox and a thread, and that of a thread and a request.
pub record ThreadKey : Type 0 where
  pub mailbox_id : Text
  pub thread_id : Text

abbrev thread_key_beq : ThreadKey → ThreadKey → Bool
thread_key_beq a b = a.mailbox_id == b.mailbox_id && a.thread_id == b.thread_id

pub thread_key_beq_iff : (a b : ThreadKey) → (thread_key_beq a b ≡ true) ↔ (a ≡ b)
thread_key_beq_iff a b =
    ground
      (arith, Text_eq.beq_iff a.mailbox_id b.mailbox_id, Text_eq.beq_iff a.thread_id b.thread_id)

instance abbrev pub ThreadKey_eq : Eq ThreadKey
ThreadKey_eq = record { beq = thread_key_beq; beq_iff = thread_key_beq_iff }

pub record DeliveryKey : Type 0 where
  pub thread : ThreadKey
  pub request_id : Text

abbrev delivery_key_beq : DeliveryKey → DeliveryKey → Bool
delivery_key_beq a b = a.thread == b.thread && a.request_id == b.request_id

pub delivery_key_beq_iff : (a b : DeliveryKey) → (delivery_key_beq a b ≡ true) ↔ (a ≡ b)
delivery_key_beq_iff a b =
    ground (arith, thread_key_beq_iff a.thread b.thread, Text_eq.beq_iff a.request_id b.request_id)

instance abbrev pub DeliveryKey_eq : Eq DeliveryKey
DeliveryKey_eq = record { beq = delivery_key_beq; beq_iff = delivery_key_beq_iff }

pub record MemoryProcessingStore : Type 0 where
  pub statuses : Assoc DedupeKey String
  pub safety_results : Assoc DedupeKey StoredSafetyResult
  pub sender_reviews : Assoc Text SenderReviewRecord
  pub agent_decisions : Assoc DedupeKey StoredAgentDecision
  pub outbound_actions : Assoc DedupeKey StoredOutboundAction
  pub outbound_reviews : Assoc DedupeKey StoredOutboundReview
  pub classification : ClassificationState
  pub records : Assoc DedupeKey StoredEmailClassification
  pub handoffs : Assoc ThreadKey ThreadHandoff
  pub handoff_deliveries : Assoc DeliveryKey ThreadHandoffDelivery

unfoldable pub set_status : DedupeKey → String → MemoryProcessingStore → MemoryProcessingStore
unfolding insert
set_status key status s = record s { statuses = insert key status s.statuses }

abbrev pub claim_known :
    DedupeKey → MemoryProcessingStore → Option String → ProcessingClaim × MemoryProcessingStore
claim_known key s none = (claimed, set_status key status_processing s)
claim_known key s (some status) =
    if processing_status_can_reclaim status false
    then (claimed, set_status key status_processing s)
    else (processing_claim_for_existing_status status, s)

unfoldable pub claim_message :
    InboundMessage → MemoryProcessingStore → ProcessingClaim × MemoryProcessingStore
unfolding set_status processing_status_can_reclaim processing_claim_for_existing_status lookup
claim_message message s =
    let key = dedupe_key message.metadata in claim_known key s (lookup key s.statuses)

-- The third argument of the source, the kind of the outbound action, is not used there.
unfoldable pub update_message_status :
    DedupeKey → String → MemoryProcessingStore → MemoryProcessingStore
unfolding set_status
update_message_status = set_status

unfoldable pub record_safety_result :
    DedupeKey → SafetyCategory → Text → MemoryProcessingStore → MemoryProcessingStore
record_safety_result key category reason s = record s {
  safety_results =
      insert key (record { category = safety_category_value category; reason = reason })
        s.safety_results;
}

unfoldable pub record_agent_decision :
    DedupeKey → AgentDecision → MemoryProcessingStore → MemoryProcessingStore
record_agent_decision key decision s = record s {
  agent_decisions =
      insert key
        (record {
          action = outbound_action_value decision.action.kind;
          safety_notes = decision.safety_notes;
        })
        s.agent_decisions;
}

unfoldable pub stored_action : OutboundAction → StoredOutboundAction
stored_action action =
    let (body, html_body, redacted) = outbound_body_for_storage action in
    record {
      kind = outbound_action_value action.kind;
      recipients = action.recipients;
      subject = action.subject;
      body = body;
      html_body = html_body;
      body_redacted = redacted;
      reason = action.reason;
      message_id = action.message_id;
    }

unfoldable pub record_outbound_action :
    DedupeKey → OutboundAction → MemoryProcessingStore → MemoryProcessingStore
unfolding stored_action
record_outbound_action key action s = record s {
  outbound_actions = insert key (stored_action action) s.outbound_actions;
}

unfoldable pub record_outbound_review :
    DedupeKey → String → Text → MemoryProcessingStore → MemoryProcessingStore
record_outbound_review key status reason s = record s {
  outbound_reviews = insert key (record { status = status; reason = reason }) s.outbound_reviews;
}

abbrev rule_name : Option EmailRule → Option Text
rule_name none = none
rule_name (some rule) = some rule.name

unfoldable pub record_email_classification :
    DedupeKey
    → ResolvedEmailClassification
    → String
    → Option EmailRule
    → MemoryProcessingStore
    → MemoryProcessingStore
record_email_classification key c source matched s = record s {
  records =
      insert key
        (record {
          category = c.category;
          topics = c.topics;
          reason = c.reason;
          confidence = c.confidence;
          decision_source = source;
          matched_rule_name = rule_name matched;
        })
        s.records;
}

unfoldable pub upsert_sender_review :
    Text → Text → Text → MemoryProcessingStore → MemoryProcessingStore
upsert_sender_review sender mailbox_id reason s = record s {
  sender_reviews =
      insert sender (record { mailbox_id = mailbox_id; reason = reason }) s.sender_reviews;
}

abbrev if_open : Option ThreadHandoff → Option ThreadHandoff
if_open none = none
if_open (some handoff) =
    if handoff.state == "active" || (handoff.state == "sending" || handoff.state == "uncertain")
    then some handoff
    else none

unfoldable pub active_thread_handoff : Text → Text → MemoryProcessingStore → Option ThreadHandoff
unfolding lookup
active_thread_handoff mailbox_id thread_id s =
    if_open (lookup (record { mailbox_id = mailbox_id; thread_id = thread_id }) s.handoffs)

abbrev pub sending : NewThreadHandoffDelivery → ThreadHandoffDelivery
sending d = record {
  request_id = d.request_id;
  mailbox_id = d.mailbox_id;
  thread_id = d.thread_id;
  source_run_id = d.source_run_id;
  destination = d.destination;
  remote_target = d.remote_target;
  outbound_message_id = d.outbound_message_id;
  status = "sending";
  error = none;
}

abbrev pub delivery_key : Text → Text → Text → DeliveryKey
delivery_key mailbox_id thread_id request_id = record {
  thread = record { mailbox_id = mailbox_id; thread_id = thread_id };
  request_id = request_id;
}

-- `entry(key).or_insert_with(…)`: a delivery that is known stays as it is.
abbrev pub begin_known :
    DeliveryKey
    → NewThreadHandoffDelivery
    → MemoryProcessingStore
    → Option ThreadHandoffDelivery
    → ThreadHandoffDelivery × MemoryProcessingStore
begin_known key d s (some known) = (known, s)
begin_known key d s none =
    (sending d, record s { handoff_deliveries = insert key (sending d) s.handoff_deliveries })

unfoldable pub begin_thread_handoff_delivery :
    NewThreadHandoffDelivery → MemoryProcessingStore → ThreadHandoffDelivery × MemoryProcessingStore
unfolding lookup insert
begin_thread_handoff_delivery d s =
    let key = delivery_key d.mailbox_id d.thread_id d.request_id in
    begin_known key d s (lookup key s.handoff_deliveries)

abbrev pub finish_known :
    DeliveryKey
    → String
    → Option Text
    → MemoryProcessingStore
    → Option ThreadHandoffDelivery
    → MemoryProcessingStore
finish_known key status error s none = s
finish_known key status error s (some delivery) = record s {
  handoff_deliveries =
      insert key (record delivery { status = status; error = error }) s.handoff_deliveries;
}

unfoldable pub finish_thread_handoff_delivery :
    Text → Text → Text → String → Option Text → MemoryProcessingStore → MemoryProcessingStore
unfolding lookup insert
finish_thread_handoff_delivery mailbox_id thread_id request_id status error s =
    let key = delivery_key mailbox_id thread_id request_id in
    finish_known key status error s (lookup key s.handoff_deliveries)
