-- ===== src/Worker/Services.antt =====
-- What the worker calls: the traits `ProcessingStore` (storage.rs), `MailTransport` (mail.rs),
-- `DecisionEngine` (ai.rs) and `ActionLogger` (logging.rs), the clock, and the drawing of UUIDs.
-- Every operation may answer anything, and may change the world that later answers depend on.
use ai_memmail.Prelude.Int.{ℤ}
use ai_memmail.Prelude.{ℕ, String, Bool, Option}
use ai_memmail.Prelude.Result.{Result}
use ai_memmail.Text.{Text}
use ai_memmail.Config.{AppConfig, MailboxConfig, SmtpConfig}
use ai_memmail.Mail.{
  DedupeKey, InboundMessage, OutboundAction, OutboundActionKind, MailError, ThreadContext,
}
use ai_memmail.Mail.Parser.{MailParser}
use ai_memmail.Safety.{SafetyCategory, SafetyScanResult}
use ai_memmail.Classification.{
  EmailTaxonomy, EmailClassification, ResolvedEmailClassification, EmailRule,
}
use ai_memmail.Ai.{AgentDecision, OutboundReviewDecision, AiError}
use ai_memmail.Storage.{
  ThreadHandoffDelivery, StorageError, ProcessingClaim, ThreadHandoff, NewThreadHandoffDelivery,
}

pub data LogLevel : Type 0 where
  debug info warn error fatal : LogLevel

-- An event without its duration, which nothing reads back.
pub record ActionEvent : Type 0 where
  pub level : LogLevel
  pub run_id : Text
  pub mailbox_id : Option Text
  pub message_uid_validity : Option ℕ
  pub message_uid : Option ℕ
  pub action : Text
  pub status : Text
  pub detail : Option Text

-- What the runtime does while a request to the model runs: how often the heartbeat ticks, and
-- whether the time is up before the answer is there.
pub record Schedule : Type 0 where
  pub ticks : ℕ
  pub timed_out : Bool

abbrev pub Operation : Type 0 → Type 0 → Type 0 → Type 0
Operation W E A = W → Result E A × W

pub record Services : Type 1 where
  pub World : Type 0
  pub parser : MailParser
  -- ProcessingStore
  pub claim_message : Text → InboundMessage → Operation World StorageError ProcessingClaim
  pub update_message_status :
      DedupeKey → String → Option OutboundActionKind → Operation World StorageError (Unit {0})
  pub touch_processing : DedupeKey → Operation World StorageError (Unit {0})
  pub record_safety_result :
      DedupeKey → SafetyCategory → Text → Operation World StorageError (Unit {0})
  pub upsert_sender_review : Text → Text → Text → Operation World StorageError (Unit {0})
  pub record_agent_decision : DedupeKey → AgentDecision → Operation World StorageError (Unit {0})
  pub record_outbound_action : DedupeKey → OutboundAction → Operation World StorageError (Unit {0})
  pub record_outbound_review : DedupeKey → String → Text → Operation World StorageError (Unit {0})
  pub active_email_taxonomy : Operation World StorageError EmailTaxonomy
  pub resolve_email_classification :
      EmailClassification → Operation World StorageError ResolvedEmailClassification
  pub find_matching_email_rule :
      Text → ResolvedEmailClassification → Operation World StorageError (Option EmailRule)
  pub record_email_classification :
      DedupeKey
      → ResolvedEmailClassification
      → String
      → Option EmailRule
      → Operation World StorageError (Unit {0})
  pub load_thread_context :
      MailboxConfig → InboundMessage → Operation World StorageError ThreadContext
  pub active_thread_handoff : Text → Text → Operation World StorageError (Option ThreadHandoff)
  pub begin_thread_handoff_delivery :
      NewThreadHandoffDelivery → Operation World StorageError ThreadHandoffDelivery
  pub finish_thread_handoff_delivery :
      Text → Text → Text → String → Option Text → Operation World StorageError (Unit {0})
  -- MailTransport
  pub send : SmtpConfig → OutboundAction → Operation World MailError (Unit {0})
  pub mark_seen : MailboxConfig → ℕ → Operation World MailError (Unit {0})
  -- DecisionEngine
  pub classifier_prompt_missing : AppConfig → Operation World AiError Bool
  pub rule_prompt_missing : AppConfig → Operation World AiError Bool
  pub safety_scan :
      AppConfig → MailboxConfig → InboundMessage → Operation World AiError SafetyScanResult
  pub classify_email :
      AppConfig
      → MailboxConfig
      → InboundMessage
      → ThreadContext
      → EmailTaxonomy
      → Operation World AiError EmailClassification
  pub agent_decision :
      AppConfig
      → MailboxConfig
      → InboundMessage
      → ThreadContext
      → Operation World AiError AgentDecision
  pub rule_decision :
      AppConfig
      → MailboxConfig
      → InboundMessage
      → ThreadContext
      → EmailClassification
      → EmailRule
      → Operation World AiError AgentDecision
  pub outbound_review :
      AppConfig
      → MailboxConfig
      → InboundMessage
      → ThreadContext
      → AgentDecision
      → Operation World AiError OutboundReviewDecision
  -- ActionLogger, the runtime, the clock, Uuid::new_v4 and Uuid::parse_str
  pub log : ActionEvent → World → World
  pub schedule : World → Schedule × World
  pub now : World → ℤ × World
  pub new_uuid : World → Text × World
  pub parse_uuid : Text → Option Text

-- The requests to the model.
pub data AiStep : Type 0 where
  scan classification agent rule review : AiStep

-- The notes of the calls, with what decides the course of a message.
pub data Call : Type 0 where
  claim : DedupeKey → Result StorageError ProcessingClaim → Call
  status_set :
      DedupeKey → String → Option OutboundActionKind → Result StorageError (Unit {0}) → Call
  asked : AiStep → Call
  sent : SmtpConfig → OutboundAction → Result MailError (Unit {0}) → Call
  seen : ℕ → Result MailError (Unit {0}) → Call
  delivery_begun : Call
  delivery_finished : String → Call
  sender_reviewed : Text → Call
  recorded : Call
  read : Call
  logged : ActionEvent → Call
