-- ===== src/Worker/History.antt =====
-- worker/history.rs: what is logged and stored of the course of a message.
use ai_memmail.Prelude.{String, Bool, true, false, ◌&&◌, Option, none, some, ◌++◌, if◌then◌else◌}
use ai_memmail.Prelude.Result.{Result, ok, err}
use ai_memmail.Text.{Text, text, join, decimal}
use ai_memmail.Mail.{InboundMessage, OutboundAction, dedupe_key}
use ai_memmail.Safety.{SafetyScanResult, SafetyDecision}
use ai_memmail.Classification.{ResolvedEmailClassification, EmailRule}
use ai_memmail.Ai.{AgentDecision}
use ai_memmail.Storage.{StorageError, outbound_action_value, safety_category_value}
use ai_memmail.Worker.Action.{pure, call, ◌>>=◌, ◌>>◌}
use ai_memmail.Worker.Services.{Services, Operation, info, recorded, sender_reviewed}
use ai_memmail.Worker.Events.{M, log_message, log_store_error}

module _ (x : Services) (run_id : Text) (message : InboundMessage) where
  unfoldable pub log_safety_scan_result : SafetyScanResult → M x (Unit {0})
  log_safety_scan_result scan =
      log_message x run_id message info (text "safety_scan")
        (text (safety_category_value scan.category)) (some scan.reason)

  unfoldable pub log_decision : AgentDecision → Text → M x (Unit {0})
  log_decision decision action_name =
      log_message x run_id message info action_name
        (text (outbound_action_value decision.action.kind)) (some decision.action.reason)

  unfoldable pub log_email_classification : ResolvedEmailClassification → M x (Unit {0})
  log_email_classification c =
      log_message x run_id message info (text "email_classification") c.category (
        some (
          text "topics="
          ++ (join (text ",") c.topics
              ++ (text "; confidence=" ++ (decimal c.confidence ++ (text "; " ++ c.reason))))))

  unfoldable pub log_rule_match : Option EmailRule → M x (Unit {0})
  log_rule_match none = log_message x run_id message info (text "rule_match") (text "no_match") none
  log_rule_match (some rule) =
      log_message x run_id message info (text "rule_match") (text "matched")
        (some (rule.name ++ (text ": " ++ rule.reply_goal)))

  -- A write whose failure is only logged.
  unfoldable pub write : Text → Operation x.World StorageError (Unit {0}) → M x (Unit {0})
  write name operation = do
    answer ← call (λ _. recorded) operation
    log_store_error x run_id message name answer

  unfoldable pub record_safety_result_for_history : SafetyScanResult → M x (Unit {0})
  record_safety_result_for_history scan =
      write (text "safety_result_persist")
        (x.record_safety_result (dedupe_key message.metadata) scan.category scan.reason)

  unfoldable pub record_agent_decision_for_history : AgentDecision → M x (Unit {0})
  record_agent_decision_for_history decision =
      write (text "agent_decision_persist")
        (x.record_agent_decision (dedupe_key message.metadata) decision)

  unfoldable pub record_email_classification_for_history :
      ResolvedEmailClassification → String → Option EmailRule → M x (Unit {0})
  record_email_classification_for_history c source matched =
      write (text "email_classification_persist")
        (x.record_email_classification (dedupe_key message.metadata) c source matched)

  unfoldable pub record_outbound_action_for_history : OutboundAction → M x (Unit {0})
  record_outbound_action_for_history action =
      write (text "outbound_action_persist")
        (x.record_outbound_action (dedupe_key message.metadata) action)

  unfoldable pub record_outbound_review_for_history : String → Text → M x (Unit {0})
  record_outbound_review_for_history status reason =
      write (text "outbound_review_persist")
        (x.record_outbound_review (dedupe_key message.metadata) status reason)

  -- An answer of the store, logged, with whether it was no error.
  unfoldable pub persisted_answer : Text → Result StorageError (Unit {0}) → M x Bool
  persisted_answer name (ok _) = pure true
  persisted_answer name (err e) = do log_store_error x run_id message name (err e); pure false

  unfoldable pub review_sender : SafetyDecision → M x Bool
  review_sender decision = do
    answer ←
        call (λ _. sender_reviewed message.metadata.from_addr)
          (x.upsert_sender_review message.metadata.from_addr message.metadata.mailbox_id
            decision.reason)
    persisted_answer (text "sender_review_persist") answer

  unfoldable pub record_quarantine_state : SafetyScanResult → SafetyDecision → M x Bool
  record_quarantine_state scan decision = do
    answer ←
        call (λ _. recorded)
          (x.record_safety_result (dedupe_key message.metadata) scan.category scan.reason)
    persisted ← persisted_answer (text "safety_result_persist") answer
    reviewed ← if decision.add_sender_to_review then review_sender decision else pure true
    pure (persisted && reviewed)
