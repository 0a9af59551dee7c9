-- ===== src/Worker/Classify.antt =====
-- worker/classification.rs: the labels of a message, and the rule that they select.
use ai_memmail.Prelude.{String, Bool, true, false, Option, none, some, ◌++◌, if◌then◌else◌}
use ai_memmail.Prelude.Result.{Result, ok, err}
use ai_memmail.Text.{Text, text}
use ai_memmail.Config.{AppConfig, MailboxConfig}
use ai_memmail.Mail.{InboundMessage, ThreadContext}
use ai_memmail.Classification.{
  EmailTaxonomy, EmailClassification, ResolvedEmailClassification, EmailRule,
}
use ai_memmail.Ai.{AiError, ai_error_text}
use ai_memmail.Storage.{StorageError}
use ai_memmail.Worker.Action.{pure, call, ◌>>=◌, ◌>>◌}
use ai_memmail.Worker.Services.{Services, info, classification, read}
use ai_memmail.Worker.Events.{M, log_message, log_retryable_message_error, log_optional_prompt_skip}
use ai_memmail.Worker.Steps.{run_ai_step, ai_error_is_missing_prompt, ai_error_is_context_limit}
use ai_memmail.Worker.History.{
  log_email_classification, log_rule_match, record_email_classification_for_history,
}
use ai_memmail.Worker.Outbound.{forward_context_limit_message}

pub record ClassificationContext : Type 0 where
  pub raw : EmailClassification
  pub resolved : ResolvedEmailClassification
  pub matched_rule : Option EmailRule

abbrev pub context_limit_reason : Text
context_limit_reason = text "AI input exceeded the configured context limit"

module _ (x : Services) (config : AppConfig) (mailbox : MailboxConfig) (run_id : Text)
    (message : InboundMessage) (thread_context : ThreadContext) (needs_human_review : Bool) where
  -- The message is left for a later run; the result ends its processing.
  unfoldable pub retry : {A : Type 0} → Text → Text → M x (Option A)
  retry action detail = do log_retryable_message_error x run_id message action detail; pure none

  unfoldable pub too_long : {A : Type 0} → M x (Option A)
  too_long = do
    forward_context_limit_message x mailbox run_id message context_limit_reason
    pure none

  -- Processing goes on without a classification.
  unfoldable pub unclassified : Text → M x (Option (Option ClassificationContext))
  unclassified detail = do
    log_optional_prompt_skip x run_id message (text "email_classification") detail
    pure (some none)

  -- The classification is stored with the source of the decision that is to follow.
  unfoldable pub conclude :
      EmailClassification
      → ResolvedEmailClassification
      → Option EmailRule
      → String
      → M x (Option (Option ClassificationContext))
  conclude raw resolved matched source = do
    record_email_classification_for_history x run_id message resolved source matched
    pure (some (some (record { raw = raw; resolved = resolved; matched_rule = matched })))

  unfoldable pub rule_prompt :
      EmailClassification
      → ResolvedEmailClassification
      → EmailRule
      → Result AiError Bool
      → M x (Option (Option ClassificationContext))
  rule_prompt raw resolved rule (ok true) = do
    log_optional_prompt_skip x run_id message (text "rule_decision")
        (text "optional prompt missing: " ++ config.prompts.rule_action)
    conclude raw resolved none "agent"
  rule_prompt raw resolved rule (ok false) = conclude raw resolved (some rule) "rule"
  rule_prompt raw resolved rule (err e) = retry (text "rule_decision") (ai_error_text e)

  unfoldable pub matched :
      EmailClassification
      → ResolvedEmailClassification
      → Option EmailRule
      → M x (Option (Option ClassificationContext))
  matched raw resolved none = do
    log_rule_match x run_id message none
    conclude raw resolved none "agent"
  matched raw resolved (some rule) = do
    log_rule_match x run_id message (some rule)
    answer ← call (λ _. read) (x.rule_prompt_missing config)
    rule_prompt raw resolved rule answer

  unfoldable pub rule_answer :
      EmailClassification
      → ResolvedEmailClassification
      → Result StorageError (Option EmailRule)
      → M x (Option (Option ClassificationContext))
  rule_answer raw resolved (ok rule) = matched raw resolved rule
  rule_answer raw resolved (err e) = retry (text "rule_match") e.message

  unfoldable pub match_rule :
      EmailClassification
      → ResolvedEmailClassification
      → M x (Option (Option ClassificationContext))
  match_rule raw resolved =
      if needs_human_review
      then (do
        log_message x run_id message info (text "rule_match") (text "skipped")
            (some (text "sender requested human review"))
        conclude raw resolved none "human_review")
      else (do
        answer ← call (λ _. read) (x.find_matching_email_rule mailbox.id resolved)
        rule_answer raw resolved answer)

  unfoldable pub resolved_answer :
      EmailClassification
      → Result StorageError ResolvedEmailClassification
      → M x (Option (Option ClassificationContext))
  resolved_answer raw (ok resolved) = do
    log_email_classification x run_id message resolved
    match_rule raw resolved
  resolved_answer raw (err e) = retry (text "email_classification_resolve") e.message

  unfoldable pub classified :
      Result AiError EmailClassification → M x (Option (Option ClassificationContext))
  classified (ok raw) = do
    answer ← call (λ _. read) (x.resolve_email_classification raw)
    resolved_answer raw answer
  classified (err e) =
      if ai_error_is_missing_prompt e
      then unclassified (ai_error_text e)
      else if ai_error_is_context_limit e
      then too_long
      else retry (text "email_classification") (ai_error_text e)

  unfoldable pub taxonomy_answer :
      Result StorageError EmailTaxonomy → M x (Option (Option ClassificationContext))
  taxonomy_answer (err e) = retry (text "email_taxonomy") e.message
  taxonomy_answer (ok taxonomy) = do
    answer ←
        run_ai_step x message classification
          (x.classify_email config mailbox message thread_context taxonomy)
    classified answer

  unfoldable pub prompt_answer : Result AiError Bool → M x (Option (Option ClassificationContext))
  prompt_answer (ok true) =
      unclassified (text "optional prompt missing: " ++ config.prompts.email_classifier)
  prompt_answer (ok false) = do
    answer ← call (λ _. read) x.active_email_taxonomy
    taxonomy_answer answer
  prompt_answer (err e) =
      if ai_error_is_context_limit e
      then too_long
      else retry (text "email_classification") (ai_error_text e)

  unfoldable pub classify_message_for_rules : M x (Option (Option ClassificationContext))
  classify_message_for_rules = do
    answer ← call (λ _. read) (x.classifier_prompt_missing config)
    prompt_answer answer
