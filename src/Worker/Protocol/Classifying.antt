-- ===== src/Worker/Protocol/Classifying.antt =====
-- Classifying a message follows the order of the calls: it ends the processing, or leaves the message
-- in work and gives a result.
use ai_memmail.Prelude.{String, Bool, true, false, Option, some, none, refl}
use ai_memmail.Prelude.Result.{Result, ok, err}
use ai_memmail.Text.{Text}
use ai_memmail.Config.{AppConfig, MailboxConfig}
use ai_memmail.Mail.{DedupeKey, dedupe_key, InboundMessage, ThreadContext}
use ai_memmail.Classification.{
  EmailTaxonomy, EmailClassification, ResolvedEmailClassification, EmailRule,
}
use ai_memmail.Ai.{AiError}
use ai_memmail.Storage.{StorageError}
use ai_memmail.Worker.Action.{call}
use ai_memmail.Worker.Services.{Services, read}
use ai_memmail.Worker.Steps.{ai_error_is_missing_prompt, ai_error_is_context_limit}
use ai_memmail.Worker.History.{log_email_classification, log_rule_match}
use ai_memmail.Worker.Classify
use ai_memmail.Worker.Classify.{ClassificationContext, classify_message_for_rules}
use ai_memmail.Worker.Protocol.{Phase, working, advance}
use ai_memmail.Worker.Protocol.Rules.{
  Leads, Leads-pure, Leads-call, Leads-bind, Leads-if, unless_stopped,
}
use ai_memmail.Worker.Protocol.Parts.{
  log_message-Leads, log_retryable_message_error-Leads, log_optional_prompt_skip-Leads,
  run_ai_step-Leads,
}
use ai_memmail.Worker.Protocol.Sending.{
  record_email_classification_for_history-Leads, forward_context_limit_message-Leads,
}

module _ (x : Services) where
  pub read-Leads :
      {A : Type 0} {k : DedupeKey} {p : Phase} (run : x.World → A × x.World)
      → Leads k p (call (λ _. read) run) (λ _. p)
  unfolding advance
  read-Leads run = Leads-call _ _ (λ _. refl)

module _ (x : Services) (run_id : Text) (message : InboundMessage) where
  log_rule_match-Leads :
      {p : Phase} (rule : Option EmailRule)
      → Leads (dedupe_key message.metadata) p (log_rule_match x run_id message rule) (λ _. p)
  unfolding log_rule_match
  log_rule_match-Leads none = log_message-Leads x run_id message _ _ _ _
  log_rule_match-Leads (some rule) = log_message-Leads x run_id message _ _ _ _

module _ (x : Services) (config : AppConfig) (mailbox : MailboxConfig) (run_id : Text)
    (message : InboundMessage) (thread_context : ThreadContext) (human : Bool) where
  retry-Leads :
      {A : Type 0} (action detail : Text)
      → Leads
          (dedupe_key message.metadata)
          working
          (Classify.retry x config mailbox run_id message thread_context human {A = A} action
            detail)
          (unless_stopped working)
  unfolding Classify.retry
  retry-Leads action detail =
      Leads-bind (log_retryable_message_error-Leads x run_id message _ _)
        (λ _. Leads-pure none refl)

  too_long-Leads :
      {A : Type 0}
      → Leads
          (dedupe_key message.metadata)
          working
          (Classify.too_long x config mailbox run_id message thread_context human {A = A})
          (unless_stopped working)
  unfolding Classify.too_long
  too_long-Leads =
      Leads-bind (forward_context_limit_message-Leads x mailbox run_id message _)
        (λ _. Leads-pure none refl)

  unclassified-Leads :
      (detail : Text)
      → Leads
          (dedupe_key message.metadata)
          working
          (Classify.unclassified x config mailbox run_id message thread_context human detail)
          (unless_stopped working)
  unfolding Classify.unclassified
  unclassified-Leads detail =
      Leads-bind (log_optional_prompt_skip-Leads x run_id message _ _) (λ _. Leads-pure _ refl)

  conclude-Leads :
      (raw : EmailClassification) (resolved : ResolvedEmailClassification) (rule : Option EmailRule)
      (source : String)
      → Leads
          (dedupe_key message.metadata)
          working
          (Classify.conclude x config mailbox run_id message thread_context human raw resolved rule
            source)
          (unless_stopped working)
  unfolding Classify.conclude
  conclude-Leads raw resolved rule source =
      Leads-bind (record_email_classification_for_history-Leads x run_id message _ _ _)
        (λ _. Leads-pure _ refl)

  rule_prompt-Leads :
      (raw : EmailClassification) (resolved : ResolvedEmailClassification) (rule : EmailRule)
      (answer : Result AiError Bool)
      → Leads
          (dedupe_key message.metadata)
          working
          (Classify.rule_prompt x config mailbox run_id message thread_context human raw resolved
            rule answer)
          (unless_stopped working)
  unfolding Classify.rule_prompt
  rule_prompt-Leads raw resolved rule (ok true) =
      Leads-bind (log_optional_prompt_skip-Leads x run_id message _ _)
        (λ _. conclude-Leads raw resolved none "agent")
  rule_prompt-Leads raw resolved rule (ok false) = conclude-Leads raw resolved (some rule) "rule"
  rule_prompt-Leads raw resolved rule (err e) = retry-Leads _ _

  matched-Leads :
      (raw : EmailClassification) (resolved : ResolvedEmailClassification) (rule : Option EmailRule)
      → Leads
          (dedupe_key message.metadata)
          working
          (Classify.matched x config mailbox run_id message thread_context human raw resolved rule)
          (unless_stopped working)
  unfolding Classify.matched
  matched-Leads raw resolved none =
      Leads-bind (log_rule_match-Leads x run_id message none)
        (λ _. conclude-Leads raw resolved none "agent")
  matched-Leads raw resolved (some rule) =
      Leads-bind (log_rule_match-Leads x run_id message (some rule))
        (λ _. Leads-bind (read-Leads x _) (λ answer. rule_prompt-Leads raw resolved rule answer))

  rule_answer-Leads :
      (raw : EmailClassification) (resolved : ResolvedEmailClassification)
      (answer : Result StorageError (Option EmailRule))
      → Leads
          (dedupe_key message.metadata)
          working
          (Classify.rule_answer x config mailbox run_id message thread_context human raw resolved
            answer)
          (unless_stopped working)
  unfolding Classify.rule_answer
  rule_answer-Leads raw resolved (ok rule) = matched-Leads raw resolved rule
  rule_answer-Leads raw resolved (err e) = retry-Leads _ _

  match_rule-Leads :
      (raw : EmailClassification) (resolved : ResolvedEmailClassification)
      → Leads
          (dedupe_key message.metadata)
          working
          (Classify.match_rule x config mailbox run_id message thread_context human raw resolved)
          (unless_stopped working)
  unfolding Classify.match_rule
  match_rule-Leads raw resolved =
      Leads-if human
        (Leads-bind (log_message-Leads x run_id message _ _ _ _)
          (λ _. conclude-Leads raw resolved none "human_review"))
        (Leads-bind (read-Leads x _) (λ answer. rule_answer-Leads raw resolved answer))

  resolved_answer-Leads :
      (raw : EmailClassification) (answer : Result StorageError ResolvedEmailClassification)
      → Leads
          (dedupe_key message.metadata)
          working
          (Classify.resolved_answer x config mailbox run_id message thread_context human raw answer)
          (unless_stopped working)
  unfolding Classify.resolved_answer log_email_classification
  resolved_answer-Leads raw (ok resolved) =
      Leads-bind (log_message-Leads x run_id message _ _ _ _) (λ _. match_rule-Leads raw resolved)
  resolved_answer-Leads raw (err e) = retry-Leads _ _

  classified-Leads :
      (answer : Result AiError EmailClassification)
      → Leads
          (dedupe_key message.metadata)
          working
          (Classify.classified x config mailbox run_id message thread_context human answer)
          (unless_stopped working)
  unfolding Classify.classified
  classified-Leads (ok raw) =
      Leads-bind (read-Leads x _) (λ answer. resolved_answer-Leads raw answer)
  classified-Leads (err e) =
      Leads-if (ai_error_is_missing_prompt e) (unclassified-Leads _)
        (Leads-if (ai_error_is_context_limit e) too_long-Leads (retry-Leads _ _))

  taxonomy_answer-Leads :
      (answer : Result StorageError EmailTaxonomy)
      → Leads
          (dedupe_key message.metadata)
          working
          (Classify.taxonomy_answer x config mailbox run_id message thread_context human answer)
          (unless_stopped working)
  unfolding Classify.taxonomy_answer
  taxonomy_answer-Leads (ok taxonomy) =
      Leads-bind (run_ai_step-Leads x message _ _) (λ answer. classified-Leads answer)
  taxonomy_answer-Leads (err e) = retry-Leads _ _

  prompt_answer-Leads :
      (answer : Result AiError Bool)
      → Leads
          (dedupe_key message.metadata)
          working
          (Classify.prompt_answer x config mailbox run_id message thread_context human answer)
          (unless_stopped working)
  unfolding Classify.prompt_answer
  prompt_answer-Leads (ok true) = unclassified-Leads _
  prompt_answer-Leads (ok false) =
      Leads-bind (read-Leads x _) (λ answer. taxonomy_answer-Leads answer)
  prompt_answer-Leads (err e) =
      Leads-if (ai_error_is_context_limit e) too_long-Leads (retry-Leads _ _)

  pub classify_message_for_rules-Leads :
      Leads
        (dedupe_key message.metadata)
        working
        (classify_message_for_rules x config mailbox run_id message thread_context human)
        (unless_stopped working)
  unfolding classify_message_for_rules
  classify_message_for_rules-Leads =
      Leads-bind (read-Leads x _) (λ answer. prompt_answer-Leads answer)
