-- ===== src/Worker/Effects/Classifying.antt =====
-- Classifying a message sends forwards only, and makes the one request that it is to.
use ai_memmail.Prelude.{String, Bool, true, false, Option, some, none, ◌≡◌}
use ai_memmail.Prelude.Result.{Result, ok, err}
use ai_memmail.Text.{Text}
use ai_memmail.Config.{AppConfig, MailboxConfig}
use ai_memmail.Mail.{forward, OutboundAction, InboundMessage, ThreadContext}
use ai_memmail.Classification.{
  EmailTaxonomy, EmailClassification, ResolvedEmailClassification, EmailRule,
}
use ai_memmail.Ai.{AiError}
use ai_memmail.Storage.{StorageError}
use ai_memmail.Worker.Action.{call}
use ai_memmail.Worker.Services.{Services, AiStep, classification, read}
use ai_memmail.Worker.Steps.{ai_error_is_missing_prompt, ai_error_is_context_limit}
use ai_memmail.Worker.History.{log_email_classification, log_rule_match}
use ai_memmail.Worker.Classify
use ai_memmail.Worker.Classify.{ClassificationContext, classify_message_for_rules}
use ai_memmail.Worker.Effects.{
  Allowed, Makes, Makes-pure, Makes-call, Makes-bind, Makes-if, Anything,
}
use ai_memmail.Worker.Effects.Quiet.{
  IfOk, log_message-Makes, log_optional_prompt_skip-Makes, run_ai_step-Makes,
  log_retryable_message_error-Makes,
}
use ai_memmail.Worker.Effects.Sending.{
  record_email_classification_for_history-Makes, forward_context_limit_message-Makes,
}

pub any_ok : {E A : Type 0} (answer : Result E A) → IfOk Anything answer
any_ok (ok a) = tt
any_ok (err e) = tt

module _ {Mailed : OutboundAction → Type 0} {Asked : AiStep → Type 0} (x : Services) where
  pub read-Makes :
      {A : Type 0} (run : x.World → A × x.World)
      → Makes (Allowed Mailed Asked) (call (λ _. read) run) Anything
  read-Makes run = Makes-call _ _ (λ _. tt)

module _ {Mailed : OutboundAction → Type 0} {Asked : AiStep → Type 0} (x : Services) (run_id : Text)
    (message : InboundMessage) where
  log_rule_match-Makes :
      (rule : Option EmailRule)
      → Makes (Allowed Mailed Asked) (log_rule_match x run_id message rule) Anything
  unfolding log_rule_match
  log_rule_match-Makes none = log_message-Makes x run_id message _ _ _ _
  log_rule_match-Makes (some rule) = log_message-Makes x run_id message _ _ _ _

module _ {Mailed : OutboundAction → Type 0} {Asked : AiStep → Type 0} (x : Services)
    (config : AppConfig) (mailbox : MailboxConfig) (run_id : Text) (message : InboundMessage)
    (thread_context : ThreadContext) (human : Bool)
    (forwards : (a : OutboundAction) → a.kind ≡ forward → Mailed a)
    (asks : Asked classification) where
  retry-Makes :
      {A : Type 0} (action detail : Text)
      → Makes
          (Allowed Mailed Asked)
          (Classify.retry x config mailbox run_id message thread_context human {A = A} action
            detail)
          Anything
  unfolding Classify.retry
  retry-Makes action detail =
      Makes-bind (log_retryable_message_error-Makes x run_id message _ _)
        (λ _ _. Makes-pure none tt)

  too_long-Makes :
      {A : Type 0}
      → Makes
          (Allowed Mailed Asked)
          (Classify.too_long x config mailbox run_id message thread_context human {A = A})
          Anything
  unfolding Classify.too_long
  too_long-Makes =
      Makes-bind (forward_context_limit_message-Makes x mailbox run_id message _ forwards)
        (λ _ _. Makes-pure none tt)

  unclassified-Makes :
      (detail : Text)
      → Makes
          (Allowed Mailed Asked)
          (Classify.unclassified x config mailbox run_id message thread_context human detail)
          Anything
  unfolding Classify.unclassified
  unclassified-Makes detail =
      Makes-bind (log_optional_prompt_skip-Makes x run_id message _ _) (λ _ _. Makes-pure _ tt)

  conclude-Makes :
      (raw : EmailClassification) (resolved : ResolvedEmailClassification) (rule : Option EmailRule)
      (source : String)
      → Makes
          (Allowed Mailed Asked)
          (Classify.conclude x config mailbox run_id message thread_context human raw resolved rule
            source)
          Anything
  unfolding Classify.conclude
  conclude-Makes raw resolved rule source =
      Makes-bind (record_email_classification_for_history-Makes x run_id message _ _ _)
        (λ _ _. Makes-pure _ tt)

  rule_prompt-Makes :
      (raw : EmailClassification) (resolved : ResolvedEmailClassification) (rule : EmailRule)
      (answer : Result AiError Bool)
      → Makes
          (Allowed Mailed Asked)
          (Classify.rule_prompt x config mailbox run_id message thread_context human raw resolved
            rule answer)
          Anything
  unfolding Classify.rule_prompt
  rule_prompt-Makes raw resolved rule (ok true) =
      Makes-bind (log_optional_prompt_skip-Makes x run_id message _ _)
        (λ _ _. conclude-Makes raw resolved none "agent")
  rule_prompt-Makes raw resolved rule (ok false) = conclude-Makes raw resolved (some rule) "rule"
  rule_prompt-Makes raw resolved rule (err e) = retry-Makes _ _

  matched-Makes :
      (raw : EmailClassification) (resolved : ResolvedEmailClassification) (rule : Option EmailRule)
      → Makes
          (Allowed Mailed Asked)
          (Classify.matched x config mailbox run_id message thread_context human raw resolved rule)
          Anything
  unfolding Classify.matched
  matched-Makes raw resolved none =
      Makes-bind (log_rule_match-Makes x run_id message none)
        (λ _ _. conclude-Makes raw resolved none "agent")
  matched-Makes raw resolved (some rule) =
      Makes-bind (log_rule_match-Makes x run_id message (some rule)) (λ _ _.
        Makes-bind (read-Makes x _) (λ answer _. rule_prompt-Makes raw resolved rule answer))

  rule_answer-Makes :
      (raw : EmailClassification) (resolved : ResolvedEmailClassification)
      (answer : Result StorageError (Option EmailRule))
      → Makes
          (Allowed Mailed Asked)
          (Classify.rule_answer x config mailbox run_id message thread_context human raw resolved
            answer)
          Anything
  unfolding Classify.rule_answer
  rule_answer-Makes raw resolved (ok rule) = matched-Makes raw resolved rule
  rule_answer-Makes raw resolved (err e) = retry-Makes _ _

  match_rule-Makes :
      (raw : EmailClassification) (resolved : ResolvedEmailClassification)
      → Makes
          (Allowed Mailed Asked)
          (Classify.match_rule x config mailbox run_id message thread_context human raw resolved)
          Anything
  unfolding Classify.match_rule
  match_rule-Makes raw resolved =
      Makes-if human
        (Makes-bind (log_message-Makes x run_id message _ _ _ _)
          (λ _ _. conclude-Makes raw resolved none "human_review"))
        (Makes-bind (read-Makes x _) (λ answer _. rule_answer-Makes raw resolved answer))

  resolved_answer-Makes :
      (raw : EmailClassification) (answer : Result StorageError ResolvedEmailClassification)
      → Makes
          (Allowed Mailed Asked)
          (Classify.resolved_answer x config mailbox run_id message thread_context human raw answer)
          Anything
  unfolding Classify.resolved_answer log_email_classification
  resolved_answer-Makes raw (ok resolved) =
      Makes-bind (log_message-Makes x run_id message _ _ _ _) (λ _ _. match_rule-Makes raw resolved)
  resolved_answer-Makes raw (err e) = retry-Makes _ _

  classified-Makes :
      (answer : Result AiError EmailClassification)
      → Makes
          (Allowed Mailed Asked)
          (Classify.classified x config mailbox run_id message thread_context human answer)
          Anything
  unfolding Classify.classified
  classified-Makes (ok raw) =
      Makes-bind (read-Makes x _) (λ answer _. resolved_answer-Makes raw answer)
  classified-Makes (err e) =
      Makes-if (ai_error_is_missing_prompt e) (unclassified-Makes _)
        (Makes-if (ai_error_is_context_limit e) too_long-Makes (retry-Makes _ _))

  taxonomy_answer-Makes :
      (answer : Result StorageError EmailTaxonomy)
      → Makes
          (Allowed Mailed Asked)
          (Classify.taxonomy_answer x config mailbox run_id message thread_context human answer)
          Anything
  unfolding Classify.taxonomy_answer
  taxonomy_answer-Makes (ok taxonomy) =
      Makes-bind (run_ai_step-Makes x message {R = Anything} _ _ asks (λ w. any_ok _))
        (λ answer _. classified-Makes answer)
  taxonomy_answer-Makes (err e) = retry-Makes _ _

  prompt_answer-Makes :
      (answer : Result AiError Bool)
      → Makes
          (Allowed Mailed Asked)
          (Classify.prompt_answer x config mailbox run_id message thread_context human answer)
          Anything
  unfolding Classify.prompt_answer
  prompt_answer-Makes (ok true) = unclassified-Makes _
  prompt_answer-Makes (ok false) =
      Makes-bind (read-Makes x _) (λ answer _. taxonomy_answer-Makes answer)
  prompt_answer-Makes (err e) =
      Makes-if (ai_error_is_context_limit e) too_long-Makes (retry-Makes _ _)

  pub classify_message_for_rules-Makes :
      Makes
        (Allowed Mailed Asked)
        (classify_message_for_rules x config mailbox run_id message thread_context human)
        Anything
  unfolding classify_message_for_rules
  classify_message_for_rules-Makes =
      Makes-bind (read-Makes x _) (λ answer _. prompt_answer-Makes answer)
