-- ===== src/Worker/Protocol/Deciding.antt =====
-- Deciding about a message follows the order of the calls: it ends the processing, or leaves the
-- message in work and gives a decision.
use ai_memmail.Prelude.{Bool, true, false, Option, some, none, refl}
use ai_memmail.Prelude.Result.{Result, ok, err}
use ai_memmail.Text.{Text}
use ai_memmail.Config.{AppConfig, MailboxConfig}
use ai_memmail.Mail.{dedupe_key, InboundMessage, ThreadContext}
use ai_memmail.Classification.{EmailRule}
use ai_memmail.Ai.{AgentDecision, AiError}
use ai_memmail.Worker.Services.{Services}
use ai_memmail.Worker.Steps.{ai_error_is_missing_prompt, ai_error_is_context_limit}
use ai_memmail.Worker.Classify.{ClassificationContext}
use ai_memmail.Worker.Decide
use ai_memmail.Worker.Decide.{agent_decision_or_retry, decide_message}
use ai_memmail.Worker.Protocol.{working}
use ai_memmail.Worker.Protocol.Rules.{Leads, Leads-pure, Leads-bind, Leads-if, unless_stopped}
use ai_memmail.Worker.Protocol.Parts.{
  log_retryable_message_error-Leads, log_optional_prompt_skip-Leads, run_ai_step-Leads,
}
use ai_memmail.Worker.Protocol.Sending.{
  log_decision-Leads, record_email_classification_for_history-Leads,
  forward_context_limit_message-Leads,
}

module _ (x : Services) (config : AppConfig) (mailbox : MailboxConfig) (run_id : Text)
    (message : InboundMessage) (thread_context : ThreadContext) where
  decision_retry-Leads :
      (action : Text) (e : AiError)
      → Leads
          (dedupe_key message.metadata)
          working
          (Decide.retry x config mailbox run_id message thread_context action e)
          (unless_stopped working)
  unfolding Decide.retry
  decision_retry-Leads action e =
      Leads-bind (log_retryable_message_error-Leads x run_id message _ _)
        (λ _. Leads-pure none refl)

  decision_too_long-Leads :
      Leads
        (dedupe_key message.metadata)
        working
        (Decide.too_long x config mailbox run_id message thread_context)
        (unless_stopped working)
  unfolding Decide.too_long
  decision_too_long-Leads =
      Leads-bind (forward_context_limit_message-Leads x mailbox run_id message _)
        (λ _. Leads-pure none refl)

  decided-Leads :
      (name : Text) (decision : AgentDecision)
      → Leads
          (dedupe_key message.metadata)
          working
          (Decide.decided x config mailbox run_id message thread_context name decision)
          (unless_stopped working)
  unfolding Decide.decided
  decided-Leads name decision =
      Leads-bind (log_decision-Leads x run_id message _ _) (λ _. Leads-pure _ refl)

  agent_answer-Leads :
      (answer : Result AiError AgentDecision)
      → Leads
          (dedupe_key message.metadata)
          working
          (Decide.agent_answer x config mailbox run_id message thread_context answer)
          (unless_stopped working)
  unfolding Decide.agent_answer
  agent_answer-Leads (ok decision) = decided-Leads _ decision
  agent_answer-Leads (err e) =
      Leads-if (ai_error_is_context_limit e) decision_too_long-Leads (decision_retry-Leads _ e)

  agent_decision_or_retry-Leads :
      Leads
        (dedupe_key message.metadata)
        working
        (agent_decision_or_retry x config mailbox run_id message thread_context)
        (unless_stopped working)
  unfolding agent_decision_or_retry
  agent_decision_or_retry-Leads =
      Leads-bind (run_ai_step-Leads x message _ _) (λ answer. agent_answer-Leads answer)

  without_rule_prompt-Leads :
      (context : ClassificationContext) (e : AiError)
      → Leads
          (dedupe_key message.metadata)
          working
          (Decide.without_rule_prompt x config mailbox run_id message thread_context context e)
          (unless_stopped working)
  unfolding Decide.without_rule_prompt
  without_rule_prompt-Leads context e =
      Leads-bind (log_optional_prompt_skip-Leads x run_id message _ _) (λ _.
        Leads-bind (record_email_classification_for_history-Leads x run_id message _ _ _)
          (λ _. agent_decision_or_retry-Leads))

  decision_rule_answer-Leads :
      (context : ClassificationContext) (answer : Result AiError AgentDecision)
      → Leads
          (dedupe_key message.metadata)
          working
          (Decide.rule_answer x config mailbox run_id message thread_context context answer)
          (unless_stopped working)
  unfolding Decide.rule_answer
  decision_rule_answer-Leads context (ok decision) = decided-Leads _ decision
  decision_rule_answer-Leads context (err e) =
      Leads-if (ai_error_is_missing_prompt e) (without_rule_prompt-Leads context e)
        (Leads-if (ai_error_is_context_limit e) decision_too_long-Leads (decision_retry-Leads _ e))

  by_rule-Leads :
      (context : ClassificationContext) (rule : Option EmailRule)
      → Leads
          (dedupe_key message.metadata)
          working
          (Decide.by_rule x config mailbox run_id message thread_context context rule)
          (unless_stopped working)
  unfolding Decide.by_rule
  by_rule-Leads context none = agent_decision_or_retry-Leads
  by_rule-Leads context (some rule) =
      Leads-bind (run_ai_step-Leads x message _ _)
        (λ answer. decision_rule_answer-Leads context answer)

  by_context-Leads :
      (context : Option ClassificationContext)
      → Leads
          (dedupe_key message.metadata)
          working
          (Decide.by_context x config mailbox run_id message thread_context context)
          (unless_stopped working)
  unfolding Decide.by_context
  by_context-Leads none = agent_decision_or_retry-Leads
  by_context-Leads (some context) = by_rule-Leads context context.matched_rule

  pub decide_message-Leads :
      (human : Bool) (context : Option ClassificationContext)
      → Leads
          (dedupe_key message.metadata)
          working
          (decide_message x config mailbox run_id message thread_context human context)
          (unless_stopped working)
  unfolding decide_message
  decide_message-Leads true context = decided-Leads _ _
  decide_message-Leads false context = by_context-Leads context
