-- ===== src/Worker/Decide.antt =====
-- worker/process.rs and worker/thread_context.rs: the decision about a message that is safe.
use ai_memmail.Prelude.{Bool, true, false, Option, none, some, if◌then◌else◌}
use ai_memmail.Prelude.Result.{Result, ok, err}
use ai_memmail.Text.{Text, text}
use ai_memmail.Config.{AppConfig, MailboxConfig}
use ai_memmail.Mail.{InboundMessage, ThreadContext}
use ai_memmail.Classification.{EmailRule}
use ai_memmail.Ai.{AgentDecision, AiError, ai_error_text}
use ai_memmail.Ai.Routing.{forward_decision}
use ai_memmail.Worker.Action.{pure, ◌>>=◌, ◌>>◌}
use ai_memmail.Worker.Services.{Services, agent, rule}
use ai_memmail.Worker.Events.{M, log_retryable_message_error, log_optional_prompt_skip}
use ai_memmail.Worker.Steps.{run_ai_step, ai_error_is_missing_prompt, ai_error_is_context_limit}
use ai_memmail.Worker.History.{log_decision, record_email_classification_for_history}
use ai_memmail.Worker.Outbound.{forward_context_limit_message}
use ai_memmail.Worker.Classify.{ClassificationContext, context_limit_reason}

module _ (x : Services) (config : AppConfig) (mailbox : MailboxConfig) (run_id : Text)
    (message : InboundMessage) (thread_context : ThreadContext) where
  -- The message is left for a later run.
  unfoldable pub retry : Text → AiError → M x (Option AgentDecision)
  retry action e = do
    log_retryable_message_error x run_id message action (ai_error_text e)
    pure none

  unfoldable pub too_long : M x (Option AgentDecision)
  too_long = do
    forward_context_limit_message x mailbox run_id message context_limit_reason
    pure none

  unfoldable pub decided : Text → AgentDecision → M x (Option AgentDecision)
  decided name decision = do log_decision x run_id message decision name; pure (some decision)

  unfoldable pub agent_answer : Result AiError AgentDecision → M x (Option AgentDecision)
  agent_answer (ok decision) = decided (text "agent_decision") decision
  agent_answer (err e) =
      if ai_error_is_context_limit e then too_long else retry (text "agent_decision") e

  unfoldable pub agent_decision_or_retry : M x (Option AgentDecision)
  agent_decision_or_retry = do
    answer ← run_ai_step x message agent (x.agent_decision config mailbox message thread_context)
    agent_answer answer

  -- Without the prompt for rules the agent decides, and the stored source of the decision changes.
  unfoldable pub without_rule_prompt : ClassificationContext → AiError → M x (Option AgentDecision)
  without_rule_prompt context e = do
    log_optional_prompt_skip x run_id message (text "rule_decision") (ai_error_text e)
    record_email_classification_for_history x run_id message context.resolved "agent" none
    agent_decision_or_retry

  unfoldable pub rule_answer :
      ClassificationContext → Result AiError AgentDecision → M x (Option AgentDecision)
  rule_answer context (ok decision) = decided (text "rule_decision") decision
  rule_answer context (err e) =
      if ai_error_is_missing_prompt e
      then without_rule_prompt context e
      else if ai_error_is_context_limit e
      then too_long
      else retry (text "rule_decision") e

  unfoldable pub by_rule : ClassificationContext → Option EmailRule → M x (Option AgentDecision)
  by_rule context none = agent_decision_or_retry
  by_rule context (some matched) = do
    answer ←
        run_ai_step x message rule
          (x.rule_decision config mailbox message thread_context context.raw matched)
    rule_answer context answer

  unfoldable pub by_context : Option ClassificationContext → M x (Option AgentDecision)
  by_context none = agent_decision_or_retry
  by_context (some context) = by_rule context context.matched_rule

  unfoldable pub decide_message : Bool → Option ClassificationContext → M x (Option AgentDecision)
  decide_message true context =
      decided (text "human_review")
        (forward_decision mailbox message (text "sender requested human review"))
  decide_message false context = by_context context
