-- ===== src/Worker/Effects/Deciding.antt =====
-- Deciding about a message: the model is asked unless the sender wants a human.
use ai_memmail.Prelude.{Bool, true, false, Option, some, none, ◌≡◌, refl}
use ai_memmail.Prelude.Result.{Result, ok, err}
use ai_memmail.Text.{Text}
use ai_memmail.Config.{AppConfig, MailboxConfig}
use ai_memmail.Mail.{forward, OutboundAction, InboundMessage, ThreadContext}
use ai_memmail.Classification.{EmailRule}
use ai_memmail.Ai.{AgentDecision, AiError}
use ai_memmail.Worker.Services.{Services, AiStep, agent, rule}
use ai_memmail.Worker.Steps.{ai_error_is_missing_prompt, ai_error_is_context_limit}
use ai_memmail.Worker.Classify.{ClassificationContext}
use ai_memmail.Worker.Decide
use ai_memmail.Worker.Decide.{agent_decision_or_retry, decide_message}
use ai_memmail.Worker.Effects.{Allowed, Makes, Makes-pure, Makes-bind, Makes-if, Anything, IfSome}
use ai_memmail.Worker.Effects.Quiet.{
  log_optional_prompt_skip-Makes, run_ai_step-Makes, log_retryable_message_error-Makes,
}
use ai_memmail.Worker.Effects.Sending.{
  log_decision-Makes, record_email_classification_for_history-Makes,
  forward_context_limit_message-Makes,
}
use ai_memmail.Worker.Effects.Classifying.{any_ok}
use ai_memmail.Ai.Routing.{forward_decision}

module _ {Mailed : OutboundAction → Type 0} {Asked : AiStep → Type 0} {D : AgentDecision → Type 0}
    (x : Services) (config : AppConfig) (mailbox : MailboxConfig) (run_id : Text)
    (message : InboundMessage) (thread_context : ThreadContext) where
  decided-Makes :
      (name : Text) (decision : AgentDecision)
      → D decision
      → Makes
          (Allowed Mailed Asked)
          (Decide.decided x config mailbox run_id message thread_context name decision)
          (IfSome D)
  unfolding Decide.decided
  decided-Makes name decision h =
      Makes-bind (log_decision-Makes x run_id message _ _) (λ _ _. Makes-pure _ h)

module _ {Mailed : OutboundAction → Type 0} {Asked : AiStep → Type 0} (D : AgentDecision → Type 0)
    (x : Services) (config : AppConfig) (mailbox : MailboxConfig) (run_id : Text)
    (message : InboundMessage) (thread_context : ThreadContext)
    (forwards : (a : OutboundAction) → a.kind ≡ forward → Mailed a)
    (free : Asked agent × Asked rule × ((d : AgentDecision) → D d)) where
  decision_retry-Makes :
      (action : Text) (e : AiError)
      → Makes
          (Allowed Mailed Asked)
          (Decide.retry x config mailbox run_id message thread_context action e)
          (IfSome D)
  unfolding Decide.retry
  decision_retry-Makes action e =
      Makes-bind (log_retryable_message_error-Makes x run_id message _ _)
        (λ _ _. Makes-pure none tt)

  decision_too_long-Makes :
      Makes
        (Allowed Mailed Asked)
        (Decide.too_long x config mailbox run_id message thread_context)
        (IfSome D)
  unfolding Decide.too_long
  decision_too_long-Makes =
      Makes-bind (forward_context_limit_message-Makes x mailbox run_id message _ forwards)
        (λ _ _. Makes-pure none tt)

  agent_answer-Makes :
      (answer : Result AiError AgentDecision)
      → Makes
          (Allowed Mailed Asked)
          (Decide.agent_answer x config mailbox run_id message thread_context answer)
          (IfSome D)
  unfolding Decide.agent_answer
  agent_answer-Makes (ok decision) =
      decided-Makes x config mailbox run_id message thread_context _ decision (free.2 decision)
  agent_answer-Makes (err e) =
      Makes-if (ai_error_is_context_limit e) decision_too_long-Makes (decision_retry-Makes _ e)

  agent_decision_or_retry-Makes :
      Makes
        (Allowed Mailed Asked)
        (agent_decision_or_retry x config mailbox run_id message thread_context)
        (IfSome D)
  unfolding agent_decision_or_retry
  agent_decision_or_retry-Makes =
      Makes-bind (run_ai_step-Makes x message {R = Anything} _ _ free.0 (λ w. any_ok _))
        (λ answer _. agent_answer-Makes answer)

  without_rule_prompt-Makes :
      (context : ClassificationContext) (e : AiError)
      → Makes
          (Allowed Mailed Asked)
          (Decide.without_rule_prompt x config mailbox run_id message thread_context context e)
          (IfSome D)
  unfolding Decide.without_rule_prompt
  without_rule_prompt-Makes context e =
      Makes-bind (log_optional_prompt_skip-Makes x run_id message _ _) (λ _ _.
        Makes-bind (record_email_classification_for_history-Makes x run_id message _ _ _)
          (λ _ _. agent_decision_or_retry-Makes))

  decision_rule_answer-Makes :
      (context : ClassificationContext) (answer : Result AiError AgentDecision)
      → Makes
          (Allowed Mailed Asked)
          (Decide.rule_answer x config mailbox run_id message thread_context context answer)
          (IfSome D)
  unfolding Decide.rule_answer
  decision_rule_answer-Makes context (ok decision) =
      decided-Makes x config mailbox run_id message thread_context _ decision (free.2 decision)
  decision_rule_answer-Makes context (err e) =
      Makes-if (ai_error_is_missing_prompt e) (without_rule_prompt-Makes context e)
        (Makes-if (ai_error_is_context_limit e) decision_too_long-Makes (decision_retry-Makes _ e))

  by_rule-Makes :
      (context : ClassificationContext) (matched : Option EmailRule)
      → Makes
          (Allowed Mailed Asked)
          (Decide.by_rule x config mailbox run_id message thread_context context matched)
          (IfSome D)
  unfolding Decide.by_rule
  by_rule-Makes context none = agent_decision_or_retry-Makes
  by_rule-Makes context (some matched) =
      Makes-bind (run_ai_step-Makes x message {R = Anything} _ _ free.1 (λ w. any_ok _))
        (λ answer _. decision_rule_answer-Makes context answer)

  by_context-Makes :
      (context : Option ClassificationContext)
      → Makes
          (Allowed Mailed Asked)
          (Decide.by_context x config mailbox run_id message thread_context context)
          (IfSome D)
  unfolding Decide.by_context
  by_context-Makes none = agent_decision_or_retry-Makes
  by_context-Makes (some context) = by_rule-Makes context context.matched_rule

module _ {Mailed : OutboundAction → Type 0} {Asked : AiStep → Type 0} {D : AgentDecision → Type 0}
    (x : Services) (config : AppConfig) (mailbox : MailboxConfig) (run_id : Text)
    (message : InboundMessage) (thread_context : ThreadContext)
    (forwards : (a : OutboundAction) → a.kind ≡ forward → Mailed a)
    (decisions : (d : AgentDecision) → d.action.kind ≡ forward → D d) where
  -- Where the sender asked for a human, the decision is a forward and the model is not asked.
  pub decide_message-Makes :
      (human : Bool) (context : Option ClassificationContext)
      → (human ≡ false → Asked agent × Asked rule × ((d : AgentDecision) → D d))
      → Makes
          (Allowed Mailed Asked)
          (decide_message x config mailbox run_id message thread_context human context)
          (IfSome D)
  unfolding decide_message forward_decision
  decide_message-Makes true context free =
      decided-Makes x config mailbox run_id message thread_context _ _ (decisions _ refl)
  decide_message-Makes false context free =
      by_context-Makes D x config mailbox run_id message thread_context forwards (free refl) context
