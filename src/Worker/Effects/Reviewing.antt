-- ===== src/Worker/Effects/Reviewing.antt =====
-- What `reviewed_outbound_action` lets through: the action that it was given, once the model
-- approved it or where the review is switched off, and forwards.
use ai_memmail.Prelude.{String, Bool, true, false, some, ◌≡◌, refl, ◌⊎◌, inl, inr, if◌then◌else◌}
use ai_memmail.Prelude.Result.{Result, ok, err}
use ai_memmail.Text.{Text}
use ai_memmail.Config.{AppConfig, MailboxConfig}
use ai_memmail.Mail.{InboundMessage, OutboundAction, forward, ThreadContext}
use ai_memmail.Ai.{AgentDecision, OutboundReviewDecision, AiError}
use ai_memmail.Ai.Routing.{forward_decision}
use ai_memmail.Worker.Action.{pure, ◌>>=◌}
use ai_memmail.Worker.Services.{Services, LogLevel, AiStep, review}
use ai_memmail.Worker.Steps.{run_ai_step, ai_error_is_context_limit}
use ai_memmail.Worker.Outbound.{
  outbound_review_forward_action, reviewed_as, context_limit_forward, review_failed, review_verdict,
  review_answer, reviewed_outbound_action,
}
use ai_memmail.Worker.Effects.{Allowed, Makes, Makes-pure, Makes-bind, Makes-if, Anything, IfSome}
use ai_memmail.Worker.Effects.Quiet.{IfOk, log_message-Makes, run_ai_step-Makes}
use ai_memmail.Worker.Effects.Sending.{
  record_outbound_review_for_history-Makes, action_with_runtime_fields-Makes,
}

-- In some world the review of the decision answers that it is approved.
abbrev pub IsApproved :
    (x : Services)
    → AppConfig
    → MailboxConfig
    → InboundMessage
    → ThreadContext
    → AgentDecision
    → Type 0
IsApproved x config mailbox message context decision =
    (w : x.World) × (r : OutboundReviewDecision) × ((x.outbound_review config mailbox message
        context decision w).0
      ≡ ok r)
    × (r.approved ≡ true)

answered :
    {C : Type 0} (S : C → Type 0) (answer : Result AiError C)
    → ((c : C) → answer ≡ ok c → S c)
    → IfOk S answer
answered S (ok c) h = h c refl
answered S (err e) h = tt

module _ {Mailed : OutboundAction → Type 0} {Asked : AiStep → Type 0} {R : OutboundAction → Type 0}
    (x : Services) (mailbox : MailboxConfig) (run_id : Text) (message : InboundMessage)
    (forwards : (a : OutboundAction) → a.kind ≡ forward → R a) where
  reviewed_as-Makes :
      (level : LogLevel) (status : String) (detail reason : Text)
      → Makes
          (Allowed Mailed Asked)
          (reviewed_as x mailbox run_id message level status detail reason)
          Anything
  unfolding reviewed_as
  reviewed_as-Makes level status detail reason =
      Makes-bind (log_message-Makes x run_id message _ _ _ _)
        (λ _ _. record_outbound_review_for_history-Makes x run_id message _ _)

  review_verdict-Makes :
      (action : OutboundAction) (r : OutboundReviewDecision)
      → (r.approved ≡ true → R action)
      → Makes (Allowed Mailed Asked) (review_verdict x mailbox run_id message action r) (IfSome R)
  unfolding review_verdict outbound_review_forward_action
  review_verdict-Makes action r h = verdict r.approved h
    where
      verdict :
          (approved : Bool)
          → (approved ≡ true → R action)
          → Makes
              (Allowed Mailed Asked)
              (if approved
                then (reviewed_as x mailbox run_id message LogLevel.info "approved" r.reason
                      r.reason
                    >>= λ _. pure (some action))
                else (reviewed_as x mailbox run_id message LogLevel.warn "rejected" r.reason
                      r.reason
                    >>= λ _. pure (some (outbound_review_forward_action mailbox message action r))))
              (IfSome R)
      verdict true k = Makes-bind (reviewed_as-Makes _ _ _ _) (λ _ _. Makes-pure _ (k refl))
      verdict false k =
          Makes-bind (reviewed_as-Makes _ _ _ _) (λ _ _. Makes-pure _ (forwards _ refl))

  context_limit_forward-Makes :
      (e : AiError)
      → Makes (Allowed Mailed Asked) (context_limit_forward x mailbox run_id message e) (IfSome R)
  unfolding context_limit_forward forward_decision
  context_limit_forward-Makes e = Makes-bind (reviewed_as-Makes _ _ _ _) (λ _ _.
      Makes-bind (action_with_runtime_fields-Makes x mailbox run_id message _)
        (λ action same. Makes-pure _ (forwards action same.0)))

  review_failed-Makes :
      (e : AiError)
      → Makes (Allowed Mailed Asked) (review_failed x mailbox run_id message e) (IfSome R)
  unfolding review_failed
  review_failed-Makes e = Makes-bind (reviewed_as-Makes _ _ _ _) (λ _ _. Makes-pure _ tt)

  review_answer-Makes :
      (action : OutboundAction) (answer : Result AiError OutboundReviewDecision)
      → IfOk (λ r. r.approved ≡ true → R action) answer
      → Makes
          (Allowed Mailed Asked)
          (review_answer x mailbox run_id message action answer)
          (IfSome R)
  unfolding review_answer
  review_answer-Makes action (ok r) h = review_verdict-Makes action r h
  review_answer-Makes action (err e) h =
      Makes-if (ai_error_is_context_limit e) (context_limit_forward-Makes e) (review_failed-Makes e)

  pub reviewed_outbound_action-Makes :
      (config : AppConfig) (context : ThreadContext) (decision : AgentDecision)
      → Asked review
      → ((config.ai.review.enabled ≡ false) ⊎ IsApproved x config mailbox message context decision
          → R decision.action)
      → Makes
          (Allowed Mailed Asked)
          (reviewed_outbound_action x mailbox run_id message config context decision)
          (IfSome R)
  unfolding reviewed_outbound_action
  reviewed_outbound_action-Makes config context decision asks h =
      by_switch config.ai.review.enabled refl
    where
      by_switch :
          (enabled : Bool)
          → config.ai.review.enabled ≡ enabled
          → Makes
              (Allowed Mailed Asked)
              (if enabled
                then (run_ai_step x message review
                      (x.outbound_review config mailbox message context decision)
                    >>= λ answer. review_answer x mailbox run_id message decision.action answer)
                else pure (some decision.action))
              (IfSome R)
      by_switch true e =
          Makes-bind
            (run_ai_step-Makes x message {R = λ r. r.approved ≡ true → R decision.action} _ _ asks
              (λ w.
                answered (λ r. r.approved ≡ true → R decision.action)
                  (x.outbound_review config mailbox message context decision w).0
                  (λ r p k. h (inr (w, r, p, k)))))
            (λ answer k. review_answer-Makes decision.action answer k)
      by_switch false e = Makes-pure _ (h (inl e))
