-- ===== src/Worker/Steps.antt =====
-- worker/step_timeout.rs: a request to the model beside a heartbeat and a timeout.
use ai_memmail.Prelude.{ℕ, zero, suc, Bool, true, false, Option, none, some, ◌++◌}
use ai_memmail.Prelude.Result.{Result, ok, err}
use ai_memmail.Text.{Text, text}
use ai_memmail.Mail.{InboundMessage, dedupe_key}
use ai_memmail.Ai.{AiError, provider, context_length_exceeded, prompt, is_not_found}
use ai_memmail.Storage.{StorageError}
use ai_memmail.Worker.Action.{pure, call, draw, ◌>>=◌}
use ai_memmail.Worker.Services.{
  Services, Operation, AiStep, scan, classification, agent, rule, review, asked, recorded,
}
use ai_memmail.Worker.Events.{M}

unfoldable pub step_name : AiStep → Text
step_name scan = text "safety_scan"
step_name classification = text "email_classification"
step_name agent = text "agent_decision"
step_name rule = text "rule_decision"
step_name review = text "outbound_review"

-- What the loop returns: the error of a heartbeat, the timeout, or the answer.
unfoldable pub step_result :
    {A : Type 0} → AiStep → Bool → Option StorageError → Result AiError A → Result AiError A
unfolding step_name
step_result step timed_out (some e) answer = err (
    provider
      (text "processing heartbeat failed during " ++ (step_name step ++ (text ": " ++ e.message))))
step_result step true none answer = err (provider (step_name step ++ text " timed out after 90s"))
step_result step false none answer = answer

module _ (x : Services) (message : InboundMessage) where
  unfoldable pub beat :
      M x (Option StorageError) → Result StorageError (Unit {0}) → M x (Option StorageError)
  beat later (ok _) = later
  beat later (err e) = pure (some e)

  -- The heartbeats that fall into the time of the request, until one fails.
  unfoldable pub heartbeats : ℕ → M x (Option StorageError)
  heartbeats zero = pure none
  heartbeats (suc n) = do
    answer ← call (λ _. recorded) (x.touch_processing (dedupe_key message.metadata))
    beat (heartbeats n) answer

  -- The request has its effect on the world whether or not its answer is waited for.
  unfoldable pub run_ai_step :
      {A : Type 0} → AiStep → Operation x.World AiError A → M x (Result AiError A)
  run_ai_step step future = do
    answer ← call (λ _. asked step) future
    schedule ← draw x.schedule
    failed ← heartbeats schedule.ticks
    pure (step_result step schedule.timed_out failed answer)

-- `ai_error_is_missing_prompt` and `ai_error_is_context_limit`.
unfoldable pub ai_error_is_missing_prompt : AiError → Bool
ai_error_is_missing_prompt (prompt e) = is_not_found e
ai_error_is_missing_prompt _ = false

unfoldable pub ai_error_is_context_limit : AiError → Bool
ai_error_is_context_limit (context_length_exceeded e) = true
ai_error_is_context_limit _ = false
