-- ===== src/Ai.antt =====
-- crates/server/src/ai.rs and prompts.rs: the decisions of the model and its errors.
pub mod Routing
pub mod Drafts
use ai_memmail.Prelude.{Bool, false, Option, ◌++◌}
use ai_memmail.Text.{Text, text}
use ai_memmail.Mail.{OutboundAction}

pub record AgentDecision : Type 0 where
  pub action : OutboundAction
  pub safety_notes : Text

pub record OutboundReviewDecision : Type 0 where
  pub approved : Bool
  pub reason : Text

pub record RuleActionDraft : Type 0 where
  pub subject : Text
  pub body : Text
  pub reason : Text
  pub safety_notes : Text

-- std::io::Error, as far as the code looks: whether its kind is NotFound, and its message.
pub record IoError : Type 0 where
  pub not_found : Bool
  pub message : Text

pub data PromptError : Type 0 where
  absolute escape empty : Text → PromptError
  read : Text → IoError → PromptError

unfoldable pub is_not_found : PromptError → Bool
is_not_found (read path source) = source.not_found
is_not_found _ = false

unfoldable pub prompt_error_text : PromptError → Text
prompt_error_text (absolute path) = text "prompt path must be relative to prompt root: " ++ path
prompt_error_text (escape path) = text "prompt path must not escape prompt root: " ++ path
prompt_error_text (empty path) = text "prompt is empty: " ++ path
prompt_error_text (read path source) =
    text "failed to read prompt " ++ (path ++ (text ": " ++ source.message))

pub data AiError : Type 0 where
  prompt : PromptError → AiError
  provider mcp context_length_exceeded : Text → AiError
  invalid_decision invalid_safety invalid_outbound_review : Text → AiError

unfoldable pub ai_error_text : AiError → Text
ai_error_text (prompt e) = text "prompt error: " ++ prompt_error_text e
ai_error_text (provider e) = text "AI provider error: " ++ e
ai_error_text (mcp e) = text "MCP error: " ++ e
ai_error_text (context_length_exceeded e) = text "AI context limit exceeded: " ++ e
ai_error_text (invalid_decision e) = text "invalid decision: " ++ e
ai_error_text (invalid_safety e) = text "invalid safety scan: " ++ e
ai_error_text (invalid_outbound_review e) = text "invalid outbound review: " ++ e
