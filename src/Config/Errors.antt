-- ===== src/Config/Errors.antt =====
-- crates/server/src/config.rs: the errors of a configuration, and its `return Err(…)`.
use ai_memmail.Prelude.{Bool, if◌then◌else◌, is_empty}
use ai_memmail.Prelude.Result.{Result, ok, err}
use ai_memmail.Text.{Text, trim}

-- `read` and `parse` have the path and the text of the library's error.
pub data ConfigError : Type 0 where
  read parse : Text → Text → ConfigError
  invalid : Text → ConfigError

-- `if !test { return Err(ConfigError::Invalid(message)) }`
unfoldable pub ensure : Bool → Text → Result ConfigError Unit
ensure test message = if test then ok tt else err (invalid message)

-- `value.trim().is_empty()`
unfoldable pub is_blank : Text → Bool
unfolding trim
is_blank value = is_empty (trim value)
