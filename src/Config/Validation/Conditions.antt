-- ===== src/Config/Validation/Conditions.antt =====
-- crates/server/src/config.rs: the accepted conditions of a mailbox.
use ai_memmail.Prelude.{ℕ, Bool, not, ◌||◌, Option, none, some, ◌++◌, any}
use ai_memmail.Prelude.Result.{Result, ok, err, ◌>>◌, each_from}
use ai_memmail.Text.{Text, text, decimal, contains_char}
use ai_memmail.Text.{trim}
use ai_memmail.Config.{AcceptedCondition, MailboxConfig}
use ai_memmail.Config.Errors.{ConfigError, invalid, ensure, is_blank}

abbrev pub is_filled : Text → Bool
is_filled value = not (is_blank value)

module _ (regex_error : Text → Option Text) where
  unfoldable pub validate_recipient : Text → ℕ → Text → Result ConfigError Unit
  unfolding ensure is_blank contains_char trim decimal
  validate_recipient field i recipient =
      let name = field ++ (text ".recipients[" ++ (decimal i ++ text "]")) in
      ensure (is_filled recipient) (name ++ text " must not be empty")
      >> ensure (contains_char (trim recipient) b'@') (name ++ text " must be an email address")

  unfoldable pub validate_pattern : Text → ℕ → Text → Result ConfigError Unit
  unfolding ensure is_blank decimal
  validate_pattern field i pattern =
      let name = field ++ (text ".subject_regex[" ++ (decimal i ++ text "]")) in
      ensure (is_filled pattern) (name ++ text " must not be empty") >> elim (regex_error pattern) [
        | none ↦ ok tt
        | some error ↦ err (invalid (name ++ (text " is invalid: " ++ error)))
      ]

  unfoldable pub validate_condition : Text → ℕ → AcceptedCondition → Result ConfigError Unit
  unfolding ensure is_blank decimal validate_recipient validate_pattern
  validate_condition id index condition =
      let field =
        text "mailbox " ++ (id ++ (text " accepted_conditions[" ++ (decimal index ++ text "]"))) in
      ensure (any is_filled condition.recipients || any is_filled condition.subject_regex)
        (field ++ text " must define recipients or subject_regex")
      >> each_from (validate_recipient field) 0 condition.recipients
      >> each_from (validate_pattern field) 0 condition.subject_regex

  unfoldable pub validate_accepted_conditions : MailboxConfig → Result ConfigError Unit
  unfolding validate_condition
  validate_accepted_conditions mailbox =
      each_from (validate_condition mailbox.id) 0 mailbox.accepted_conditions
