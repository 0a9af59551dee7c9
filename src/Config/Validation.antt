-- ===== src/Config/Validation.antt =====
-- crates/server/src/config.rs: what a configuration is checked for before it is used or saved.
-- The regex crate is a parameter: `regex_error` is the error of `Regex::new`, if it has one; so are the
-- libraries of the HTML sanitizer.
pub mod Conditions
pub mod Loops
pub mod Prompts
pub mod Mailboxes
pub mod Guarantees
pub mod Sound
pub mod Valid
use ai_memmail.Prelude.{
  ℕ, Bool, true, false, not, ◌||◌, Option, none, some, List, [], ◌∷◌, ◌++◌, if◌then◌else◌, any,
  is_empty, contains, Eq, ◌==◌, ℕ_eq,
}
use ai_memmail.Prelude.Result.{Result, ok, err, ◌>>=◌, ◌>>◌, each}
use ai_memmail.Prelude.Assoc.{Assoc, contains_key}
use ai_memmail.Text.{Text, Text_eq, text, trim}
use ai_memmail.HtmlSanitizer.{Sanitizer, sanitize_email_html}
use ai_memmail.Paths.{is_absolute, components, is_prompt_escape_component}
use ai_memmail.Config.{
  DatabaseConfig, LoggingConfig, EmailSignatureConfig, EmailSignatureFormat, plain_text, html,
  McpServerConfig, ImapConfig, SmtpConfig, MailboxConfig, AppConfig,
}
use ai_memmail.Config.Errors.{ConfigError, invalid, ensure, is_blank}
use Conditions.{validate_accepted_conditions}

unfoldable pub validate_required : Text → Text → Result ConfigError Unit
validate_required value field = ensure (not (is_blank value)) (field ++ text " is required")

unfoldable pub validate_port : ℕ → Text → Result ConfigError Unit
validate_port port field = ensure (not (port == 0)) (field ++ text " must be greater than zero")

unfoldable pub validate_prompt_path : Text → Text → Result ConfigError Unit
unfolding is_absolute components is_prompt_escape_component
validate_prompt_path path field =
    ensure (not (is_empty path)) (field ++ text " is required")
    >> ensure (not (is_absolute path)) (field ++ text " must be relative to prompts.root")
    >> ensure (not (any is_prompt_escape_component (components path)))
        (field ++ text " must not contain parent directory components")

-- `!folder.trim().is_empty()` of a folder that is given.
abbrev pub is_folder : Option Text → Bool
is_folder none = true
is_folder (some folder) = not (is_blank folder)

unfoldable pub validate_enabled_mailbox_connection : MailboxConfig → Result ConfigError Unit
unfolding validate_required validate_port
validate_enabled_mailbox_connection mailbox =
    let prefix = text "mailbox " ++ mailbox.id in
    validate_required mailbox.address (prefix ++ text " address")
    >> validate_required mailbox.imap.host (prefix ++ text " imap.host")
    >> validate_port mailbox.imap.port (prefix ++ text " imap.port")
    >> validate_required mailbox.imap.username (prefix ++ text " imap.username")
    >> validate_required mailbox.imap.password (prefix ++ text " imap.password")
    >> validate_required mailbox.imap.folder (prefix ++ text " imap.folder")
    >> ensure (is_folder mailbox.imap.sent_folder)
        (prefix ++ text " imap.sent_folder must not be empty when provided")
    >> validate_required mailbox.smtp.host (prefix ++ text " smtp.host")
    >> validate_port mailbox.smtp.port (prefix ++ text " smtp.port")
    >> validate_required mailbox.smtp.username (prefix ++ text " smtp.username")
    >> validate_required mailbox.smtp.password (prefix ++ text " smtp.password")
    >> validate_required mailbox.smtp.from (prefix ++ text " smtp.from")

abbrev pub is_level : Text → Bool
is_level level =
    level == text "debug"
    || (level == text "info" || (level == text "warn" || level == text "error"))

abbrev pub is_format : Text → Bool
is_format format = format == text "json" || format == text "pretty"

unfoldable pub validate_database : DatabaseConfig → Result ConfigError Unit
unfolding validate_required
validate_database database =
    validate_required database.host (text "database.host")
    >> ensure (not (database.port == 0)) (text "database.port must be greater than zero")
    >> validate_required database.username (text "database.username")
    >> validate_required database.password (text "database.password")
    >> validate_required database.database (text "database.database")

unfoldable pub validate_logging : LoggingConfig → Result ConfigError Unit
validate_logging logging =
    ensure (is_level logging.level) (text "logging.level must be debug, info, warn, or error")
    >> ensure (is_format logging.format) (text "logging.format must be json or pretty")
    >> ensure (not (logging.retention_days == 0))
        (text "logging.retention_days must be greater than zero")

-- What validation asks of the libraries.
pub record Checks : Type 0 where
  pub regex_error : Text → Option Text
  pub sanitizer : Sanitizer

module _ (checks : Checks) where
  abbrev pub validate_signature_html : Text → EmailSignatureFormat → Text → Result ConfigError Unit
  validate_signature_html id plain_text content = ok tt
  validate_signature_html id html content =
      ensure (not (sanitize_email_html checks.sanitizer content).visually_empty) (
        text "mailbox "
        ++ (id ++ text " signature.content must not be visually empty after sanitizing"))

  abbrev pub validate_signature : Text → Option EmailSignatureConfig → Result ConfigError Unit
  validate_signature id none = ok tt
  validate_signature id (some signature) =
      ensure (not (is_blank signature.content))
        (text "mailbox " ++ (id ++ text " signature.content must not be empty"))
      >> validate_signature_html id signature.format signature.content

  unfoldable pub validate_mailbox_signature : MailboxConfig → Result ConfigError Unit
  validate_mailbox_signature mailbox = validate_signature mailbox.id mailbox.signature

  unfoldable pub validate_mailbox_server :
      Text → Assoc Text McpServerConfig → Text → Result ConfigError Unit
  unfolding contains_key
  validate_mailbox_server id mcp_servers server =
      ensure (contains_key mcp_servers server)
        (text "mailbox " ++ (id ++ (text " references unknown MCP server " ++ server)))

  -- The checks of one mailbox, behind mailboxes that have `ids`.
  unfoldable pub check_mailbox :
      Assoc Text McpServerConfig → MailboxConfig → List Text → Result ConfigError Unit
  unfolding contains validate_mailbox_signature validate_accepted_conditions
      validate_enabled_mailbox_connection validate_prompt_path validate_mailbox_server
  check_mailbox mcp_servers mailbox ids =
      let prefix = text "mailbox " ++ mailbox.id in
      ensure (not (is_blank mailbox.id)) (text "mailboxes[].id is required")
      >> ensure (not (contains ids mailbox.id)) (text "duplicate mailbox id " ++ mailbox.id)
      >> ensure (not (mailbox.poll_interval_seconds == 0))
          (prefix ++ text " poll_interval_seconds must be greater than zero")
      >> ensure (not (is_empty mailbox.safety_forward_to))
          (prefix ++ text " safety_forward_to must not be empty")
      >> validate_mailbox_signature mailbox
      >> validate_accepted_conditions checks.regex_error mailbox
      >> (if mailbox.enabled then validate_enabled_mailbox_connection mailbox else ok tt)
      >> validate_prompt_path mailbox.agent.system_prompt_path
          (text "mailboxes[].agent.system_prompt_path")
      >> each (validate_mailbox_server mailbox.id mcp_servers) mailbox.mcp_servers

  -- The answer is the ids with that of the mailbox.
  unfoldable pub validate_mailbox :
      Assoc Text McpServerConfig → MailboxConfig → List Text → Result ConfigError (List Text)
  unfolding check_mailbox
  validate_mailbox mcp_servers mailbox ids =
      check_mailbox mcp_servers mailbox ids >> ok (mailbox.id ∷ ids)

  unfoldable pub validate_mailboxes :
      Assoc Text McpServerConfig → List MailboxConfig → List Text → Result ConfigError Unit
  unfolding validate_mailbox
  validate_mailboxes mcp_servers [] ids = ok tt
  validate_mailboxes mcp_servers (mailbox ∷ mailboxes) ids =
      validate_mailbox mcp_servers mailbox ids >>= λ seen.
      validate_mailboxes mcp_servers mailboxes seen

  unfoldable pub validate : AppConfig → Result ConfigError Unit
  unfolding validate_database validate_logging validate_prompt_path validate_mailboxes
  validate config =
      ensure (config.version == 1) (text "version must be 1")
      >> validate_database config.database
      >> validate_logging config.logging
      >> validate_prompt_path config.prompts.safety_scan (text "prompts.safety_scan")
      >> validate_prompt_path config.prompts.email_classifier (text "prompts.email_classifier")
      >> validate_prompt_path config.prompts.rule_action (text "prompts.rule_action")
      >> validate_prompt_path config.ai.review.prompt_path (text "ai.review.prompt_path")
      >> validate_mailboxes config.mcp_servers config.mailboxes []
