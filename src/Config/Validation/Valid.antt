-- ===== src/Config/Validation/Valid.antt =====
-- What `validate` accepts, said without the order of its checks.
use ai_memmail.Prelude.{
  true, false, Option, none, some, List, [], ◌∷◌, ◌≡◌, ◌≢◌, ◌and◌, ◌⊎◌, All, map, contains, ◌<◌,
}
use ai_memmail.Prelude.Assoc.{Assoc, contains_key}
use ai_memmail.Text.{Text, Text_eq, text, trim, contains_char}
use ai_memmail.HtmlSanitizer.{sanitize_email_html}
use ai_memmail.Paths.{is_absolute, components, Component, parent_dir}
use ai_memmail.Config.{
  AppConfig, DatabaseConfig, LoggingConfig, McpServerConfig, MailboxConfig, AcceptedCondition,
  EmailSignatureConfig, EmailSignatureFormat, plain_text, html,
}
use ai_memmail.Config.Validation.{Checks}

abbrev pub IsFilled : Text → Type 0
IsFilled value = trim value ≢ []

abbrev pub IsFilledIfGiven : Option Text → Type 0
IsFilledIfGiven none = Unit
IsFilledIfGiven (some value) = IsFilled value

-- A path that stays below the root of the prompts.
abbrev pub IsPromptPath : Text → Type 0
IsPromptPath path =
    (path ≢ [])
    and (is_absolute path ≡ false)
    and All (λ (c : Component). c ≢ parent_dir) (components path)

abbrev pub IsRecipient : Text → Type 0
IsRecipient recipient = IsFilled recipient and (contains_char (trim recipient) b'@' ≡ true)

abbrev pub IsConnected : MailboxConfig → Type 0
IsConnected mailbox =
    IsFilled mailbox.address
    and IsFilled mailbox.imap.host
    and (0 < mailbox.imap.port)
    and IsFilled mailbox.imap.username
    and IsFilled mailbox.imap.password
    and IsFilled mailbox.imap.folder
    and IsFilledIfGiven mailbox.imap.sent_folder
    and IsFilled mailbox.smtp.host
    and (0 < mailbox.smtp.port)
    and IsFilled mailbox.smtp.username
    and IsFilled mailbox.smtp.password
    and IsFilled mailbox.smtp.from

abbrev pub IsDatabase : DatabaseConfig → Type 0
IsDatabase database =
    IsFilled database.host
    and (0 < database.port)
    and IsFilled database.username
    and IsFilled database.password
    and IsFilled database.database

abbrev pub IsLogging : LoggingConfig → Type 0
IsLogging logging =
    ((logging.level ≡ text "debug")
      ⊎ (logging.level ≡ text "info")
      ⊎ (logging.level ≡ text "warn")
      ⊎ (logging.level ≡ text "error"))
    and ((logging.format ≡ text "json") ⊎ (logging.format ≡ text "pretty"))
    and (0 < logging.retention_days)

-- No id occurs twice.
abbrev pub AreDistinct : List Text → Type 0
AreDistinct [] = Unit
AreDistinct (id ∷ ids) = (contains ids id ≡ false) and AreDistinct ids

abbrev pub mailbox_id : MailboxConfig → Text
mailbox_id mailbox = mailbox.id

module _ (checks : Checks) where
  abbrev pub IsPattern : Text → Type 0
  IsPattern pattern = IsFilled pattern and (checks.regex_error pattern ≡ none)

  abbrev pub IsCondition : AcceptedCondition → Type 0
  IsCondition condition =
      ((condition.recipients ≢ []) ⊎ (condition.subject_regex ≢ []))
      and All IsRecipient condition.recipients
      and All IsPattern condition.subject_regex

  abbrev pub IsSanitary : EmailSignatureFormat → Text → Type 0
  IsSanitary plain_text content = Unit
  IsSanitary html content = (sanitize_email_html checks.sanitizer content).visually_empty ≡ false

  abbrev pub IsSignature : Option EmailSignatureConfig → Type 0
  IsSignature none = Unit
  IsSignature (some signature) =
      IsFilled signature.content and IsSanitary signature.format signature.content

  -- A mailbox on its own, next to the MCP servers.
  abbrev pub IsMailbox : Assoc Text McpServerConfig → MailboxConfig → Type 0
  IsMailbox mcp_servers mailbox =
      IsFilled mailbox.id
      and (0 < mailbox.poll_interval_seconds)
      and (mailbox.safety_forward_to ≢ [])
      and IsSignature mailbox.signature
      and All IsCondition mailbox.accepted_conditions
      and (mailbox.enabled ≡ true → IsConnected mailbox)
      and IsPromptPath mailbox.agent.system_prompt_path
      and All (λ server. contains_key mcp_servers server ≡ true) mailbox.mcp_servers

  abbrev pub IsValid : AppConfig → Type 0
  IsValid config =
      (config.version ≡ 1)
      and IsDatabase config.database
      and IsLogging config.logging
      and IsPromptPath config.prompts.safety_scan
      and IsPromptPath config.prompts.email_classifier
      and IsPromptPath config.prompts.rule_action
      and IsPromptPath config.ai.review.prompt_path
      and All (IsMailbox config.mcp_servers) config.mailboxes
      and AreDistinct (map mailbox_id config.mailboxes)
