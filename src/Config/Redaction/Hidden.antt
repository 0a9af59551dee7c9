-- ===== src/Config/Redaction/Hidden.antt =====
-- What `redacted` hides.
use ai_memmail.Prelude.{
  Bool, true, false, List, [], ◌∷◌, map, ◌≡◌, ◌⊎◌, inl, inr, refl, All, ◌and◌, arith, if◌then◌else◌,
}
use ai_memmail.Text.{Text}
use ai_memmail.Config.{AppConfig, MailboxConfig, McpServerConfig}
use ai_memmail.Config.Redaction.Names.{IsSecretName, is_sensitive_env_name-IsSecretName}
use ai_memmail.Config.Redaction.{
  redacted_secret, redact, redact_entry, redact_server, redact_mailbox, redacted,
  is_sensitive_env_name,
}

-- The value of a secret that tells no more than whether there is one.
abbrev pub IsHidden : Text → Type 0
IsHidden value = (value ≡ []) ⊎ (value ≡ redacted_secret)

-- A variable with a secret name has such a value.
abbrev pub IsHiddenEntry : Text × Text → Type 0
IsHiddenEntry (key, value) = IsSecretName key → IsHidden value

abbrev pub IsHiddenServer : Text × McpServerConfig → Type 0
IsHiddenServer (name, server) = All IsHiddenEntry server.env

abbrev pub IsHiddenMailbox : MailboxConfig → Type 0
IsHiddenMailbox mailbox = IsHidden mailbox.imap.password and IsHidden mailbox.smtp.password

-- The passwords, the secret of the model and the variables with a secret name cannot be read off it.
abbrev pub HidesSecrets : AppConfig → Type 0
HidesSecrets config =
    IsHidden config.database.password
    and IsHidden config.ai.api_secret
    and All IsHiddenServer config.mcp_servers
    and All IsHiddenMailbox config.mailboxes

module _ {A : Type 0} (P : A → Type 0) (f : A → A) where
  All-map : ((x : A) → P (f x)) → (xs : List A) → All P (map f xs)
  All-map h [] = tt
  All-map h (x ∷ xs) = (h x, All-map h xs)

redact-IsHidden : (value : Text) → IsHidden (redact value)
unfolding redact
redact-IsHidden [] = inl refl
redact-IsHidden (c ∷ value) = inr refl

chosen-IsHidden :
    (sensitive : Bool) (value : Text)
    → sensitive ≡ true
    → IsHidden (if sensitive then redact value else value)
chosen-IsHidden true value h = redact-IsHidden value
chosen-IsHidden false value h = ground arith

redact_entry-IsHiddenEntry : (entry : Text × Text) → IsHiddenEntry (redact_entry entry)
unfolding redact_entry
redact_entry-IsHiddenEntry (key, value) = λ h.
    chosen-IsHidden (is_sensitive_env_name key) value (is_sensitive_env_name-IsSecretName key h)

-- In the redacted configuration each password, the secret of the model and each variable of an MCP
-- server with a secret name is empty or the mark of a redacted secret. A name is secret by words in
-- it; nothing is said of the other variables, nor of the command, the arguments and the address.
pub redacted-HidesSecrets : (config : AppConfig) → HidesSecrets (redacted config)
unfolding redacted
redacted-HidesSecrets config = (
  redact-IsHidden config.database.password,
  (
    redact-IsHidden config.ai.api_secret,
    (
      All-map IsHiddenServer redact_server
          (λ entry. All-map IsHiddenEntry redact_entry redact_entry-IsHiddenEntry (entry.1.env))
          config.mcp_servers,
      All-map IsHiddenMailbox redact_mailbox
          (λ mailbox.
            (redact-IsHidden mailbox.imap.password, redact-IsHidden mailbox.smtp.password))
          config.mailboxes,
    ),
  ),
)
