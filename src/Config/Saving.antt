-- ===== src/Config/Saving.antt =====
-- crates/server/src/config.rs: loading and saving. Files and the YAML library are parameters.
use ai_memmail.Prelude.{Option, none, some, map}
use ai_memmail.Prelude.Result.{Result, ok, err, ◌>>=◌, ◌>>◌}
use ai_memmail.Text.{Text}
use ai_memmail.HtmlSanitizer.{Sanitizer, sanitize_email_html}
use ai_memmail.Config.{
  EmailSignatureConfig, EmailSignatureFormat, plain_text, html, MailboxConfig, AppConfig,
}
use ai_memmail.Config.Errors.{ConfigError, read, parse}
use ai_memmail.Config.Validation.{Checks, validate}

-- `std::fs` and `serde_yaml_ng`; an error is its text.
pub record Disk : Type 1 where
  pub Files : Type 0
  pub read_to_string : Files → Text → Result Text Text
  pub write : Files → Text → Text → Result Text Files
  pub from_str : Text → Result Text AppConfig
  pub to_string : AppConfig → Result Text Text

abbrev pub map_err : {A : Type 0} → (Text → ConfigError) → Result Text A → Result ConfigError A
map_err f (ok a) = ok a
map_err f (err e) = err (f e)

module _ (sanitizer : Sanitizer) where
  abbrev pub sanitized_content : EmailSignatureFormat → Text → Text
  sanitized_content plain_text content = content
  sanitized_content html content = (sanitize_email_html sanitizer content).html

  abbrev pub sanitized_signature : Option EmailSignatureConfig → Option EmailSignatureConfig
  sanitized_signature none = none
  sanitized_signature (some signature) =
      some (record signature { content = sanitized_content signature.format signature.content })

  abbrev pub sanitized_mailbox : MailboxConfig → MailboxConfig
  sanitized_mailbox mailbox = record mailbox { signature = sanitized_signature mailbox.signature }

  unfoldable pub sanitized_for_save : AppConfig → AppConfig
  unfolding sanitize_email_html
  sanitized_for_save config = record config { mailboxes = map sanitized_mailbox config.mailboxes }

module _ (disk : Disk) where
  unfoldable pub load : disk.Files → Text → Result ConfigError AppConfig
  load files path = map_err (read path) (disk.read_to_string files path) >>= λ content.
      map_err (parse path) (disk.from_str content)

  unfoldable pub save : Checks → AppConfig → disk.Files → Text → Result ConfigError disk.Files
  unfolding validate sanitized_for_save
  save checks app_config files path =
      let config = sanitized_for_save checks.sanitizer app_config in
      validate checks config
      >> (map_err (parse path) (disk.to_string config) >>= λ content.
          map_err (read path) (disk.write files path content))
