-- ===== src/Config.antt =====
-- crates/server/src/config.rs: the configuration that the worker reads. Paths are texts; `u16` and
-- `u64` fields are numbers below 2 ^ 16 and 2 ^ 64; a `BTreeMap` is a list of keys with values.
pub mod Errors
pub mod Redaction
pub mod Saving
pub mod Validation
use ai_memmail.Prelude.{ℕ, Bool, Option, List}
use ai_memmail.Text.{Text}

pub record DatabaseConfig : Type 0 where
  pub host : Text
  pub port : ℕ
  pub username : Text
  pub password : Text
  pub database : Text

pub record LoggingConfig : Type 0 where
  pub level : Text
  pub format : Text
  pub verbose_actions : Bool
  pub retention_days : ℕ

pub record PromptConfig : Type 0 where
  pub root : Text
  pub safety_scan : Text
  pub email_classifier : Text
  pub rule_action : Text

pub data AiProtocol : Type 0 where
  openai anthropic : AiProtocol

pub record ReviewConfig : Type 0 where
  pub enabled : Bool
  pub prompt_path : Text

pub record AiConfig : Type 0 where
  pub protocol : AiProtocol
  pub api_url : Text
  pub api_secret : Text
  pub model : Text
  pub review : ReviewConfig

pub data McpTransport : Type 0 where
  stdio streamable_http : McpTransport

pub record McpServerConfig : Type 0 where
  pub transport : McpTransport
  pub command : Option Text
  pub args : List Text
  pub env : List (Text × Text)
  pub url : Option Text

pub data EmailSignatureFormat : Type 0 where
  plain_text html : EmailSignatureFormat

pub record EmailSignatureConfig : Type 0 where
  pub format : EmailSignatureFormat
  pub content : Text

pub record AcceptedCondition : Type 0 where
  pub recipients : List Text
  pub subject_regex : List Text

pub record AgentConfig : Type 0 where
  pub system_prompt_path : Text
  pub default_forward_to : List Text

pub record ImapConfig : Type 0 where
  pub host : Text
  pub port : ℕ
  pub tls : Bool
  pub username : Text
  pub password : Text
  pub folder : Text
  pub sent_folder : Option Text
  pub sent_backfill_days : ℕ

pub record SmtpConfig : Type 0 where
  pub host : Text
  pub port : ℕ
  pub starttls : Bool
  pub username : Text
  pub password : Text
  pub from : Text

pub record MailboxConfig : Type 0 where
  pub id : Text
  pub address : Text
  pub enabled : Bool
  pub poll_interval_seconds : ℕ
  pub safety_forward_to : List Text
  pub signature : Option EmailSignatureConfig
  pub accepted_conditions : List AcceptedCondition
  pub mcp_servers : List Text
  pub agent : AgentConfig
  pub imap : ImapConfig
  pub smtp : SmtpConfig

pub data BannedSenderKind : Type 0 where
  email domain : BannedSenderKind

pub record BannedSenderConfig : Type 0 where
  pub kind : BannedSenderKind
  pub value : Text
  pub reason : Text

pub record AppConfig : Type 0 where
  pub version : ℕ
  pub database : DatabaseConfig
  pub logging : LoggingConfig
  pub prompts : PromptConfig
  pub ai : AiConfig
  pub mcp_servers : List (Text × McpServerConfig)
  pub mailboxes : List MailboxConfig
  pub banned_senders : List BannedSenderConfig
