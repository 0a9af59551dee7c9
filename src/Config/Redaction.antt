-- ===== src/Config/Redaction.antt =====
-- crates/server/src/config.rs: the configuration as the portal shows it, and what a configuration
-- that comes back from it takes over from the current one.
pub mod Restored
pub mod Renamed
pub mod Names
pub mod Hidden
use ai_memmail.Prelude.{
  list_beq, ◌++◌, Bool, true, false, not, ◌&&◌, ◌||◌, Option, none, some, List, [], ◌∷◌, map,
  if◌then◌else◌, select, any, all, is_empty, find, length, ℕ, Eq, ◌==◌, ℕ_eq, ◌≡◌, refl, leb,
}
use ai_memmail.Prelude.Assoc.{Assoc, lookup, insert, contains_key}
use ai_memmail.Text.{Text, Text_eq, text, to_ascii_lowercase, contains_text, split}
use ai_memmail.Config.{
  DatabaseConfig, AiConfig, ImapConfig, SmtpConfig, MailboxConfig, McpServerConfig, AppConfig,
}

unfoldable pub redacted_secret : Text
redacted_secret = text "********"

unfoldable pub redact : Text → Text
redact value = if is_empty value then [] else redacted_secret

-- `!character.is_ascii_alphanumeric()`
abbrev pub is_separator : ℕ → Bool
is_separator c =
    not ((leb b'a' c && leb c b'z') || ((leb b'A' c && leb c b'Z') || (leb b'0' c && leb c b'9')))

abbrev pub sensitive_terms : List Text
sensitive_terms =
    text "key"
    ∷ text "secret"
    ∷ text "token"
    ∷ text "password"
    ∷ text "passwd"
    ∷ text "credential"
    ∷ text "private_key"
    ∷ text "private-key"
    ∷ text "authorization"
    ∷ []

abbrev pub is_sensitive_part : Text → Bool
is_sensitive_part part = part == text "pass" || (part == text "pwd" || part == text "auth")

unfoldable pub is_sensitive_env_name : Text → Bool
unfolding to_ascii_lowercase contains_text split
is_sensitive_env_name name =
    let lower = to_ascii_lowercase name in
    any (contains_text lower) sensitive_terms || any is_sensitive_part (split is_separator lower)

unfoldable pub redact_entry : Text × Text → Text × Text
unfolding is_sensitive_env_name redact
redact_entry (key, value) = (key, if is_sensitive_env_name key then redact value else value)

abbrev pub redact_server : Text × McpServerConfig → Text × McpServerConfig
redact_server (name, server) = (name, record server { env = map redact_entry server.env })

abbrev pub redact_mailbox : MailboxConfig → MailboxConfig
redact_mailbox mailbox = record mailbox {
  imap = record (mailbox.imap) { password = redact mailbox.imap.password };
  smtp = record (mailbox.smtp) { password = redact mailbox.smtp.password };
}

unfoldable pub redacted : AppConfig → AppConfig
unfolding redact redact_entry
redacted config = record config {
  database = record (config.database) { password = redact config.database.password };
  ai = record (config.ai) { api_secret = redact config.ai.api_secret };
  mcp_servers = map redact_server config.mcp_servers;
  mailboxes = map redact_mailbox config.mailboxes;
}

unfoldable pub preserve_if_redacted : Text → Text → Text
unfolding redacted_secret
preserve_if_redacted next current = if next == redacted_secret then current else next

-- The keys whose value has to come from the current configuration.
abbrev pub redacted_keys : Assoc Text Text → List Text
redacted_keys [] = []
redacted_keys ((key, value) ∷ env) =
    let rest = redacted_keys env in
    if is_sensitive_env_name key && value == redacted_secret then key ∷ rest else rest

unfoldable pub mcp_server_matches_for_secret_preservation : McpServerConfig → McpServerConfig → Bool
unfolding is_sensitive_env_name redacted_secret contains_key
mcp_server_matches_for_secret_preservation next current =
    not (is_empty (redacted_keys next.env))
    && all (contains_key current.env) (redacted_keys next.env)

-- The pairs of an added server and a removed one that fit, by their names.
abbrev pub candidates_of : Text → McpServerConfig → Assoc Text McpServerConfig → List (Text × Text)
candidates_of next_name next [] = []
candidates_of next_name next ((name, current) ∷ removed) =
    let rest = candidates_of next_name next removed in
    if mcp_server_matches_for_secret_preservation next current
    then (next_name, name) ∷ rest
    else rest

abbrev pub candidates : Assoc Text McpServerConfig → Assoc Text McpServerConfig → List (Text × Text)
candidates [] removed = []
candidates ((name, server) ∷ added) removed =
    candidates_of name server removed ++ candidates added removed

-- The entries whose name the other map does not have.
abbrev pub without :
    Assoc Text McpServerConfig → Assoc Text McpServerConfig → Assoc Text McpServerConfig
without others [] = []
without others ((name, server) ∷ servers) =
    let rest = without others servers in
    if contains_key others name then rest else (name, server) ∷ rest

abbrev pub count_next : Text → List (Text × Text) → ℕ
count_next name pairs = length (select (λ (pair : Text × Text). pair.0 == name) pairs)

abbrev pub count_current : Text → List (Text × Text) → ℕ
count_current name pairs = length (select (λ (pair : Text × Text). pair.1 == name) pairs)

abbrev pub is_only : List (Text × Text) → Text → Text → Bool
is_only pairs next current = count_next next pairs == 1 && count_current current pairs == 1

unfoldable pub only_matches :
    List (Text × Text) → List (Text × Text) → Assoc Text Text → Assoc Text Text
unfolding insert list_beq
only_matches pairs [] matches = matches
only_matches pairs ((next, current) ∷ rest) matches =
    only_matches pairs rest
      (if is_only pairs next current then insert next current matches else matches)

unfoldable pub renamed_mcp_server_matches : AppConfig → AppConfig → Assoc Text Text
unfolding contains_key mcp_server_matches_for_secret_preservation only_matches
renamed_mcp_server_matches next current =
    let pairs =
      candidates (without current.mcp_servers next.mcp_servers)
        (without next.mcp_servers current.mcp_servers) in
    only_matches pairs pairs []

abbrev pub preserved : Text → Option Text → Text
preserved value none = value
preserved value (some current) = preserve_if_redacted value current

unfoldable pub preserve_entry : Assoc Text Text → Text × Text → Text × Text
unfolding preserve_if_redacted lookup
preserve_entry current (key, value) = (key, preserved value (lookup key current))

abbrev pub preserve_env : Option McpServerConfig → McpServerConfig → McpServerConfig
preserve_env none server = server
preserve_env (some current) server = record server {
  env = map (preserve_entry current.env) server.env;
}

-- The server that goes by the name, or that had another name before.
abbrev pub found_or_renamed :
    Assoc Text McpServerConfig → Option McpServerConfig → Option Text → Option McpServerConfig
found_or_renamed servers (some server) renamed = some server
found_or_renamed servers none none = none
found_or_renamed servers none (some name) = lookup name servers

unfoldable pub preserve_server :
    Assoc Text Text → Assoc Text McpServerConfig → Text × McpServerConfig → Text × McpServerConfig
unfolding lookup preserve_entry
preserve_server renamed current (name, server) = (
  name,
  preserve_env (found_or_renamed current (lookup name current) (lookup name renamed)) server,
)

abbrev pub preserve_passwords : Option MailboxConfig → MailboxConfig → MailboxConfig
preserve_passwords none mailbox = mailbox
preserve_passwords (some current) mailbox = record mailbox {
  imap = record (mailbox.imap) {
    password = preserve_if_redacted mailbox.imap.password current.imap.password;
  };
  smtp = record (mailbox.smtp) {
    password = preserve_if_redacted mailbox.smtp.password current.smtp.password;
  };
}

unfoldable pub preserve_mailbox : List MailboxConfig → MailboxConfig → MailboxConfig
unfolding preserve_if_redacted list_beq
preserve_mailbox current mailbox =
    preserve_passwords (find (λ candidate. candidate.id == mailbox.id) current) mailbox

unfoldable pub preserve_redacted_secrets : AppConfig → AppConfig → AppConfig
unfolding preserve_if_redacted renamed_mcp_server_matches preserve_server preserve_mailbox
preserve_redacted_secrets next current = record next {
  database = record (next.database) {
    password = preserve_if_redacted next.database.password current.database.password;
  };
  ai = record (next.ai) {
    api_secret = preserve_if_redacted next.ai.api_secret current.ai.api_secret;
  };
  mcp_servers =
      map (preserve_server (renamed_mcp_server_matches next current) current.mcp_servers)
        next.mcp_servers;
  mailboxes = map (preserve_mailbox current.mailboxes) next.mailboxes;
}
