-- ===== src/Config/Redaction/Restored.antt =====
-- A configuration survives being shown and given back.
use ai_memmail.Prelude.{
  Bool, true, false, ◌||◌, list_beq, some, List, [], ◌∷◌, map, ◌≡◌, refl, ap, ◌∙◌, All, contains,
  find, arith, if◌then◌else◌, ◌and◌, ◌==◌, ==-refl,
}
use ai_memmail.Prelude.Assoc.{Assoc, lookup, keys}
use ai_memmail.Prelude.Result.{ok}
use ai_memmail.Text.{Text, Text_eq, text}
use ai_memmail.Config.{AppConfig, MailboxConfig, McpServerConfig}
use ai_memmail.Config.Validation.{Checks, validate}
use ai_memmail.Config.Validation.Valid.{AreDistinct, mailbox_id}
use ai_memmail.Config.Validation.Guarantees.{validate_iff}
use ai_memmail.Config.Redaction.{
  redacted_secret, redact, redact_entry, redact_server, redact_mailbox, redacted,
  preserve_if_redacted, preserved, preserve_entry, found_or_renamed, preserve_env, preserve_server,
  preserve_passwords, preserve_mailbox, preserve_redacted_secrets, is_sensitive_env_name,
  renamed_mcp_server_matches,
}

-- The keys of a map are distinct.
abbrev pub IsMap : {V : Type 0} → Assoc Text V → Type 0
IsMap m = AreDistinct (keys m)

-- The maps of a configuration: its servers, and the environment of each.
abbrev pub HasMaps : AppConfig → Type 0
HasMaps config =
    IsMap config.mcp_servers
    and All (λ (entry : Text × McpServerConfig). IsMap (entry.1.env)) config.mcp_servers

not_first :
    (a b : Text) (later : Bool) → ((a == b) || later) ≡ false → ((b == a) ≡ false) × (later ≡ false)
not_first a b later h = ground (arith, Text_eq.beq_iff a b, Text_eq.beq_iff b a)

module _ {V : Type 0} where
  abbrev IsFound : Assoc Text V → Text × V → Type 0
  IsFound m (key, v) = lookup key m ≡ some v

  lookup_behind :
      (key : Text) (v : V) (m xs : Assoc Text V)
      → contains (keys xs) key ≡ false
      → All (IsFound m) xs
      → All (IsFound ((key, v) ∷ m)) xs
  unfolding lookup contains
  lookup_behind key v m [] fresh h = tt
  lookup_behind key v m ((k, w) ∷ xs) fresh (h, hs) =
      let (differs, rest) = not_first k key (contains (keys xs) key) fresh in
      (rw differs h, lookup_behind key v m xs rest hs)

  -- Each entry of a map is found by its key.
  lookup-IsFound : (m : Assoc Text V) → IsMap m → All (IsFound m) m
  unfolding lookup
  lookup-IsFound [] d = tt
  lookup-IsFound ((key, v) ∷ m) (fresh, d) =
      (rw (==-refl key) refl, lookup_behind key v m m fresh (lookup-IsFound m d))

abbrev IsFoundMailbox : List MailboxConfig → MailboxConfig → Type 0
IsFoundMailbox mailboxes mailbox =
    find (λ candidate. candidate.id == mailbox.id) mailboxes ≡ some mailbox

find_behind :
    (mailbox : MailboxConfig) (mailboxes xs : List MailboxConfig)
    → contains (map mailbox_id xs) mailbox.id ≡ false
    → All (IsFoundMailbox mailboxes) xs
    → All (IsFoundMailbox (mailbox ∷ mailboxes)) xs
unfolding contains
find_behind mailbox mailboxes [] fresh h = tt
find_behind mailbox mailboxes (x ∷ xs) fresh (h, hs) =
    let (differs, rest) =
      not_first x.id mailbox.id (contains (map mailbox_id xs) mailbox.id) fresh in
    (rw differs h, find_behind mailbox mailboxes xs rest hs)

find-IsFoundMailbox :
    (mailboxes : List MailboxConfig)
    → AreDistinct (map mailbox_id mailboxes)
    → All (IsFoundMailbox mailboxes) mailboxes
find-IsFoundMailbox [] d = tt
find-IsFoundMailbox (mailbox ∷ mailboxes) (fresh, d) = (
  rw (==-refl mailbox.id) refl,
  find_behind mailbox mailboxes mailboxes fresh (find-IsFoundMailbox mailboxes d),
)

map-map_same :
    {A B : Type 0} (f : B → A) (g : A → B) (P : A → Type 0)
    → ((x : A) → P x → f (g x) ≡ x)
    → (xs : List A) → All P xs
    → map f (map g xs) ≡ xs
map-map_same f g P h [] k = refl
map-map_same f g P h (x ∷ xs) (p, ps) = λ i. h x p i ∷ map-map_same f g P h xs ps i

preserve-redact : (value : Text) → preserve_if_redacted (redact value) value ≡ value
unfolding preserve_if_redacted redact redacted_secret text list_beq
preserve-redact [] = refl
preserve-redact (c ∷ value) = refl

preserve_same : (value : Text) → preserve_if_redacted value value ≡ value
unfolding preserve_if_redacted
preserve_same value = ground arith

value_restored :
    (sensitive : Bool) (value : Text)
    → preserve_if_redacted (if sensitive then redact value else value) value ≡ value
value_restored true value = preserve-redact value
value_restored false value = preserve_same value

entry_restored :
    (env : Assoc Text Text) (entry : Text × Text)
    → IsFound env entry
    → preserve_entry env (redact_entry entry) ≡ entry
unfolding preserve_entry redact_entry
entry_restored env (key, value) h =
    ap (λ v. (key, v))
      (ap (preserved (if is_sensitive_env_name key then redact value else value)) h
        ∙ value_restored (is_sensitive_env_name key) value)

env_restored :
    (env : Assoc Text Text) → IsMap env → map (preserve_entry env) (map redact_entry env) ≡ env
env_restored env d =
    map-map_same (preserve_entry env) redact_entry (IsFound env) (entry_restored env) env
      (lookup-IsFound env d)

server_restored :
    (renamed : Assoc Text Text) (servers : Assoc Text McpServerConfig)
    (entry : Text × McpServerConfig)
    → IsFound servers entry
    → IsMap (entry.1.env)
    → preserve_server renamed servers (redact_server entry) ≡ entry
unfolding preserve_server
server_restored renamed servers (name, server) h d =
    ap
      (λ o. (
        name,
        preserve_env (found_or_renamed servers o (lookup name renamed))
            (redact_server (name, server)).1,
      ))
      h
    ∙ (λ i. (name, record server { env = env_restored server.env d i }))

mailbox_restored :
    (mailboxes : List MailboxConfig) (mailbox : MailboxConfig)
    → IsFoundMailbox mailboxes mailbox
    → preserve_mailbox mailboxes (redact_mailbox mailbox) ≡ mailbox
unfolding preserve_mailbox
mailbox_restored mailboxes mailbox h =
    ap (λ o. preserve_passwords o (redact_mailbox mailbox)) h ∙ (λ i. record mailbox {
      imap = record (mailbox.imap) { password = preserve-redact mailbox.imap.password i };
      smtp = record (mailbox.smtp) { password = preserve-redact mailbox.smtp.password i };
    })

All-zip :
    {A : Type 0} (P Q : A → Type 0) (xs : List A) → All P xs → All Q xs → All (λ x. P x × Q x) xs
All-zip P Q [] h k = tt
All-zip P Q (x ∷ xs) (h, hs) (k, ks) = ((h, k), All-zip P Q xs hs ks)

mailboxes_restored :
    (mailboxes : List MailboxConfig)
    → AreDistinct (map mailbox_id mailboxes)
    → map (preserve_mailbox mailboxes) (map redact_mailbox mailboxes) ≡ mailboxes
mailboxes_restored mailboxes d =
    map-map_same (preserve_mailbox mailboxes) redact_mailbox (IsFoundMailbox mailboxes)
      (mailbox_restored mailboxes) mailboxes (find-IsFoundMailbox mailboxes d)

mailbox_ids :
    (checks : Checks) (config : AppConfig)
    → validate checks config ≡ ok tt
    → AreDistinct (map mailbox_id config.mailboxes)
mailbox_ids checks config valid =
    let (_, (_, (_, (_, (_, (_, (_, (_, distinct)))))))) = (validate_iff checks config).0 valid in
    distinct

servers_restored :
    (renamed : Assoc Text Text) (config : AppConfig)
    → HasMaps config
    → map (preserve_server renamed config.mcp_servers) (map redact_server config.mcp_servers)
      ≡ config.mcp_servers
servers_restored renamed config (distinct, maps) =
    map-map_same (preserve_server renamed config.mcp_servers) redact_server
      (λ entry. IsFound config.mcp_servers entry × IsMap (entry.1.env))
      (λ entry h. server_restored renamed config.mcp_servers entry h.0 h.1) config.mcp_servers
      (All-zip _ _ config.mcp_servers (lookup-IsFound config.mcp_servers distinct) maps)

-- A configuration that validates, and whose maps have distinct keys, comes back as it was when it
-- is shown with its secrets redacted and given back unchanged.
pub preserve_redacted_secrets-redacted :
    (checks : Checks) (config : AppConfig)
    → HasMaps config
    → validate checks config ≡ ok tt
    → preserve_redacted_secrets (redacted config) config ≡ config
unfolding preserve_redacted_secrets redacted
preserve_redacted_secrets-redacted checks config maps valid = λ i. record config {
  database = record (config.database) { password = preserve-redact config.database.password i };
  ai = record (config.ai) { api_secret = preserve-redact config.ai.api_secret i };
  mcp_servers =
      servers_restored (renamed_mcp_server_matches (redacted config) config) config maps i;
  mailboxes = mailboxes_restored config.mailboxes (mailbox_ids checks config valid) i;
}
