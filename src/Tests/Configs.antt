-- ===== src/Tests/Configs.antt =====
-- The theorems about the configuration and the HTML of plain text, at sample values.
use ai_memmail.Prelude.{All, ◌<◌, ◌≡◌, ◌↔◌, refl, none, some, [], ◌∷◌, false, contains, list_beq}
use ai_memmail.Prelude.Result.{ok}
use ai_memmail.Prelude.Assoc.{lookup, contains_key}
use ai_memmail.Text.{Text, Text_eq, text}
use ai_memmail.HtmlSanitizer.{sanitize_email_html, plain_text_to_html}
use ai_memmail.HtmlSanitizer.Rendering.{plain_text_to_html_agree}
use ai_memmail.Mail.Signature.Html.{plain_text_to_html as walked}
use ai_memmail.Config.{AppConfig, McpServerConfig, stdio, html}
use ai_memmail.Config.Errors.{ensure}
use ai_memmail.Config.Validation.{Checks, validate}
use ai_memmail.Config.Validation.Valid.{IsValid}
use ai_memmail.Config.Validation.Guarantees.{validate_iff}
use ai_memmail.Config.Redaction.{
  redacted, preserve_redacted_secrets, renamed_mcp_server_matches, is_sensitive_env_name,
  only_matches,
}
use ai_memmail.Config.Redaction.Restored.{HasMaps, preserve_redacted_secrets-redacted}
use ai_memmail.Config.Redaction.Hidden.{HidesSecrets, redacted-HidesSecrets}
use ai_memmail.Config.Redaction.Renamed.{renamed_mcp_server_matches_sound}
use ai_memmail.Worker.Plans.{next_poll_delay, poll_plans}
use ai_memmail.Worker.Plans.Delay.{AtLeast, next_poll_delay-bounds}
use ai_memmail.Tests.Samples.{sample_mailbox, sample_config}

abbrev sample_checks : Checks
sample_checks = record {
  regex_error = λ pattern. none;
  sanitizer = record { clean = λ s. s; from_read = λ s. s };
}

abbrev github : McpServerConfig
github = record {
  transport = stdio;
  command = some (text "server");
  args = [];
  env = (text "GITHUB_TOKEN", text "t0k3n") ∷ (text "MODE", text "fast") ∷ [];
  url = none;
}

-- A mailbox that uses a server, has a signature, and accepts only some mail.
abbrev full_config : AppConfig
full_config = record sample_config {
  mcp_servers = (text "github", github) ∷ [];
  mailboxes =
      record sample_mailbox {
        mcp_servers = text "github" ∷ [];
        signature = some (record { format = html; content = text "<p>Ann</p>" });
        accepted_conditions =
            record { recipients = text "a@example.org" ∷ []; subject_regex = text "x" ∷ [] } ∷ [];
      }
      ∷ [];
}

full_config_valid : validate sample_checks full_config ≡ ok tt
unfolding validate text ensure list_beq sanitize_email_html
full_config_valid = refl

full_config-HasMaps : HasMaps full_config
unfolding contains text list_beq
full_config-HasMaps = ((refl, tt), (((refl, (refl, tt)), tt)))

validate_iff_example :
    (validate sample_checks full_config ≡ ok tt) ↔ IsValid sample_checks full_config
validate_iff_example = validate_iff sample_checks full_config

preserve_redacted_secrets-redacted_example :
    preserve_redacted_secrets (redacted full_config) full_config ≡ full_config
preserve_redacted_secrets-redacted_example =
    preserve_redacted_secrets-redacted sample_checks full_config full_config-HasMaps
      full_config_valid

redacted-HidesSecrets_example : HidesSecrets (redacted full_config)
redacted-HidesSecrets_example = redacted-HidesSecrets full_config

-- The same server under a new name, with its secret redacted.
abbrev renamed_config : AppConfig
renamed_config = record full_config {
  mcp_servers =
      (text "gh", record github { env = (text "GITHUB_TOKEN", text "********") ∷ [] }) ∷ [];
}

renamed :
    lookup (text "gh") (renamed_mcp_server_matches renamed_config full_config)
    ≡ some (text "github")
unfolding renamed_mcp_server_matches only_matches lookup text list_beq is_sensitive_env_name
    contains_key
renamed = refl

renamed_mcp_server_matches_sound_example :
    (contains_key full_config.mcp_servers (text "gh") ≡ false)
    × (contains_key renamed_config.mcp_servers (text "github") ≡ false)
    × ((other : Text)
        → lookup other (renamed_mcp_server_matches renamed_config full_config)
          ≡ some (text "github")
        → other ≡ text "gh")
renamed_mcp_server_matches_sound_example =
    renamed_mcp_server_matches_sound renamed_config full_config (text "gh") (text "github") renamed

plain_text_to_html_agree_example :
    plain_text_to_html (text "a < b\r\n'c'") ≡ walked (text "a < b\r\n'c'")
plain_text_to_html_agree_example = plain_text_to_html_agree (text "a < b\r\n'c'")

next_poll_delay-bounds_example :
    (0 < next_poll_delay full_config)
    × All (AtLeast (next_poll_delay full_config)) (poll_plans full_config)
next_poll_delay-bounds_example = next_poll_delay-bounds sample_checks full_config full_config_valid
