-- ===== src/Config/Validation/Guarantees.antt =====
-- What `validate` means.
use ai_memmail.Prelude.{iff_trans, ℕ_eq, List, [], ◌∷◌, ◌≡◌, ◌↔◌, ◌and◌, All, refl, contains, map}
use ai_memmail.Prelude.Result.{ok}
use ai_memmail.Config.{AppConfig, MailboxConfig}
use ai_memmail.Config.Validation.{validate_mailboxes, Checks, validate}
use ai_memmail.Config.Validation.Valid.{IsValid, IsMailbox, AreDistinct, mailbox_id}
use ai_memmail.Config.Validation.Loops.{ensure_lem, then_iff}
use ai_memmail.Config.Validation.Sound.{validate_database_iff, validate_logging_iff}
use ai_memmail.Config.Validation.Prompts.{validate_prompt_path_iff}
use ai_memmail.Config.Validation.Mailboxes.{validate_mailboxes_iff, AreFresh}

new : (mailboxes : List MailboxConfig) → AreFresh [] mailboxes
unfolding contains
new [] = tt
new (mailbox ∷ mailboxes) = (refl, new mailboxes)

module _ (checks : Checks) where
  mailboxes_iff :
      (config : AppConfig)
      → (validate_mailboxes checks config.mcp_servers config.mailboxes [] ≡ ok tt) ↔ (
          All (IsMailbox checks config.mcp_servers) config.mailboxes
          and AreDistinct (map mailbox_id config.mailboxes))
  mailboxes_iff config =
      iff_trans (validate_mailboxes_iff checks config.mcp_servers config.mailboxes [])
        (λ h. (h.0, h.1.0), λ h. (h.0, (h.1, new config.mailboxes)))

  -- A configuration passes validation exactly when its version is 1, its database, its logging and
  -- its prompt paths are in order, each mailbox is, and no two mailboxes have the same id.
  pub validate_iff : (config : AppConfig) → (validate checks config ≡ ok tt) ↔ IsValid checks config
  unfolding validate
  validate_iff config = then_iff (ensure_lem _ (ℕ_eq.beq_iff config.version 1)) (
      then_iff (validate_database_iff config.database) (
        then_iff (validate_logging_iff config.logging) (
          then_iff (validate_prompt_path_iff config.prompts.safety_scan _) (
            then_iff (validate_prompt_path_iff config.prompts.email_classifier _) (
              then_iff (validate_prompt_path_iff config.prompts.rule_action _) (
                then_iff (validate_prompt_path_iff config.ai.review.prompt_path _)
                  (mailboxes_iff config)))))))
