-- ===== src/Config/Validation/Mailboxes.antt =====
-- Which mailboxes `validate` accepts.
use ai_memmail.Prelude.{
  iff_trans, ap, ℕ, true, false, ◌||◌, Option, none, some, List, [], ◌∷◌, ◌≡◌, ◌≢◌, ◌↔◌, ◌and◌,
  refl, arith, All, any, contains, map, ℕ_eq,
}
use ai_memmail.Prelude.Result.{ok}
use ai_memmail.Prelude.Assoc.{Assoc, contains_key}
use ai_memmail.Text.{Text, Text_eq}
use ai_memmail.Config.{
  McpServerConfig, MailboxConfig, AcceptedCondition, EmailSignatureConfig, EmailSignatureFormat,
  plain_text, html,
}
use ai_memmail.Config.Validation.{
  Checks, validate_signature, validate_signature_html, validate_mailbox_signature,
  validate_mailbox_server, check_mailbox, validate_mailbox, validate_mailboxes,
}
use ai_memmail.Config.Validation.Conditions.{
  is_filled, validate_recipient, validate_pattern, validate_condition, validate_accepted_conditions,
}
use ai_memmail.Config.Validation.Valid.{
  IsFilled, IsRecipient, IsPattern, IsCondition, IsSignature, IsSanitary, IsMailbox, AreDistinct,
  mailbox_id,
}
use ai_memmail.Config.Validation.Loops.{
  first_iff, ensure_lem, ensure_iff, then_iff, when_iff, each_iff, each_from_iff, bind_iff, not_iff,
}
use ai_memmail.Config.Validation.Sound.{
  is_blank_iff, positive_iff, is_empty_iff, or_iff, validate_enabled_mailbox_connection_iff,
}
use ai_memmail.Config.Validation.Prompts.{validate_prompt_path_iff}

any-is_filled_iff :
    {P : Text → Type 0} (values : List Text)
    → ((value : Text) → P value → IsFilled value)
    → All P values
    → (any is_filled values ≡ true) ↔ (values ≢ [])
any-is_filled_iff [] h k = ground arith
any-is_filled_iff (value ∷ values) h k = (
  λ e p. ground arith,
  λ ne. ap (λ b. b || any is_filled values) ((is_blank_iff value).1 (h value k.0)),
)

abbrev pub AreFresh : List Text → List MailboxConfig → Type 0
AreFresh ids mailboxes = All (λ mailbox. contains ids mailbox.id ≡ false) mailboxes

-- The mailboxes are new and distinct one by one, or all at once.
AreFresh-iff :
    (id : Text) (ids : List Text) (mailboxes : List MailboxConfig)
    → AreFresh (id ∷ ids) mailboxes
      ↔ ((contains (map mailbox_id mailboxes) id ≡ false) and AreFresh ids mailboxes)
unfolding contains
AreFresh-iff id ids [] = (λ e. (refl, tt), λ e. tt)
AreFresh-iff id ids (mailbox ∷ mailboxes) = ground (
  arith,
  Text_eq.beq_iff id mailbox.id,
  Text_eq.beq_iff mailbox.id id,
  AreFresh-iff id ids mailboxes,
)

regrouped :
    {M F Ms D N G H : Type 0}
    → G ↔ (N and H)
    → ((M and F) and (Ms and (D and G))) ↔ ((M × Ms) and ((N × D) and (F × H)))
regrouped f = (
  λ h. ((h.0.0, h.1.0), (((f.0 h.1.1.1).0, h.1.1.0), (h.0.1, (f.0 h.1.1.1).1))),
  λ h. ((h.0.0, h.1.1.0), (h.0.1, (h.1.0.1, f.1 (h.1.0.0, h.1.1.1)))),
)

module _ (checks : Checks) where
  abbrev error_of : Text → Option Text
  error_of = checks.regex_error

  validate_recipient_iff :
      (field : Text) (i : ℕ) (recipient : Text)
      → (validate_recipient error_of field i recipient ≡ ok tt) ↔ IsRecipient recipient
  unfolding validate_recipient
  validate_recipient_iff field i recipient =
      then_iff (ensure_lem _ (is_blank_iff recipient)) (ensure_iff _ _)

  validate_pattern_iff :
      (field : Text) (i : ℕ) (pattern : Text)
      → (validate_pattern error_of field i pattern ≡ ok tt) ↔ IsPattern checks pattern
  unfolding validate_pattern
  validate_pattern_iff field i pattern =
      then_iff (ensure_lem _ (is_blank_iff pattern)) (ground arith)

  validate_condition_iff :
      (id : Text) (i : ℕ) (condition : AcceptedCondition)
      → (validate_condition error_of id i condition ≡ ok tt) ↔ IsCondition checks condition
  unfolding validate_condition
  validate_condition_iff id i condition =
      iff_trans
        (then_iff (ensure_iff _ _) (
          then_iff
            (each_from_iff IsRecipient _ 0 condition.recipients (λ i. validate_recipient_iff _ i))
            (each_from_iff (IsPattern checks) _ 0 condition.subject_regex
              (λ i. validate_pattern_iff _ i))))
        (first_iff (λ h.
          or_iff (any-is_filled_iff condition.recipients (λ _ r. r.0) h.0)
            (any-is_filled_iff condition.subject_regex (λ _ r. r.0) h.1)))

  pub validate_accepted_conditions_iff :
      (mailbox : MailboxConfig)
      → (validate_accepted_conditions error_of mailbox ≡ ok tt)
        ↔ All (IsCondition checks) mailbox.accepted_conditions
  unfolding validate_accepted_conditions
  validate_accepted_conditions_iff mailbox =
      each_from_iff (IsCondition checks) _ 0 mailbox.accepted_conditions
        (validate_condition_iff mailbox.id)

  validate_signature_html_iff :
      (id : Text) (format : EmailSignatureFormat) (content : Text)
      → (validate_signature_html checks id format content ≡ ok tt)
        ↔ IsSanitary checks format content
  validate_signature_html_iff id plain_text content = (λ e. tt, λ e. refl)
  validate_signature_html_iff id html content = ensure_lem _ (not_iff _)

  validate_signature_iff :
      (id : Text) (signature : Option EmailSignatureConfig)
      → (validate_signature checks id signature ≡ ok tt) ↔ IsSignature checks signature
  validate_signature_iff id none = (λ e. tt, λ e. refl)
  validate_signature_iff id (some signature) =
      then_iff (ensure_lem _ (is_blank_iff signature.content))
        (validate_signature_html_iff id signature.format signature.content)

  pub validate_mailbox_signature_iff :
      (mailbox : MailboxConfig)
      → (validate_mailbox_signature checks mailbox ≡ ok tt) ↔ IsSignature checks mailbox.signature
  unfolding validate_mailbox_signature
  validate_mailbox_signature_iff mailbox = validate_signature_iff mailbox.id mailbox.signature

  server_iff :
      (id : Text) (servers : Assoc Text McpServerConfig) (server : Text)
      → (validate_mailbox_server checks id servers server ≡ ok tt)
        ↔ (contains_key servers server ≡ true)
  unfolding validate_mailbox_server
  server_iff id servers server = ensure_iff _ _

  abbrev IsMailboxAfter : List Text → Assoc Text McpServerConfig → MailboxConfig → Type 0
  IsMailboxAfter ids servers mailbox =
      IsMailbox checks servers mailbox and (contains ids mailbox.id ≡ false)

  check_mailbox_iff :
      (servers : Assoc Text McpServerConfig) (mailbox : MailboxConfig) (ids : List Text)
      → (check_mailbox checks servers mailbox ids ≡ ok tt) ↔ IsMailboxAfter ids servers mailbox
  unfolding check_mailbox
  check_mailbox_iff servers mailbox ids =
      iff_trans
        (then_iff (ensure_lem _ (is_blank_iff mailbox.id)) (
          then_iff (ensure_lem _ (not_iff (contains ids mailbox.id))) (
            then_iff (ensure_lem _ (positive_iff mailbox.poll_interval_seconds)) (
              then_iff (ensure_lem _ (is_empty_iff mailbox.safety_forward_to)) (
                then_iff (validate_mailbox_signature_iff mailbox) (
                  then_iff (validate_accepted_conditions_iff mailbox) (
                    then_iff
                      (when_iff mailbox.enabled (validate_enabled_mailbox_connection_iff mailbox))
                      (then_iff (validate_prompt_path_iff mailbox.agent.system_prompt_path _) (
                        each_iff (λ server. contains_key servers server ≡ true) _
                          mailbox.mcp_servers (server_iff mailbox.id servers))))))))))
        (λ h. ((h.0, h.1.1), h.1.0), λ h. (h.0.0, (h.1, h.0.1)))

  pub validate_mailboxes_iff :
      (servers : Assoc Text McpServerConfig) (mailboxes : List MailboxConfig) (ids : List Text)
      → (validate_mailboxes checks servers mailboxes ids ≡ ok tt) ↔ (
          All (IsMailbox checks servers) mailboxes
          and (AreDistinct (map mailbox_id mailboxes) and AreFresh ids mailboxes))
  unfolding validate_mailboxes validate_mailbox
  validate_mailboxes_iff servers [] ids = (λ e. (tt, (tt, tt)), λ e. refl)
  validate_mailboxes_iff servers (mailbox ∷ mailboxes) ids =
      iff_trans
        (bind_iff _ _ _ (check_mailbox_iff servers mailbox ids)
          (validate_mailboxes_iff servers mailboxes (mailbox.id ∷ ids)))
        (regrouped (AreFresh-iff mailbox.id ids mailboxes))
