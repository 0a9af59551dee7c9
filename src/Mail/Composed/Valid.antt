-- ===== src/Mail/Composed/Valid.antt =====
-- What `validate_composed_email` accepts.
use ai_memmail.Prelude.{
  iff_trans, ℕ, suc, Bool, true, false, ◌&&◌, Option, some, none, List, [], ◌∷◌, ◌++◌, is_empty,
  ◌≡◌, ◌≢◌, ◌↔◌, ◌⊎◌, ◌and◌, refl, arith, All,
}
use ai_memmail.Prelude.Result.{ok}
use ai_memmail.Text.{Text, text, trim}
use ai_memmail.Mail.Actions.{ValidationError, error_if, no_errors, is_blank}
use ai_memmail.Mail.Composed.{
  ComposedEmail, recipient_errors, validate_recipients, composed_errors, validate_composed_email,
}

append-eq-nil_iff :
    {A P Q : Type 0} {xs ys : List A}
    → (xs ≡ []) ↔ P
    → (ys ≡ []) ↔ Q
    → ((xs ++ ys) ≡ []) ↔ (P and Q)
append-eq-nil_iff {xs = []} f g = ground arith
append-eq-nil_iff {xs = x ∷ xs} f g = ground arith

error_if_iff :
    (wrong : Bool) (field message : Text) → (error_if wrong field message ≡ []) ↔ (wrong ≡ false)
unfolding error_if
error_if_iff wrong field message = ground arith

no_errors_iff : (errors : List ValidationError) → (no_errors errors ≡ ok tt) ↔ (errors ≡ [])
unfolding no_errors
no_errors_iff errors = ground arith

-- A text body and an HTML body, if there is one, that hold more than whitespace.
abbrev pub IsBody : Option Text → Type 0
IsBody none = Unit
IsBody (some body) = trim body ≢ []

module _ (is_mailbox : Text → Bool) where
  abbrev pub IsRecipient : Text → Type 0
  IsRecipient recipient = (trim recipient ≢ []) × (is_mailbox recipient ≡ true)

  -- An email with recipients that are mailboxes, a subject and bodies.
  abbrev pub CanBeSent : ComposedEmail → Type 0
  CanBeSent message =
      ((message.to ≢ []) ⊎ (message.cc ≢ []) ⊎ (message.bcc ≢ []))
      and (All IsRecipient message.to
          and (All IsRecipient message.cc
              and (All IsRecipient message.bcc
                  and ((trim message.subject ≢ [])
                      and ((trim message.text_body ≢ []) and IsBody message.html_body)))))

  recipient_errors_iff :
      (field : Text) (index : ℕ) (recipient : Text)
      → (recipient_errors is_mailbox field index recipient ≡ []) ↔ IsRecipient recipient
  unfolding recipient_errors error_if
  recipient_errors_iff field index recipient = ground arith

  validate_recipients_iff :
      (recipients : List Text) (field : Text) (index : ℕ)
      → (validate_recipients is_mailbox recipients field index ≡ []) ↔ All IsRecipient recipients
  unfolding validate_recipients
  validate_recipients_iff [] field index = (λ e. tt, λ e. refl)
  validate_recipients_iff (recipient ∷ recipients) field index =
      append-eq-nil_iff (recipient_errors_iff field index recipient)
        (validate_recipients_iff recipients field (suc index))

  recipients_iff :
      (to cc bcc : List Text)
      → (error_if
            (is_empty to && (is_empty cc && is_empty bcc))
            (text "recipients")
            (text "at least one recipient is required")
          ≡ [])
        ↔ ((to ≢ []) ⊎ (cc ≢ []) ⊎ (bcc ≢ []))
  unfolding error_if
  recipients_iff to cc bcc = ground arith

  filled_iff :
      (value field message : Text)
      → (error_if (is_empty (trim value)) field message ≡ []) ↔ (trim value ≢ [])
  unfolding error_if
  filled_iff value field message = ground arith

  is_blank_iff :
      (body : Option Text) (field message : Text)
      → (error_if (is_blank body) field message ≡ []) ↔ IsBody body
  unfolding error_if
  is_blank_iff none field message = ground arith
  is_blank_iff (some body) field message = ground arith

  -- A composed email passes validation exactly when it has a recipient, each recipient is a
  -- mailbox, and subject and bodies hold more than whitespace.
  pub validate_composed_email_iff :
      (message : ComposedEmail)
      → (validate_composed_email is_mailbox message ≡ ok tt) ↔ CanBeSent message
  unfolding validate_composed_email composed_errors
  validate_composed_email_iff message =
      iff_trans (no_errors_iff (composed_errors is_mailbox message)) (
        append-eq-nil_iff (recipients_iff message.to message.cc message.bcc) (
          append-eq-nil_iff (validate_recipients_iff message.to _ 0) (
            append-eq-nil_iff (validate_recipients_iff message.cc _ 0) (
              append-eq-nil_iff (validate_recipients_iff message.bcc _ 0) (
                append-eq-nil_iff (filled_iff message.subject _ _) (
                  append-eq-nil_iff (filled_iff message.text_body _ _)
                    (is_blank_iff message.html_body _ _)))))))
