-- ===== src/Mail/Composed.antt =====
-- mail/composed.rs: the validation of an email that is written in the portal. Whether lettre reads
-- a text as a mailbox is a parameter.
pub mod Valid
use ai_memmail.Prelude.{
  true, ℕ, suc, Bool, not, ◌&&◌, Option, List, [], ◌∷◌, ◌++◌, is_empty, if◌then◌else◌,
}
use ai_memmail.Prelude.Result.{Result}
use ai_memmail.Text.{Text, text, trim, decimal}
use ai_memmail.Mail.Actions.{ValidationError, error_if, no_errors, is_blank}

pub record ComposedEmail : Type 0 where
  pub to : List Text
  pub cc : List Text
  pub bcc : List Text
  pub subject : Text
  pub text_body : Text
  pub html_body : Option Text
  pub message_id : Option Text
  pub in_reply_to : Option Text
  pub references : List Text

module _ (is_mailbox : Text → Bool) where
  unfoldable pub recipient_errors : Text → ℕ → Text → List ValidationError
  unfolding trim decimal error_if
  recipient_errors field index recipient =
      let name = field ++ (text "[" ++ (decimal index ++ text "]")) in
      if is_empty (trim recipient)
      then error_if true name (text "recipient is required")
      else error_if (not (is_mailbox recipient)) name (text "invalid email address")

  unfoldable pub validate_recipients : List Text → Text → ℕ → List ValidationError
  unfolding recipient_errors
  validate_recipients [] field index = []
  validate_recipients (recipient ∷ recipients) field index =
      recipient_errors field index recipient ++ validate_recipients recipients field (suc index)

  unfoldable pub composed_errors : ComposedEmail → List ValidationError
  unfolding trim validate_recipients error_if
  composed_errors message =
      error_if (is_empty message.to && (is_empty message.cc && is_empty message.bcc))
        (text "recipients") (text "at least one recipient is required")
      ++ (validate_recipients message.to (text "to") 0
          ++ (validate_recipients message.cc (text "cc") 0
              ++ (validate_recipients message.bcc (text "bcc") 0
                  ++ (error_if (is_empty (trim message.subject)) (text "subject")
                        (text "subject is required")
                      ++ (error_if (is_empty (trim message.text_body)) (text "text_body")
                            (text "text_body is required")
                          ++ error_if (is_blank message.html_body) (text "html_body")
                              (text "html_body must not be empty when provided"))))))

  unfoldable pub validate_composed_email : ComposedEmail → Result (List ValidationError) (Unit {0})
  unfolding composed_errors no_errors
  validate_composed_email message = no_errors (composed_errors message)
