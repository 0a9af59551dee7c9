-- ===== src/Mail/Actions.antt =====
-- `validate_outbound_action` of mail.rs, which lists what is wrong with an action.
use ai_memmail.Prelude.{
  ◌≡◌, ◌↔◌, Bool, true, false, not, Option, none, some, List, [], ◌∷◌, ◌++◌, if◌then◌else◌,
  is_empty, arith,
}
use ai_memmail.Prelude.Result.{Result, ok, err}
use ai_memmail.Text.{Text, text, trim}
use ai_memmail.Mail.{OutboundAction, OutboundActionKind, reply, forward, noop}

pub record ValidationError : Type 0 where
  pub field : Text
  pub message : Text

-- `if wrong { errors.push(ValidationError { field, message }) }`
unfoldable pub error_if : Bool → Text → Text → List ValidationError
error_if wrong field message =
    if wrong then record { field = field; message = message } ∷ [] else []

-- `if errors.is_empty() { Ok(()) } else { Err(errors) }`
unfoldable pub no_errors : List ValidationError → Result (List ValidationError) (Unit {0})
no_errors [] = ok tt
no_errors (e ∷ errors) = err (e ∷ errors)

-- A text that is there and holds nothing but whitespace.
abbrev pub is_blank : Option Text → Bool
is_blank none = false
is_blank (some body) = is_empty (trim body)

abbrev pub is_some {ℓ} : {A : Type ℓ} → Option A → Bool
is_some none = false
is_some (some a) = true

unfoldable pub delivery_errors : OutboundAction → List ValidationError
unfolding error_if
delivery_errors action =
    error_if (is_empty action.recipients) (text "recipients")
      (text "at least one recipient is required")
    ++ (error_if (is_empty (trim action.subject)) (text "subject") (text "subject is required")
        ++ error_if (is_empty (trim action.body)) (text "body") (text "body is required"))

abbrev html_errors : OutboundAction → List ValidationError
html_errors action =
    error_if (is_some action.html_body) (text "html_body")
      (text "html_body is only supported for replies")

unfoldable pub outbound_errors : OutboundActionKind → OutboundAction → List ValidationError
unfolding delivery_errors error_if
outbound_errors reply action =
    delivery_errors action
    ++ error_if (is_blank action.html_body) (text "html_body")
        (text "html_body must not be empty when provided")
outbound_errors forward action = delivery_errors action ++ html_errors action
outbound_errors noop action =
    error_if (not (is_empty action.recipients)) (text "recipients")
      (text "noop must not define recipients")
    ++ html_errors action

unfoldable pub validate_outbound_action : OutboundAction → Result (List ValidationError) (Unit {0})
unfolding outbound_errors no_errors
validate_outbound_action action = no_errors (outbound_errors action.kind action)

-- What an action has to be, by its kind.
abbrev pub CanBeDelivered : OutboundAction → Type 0
CanBeDelivered action =
    (is_empty action.recipients ≡ false)
    × (is_empty (trim action.subject) ≡ false)
    × (is_empty (trim action.body) ≡ false)

abbrev pub IsWellFormed : OutboundActionKind → OutboundAction → Type 0
IsWellFormed reply action = CanBeDelivered action × (is_blank action.html_body ≡ false)
IsWellFormed forward action = CanBeDelivered action × (action.html_body ≡ none)
IsWellFormed noop action = (action.recipients ≡ []) × (action.html_body ≡ none)

outbound_errors_iff :
    (kind : OutboundActionKind) (action : OutboundAction)
    → (no_errors (outbound_errors kind action) ≡ ok tt) ↔ IsWellFormed kind action
unfolding outbound_errors no_errors
outbound_errors_iff reply action = ground arith
outbound_errors_iff forward action = ground arith
outbound_errors_iff noop action = ground arith

-- An action is accepted exactly when it is well formed for its kind: a reply or a forward names a
-- recipient and has a subject and a body that are not blank, a reply's HTML body is not blank if
-- there is one, a noop names no recipient, and neither a forward nor a noop has an HTML body.
pub validate_outbound_action_iff :
    (action : OutboundAction)
    → (validate_outbound_action action ≡ ok tt) ↔ IsWellFormed action.kind action
unfolding validate_outbound_action
validate_outbound_action_iff action = outbound_errors_iff action.kind action
