-- ===== src/Ai/Drafts/Accepted.antt =====
-- The decisions that `rule_draft_to_decision` makes of a draft of the model.
use ai_memmail.Prelude.{
  Bool, false, ◌&&◌, List, [], ◌∷◌, ◌++◌, ◌≡◌, refl, sym, ◌∙◌, ap, subst, arith, is_empty,
}
use ai_memmail.Prelude.Result.{Result, ok, err}
use ai_memmail.Text.{Text, trim}
use ai_memmail.Config.{MailboxConfig}
use ai_memmail.Mail.{InboundMessage, OutboundActionKind, reply, forward, noop}
use ai_memmail.Mail.Parser.{MailParser, reply_recipient}
use ai_memmail.Mail.Actions.{
  ValidationError, error_if, outbound_errors, no_errors, IsWellFormed, validate_outbound_action,
  validate_outbound_action_iff,
}
use ai_memmail.Classification.{EmailRule}
use ai_memmail.Ai.{AgentDecision}
use ai_memmail.Ai.Routing.{forward_recipients}
use ai_memmail.Ai.Drafts.{
  RuleActionDraft, outbound_kind, reply_body_uses_system_voice, is_delivered, errors_of,
  validate_agent_decision, checked, draft_action, rule_draft_to_decision,
}

-- The recipients that the program, and not the model, gives a kind of action.
abbrev pub recipients_for :
    MailParser → MailboxConfig → InboundMessage → OutboundActionKind → List Text
recipients_for parser mailbox message reply = reply_recipient parser message.metadata.from_addr ∷ []
recipients_for parser mailbox message forward = forward_recipients mailbox
recipients_for parser mailbox message noop = []

abbrev pub HasOwnVoice : AgentDecision → Type 0
HasOwnVoice decision =
    ((is_delivered decision.action.kind && reply_body_uses_system_voice decision.action.body)
      ≡ false)
    × (is_empty (trim decision.safety_notes) ≡ false)

no_errors-append :
    (xs ys : List ValidationError) → no_errors (xs ++ ys) ≡ ok tt → (xs ≡ []) × (ys ≡ [])
unfolding no_errors
no_errors-append [] ys h = ground arith
no_errors-append (x ∷ xs) ys h = ground arith

errors_of-no_errors : (xs : List ValidationError) → errors_of (no_errors xs) ≡ xs
unfolding no_errors
errors_of-no_errors [] = refl
errors_of-no_errors (x ∷ xs) = refl

error_if-empty : (b : Bool) (field message : Text) → error_if b field message ≡ [] → b ≡ false
unfolding error_if
error_if-empty b field message h = ground arith

validate_agent_decision_sound :
    (decision : AgentDecision)
    → validate_agent_decision decision ≡ ok tt
    → (validate_outbound_action decision.action ≡ ok tt) × HasOwnVoice decision
unfolding validate_agent_decision validate_outbound_action
validate_agent_decision_sound decision h =
    let errors = outbound_errors decision.action.kind decision.action in
    let (none_first, rest) = no_errors-append (errors_of (no_errors errors)) _ h in
    let (none_second, none_third) = no_errors-append _ _ (ap no_errors rest) in
    (
      ap no_errors (sym (errors_of-no_errors errors) ∙ none_first),
      (error_if-empty _ _ _ none_second, error_if-empty _ _ _ none_third),
    )

draft_action-target :
    (parser : MailParser) (mailbox : MailboxConfig) (message : InboundMessage)
    (draft : RuleActionDraft) (kind : OutboundActionKind)
    → ((draft_action parser mailbox message draft kind).kind ≡ kind)
      × ((draft_action parser mailbox message draft kind).recipients
          ≡ recipients_for parser mailbox message kind)
unfolding draft_action
draft_action-target parser mailbox message draft reply = (refl, refl)
draft_action-target parser mailbox message draft forward = (refl, refl)
draft_action-target parser mailbox message draft noop = (refl, refl)

checked-ok :
    (decision d : AgentDecision) (r : Result (List ValidationError) (Unit {0}))
    → checked decision r ≡ ok d
    → (decision ≡ d) × (r ≡ ok tt)
checked-ok decision d (ok tt) h = ground (arith, h)
checked-ok decision d (err errors) h = absurd (ground (arith, h))

-- A decision that comes of a draft does what the rule says and goes to the recipients that the
-- program gives that action, whatever the draft holds; it is well formed, does not speak as a
-- machine where it is mailed, and has safety notes.
pub rule_draft_to_decision_sound :
    (parser : MailParser) (mailbox : MailboxConfig) (message : InboundMessage) (rule : EmailRule)
    (draft : RuleActionDraft) (d : AgentDecision)
    → rule_draft_to_decision parser mailbox message rule draft ≡ ok d
    → (d.action.kind ≡ outbound_kind rule.action)
      × (d.action.recipients ≡ recipients_for parser mailbox message (outbound_kind rule.action))
      × IsWellFormed d.action.kind d.action
      × HasOwnVoice d
unfolding rule_draft_to_decision
rule_draft_to_decision_sound parser mailbox message rule draft d h =
    let target = draft_action-target parser mailbox message draft (outbound_kind rule.action) in
    let (same, valid) = checked-ok _ d _ h in
    subst
      (λ (e : AgentDecision).
        (e.action.kind ≡ outbound_kind rule.action)
        × (e.action.recipients ≡ recipients_for parser mailbox message (outbound_kind rule.action))
        × IsWellFormed e.action.kind e.action
        × HasOwnVoice e)
      same
      (let (formed, voice) = validate_agent_decision_sound _ valid in
        (target.0, target.1, (validate_outbound_action_iff _).0 formed, voice))
