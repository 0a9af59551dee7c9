-- ===== src/Worker/Effects/Guarantees.antt =====
-- What `process_message` mails and asks, by the sender, the content and the review of a message.
use ai_memmail.Prelude.{
  Bool, true, false, List, All, ◌≡◌, ◌≢◌, ◌∙◌, ◌⊎◌, inl, inr, refl, arith, if◌then◌else◌,
}
use ai_memmail.Text.{Text}
use ai_memmail.Config.{AppConfig, MailboxConfig}
use ai_memmail.Mail.{InboundMessage, OutboundAction, forward, ThreadContext}
use ai_memmail.Mail.Signature.{apply_reply_signature}
use ai_memmail.Safety.{SafetyScanResult, safe, decide}
use ai_memmail.Safety.Senders.{sender_is_banned}
use ai_memmail.Ai.{AgentDecision}
use ai_memmail.Ai.Routing.{human_review_requested}
use ai_memmail.Worker.Services.{Services, Call, AiStep, agent, rule}
use ai_memmail.Worker.Process.{
  precheck_sender, process_checked, process_message, scanned, should_forward_for_human_review,
}
use ai_memmail.Worker.Action.{pure}
use ai_memmail.Worker.History.{log_safety_scan_result}
use ai_memmail.Worker.Outbound.{safety_forward_action}
use ai_memmail.Worker.Effects.{Allowed, Makes, Makes-bind, Makes-pure, Anything}
use ai_memmail.Worker.Effects.Quiet.{claim_before_side_effect-Makes, log_message-Makes}
use ai_memmail.Worker.Effects.Sending.{
  send_and_mark_seen-Makes, apply_reply_signature-kind, record_safety_result_for_history-Makes,
}
use ai_memmail.Worker.Effects.Reviewing.{IsApproved, reviewed_outbound_action-Makes}
use ai_memmail.Worker.Effects.Messages.{process_message-Makes, quarantine-Makes}

-- A mail that forwards the message to the people who look after the safety of the mailbox.
abbrev pub IsSafetyForward : MailboxConfig → OutboundAction → Type 0
IsSafetyForward mailbox action =
    (action.kind ≡ forward) × (action.recipients ≡ mailbox.safety_forward_to)

abbrev pub IsForward : OutboundAction → Type 0
IsForward action = action.kind ≡ forward

-- The requests by which the model decides about a message.
abbrev pub decides : AiStep → Bool
decides agent = true
decides rule = true
decides _ = false

abbrev NotAsked : AiStep → Type 0
NotAsked step = ⊥

-- The calls of a message none of which asks the model anything or mails anyone but those people.
abbrev pub IsolatedCalls : MailboxConfig → List Call → Type 0
IsolatedCalls mailbox = All (Allowed (IsSafetyForward mailbox) NotAsked)

-- The calls of a message that is only forwarded, and about which the model does not decide.
abbrev pub ForwardingCalls : List Call → Type 0
ForwardingCalls = All (Allowed IsForward (λ step. decides step ≡ false))

module _ (x : Services) (config : AppConfig) (mailbox : MailboxConfig) (run_id : Text)
    (message : InboundMessage) where
  -- A forward, or the signed action of a decision that the review approved.
  abbrev pub IsForwardOrApproved : OutboundAction → Type 0
  IsForwardOrApproved action =
      (action.kind ≡ forward)
      ⊎ ((context : ThreadContext) × (decision : AgentDecision) × IsApproved x config mailbox
            message context decision
          × (action ≡ apply_reply_signature mailbox decision.action))

  abbrev pub ReviewedCalls : List Call → Type 0
  ReviewedCalls = All (Allowed IsForwardOrApproved (λ step. Unit {0}))

  mailed_to_safety :
      (reason : Text)
      → IsSafetyForward mailbox
          (apply_reply_signature mailbox (safety_forward_action mailbox message reason))
  unfolding apply_reply_signature safety_forward_action
  mailed_to_safety reason = (refl, refl)

  banned-Makes :
      sender_is_banned x.parser message.metadata.from_addr config.banned_senders ≡ true
      → (claimed : Bool)
      → Makes
          (Allowed (IsSafetyForward mailbox) NotAsked)
          (if claimed
            then process_checked x config mailbox run_id message
                (precheck_sender x config mailbox run_id message)
            else pure tt)
          Anything
  unfolding precheck_sender process_checked
  banned-Makes h true =
      rw h
        (send_and_mark_seen-Makes x mailbox run_id message _ "banned_sender" (mailed_to_safety _))
  banned-Makes h false = Makes-pure tt tt

  -- Where the sender is banned, the model is asked nothing and each mail is a forward to the
  -- recipients of the mailbox's safety mails.
  pub process_message-banned :
      sender_is_banned x.parser message.metadata.from_addr config.banned_senders ≡ true
      → (w : x.World)
      → IsolatedCalls mailbox (process_message x config mailbox run_id message w).calls
  unfolding process_message
  process_message-banned h w =
      ((Makes-bind (claim_before_side_effect-Makes x run_id message mailbox)
          (λ claimed _. banned-Makes h claimed)).at
        w).0

  unsafe-quarantined :
      (result : SafetyScanResult)
      → result.category ≢ safe
      → should_forward_for_human_review (decide result) ≡ true
  unfolding decide should_forward_for_human_review
  unsafe-quarantined result h = ground arith

  -- After a scan that did not find the message safe, the model is asked nothing more and each mail
  -- is a forward to the recipients of the mailbox's safety mails.
  pub scanned-unsafe :
      (result : SafetyScanResult)
      → result.category ≢ safe
      → (w : x.World)
      → IsolatedCalls mailbox (scanned x config mailbox run_id message result w).calls
  unfolding scanned log_safety_scan_result
  scanned-unsafe result h w =
      ((Makes-bind {S = Anything} (log_message-Makes x run_id message _ _ _ _) (λ _ _.
          Makes-bind {R = Anything} {S = Anything}
            (record_safety_result_for_history-Makes x run_id message result)
            (λ _ _. rw (unsafe-quarantined result h) (
              quarantine-Makes x config mailbox run_id message result (decide result)
                (mailed_to_safety _))))).at
        w).0

  -- Where the sender asks for a human, each mail is a forward and the model is not asked what to do.
  pub process_message-human :
      human_review_requested message ≡ true
      → (w : x.World) → ForwardingCalls (process_message x config mailbox run_id message w).calls
  process_message-human h w =
      ((process_message-Makes {D = λ k. k ≡ forward} x config mailbox run_id message (λ a e. e) refl
          (refl, refl) (λ e. absurd (ground (arith, h, e)))
          (λ context decision e.
            reviewed_outbound_action-Makes x mailbox run_id message
              (λ a f. apply_reply_signature-kind mailbox a ∙ f) config context decision refl
              (λ _. apply_reply_signature-kind mailbox decision.action ∙ e))).at
        w).0

  -- Where the review is switched on, each mail is a forward or the signed form of an action that
  -- the review approved.
  pub process_message-reviewed :
      config.ai.review.enabled ≡ true
      → (w : x.World) → ReviewedCalls (process_message x config mailbox run_id message w).calls
  process_message-reviewed h w =
      ((process_message-Makes {Mailed = IsForwardOrApproved} {Asked = λ step. Unit {0}}
          {D = λ k. Unit} x config mailbox run_id message (λ a e. inl e) tt (tt, tt)
          (λ e. (tt, tt, λ k. tt))
          (λ context decision _.
            reviewed_outbound_action-Makes x mailbox run_id message
              (λ a f. inl (apply_reply_signature-kind mailbox a ∙ f)) config context decision tt
              (elim [
                | inl off ↦ absurd (ground (arith, h, off))
                | inr approved ↦ inr (context, decision, approved, refl)
              ]))).at
        w).0
