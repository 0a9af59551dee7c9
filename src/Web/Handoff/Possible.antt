-- ===== src/Web/Handoff/Possible.antt =====
-- When a thread can be handed off from the portal.
use ai_memmail.Prelude.{◌≤◌, Bool, true, false, Option, none, some, List, any, ◌≡◌}
use ai_memmail.Prelude.Result.{Result, ok, err}
use ai_memmail.Text.{Text, byte_len}
use ai_memmail.Config.{MailboxConfig}
use ai_memmail.Mail.{
  OutboundAction, MailError, MessageDirection, inbound, outbound, ThreadMessage, ThreadContext,
  has_truncated_body,
}
use ai_memmail.Mail.Forwarding.{handoff_body_max_bytes, handoff_header}
use ai_memmail.Mail.Forwarding.Handoff.{transcript}

abbrev is_inbound : MessageDirection → Bool
is_inbound inbound = true
is_inbound outbound = false

unfoldable pub has_inbound : List ThreadMessage → Bool
has_inbound messages = any (λ (m : ThreadMessage). is_inbound m.direction) messages

-- The body of a handoff that can be built.
abbrev pub body_of : Result MailError OutboundAction → Option Text
body_of (ok action) = some action.body
body_of (err e) = none

abbrev is_there : Option ThreadMessage → Bool
is_there none = false
is_there (some m) = true

module _ (mailbox : MailboxConfig) (destination target uuid : Text) where
  abbrev CanBeBuilt : ThreadContext → Text → Type 0
  CanBeBuilt context b =
      (has_inbound context.messages ≡ true)
      × (has_truncated_body context ≡ false)
      × (byte_len (transcript 0 handoff_header context.messages) ≤ handoff_body_max_bytes)
      × (b ≡ transcript 0 handoff_header context.messages)
