-- ===== src/Mail/Forwarding/Handoff.antt =====
-- When the body of a handoff can be written, and what it is.
use ai_memmail.Prelude.{
  ℕ, suc, ◌+◌, ◌≤◌, Bool, false, List, [], ◌∷◌, ◌++◌, ◌≡◌, ◌↔◌, refl, arith, any, is_empty,
}
use ai_memmail.Prelude.Result.{ok}
use ai_memmail.Text.{Text, text, byte_len}
use ai_memmail.Mail.{ThreadMessage, ThreadContext, has_truncated_body}
use ai_memmail.Mail.Forwarding.{
  handoff_body_max_bytes, handoff_entry, handoff_header, handoff_loop, thread_handoff_body,
}

byte_len-append : (s t : Text) → byte_len (s ++ t) ≡ byte_len s + byte_len t
unfolding byte_len
byte_len-append [] t = omega arith
byte_len-append (c ∷ s) t = omega (arith, byte_len-append s t)

-- The body with all messages, from the number of the first on.
unfoldable pub transcript : ℕ → Text → List ThreadMessage → Text
transcript index body [] = body
transcript index body (m ∷ rest) = transcript (suc index) (body ++ handoff_entry index m) rest

transcript-longer :
    (index : ℕ) (body : Text) (messages : List ThreadMessage)
    → byte_len body ≤ byte_len (transcript index body messages)
unfolding transcript
transcript-longer index body [] = omega arith
transcript-longer index body (m ∷ rest) = omega (
  arith,
  byte_len-append body (handoff_entry index m),
  transcript-longer (suc index) (body ++ handoff_entry index m) rest,
)

abbrev truncated : ThreadMessage → Bool
truncated m = m.body_truncated

handoff_loop-transcript :
    (index : ℕ) (body : Text) (messages : List ThreadMessage)
    → byte_len body ≤ handoff_body_max_bytes
    → (any truncated messages ≡ false)
    → (byte_len (transcript index body messages) ≤ handoff_body_max_bytes)
    → handoff_loop index body messages ≡ ok (transcript index body messages)
unfolding handoff_loop transcript
handoff_loop-transcript index body [] h k l = refl
handoff_loop-transcript index body (m ∷ rest) h k l = ground (
  arith,
  transcript-longer (suc index) (body ++ handoff_entry index m) rest,
  handoff_loop-transcript (suc index) (body ++ handoff_entry index m) rest,
)

handoff_loop_sound :
    (index : ℕ) (body : Text) (messages : List ThreadMessage) (b : Text)
    → byte_len body ≤ handoff_body_max_bytes
    → handoff_loop index body messages ≡ ok b
    → (any truncated messages ≡ false)
      × (byte_len (transcript index body messages) ≤ handoff_body_max_bytes)
      × (b ≡ transcript index body messages)
unfolding handoff_loop transcript
handoff_loop_sound index body [] b h k = ground (arith, h, k)
handoff_loop_sound index body (m ∷ rest) b h k =
    ground (arith, k, handoff_loop_sound (suc index) (body ++ handoff_entry index m) rest b)

header-length : byte_len handoff_header ≡ 167
unfolding byte_len handoff_header text
header-length = refl

header-fits : byte_len handoff_header ≤ handoff_body_max_bytes
unfolding handoff_body_max_bytes
header-fits = omega (arith, header-length)

-- The body of a handoff can be written exactly where the thread has a message, none of its stored
-- bodies is truncated and its transcript has at most 5 MiB; the body is that transcript.
pub thread_handoff_body_iff :
    (context : ThreadContext) (b : Text)
    → (thread_handoff_body context ≡ ok b) ↔ (
        (is_empty context.messages ≡ false)
        × (has_truncated_body context ≡ false)
        × (byte_len (transcript 0 handoff_header context.messages) ≤ handoff_body_max_bytes)
        × (b ≡ transcript 0 handoff_header context.messages))
unfolding thread_handoff_body has_truncated_body
thread_handoff_body_iff context b = ground (
  arith,
  header-fits,
  handoff_loop_sound 0 handoff_header context.messages b,
  handoff_loop-transcript 0 handoff_header context.messages,
)
