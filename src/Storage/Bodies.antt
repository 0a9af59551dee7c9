-- ===== src/Storage/Bodies.antt =====
-- The bodies that the store keeps.
use ai_memmail.Prelude.{ℕ, zero, suc, [], ◌∷◌, ◌≡◌, arith, length, take, ltb}
use ai_memmail.Text.{Text}
use ai_memmail.Mail.{InboundMessage}
use ai_memmail.Storage.{bounded_body, inbound_body_storage_max_chars, inbound_body_for_storage}

bounded_body-take : (s : Text) (room : ℕ) → bounded_body s room ≡ (take room s, ltb room (length s))
unfolding bounded_body
bounded_body-take [] zero = ground arith
bounded_body-take [] (suc room) = ground arith
bounded_body-take (c ∷ s) zero = ground arith
bounded_body-take (c ∷ s) (suc room) = ground (arith, bounded_body-take s room)

-- The stored body is the first 64 * 1024 characters of the text, and it is marked as truncated
-- exactly where the text has more.
pub inbound_body_for_storage-take :
    (message : InboundMessage)
    → inbound_body_for_storage message ≡ (
      take inbound_body_storage_max_chars message.plain_text,
      ltb inbound_body_storage_max_chars (length message.plain_text),
    )
unfolding inbound_body_for_storage
inbound_body_for_storage-take message = bounded_body-take message.plain_text _
