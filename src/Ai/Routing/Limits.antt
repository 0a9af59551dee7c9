-- ===== src/Ai/Routing/Limits.antt =====
-- Texts that are cut to a length.
use ai_memmail.Prelude.{
  ℕ, zero, suc, ◌-◌, ◌≤◌, [], ◌∷◌, ◌++◌, ◌≡◌, refl, arith, length, take, length-append, leb,
  if◌then◌else◌,
}
use ai_memmail.Text.{Text}
use ai_memmail.Ai.Routing.{truncation_marker, truncate_chars_to_limit, truncate_chars}

pub length-take : (n : ℕ) (s : Text) → n ≤ length s → length (take n s) ≡ n
length-take zero s h = refl
length-take (suc n) [] h = omega (arith, h)
length-take (suc n) (c ∷ s) h = omega (arith, length-take n s (omega (arith, h)))

-- A text that is cut to a limit is no longer than the limit, and it is left as it is where it fits.
pub truncate_chars_to_limit-length :
    (value : Text) (max_chars : ℕ)
    → (length (truncate_chars_to_limit value max_chars) ≤ max_chars)
      × (length value ≤ max_chars → truncate_chars_to_limit value max_chars ≡ value)
unfolding truncate_chars_to_limit
truncate_chars_to_limit-length value max_chars = ground (
  arith,
  length-take max_chars value,
  length-take (max_chars - length truncation_marker) value,
  length-append (take (max_chars - length truncation_marker) value) truncation_marker,
)

-- Pushing characters one by one gives a text that fits unchanged, and else its first characters
-- and the marker.
pub truncate_chars-take :
    (value : Text) (max_chars : ℕ)
    → truncate_chars value max_chars
      ≡ (if leb (length value) max_chars then value else take max_chars value ++ truncation_marker)
unfolding truncate_chars
truncate_chars-take [] max_chars = ground arith
truncate_chars-take (c ∷ s) zero = ground arith
truncate_chars-take (c ∷ s) (suc n) = ground (arith, truncate_chars-take s n)
