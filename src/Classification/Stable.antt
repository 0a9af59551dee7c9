-- ===== src/Classification/Stable.antt =====
-- A label name is its own label name.
use ai_memmail.Prelude.{
  ℕ, ◌≡◌, refl, ap, ◌∙◌, ◌⊎◌, Bool, true, false, not, [], ◌∷◌, All, arith, ℕ_eq,
}
use ai_memmail.Text.{Text, is_whitespace, keep_end, trim, trim_matches, trim_end_matches}
use ai_memmail.Text.Trim.{StartsPlain, trim_start_matches_of_StartsPlain}
use ai_memmail.Classification.{
  is_ascii_alphanumeric, to_lowercase, lowered, label_loop, is_underscore, normalize_label_name,
}
use ai_memmail.Classification.Labels.{
  IsLabel, is_label_char, is_label_from, normalize_label_name-IsLabel,
}

-- The characters that a name may hold.
abbrev IsNameChar : ℕ → Type 0
IsNameChar c = (is_label_char c ≡ true) ⊎ (c ≡ b'_')

is_label_from-All :
    (previous : Bool) (s : Text) → is_label_from previous s ≡ true → All IsNameChar s
unfolding is_label_from
is_label_from-All previous [] h = tt
is_label_from-All previous (c ∷ s) h =
    (ground arith, is_label_from-All (not (is_label_char c)) s (ground arith))

module _ (p : ℕ → Bool) where
  trim_end_matches_of_All : (s : Text) → All (λ c. p c ≡ false) s → trim_end_matches p s ≡ s
  unfolding trim_end_matches
  trim_end_matches_of_All [] h = refl
  trim_end_matches_of_All (c ∷ []) (h, hs) = rw h
  trim_end_matches_of_All (c ∷ d ∷ s) (h, hs) =
      ap (keep_end p c) (trim_end_matches_of_All (d ∷ s) hs)

name_char_plain : (c : ℕ) → IsNameChar c → is_whitespace c ≡ false
unfolding is_label_char is_whitespace
name_char_plain c h = ground arith

every_plain : (s : Text) → All IsNameChar s → All (λ c. is_whitespace c ≡ false) s
every_plain [] h = tt
every_plain (c ∷ s) (h, hs) = (name_char_plain c h, every_plain s hs)

starts_plain : (p : ℕ → Bool) (s : Text) → All (λ c. p c ≡ false) s → StartsPlain p s
starts_plain p [] h = tt
starts_plain p (c ∷ s) h = h.0

trim_of_name : (s : Text) → All IsNameChar s → trim s ≡ s
unfolding trim trim_matches
trim_of_name s h =
    let plain = every_plain s h in
    ap (trim_end_matches is_whitespace)
      (trim_start_matches_of_StartsPlain is_whitespace s (starts_plain is_whitespace s plain))
    ∙ trim_end_matches_of_All is_whitespace s plain

to_lowercase_of_name : (c : ℕ) → IsNameChar c → to_lowercase c ≡ c ∷ []
unfolding is_label_char to_lowercase
to_lowercase_of_name c h = ground arith

lowered_of_name : (s : Text) → All IsNameChar s → lowered s ≡ s
unfolding lowered
lowered_of_name [] h = refl
lowered_of_name (c ∷ s) (h, hs) = rw (to_lowercase_of_name c h) (ap (◌∷◌ c) (lowered_of_name s hs))

alphanumeric_of_name : (c : ℕ) → IsNameChar c → is_ascii_alphanumeric c ≡ is_label_char c
unfolding is_label_char is_ascii_alphanumeric
alphanumeric_of_name c h = ground arith

label_loop_of_name :
    (previous : Bool) (s : Text) → is_label_from previous s ≡ true → label_loop previous s ≡ s
unfolding is_label_from label_loop
label_loop_of_name previous [] h = refl
label_loop_of_name previous (c ∷ s) h =
    let chars : IsNameChar c × All IsNameChar s = is_label_from-All previous (c ∷ s) h in
    ground (arith, alphanumeric_of_name c chars.0, label_loop_of_name (not (is_label_char c)) s)

is_label_from_weaken : (s : Text) → is_label_from true s ≡ true → is_label_from false s ≡ true
unfolding is_label_from
is_label_from_weaken [] h = refl
is_label_from_weaken (c ∷ s) h = ground arith

label-StartsPlain : (s : Text) → is_label_from true s ≡ true → StartsPlain is_underscore s
unfolding is_label_from
label-StartsPlain [] h = tt
label-StartsPlain (c ∷ s) h = ground arith

trim_matches_of_label : (s : Text) → IsLabel s → trim_matches is_underscore s ≡ s
unfolding trim_matches
trim_matches_of_label s h =
    ap (trim_end_matches is_underscore)
      (trim_start_matches_of_StartsPlain is_underscore s (label-StartsPlain s h.chars))
    ∙ h.last

pub normalize_label_name_of_IsLabel : (s : Text) → IsLabel s → normalize_label_name s ≡ s
unfolding normalize_label_name
normalize_label_name_of_IsLabel s h =
    let chars = is_label_from-All true s h.chars in
    rw (trim_of_name s chars) (
      rw (lowered_of_name s chars) (
        rw (label_loop_of_name false s (is_label_from_weaken s h.chars))
          (rw (trim_matches_of_label s h) (rw h.some_char))))

-- Normalising the name of a label a second time changes nothing.
pub normalize_label_name_idempotent :
    (value : Text) → normalize_label_name (normalize_label_name value) ≡ normalize_label_name value
normalize_label_name_idempotent value =
    normalize_label_name_of_IsLabel (normalize_label_name value)
      (normalize_label_name-IsLabel value)
