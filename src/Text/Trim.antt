-- ===== src/Text/Trim.antt =====
-- Trimming a text twice is trimming it once, and what it leaves of a concatenation.
use ai_memmail.Prelude.{
  ℕ, ◌≡◌, ◌≢◌, refl, ap, ◌∙◌, Bool, false, [], ◌∷◌, ◌++◌, inl, inr, Bool-cases,
}
use ai_memmail.Text.{
  Text, is_whitespace, keep_end, trim_start_matches, trim_end_matches, trim_matches, trim,
}

-- The first character, if there is one, fails the test.
abbrev pub StartsPlain : (ℕ → Bool) → Text → Type 0
StartsPlain p [] = Unit
StartsPlain p (c ∷ s) = p c ≡ false

append-ne-nil : (s t : Text) → t ≢ [] → s ++ t ≢ []
append-ne-nil [] t h = h
append-ne-nil (c ∷ s) t h = λ e. cc

module _ (p : ℕ → Bool) where
  pub trim_start_matches-StartsPlain : (s : Text) → StartsPlain p (trim_start_matches p s)
  unfolding trim_start_matches
  trim_start_matches-StartsPlain [] = tt
  trim_start_matches-StartsPlain (c ∷ s) = elim (Bool-cases (p c)) [
    | inl blank ↦ rw blank (trim_start_matches-StartsPlain s)
    | inr plain ↦ rw plain plain
  ]

  pub trim_start_matches_of_StartsPlain : (s : Text) → StartsPlain p s → trim_start_matches p s ≡ s
  unfolding trim_start_matches
  trim_start_matches_of_StartsPlain [] h = refl
  trim_start_matches_of_StartsPlain (c ∷ s) h = rw h

  keep_end-ne-nil : (c : ℕ) (s : Text) → s ≢ [] → keep_end p c s ≡ c ∷ s
  keep_end-ne-nil c [] h = absurd (h refl)
  keep_end-ne-nil c (d ∷ s) h = refl

  trim_end_matches-keep_end :
      (c : ℕ) (s : Text)
      → trim_end_matches p s ≡ s
      → trim_end_matches p (keep_end p c s) ≡ keep_end p c s
  unfolding trim_end_matches
  trim_end_matches-keep_end c [] h = elim (Bool-cases (p c)) [
    | inl blank ↦ rw blank
    | inr plain ↦ rw plain (rw plain)
  ]
  trim_end_matches-keep_end c (d ∷ s) h = ap (keep_end p c) h

  pub trim_end_matches_idempotent :
      (s : Text) → trim_end_matches p (trim_end_matches p s) ≡ trim_end_matches p s
  unfolding trim_end_matches
  trim_end_matches_idempotent [] = refl
  trim_end_matches_idempotent (c ∷ s) =
      trim_end_matches-keep_end c (trim_end_matches p s) (trim_end_matches_idempotent s)

  keep_end-StartsPlain : (c : ℕ) (s : Text) → p c ≡ false → StartsPlain p (keep_end p c s)
  keep_end-StartsPlain c [] h = rw h h
  keep_end-StartsPlain c (d ∷ s) h = h

  trim_end_matches-StartsPlain : (s : Text) → StartsPlain p s → StartsPlain p (trim_end_matches p s)
  unfolding trim_end_matches
  trim_end_matches-StartsPlain [] h = tt
  trim_end_matches-StartsPlain (c ∷ s) h = keep_end-StartsPlain c (trim_end_matches p s) h

  pub trim_matches-StartsPlain : (s : Text) → StartsPlain p (trim_matches p s)
  unfolding trim_matches
  trim_matches-StartsPlain s =
      trim_end_matches-StartsPlain (trim_start_matches p s) (trim_start_matches-StartsPlain s)

  pub trim_matches_idempotent : (s : Text) → trim_matches p (trim_matches p s) ≡ trim_matches p s
  unfolding trim_matches
  trim_matches_idempotent s =
      ap (trim_end_matches p)
        (trim_start_matches_of_StartsPlain (trim_matches p s) (trim_matches-StartsPlain s))
      ∙ trim_end_matches_idempotent (trim_start_matches p s)

  -- Only the last part of a text loses characters at its end, unless all of it passes the test.
  pub trim_end_matches-append :
      (s t : Text)
      → trim_end_matches p t ≢ []
      → trim_end_matches p (s ++ t) ≡ s ++ trim_end_matches p t
  unfolding trim_end_matches
  trim_end_matches-append [] t h = refl
  trim_end_matches-append (c ∷ s) t h =
      ap (keep_end p c) (trim_end_matches-append s t h)
      ∙ keep_end-ne-nil c (s ++ trim_end_matches p t) (append-ne-nil s (trim_end_matches p t) h)

pub trim_idempotent : (s : Text) → trim (trim s) ≡ trim s
unfolding trim
trim_idempotent = trim_matches_idempotent is_whitespace

-- A trimmed text behind another one: nothing of the two is lost at the end.
pub trim_append :
    (s t : Text)
    → StartsPlain is_whitespace (s ++ trim t)
    → trim t ≢ []
    → trim (s ++ trim t) ≡ s ++ trim t
unfolding trim trim_matches
trim_append s t starts h =
    let last = trim_end_matches_idempotent is_whitespace (trim_start_matches is_whitespace t) in
    ap (trim_end_matches is_whitespace)
      (trim_start_matches_of_StartsPlain is_whitespace (s ++ trim t) starts)
    ∙ (trim_end_matches-append is_whitespace s (trim t) (λ e. h (rw last at e))
        ∙ ap (λ (u : Text). s ++ u) last)
