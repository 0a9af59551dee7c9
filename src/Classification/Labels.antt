-- ===== src/Classification/Labels.antt =====
-- The names that `normalize_label_name` gives.
use ai_memmail.Prelude.{
  ℕ, ◌≡◌, refl, ◌∙◌, Bool, true, false, not, ◌&&◌, ◌||◌, [], ◌∷◌, leb, if◌then◌else◌, is_empty,
  ◌==◌, ℕ_eq, All, All-append, arith, inl, inr, Bool-cases,
}
use ai_memmail.Text.{Text, text, keep_end, trim, trim_matches, trim_start_matches, trim_end_matches}
use ai_memmail.Text.Trim.{trim_end_matches_idempotent}
use ai_memmail.Classification.{
  is_ascii_alphanumeric, to_lowercase, lowered, label_loop, is_underscore, normalize_label_name,
}

-- A lower-case letter or a digit.
unfoldable pub is_label_char : ℕ → Bool
is_label_char c = (leb b'0' c && leb c b'9') || (leb b'a' c && leb c b'z')

-- Lower-case letters, digits and single underscores; none at the front after a separator.
unfoldable pub is_label_from : Bool → Text → Bool
unfolding is_label_char
is_label_from previous [] = true
is_label_from previous (c ∷ s) =
    let next = is_label_from (not (is_label_char c)) s in
    if is_label_char c then next else (c == b'_' && (not previous && next))

-- A name of letters, digits and single underscores between them, which is not empty.
pub record IsLabel (t : Text) : Type 0 where
  pub some_char : is_empty t ≡ false
  pub chars : is_label_from true t ≡ true
  pub last : trim_end_matches is_underscore t ≡ t

abbrev IsLowered : ℕ → Type 0
IsLowered c = (leb b'A' c && leb c b'Z') ≡ false

to_lowercase-IsLowered : (c : ℕ) → All IsLowered (to_lowercase c)
unfolding to_lowercase
to_lowercase-IsLowered c = ground arith

lowered-IsLowered : (s : Text) → All IsLowered (lowered s)
unfolding lowered
lowered-IsLowered [] = tt
lowered-IsLowered (c ∷ s) =
    All-append IsLowered (to_lowercase c) (lowered s) (to_lowercase-IsLowered c)
      (lowered-IsLowered s)

label_char-eq : (c : ℕ) → IsLowered c → is_label_char c ≡ is_ascii_alphanumeric c
unfolding is_label_char is_ascii_alphanumeric
label_char-eq c h = ground arith

label_loop-is_label_from :
    (previous : Bool) (s : Text)
    → All IsLowered s
    → is_label_from previous (label_loop previous s) ≡ true
unfolding is_label_from label_loop
label_loop-is_label_from previous [] h = refl
label_loop-is_label_from previous (c ∷ s) (h, hs) = elim (Bool-cases (is_ascii_alphanumeric c)) [
  | inl alnum ↦
      let ih = label_loop-is_label_from false s hs in rw alnum (rw (label_char-eq c h ∙ alnum) ih)
  | inr other ↦
      let ih = label_loop-is_label_from true s hs in
      elim (Bool-cases previous) [
        | inl again ↦ rw (other, again) ih
        | inr first ↦ rw (other, first) ih
      ]
]

-- Reading on, what may follow a separator may follow anything.
is_label_from_weaken :
    (previous : Bool) (s : Text) → is_label_from true s ≡ true → is_label_from previous s ≡ true
unfolding is_label_from
is_label_from_weaken previous [] h = refl
is_label_from_weaken previous (c ∷ s) h = ground arith

trim_start_matches-is_label_from :
    (previous : Bool) (s : Text)
    → is_label_from previous s ≡ true
    → is_label_from true (trim_start_matches is_underscore s) ≡ true
unfolding is_label_from trim_start_matches
trim_start_matches-is_label_from previous [] h = refl
trim_start_matches-is_label_from previous (c ∷ s) h = elim (Bool-cases (is_underscore c)) [
  | inl separator ↦
      rw separator (trim_start_matches-is_label_from (not (is_label_char c)) s (ground arith))
  | inr plain ↦ rw plain (ground arith)
]

keep_end-is_label_from :
    (previous : Bool) (c : ℕ) (s : Text)
    → is_label_from previous (c ∷ s) ≡ true
    → is_label_from previous (keep_end is_underscore c s) ≡ true
unfolding is_label_from
keep_end-is_label_from previous c [] h = ground arith
keep_end-is_label_from previous c (d ∷ s) h = h

-- Dropping separators at the end keeps the rest a name.
trim_end_matches-is_label_from :
    (previous : Bool) (s : Text)
    → is_label_from previous s ≡ true
    → is_label_from previous (trim_end_matches is_underscore s) ≡ true
unfolding is_label_from trim_end_matches
trim_end_matches-is_label_from previous [] h = refl
trim_end_matches-is_label_from previous (c ∷ s) h =
    keep_end-is_label_from previous c (trim_end_matches is_underscore s)
      (ground (arith, trim_end_matches-is_label_from (not (is_label_char c)) s))

trim_matches-is_label_from :
    (s : Text)
    → is_label_from false s ≡ true
    → is_label_from true (trim_matches is_underscore s) ≡ true
unfolding trim_matches
trim_matches-is_label_from s h =
    trim_end_matches-is_label_from true (trim_start_matches is_underscore s)
      (trim_start_matches-is_label_from false s h)

trim_matches-end :
    (s : Text)
    → trim_end_matches is_underscore (trim_matches is_underscore s) ≡ trim_matches is_underscore s
unfolding trim_matches
trim_matches-end s = trim_end_matches_idempotent is_underscore (trim_start_matches is_underscore s)

other-IsLabel : IsLabel (text "other")
unfolding text is_label_from trim_end_matches
other-IsLabel = record { some_char = refl; chars = refl; last = refl }

-- Whatever the text, its label name is not empty, holds lower-case letters, digits and underscores
-- only, begins and ends with no underscore and has no two underscores in a row.
pub normalize_label_name-IsLabel : (value : Text) → IsLabel (normalize_label_name value)
unfolding normalize_label_name
normalize_label_name-IsLabel value =
    let raw = label_loop false (lowered (trim value)) in
    let from : is_label_from false raw ≡ true =
      label_loop-is_label_from false (lowered (trim value)) (lowered-IsLowered (trim value)) in
    let t = trim_matches is_underscore raw in
    elim (Bool-cases (is_empty t)) [
      | inl none_left ↦ rw none_left other-IsLabel
      | inr some_left ↦ rw some_left (record {
        some_char = some_left;
        chars = trim_matches-is_label_from raw from;
        last = trim_matches-end raw;
      })
    ]
