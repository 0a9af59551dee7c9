-- ===== src/Text.antt =====
-- Text that the program walks, as a list of Unicode scalar values, with the functions of Rust's
-- `str` and `char` that crates/server/src calls on it.
pub mod Trim
use Prim.Native.Char.{code}
use Prim.Native.Nat.{◌/◌, ◌%◌}
use ai_memmail.Prelude.{
  ℕ, zero, suc, ◌+◌, ◌-◌, ◌<◌, ◌≡◌, refl, String, Bool, true, false, not, ◌&&◌, ◌||◌, Option, none,
  some, List, [], ◌∷◌, ◌++◌, map, ltb, leb, if◌then◌else◌, is_empty, Eq, ◌==◌, ℕ_eq, list_beq,
  list_beq_iff, length,
}

abbrev pub Text : Type 0
Text = List ℕ

instance abbrev pub Text_eq : Eq Text
Text_eq = record { beq = list_beq; beq_iff = list_beq_iff }

-- A literal of the source. It stays shut, so that proofs do not walk it.
unfoldable pub text : String → Text
text String.[] = []
text (String.◌∷◌ c s) = code c ∷ text s

-- char::is_whitespace, the White_Space property of Unicode.
unfoldable pub is_whitespace : ℕ → Bool
is_whitespace c =
    (leb 0x9 c && leb c 0xd)
    || c == 0x20
    || c == 0x85
    || c == 0xa0
    || c == 0x1680
    || (leb 0x2000 c && leb c 0x200a)
    || c == 0x2028
    || c == 0x2029
    || c == 0x202f
    || c == 0x205f
    || c == 0x3000

-- char::to_ascii_lowercase and str::to_ascii_lowercase.
unfoldable pub lower_ascii_char : ℕ → ℕ
lower_ascii_char c = if leb b'A' c && leb c b'Z' then c + 32 else c

unfoldable pub to_ascii_lowercase : Text → Text
unfolding lower_ascii_char
to_ascii_lowercase = map lower_ascii_char

-- str::eq_ignore_ascii_case.
unfoldable pub eq_ignore_ascii_case : Text → Text → Bool
unfolding to_ascii_lowercase list_beq
eq_ignore_ascii_case s t = to_ascii_lowercase s == to_ascii_lowercase t

-- str::trim_start_matches and str::trim_end_matches, for a test on characters.
unfoldable pub trim_start_matches : (ℕ → Bool) → Text → Text
trim_start_matches p [] = []
trim_start_matches p (c ∷ s) = if p c then trim_start_matches p s else c ∷ s

-- One character in front of what is left of the text behind it.
abbrev pub keep_end : (ℕ → Bool) → ℕ → Text → Text
keep_end p c [] = if p c then [] else c ∷ []
keep_end p c (d ∷ s) = c ∷ d ∷ s

unfoldable pub trim_end_matches : (ℕ → Bool) → Text → Text
trim_end_matches p [] = []
trim_end_matches p (c ∷ s) = keep_end p c (trim_end_matches p s)

unfoldable pub trim_matches : (ℕ → Bool) → Text → Text
unfolding trim_start_matches trim_end_matches
trim_matches p s = trim_end_matches p (trim_start_matches p s)

-- str::trim, str::trim_end and str::trim_start.
unfoldable pub trim : Text → Text
unfolding trim_matches is_whitespace
trim = trim_matches is_whitespace

unfoldable pub trim_end : Text → Text
unfolding trim_end_matches is_whitespace
trim_end = trim_end_matches is_whitespace

unfoldable pub trim_start : Text → Text
unfolding trim_start_matches is_whitespace
trim_start = trim_start_matches is_whitespace

-- str::starts_with and str::contains, for a pattern that is a text.
unfoldable pub starts_with : Text → Text → Bool
starts_with s [] = true
starts_with [] (p ∷ ps) = false
starts_with (c ∷ s) (p ∷ ps) = c == p && starts_with s ps

unfoldable pub contains_text : Text → Text → Bool
unfolding starts_with
contains_text [] p = is_empty p
contains_text (c ∷ s) p = starts_with (c ∷ s) p || contains_text s p

-- What `str::contains` says of one character.
unfoldable pub contains_char : Text → ℕ → Bool
contains_char [] a = false
contains_char (c ∷ s) a = c == a || contains_char s a

-- str::split_once on one character: the text before its first occurrence, and the text behind it.
abbrev pub put_front : ℕ → Option (Text × Text) → Option (Text × Text)
put_front c none = none
put_front c (some (before, after)) = some (c ∷ before, after)

unfoldable pub split_once : Text → ℕ → Option (Text × Text)
split_once [] a = none
split_once (c ∷ s) a =
    let later = put_front c (split_once s a) in if c == a then some ([], s) else later

-- str::rsplit_once on one character: the split at its last occurrence.
unfoldable pub rsplit_once : Text → ℕ → Option (Text × Text)
rsplit_once [] a = none
rsplit_once (c ∷ s) a = elim (rsplit_once s a) [
  | none ↦ if c == a then some ([], s) else none
  | some (before, after) ↦ some (c ∷ before, after)
]

-- str::split for a test on characters: the parts between the characters that pass it.
abbrev pub prepend : ℕ → List Text → List Text
prepend c [] = (c ∷ []) ∷ []
prepend c (part ∷ parts) = (c ∷ part) ∷ parts

unfoldable pub split : (ℕ → Bool) → Text → List Text
split p [] = [] ∷ []
split p (c ∷ s) = let parts = split p s in if p c then [] ∷ parts else prepend c parts

-- str::split and str::replace for a pattern that is a text and is not empty: `skip` counts the
-- characters of an occurrence that are still to be passed over.
split_from : Text → ℕ → Text → List Text
unfolding starts_with
split_from p skip [] = [] ∷ []
split_from p (suc skip) (c ∷ s) = split_from p skip s
split_from p zero (c ∷ s) = elim (starts_with (c ∷ s) p) [
  | true ↦ [] ∷ split_from p (length p - 1) s
  | false ↦ prepend c (split_from p 0 s)
]

unfoldable pub split_text : Text → Text → List Text
unfolding split_from
split_text s p = split_from p 0 s

unfoldable pub replace_from : Text → Text → ℕ → Text → Text
unfolding starts_with
replace_from p r skip [] = []
replace_from p r (suc skip) (c ∷ s) = replace_from p r skip s
replace_from p r zero (c ∷ s) = elim (starts_with (c ∷ s) p) [
  | true ↦ r ++ replace_from p r (length p - 1) s
  | false ↦ c ∷ replace_from p r 0 s
]

unfoldable pub replace_text : Text → Text → Text → Text
unfolding replace_from
replace_text s p r = replace_from p r 0 s

-- str::replace for a test on characters.
unfoldable pub replace : (ℕ → Bool) → Text → Text → Text
replace p r [] = []
replace p r (c ∷ s) = if p c then r ++ replace p r s else c ∷ replace p r s

-- str::lines: what stands between line feeds, each without a carriage return at its end; a line
-- feed at the end of the text begins no further line.
abbrev pub without_return : Text → Text
without_return [] = []
without_return (c ∷ []) = if c == b'\r' then [] else c ∷ []
without_return (c ∷ d ∷ s) = c ∷ without_return (d ∷ s)

abbrev pub drop_last_empty : List Text → List Text
drop_last_empty [] = []
drop_last_empty (s ∷ []) = if is_empty s then [] else s ∷ []
drop_last_empty (s ∷ t ∷ rest) = without_return s ∷ drop_last_empty (t ∷ rest)

unfoldable pub lines : Text → List Text
unfolding split
lines s = drop_last_empty (split (λ c. c == b'\n') s)

-- [Text]::join.
unfoldable pub join : Text → List Text → Text
join sep [] = []
join sep (s ∷ []) = s
join sep (s ∷ t ∷ rest) = s ++ (sep ++ join sep (t ∷ rest))

-- The bytes of a text in UTF-8, which `str::len` counts.
abbrev pub utf8_width : ℕ → ℕ
utf8_width c = if ltb c 0x80 then 1 else if ltb c 0x800 then 2 else if ltb c 0x10000 then 3 else 4

unfoldable pub byte_len : Text → ℕ
byte_len [] = 0
byte_len (c ∷ s) = utf8_width c + byte_len s

-- A number in decimal, as `format!("{}")` prints it. A number has fewer digits than `n + 1`.
decimal_from : ℕ → ℕ → Text → Text
decimal_from zero n acc = acc
decimal_from (suc fuel) n acc =
    let digit = b'0' + n % 10 in
    elim (ltb n 10) [ true ↦ digit ∷ acc | false ↦ decimal_from fuel (n / 10) (digit ∷ acc) ]

unfoldable pub decimal : ℕ → Text
unfolding decimal_from
decimal n = decimal_from (suc n) n []

decimal_example : decimal 40960 ≡ text "40960"
unfolding decimal text
decimal_example = refl

trim_example : trim (text "\t a b\n ") ≡ text "a b"
unfolding trim text
trim_example = refl

split_example : rsplit_once (text "a@b@c") b'@' ≡ some (text "a@b", text "c")
unfolding rsplit_once text
split_example = refl

replace_example : replace_text (text "a--b---c") (text "--") (text "+") ≡ text "a+b+-c"
unfolding replace_text replace_from text
replace_example = refl

lines_example : lines (text "a\r\n\nb\n") ≡ text "a" ∷ [] ∷ text "b" ∷ []
unfolding lines text
lines_example = refl
