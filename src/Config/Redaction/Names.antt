-- ===== src/Config/Redaction/Names.antt =====
-- Names of variables that are secret, apart from how `is_sensitive_env_name` finds them.
use mathlib.Core.List.{Memᴰ}
use mathlib.Core.List.Memᴰ.{head, tail}
use ai_memmail.Prelude.{
  ℕ, ℕ_eq, Bool, true, false, ◌||◌, List, [], ◌∷◌, ◌++◌, any, All, ◌≡◌, ◌⊎◌, inl, inr, refl, ap,
  ◌∙◌, subst, sym, list_beq, arith, Bool-cases,
}
use ai_memmail.Text.{Text, Text_eq, text, to_ascii_lowercase, starts_with, contains_text, split}
use ai_memmail.Safety.Subject.{starts_with-append}
use ai_memmail.Config.Redaction.{
  is_separator, sensitive_terms, is_sensitive_part, is_sensitive_env_name,
}

-- Words that make a name secret wherever they stand, and those that do so as a part of it.
abbrev pub secret_words : List Text
secret_words =
    text "key"
    ∷ text "secret"
    ∷ text "token"
    ∷ text "password"
    ∷ text "passwd"
    ∷ text "credential"
    ∷ text "authorization"
    ∷ []

abbrev pub secret_parts : List Text
secret_parts = text "pass" ∷ text "pwd" ∷ text "auth" ∷ []

-- The end of a part: the text ends, or a character follows that is neither a letter nor a digit.
abbrev pub EndsPart : Text → Type 0
EndsPart behind =
    (behind ≡ []) ⊎ ((c : ℕ) × (rest : Text) × (behind ≡ c ∷ rest) × (is_separator c ≡ true))

-- A text with one of the words in it, or with one of the short words between its ends and
-- characters that are neither letters nor digits.
pub data HasSecretWord (s : Text) : Type 0 where
  has_word :
      (before word behind : Text)
      → Memᴰ word secret_words
      → s ≡ before ++ (word ++ behind)
      → HasSecretWord s
  has_first_part :
      (word behind : Text)
      → Memᴰ word secret_parts
      → EndsPart behind
      → s ≡ word ++ behind
      → HasSecretWord s
  has_later_part :
      (before : Text) (c : ℕ) (word behind : Text)
      → is_separator c ≡ true
      → Memᴰ word secret_parts
      → EndsPart behind
      → s ≡ before ++ c ∷ (word ++ behind)
      → HasSecretWord s

-- A name in which, in lower case, there is such a word.
abbrev pub IsSecretName : Text → Type 0
IsSecretName name = HasSecretWord (to_ascii_lowercase name)

or_right : {b : Bool} (a : Bool) → b ≡ true → (a || b) ≡ true
or_right true h = refl
or_right false h = h

starts_with-contains_text : (s p : Text) → starts_with s p ≡ true → contains_text s p ≡ true
unfolding contains_text starts_with
starts_with-contains_text [] [] h = refl
starts_with-contains_text [] (a ∷ p) h = h
starts_with-contains_text (c ∷ s) p h = rw h refl

contains_text-append :
    (before word behind : Text) → contains_text (before ++ (word ++ behind)) word ≡ true
unfolding contains_text
contains_text-append [] word behind =
    starts_with-contains_text (word ++ behind) word (starts_with-append word behind)
contains_text-append (c ∷ before) word behind =
    ground (arith, contains_text-append before word behind)

any-Mem :
    {A : Type 0} (p : A → Bool) (a : A) (xs : List A) → Memᴰ a xs → p a ≡ true → any p xs ≡ true
any-Mem p a [] m h = elim m [ ]
any-Mem p a (x ∷ xs) (head e) h = rw (← ap p e) (rw h refl)
any-Mem p a (x ∷ xs) (tail m) h = ground (arith, any-Mem p a xs m h)

any-terms : (p : Text → Bool) → any p secret_words ≡ true → any p sensitive_terms ≡ true
any-terms p h = ground arith

abbrev IsInPart : Text → Type 0
IsInPart word = All (λ c. is_separator c ≡ false) word

abbrev IsShort : Text → Type 0
IsShort word = IsInPart word × (is_sensitive_part word ≡ true)

secret_parts-IsShort : All IsShort secret_parts
unfolding text list_beq
secret_parts-IsShort = (
  ((refl, (refl, (refl, (refl, tt)))), refl),
  (((refl, (refl, (refl, tt))), refl), (((refl, (refl, (refl, (refl, tt)))), refl), tt)),
)

All-Mem : {A : Type 0} (P : A → Type 0) (a : A) (xs : List A) → All P xs → Memᴰ a xs → P a
All-Mem P a [] h m = elim m [ ]
All-Mem P a (x ∷ xs) (h, hs) (head e) = subst P (sym e) h
All-Mem P a (x ∷ xs) (h, hs) (tail m) = All-Mem P a xs hs m

split-first :
    (word behind : Text)
    → IsInPart word
    → EndsPart behind
    → (rest : List Text) × (split is_separator (word ++ behind) ≡ word ∷ rest)
unfolding split
split-first [] behind h (inl e) = rw e ([], refl)
split-first [] behind h (inr (c, rest, e, k)) = rw (e, k) (split is_separator rest, refl)
split-first (d ∷ word) behind (h, hs) e =
    let (rest, k) = split-first word behind hs e in (rest, rw (h, k) refl)

split-later :
    (q : Text → Bool) (before : Text) (c : ℕ) (s : Text)
    → is_separator c ≡ true
    → any q (split is_separator s) ≡ true
    → (first : Text) × (rest : List Text) × (split is_separator (before ++ c ∷ s) ≡ first ∷ rest)
      × (any q rest ≡ true)
unfolding split
split-later q [] c s k h = ([], split is_separator s, rw k refl, h)
split-later q (d ∷ before) c s k h =
    let (first, rest, e, m) = split-later q before c s k h in
    elim (Bool-cases (is_separator d)) [
      | inl t ↦ ([], first ∷ rest, rw (t, e) refl, ground (arith, m))
      | inr f ↦ (d ∷ first, rest, rw (f, e) refl, m)
    ]

any-here :
    (q : Text → Bool) {parts : List Text} (word : Text) (rest : List Text)
    → parts ≡ word ∷ rest
    → q word ≡ true
    → any q parts ≡ true
any-here q word rest e h = rw e (rw h refl)

any-there :
    (q : Text → Bool) {parts : List Text} (word : Text) (rest : List Text)
    → parts ≡ word ∷ rest
    → any q rest ≡ true
    → any q parts ≡ true
any-there q word rest e h = rw e (or_right (q word) h)

-- The code finds each secret name.
secret_word-found :
    (lower : Text)
    → HasSecretWord lower
    → (any (contains_text lower) sensitive_terms
        || any is_sensitive_part (split is_separator lower))
      ≡ true
secret_word-found lower (has_word before word behind m e) =
    rw
      (any-terms (contains_text lower) (
        any-Mem (contains_text lower) word secret_words m
          (rw e (contains_text-append before word behind))))
      refl
secret_word-found lower (has_first_part word behind m ends e) =
    let (in_part, short) = All-Mem IsShort word secret_parts secret_parts-IsShort m in
    let (parts, k) = split-first word behind in_part ends in
    or_right _ (any-here is_sensitive_part word parts (ap (split is_separator) e ∙ k) short)
secret_word-found lower (has_later_part before c word behind separated m ends e) =
    let (in_part, short) = All-Mem IsShort word secret_parts secret_parts-IsShort m in
    let (parts, k) = split-first word behind in_part ends in
    let (first, rest, l, found) =
      split-later is_sensitive_part before c (word ++ behind) separated
        (any-here is_sensitive_part word parts k short) in
    or_right _ (any-there is_sensitive_part first rest (ap (split is_separator) e ∙ l) found)

pub is_sensitive_env_name-IsSecretName :
    (name : Text) → IsSecretName name → is_sensitive_env_name name ≡ true
unfolding is_sensitive_env_name
is_sensitive_env_name-IsSecretName name h = secret_word-found (to_ascii_lowercase name) h
