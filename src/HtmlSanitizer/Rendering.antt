-- ===== src/HtmlSanitizer/Rendering.antt =====
-- The two functions of the source that turn plain text into HTML.
use ai_memmail.Prelude.{
  arith, ℕ, Bool, true, false, ◌&&◌, ◌||◌, [], ◌∷◌, ◌++◌, ◌≡◌, refl, ap, ◌∙◌, if◌then◌else◌,
  Bool-cases, inl, inr, ◌==◌, ℕ_eq,
}
use ai_memmail.Text.{Text, text, replace, replace_text, replace_from, starts_with}
use ai_memmail.Mail.Signature.Html.{
  escape_char, peeks_newline, render_char, plain_text_to_html as walked,
}
use ai_memmail.HtmlSanitizer.{escape_html, plain_text_to_html}

is : {a b : ℕ} → (a == b) ≡ true → a ≡ b
is {a} {b} e = (ℕ_eq.beq_iff a b).0 e

-- The passes of `escape_html` are one pass.
escape_html_lem : (c : ℕ) (s : Text) → escape_html (c ∷ s) ≡ escape_char c ++ escape_html s
unfolding escape_html replace escape_char text
escape_html_lem c s = elim (Bool-cases (c == b'&')) [
  | inl e ↦ rw (is e) refl
  | inr e1 ↦ elim (Bool-cases (c == b'<')) [
    | inl e ↦ rw (is e) refl
    | inr e2 ↦ elim (Bool-cases (c == b'>')) [
      | inl e ↦ rw (is e) refl
      | inr e3 ↦ elim (Bool-cases (c == b'"')) [
        | inl e ↦ rw (is e) refl
        | inr e4 ↦ elim (Bool-cases (c == b'\'')) [
          | inl e ↦ rw (is e) refl
          | inr e5 ↦ rw (e1, e2, e3, e4, e5) refl
        ]
      ]
    ]
  ]
]

replace-miss :
    (p : ℕ → Bool) (r : Text) (c : ℕ) (s : Text)
    → p c ≡ false
    → replace p r (c ∷ s) ≡ c ∷ replace p r s
unfolding replace
replace-miss p r c s h = rw h refl

replace_from-miss :
    (p r : Text) (c : ℕ) (s : Text)
    → starts_with (c ∷ s) p ≡ false
    → replace_from p r 0 (c ∷ s) ≡ c ∷ replace_from p r 0 s
unfolding replace_from
replace_from-miss p r c s h = rw (h, replace_from) refl

abbrev is_break : ℕ → Bool
is_break c = c == b'\r' || c == b'\n'

abbrev with_feeds : Text → Text
with_feeds s = replace_text s (text "\r\n") (text "\n")

with_feeds-plain : (c : ℕ) (s : Text) → (c == b'\r') ≡ false → with_feeds (c ∷ s) ≡ c ∷ with_feeds s
unfolding starts_with replace_text text
with_feeds-plain c s e =
    replace_from-miss (text "\r\n") (text "\n") c s (ap (λ b. b && starts_with s (text "\n")) e)

with_feeds-return :
    (c : ℕ) (s : Text)
    → (c == b'\n') ≡ false
    → with_feeds (b'\r' ∷ c ∷ s) ≡ b'\r' ∷ with_feeds (c ∷ s)
unfolding starts_with replace_text text
with_feeds-return c s e =
    replace_from-miss (text "\r\n") (text "\n") b'\r' (c ∷ s) (ap (λ b. b && starts_with s []) e)

-- The line breaks of an escaped text.
abbrev broken : Text → Text
broken s = replace is_break (text "<br>") (with_feeds s)

broken-plain :
    (c : ℕ) (s : Text) → (c == b'\r') ≡ false → (c == b'\n') ≡ false → broken (c ∷ s) ≡ c ∷ broken s
broken-plain c s e1 e2 =
    ap (replace is_break (text "<br>")) (with_feeds-plain c s e1)
    ∙ replace-miss is_break (text "<br>") c (with_feeds s) (rw (e1, e2) refl)

broken-line_feed : (s : Text) → broken (b'\n' ∷ s) ≡ text "<br>" ++ broken s
unfolding replace replace_text replace_from starts_with text
broken-line_feed s = refl

broken-return :
    (s : Text) → broken (b'\r' ∷ s) ≡ (if peeks_newline s then [] else text "<br>") ++ broken s
unfolding replace replace_text replace_from starts_with text
broken-return [] = refl
broken-return (c ∷ s) = elim (Bool-cases (c == b'\n')) [
  | inl e ↦ rw (is e) refl
  | inr e ↦ rw e (ap (replace is_break (text "<br>")) (with_feeds-return c s e))
]

broken-escape_char :
    (c : ℕ) (s : Text)
    → (c == b'\r') ≡ false
    → (c == b'\n') ≡ false
    → broken (escape_char c ++ s) ≡ escape_char c ++ broken s
unfolding replace replace_text replace_from starts_with text escape_char
broken-escape_char c s p1 p2 = elim (Bool-cases (c == b'&')) [
  | inl e ↦ rw (is e) refl
  | inr e1 ↦ elim (Bool-cases (c == b'<')) [
    | inl e ↦ rw (is e) refl
    | inr e2 ↦ elim (Bool-cases (c == b'>')) [
      | inl e ↦ rw (is e) refl
      | inr e3 ↦ elim (Bool-cases (c == b'"')) [
        | inl e ↦ rw (is e) refl
        | inr e4 ↦ elim (Bool-cases (c == b'\'')) [
          | inl e ↦ rw (is e) refl
          | inr e5 ↦ rw (e1, e2, e3, e4, e5) (broken-plain c s p1 p2)
        ]
      ]
    ]
  ]
]

peeks_newline-escape_char : (c : ℕ) (s : Text) → peeks_newline (escape_char c ++ s) ≡ (c == b'\n')
unfolding escape_char text
peeks_newline-escape_char c s = ground arith

peeks_newline-escape_html : (s : Text) → peeks_newline (escape_html s) ≡ peeks_newline s
unfolding escape_html replace
peeks_newline-escape_html [] = refl
peeks_newline-escape_html (c ∷ s) =
    ap peeks_newline (escape_html_lem c s) ∙ peeks_newline-escape_char c (escape_html s)

return_lem :
    (s : Text)
    → broken (b'\r' ∷ escape_html s)
      ≡ (if peeks_newline s then [] else text "<br>") ++ broken (escape_html s)
return_lem s =
    broken-return (escape_html s)
    ∙ ap (λ b. (if b then [] else text "<br>") ++ broken (escape_html s))
        (peeks_newline-escape_html s)

broken-render_char :
    (c : ℕ) (s : Text)
    → broken (escape_char c ++ escape_html s) ≡ render_char c s ++ broken (escape_html s)
unfolding render_char escape_char
broken-render_char c s = elim (Bool-cases (c == b'\n')) [
  | inl e ↦ rw (is e) (broken-line_feed (escape_html s))
  | inr e1 ↦ elim (Bool-cases (c == b'\r')) [
    | inl e ↦ rw (is e) (return_lem s)
    | inr e2 ↦ rw (e1, e2) (broken-escape_char c (escape_html s) e2 e1)
  ]
]

-- The function of html_sanitizer.rs, which makes one pass per character that it replaces, and that
-- of mail/signature.rs, which walks the text once and looks one character ahead, give every text
-- the same HTML.
pub plain_text_to_html_agree : (s : Text) → plain_text_to_html s ≡ walked s
unfolding plain_text_to_html walked escape_html replace replace_text replace_from
plain_text_to_html_agree [] = refl
plain_text_to_html_agree (c ∷ s) =
    ap broken (escape_html_lem c s)
    ∙ (broken-render_char c s ∙ ap (λ t. render_char c s ++ t) (plain_text_to_html_agree s))
