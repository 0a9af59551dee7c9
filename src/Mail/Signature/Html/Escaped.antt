-- ===== src/Mail/Signature/Html/Escaped.antt =====
-- What `plain_text_to_html` lets through.
use ai_memmail.Prelude.{ℕ, Bool, false, ◌||◌, [], ◌∷◌, ◌++◌, ◌≡◌, Bool-cases, inl, inr, ◌==◌, ℕ_eq}
use ai_memmail.Text.{Text, text}
use ai_memmail.Mail.Signature.Html.{escape_char, peeks_newline, render_char, plain_text_to_html}

-- The characters that have a meaning in HTML.
abbrev pub is_markup : ℕ → Bool
is_markup c = c == b'&' || (c == b'<' || (c == b'>' || (c == b'"' || c == b'\'')))

-- HTML of line breaks, entities and characters without a meaning.
pub data IsEscaped : Text → Type 0 where
  finished : IsEscaped []
  line_break : {t : Text} → IsEscaped t → IsEscaped (text "<br>" ++ t)
  amp : {t : Text} → IsEscaped t → IsEscaped (text "&amp;" ++ t)
  lt : {t : Text} → IsEscaped t → IsEscaped (text "&lt;" ++ t)
  gt : {t : Text} → IsEscaped t → IsEscaped (text "&gt;" ++ t)
  quot : {t : Text} → IsEscaped t → IsEscaped (text "&quot;" ++ t)
  apos : {t : Text} → IsEscaped t → IsEscaped (text "&#39;" ++ t)
  plain : {t : Text} (c : ℕ) → is_markup c ≡ false → IsEscaped t → IsEscaped (c ∷ t)

escape_char-IsEscaped : (c : ℕ) (t : Text) → IsEscaped t → IsEscaped (escape_char c ++ t)
unfolding escape_char
escape_char-IsEscaped c t h = elim (Bool-cases (c == b'&')) [
  | inl e ↦ rw e (amp h)
  | inr e1 ↦ elim (Bool-cases (c == b'<')) [
    | inl e ↦ rw (e1, e) (lt h)
    | inr e2 ↦ elim (Bool-cases (c == b'>')) [
      | inl e ↦ rw (e1, e2, e) (gt h)
      | inr e3 ↦ elim (Bool-cases (c == b'"')) [
        | inl e ↦ rw (e1, e2, e3, e) (quot h)
        | inr e4 ↦ elim (Bool-cases (c == b'\'')) [
          | inl e ↦ rw (e1, e2, e3, e4, e) (apos h)
          | inr e5 ↦ rw (e1, e2, e3, e4, e5) (plain c (rw (e1, e2, e3, e4) e5) h)
        ]
      ]
    ]
  ]
]

render_char-IsEscaped : (c : ℕ) (rest t : Text) → IsEscaped t → IsEscaped (render_char c rest ++ t)
unfolding render_char
render_char-IsEscaped c rest t h = elim (Bool-cases (c == b'\n')) [
  | inl e ↦ rw e (line_break h)
  | inr e1 ↦ elim (Bool-cases (c == b'\r')) [
    | inl e ↦ elim (Bool-cases (peeks_newline rest)) [
      | inl f ↦ rw (e1, e, f) h
      | inr f ↦ rw (e1, e, f) (line_break h)
    ]
    | inr e2 ↦ rw (e1, e2) (escape_char-IsEscaped c t h)
  ]
]

-- Whatever the text, its HTML has no markup but line breaks and the entities of the characters that
-- have a meaning.
pub plain_text_to_html-IsEscaped : (s : Text) → IsEscaped (plain_text_to_html s)
unfolding plain_text_to_html
plain_text_to_html-IsEscaped [] = finished
plain_text_to_html-IsEscaped (c ∷ s) =
    render_char-IsEscaped c s (plain_text_to_html s) (plain_text_to_html-IsEscaped s)
