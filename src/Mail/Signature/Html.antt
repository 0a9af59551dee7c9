-- ===== src/Mail/Signature/Html.antt =====
-- Plain text as HTML, written twice in the source: `plain_text_to_html` of mail/signature.rs walks
-- the characters once; the function of that name in html_sanitizer.rs makes one pass per character.
pub mod Escaped
use ai_memmail.Prelude.{ℕ, Bool, false, [], ◌∷◌, ◌++◌, if◌then◌else◌, ◌==◌, ℕ_eq}
use ai_memmail.Text.{Text, text}

-- The entity of a character, or the character.
unfoldable pub escape_char : ℕ → Text
escape_char c =
    if c == b'&'
    then text "&amp;"
    else if c == b'<'
    then text "&lt;"
    else if c == b'>'
    then text "&gt;"
    else if c == b'"'
    then text "&quot;"
    else if c == b'\''
    then text "&#39;"
    else c ∷ []

-- `chars.peek() == Some(&'\n')`
abbrev pub peeks_newline : Text → Bool
peeks_newline [] = false
peeks_newline (c ∷ s) = c == b'\n'

unfoldable pub render_char : ℕ → Text → Text
render_char c rest =
    if c == b'\n'
    then text "<br>"
    else if c == b'\r'
    then (if peeks_newline rest then [] else text "<br>")
    else escape_char c

unfoldable pub plain_text_to_html : Text → Text
unfolding render_char escape_char
plain_text_to_html [] = []
plain_text_to_html (c ∷ s) = render_char c s ++ plain_text_to_html s
