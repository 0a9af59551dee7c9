-- ===== src/HtmlSanitizer.antt =====
-- crates/server/src/html_sanitizer.rs. What ammonia leaves of some HTML under the builder of
-- `email_html_builder`, and what html2text reads off it, are parameters.
pub mod Rendering
use ai_memmail.Prelude.{
  refl, true, ◌||◌, take, ◌≡◌, list_beq, ℕ, Bool, false, not, ◌&&◌, Option, none, some, List, [],
  ◌∷◌, map, any, is_empty, Eq, ◌==◌, ℕ_eq,
}
use ai_memmail.Text.{
  Text, Text_eq, text, trim, trim_end, trim_start, lines, join, split, split_text, replace,
  replace_text, eq_ignore_ascii_case,
}

pub record Sanitizer : Type 0 where
  pub clean : Text → Text
  pub from_read : Text → Text

pub record SanitizedHtml : Type 0 where
  pub html : Text
  pub text : Text
  pub changed : Bool
  pub visually_empty : Bool

-- The first eight bytes are those of `https://` exactly when the first eight characters are.
unfoldable pub is_https_url : Text → Bool
unfolding trim_start eq_ignore_ascii_case
is_https_url value = eq_ignore_ascii_case (take 8 (trim_start value)) (text "https://")

-- Iterator::next and Iterator::nth(1) of the parts of a text.
abbrev pub first_part : List Text → Text
first_part [] = []
first_part (part ∷ parts) = part

abbrev pub second_part : List Text → Option Text
second_part (part ∷ value ∷ parts) = some value
second_part _ = none

abbrev pub behind_first : List Text → List Text
behind_first [] = []
behind_first (part ∷ parts) = parts

abbrev pub is_some_and : (Text → Bool) → Option Text → Bool
is_some_and p none = false
is_some_and p (some value) = p value

-- The value of an attribute, up to the quotation mark behind it, passes a test.
abbrev pub attribute : Text → Text → (Text → Bool) → Bool
unfolding split_text split
attribute tag name p =
    is_some_and (λ value. p (first_part (split (λ c. c == b'"') value)))
      (second_part (split_text tag name))

unfoldable pub image_contains_alt_text : Text → Bool
unfolding split is_https_url attribute trim
image_contains_alt_text chunk =
    let tag = first_part (split (λ c. c == b'>') chunk) in
    attribute tag (text "src=\"") is_https_url
    && attribute tag (text "alt=\"") (λ alt. not (is_empty (trim alt)))

unfoldable pub html_contains_alt_text : Text → Bool
unfolding split_text image_contains_alt_text
html_contains_alt_text html =
    any image_contains_alt_text (behind_first (split_text html (text "<img")))

module _ (sanitizer : Sanitizer) where
  unfoldable pub sanitize_email_html : Text → SanitizedHtml
  unfolding trim_end trim lines join html_contains_alt_text list_beq
  sanitize_email_html input =
      let html = sanitizer.clean input in
      let plain = trim (join (text "\n") (map trim_end (lines (sanitizer.from_read html)))) in
      record {
        html = html;
        text = plain;
        changed = not (html == input);
        visually_empty = is_empty (trim plain) && not (html_contains_alt_text html);
      }

unfoldable pub escape_html : Text → Text
unfolding replace
escape_html value =
    replace (λ c. c == b'\'') (text "&#39;")
      (replace (λ c. c == b'"') (text "&quot;")
        (replace (λ c. c == b'>') (text "&gt;")
          (replace (λ c. c == b'<') (text "&lt;") (replace (λ c. c == b'&') (text "&amp;") value))))

unfoldable pub plain_text_to_html : Text → Text
unfolding replace replace_text escape_html
plain_text_to_html value =
    replace (λ c. c == b'\r' || c == b'\n') (text "<br>")
      (replace_text (escape_html value) (text "\r\n") (text "\n"))

alt_example :
    html_contains_alt_text (text "<p><img alt=\"Logo\" src=\"HTTPS://x/y.png\"></p>") ≡ true
unfolding html_contains_alt_text text
alt_example = refl

https_example : is_https_url (text " http://x") ≡ false
unfolding is_https_url text
https_example = refl

html_example : plain_text_to_html (text "a<b\r\n'c\r\r") ≡ text "a&lt;b<br>&#39;c<br><br>"
unfolding plain_text_to_html text
html_example = refl
