-- ===== src/Safety/Subject.antt =====
-- The subject of a quarantined message that is forwarded.
use ai_memmail.Prelude.{
  ◌≡◌, ◌≢◌, refl, ap, true, false, [], ◌∷◌, ◌++◌, inl, inr, Bool-cases, is_empty, ==-refl, ℕ_eq,
}
use ai_memmail.Text.{Text, text, trim, is_whitespace, starts_with}
use ai_memmail.Text.Trim.{trim_idempotent, trim_append}
use ai_memmail.Safety.{suspicious_subject_prefix, suspicious_forward_subject}

pub starts_with-append : (s t : Text) → starts_with (s ++ t) s ≡ true
unfolding starts_with
starts_with-append [] [] = refl
starts_with-append [] (c ∷ t) = refl
starts_with-append (c ∷ s) t = rw (==-refl c) (starts_with-append s t)

-- A subject that begins with the prefix and that trimming leaves alone is kept.
kept :
    (s : Text)
    → trim s ≡ s
    → starts_with s suspicious_subject_prefix ≡ true
    → suspicious_forward_subject s ≡ s
unfolding suspicious_forward_subject
kept s trimmed starts = rw (trimmed, starts)

marked_empty :
    trim (suspicious_subject_prefix ++ text " (no subject)")
    ≡ suspicious_subject_prefix ++ text " (no subject)"
unfolding trim text suspicious_subject_prefix
marked_empty = refl

marked :
    (s : Text)
    → trim s ≢ []
    → trim (suspicious_subject_prefix ++ (text " " ++ trim s))
      ≡ suspicious_subject_prefix ++ (text " " ++ trim s)
unfolding suspicious_subject_prefix text
marked s h = trim_append (suspicious_subject_prefix ++ text " ") s (unfold is_whitespace in refl) h

nonempty : (s : Text) → is_empty s ≡ false → s ≢ []
nonempty s h = λ e. cc (ap (λ (t : Text). is_empty t) e)

-- Marking the subject of a message that is forwarded for review a second time changes nothing,
-- whatever the subject was.
pub suspicious_forward_subject_idempotent :
    (s : Text)
    → suspicious_forward_subject (suspicious_forward_subject s) ≡ suspicious_forward_subject s
suspicious_forward_subject_idempotent s =
    elim (Bool-cases (starts_with (trim s) suspicious_subject_prefix)) [
      | inl starts ↦
          let e : suspicious_forward_subject s ≡ trim s =
            unfold suspicious_forward_subject in rw starts in
          rw e (kept (trim s) (trim_idempotent s) starts)
      | inr other ↦ elim (Bool-cases (is_empty (trim s))) [
        | inl blank ↦
            let e : suspicious_forward_subject s
                ≡ suspicious_subject_prefix ++ text " (no subject)" =
              unfold suspicious_forward_subject in rw (other, blank) in
            rw e (kept _ marked_empty (starts_with-append suspicious_subject_prefix _))
        | inr more ↦
            let e : suspicious_forward_subject s
                ≡ suspicious_subject_prefix ++ (text " " ++ trim s) =
              unfold suspicious_forward_subject in rw (other, more) in
            rw e (
              kept _ (marked s (nonempty (trim s) more))
                (starts_with-append suspicious_subject_prefix _))
      ]
    ]
