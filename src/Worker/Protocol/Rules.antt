-- ===== src/Worker/Protocol/Rules.antt =====
-- One rule for each way to build an action.
use ai_memmail.Prelude.{
  String, ==-refl, ℕ_eq, Bool, true, false, Option, none, some, ◌≡◌, refl, ◌∙◌, ap, if◌then◌else◌,
}
use ai_memmail.Worker.Action.{Action, pure, call, draw, ◌>>=◌, or_return}
use ai_memmail.Mail.{DedupeKey, DedupeKey_eq, OutboundActionKind, MailError}
use ai_memmail.Storage.{StorageError, ProcessingClaim}
use ai_memmail.Prelude.Result.{Result}
use ai_memmail.Worker.Services.{Call, claim, status_set, seen}
use ai_memmail.Worker.Protocol.{
  Phase, stopped, claim_phase, claimed_phase, status_phase, seen_phase, advance, after,
  after-append,
}

-- A claim, a status and a mark of the message itself.
module _ (k : DedupeKey) (p : Phase) where
  pub advance-claim :
      (answer : Result StorageError ProcessingClaim)
      → advance k p (claim k answer) ≡ claimed_phase p (claim_phase answer)
  unfolding advance
  advance-claim answer = rw (==-refl k) refl

  pub advance-status_set :
      (status : String) (kind : Option OutboundActionKind) (answer : Result StorageError (Unit {0}))
      → advance k p (status_set k status kind answer) ≡ status_phase p status
  unfolding advance
  advance-status_set status kind answer = rw (==-refl k) refl

  pub advance-seen :
      (answer : Result MailError (Unit {0})) → advance k p (seen k.uid answer) ≡ seen_phase p
  unfolding advance
  advance-seen answer = rw (==-refl k.uid) refl

-- From the phase `p`, the action leads to the phase that `Q` gives for its result.
pub record Leads {W A : Type 0} (k : DedupeKey) (p : Phase) (m : Action Call W A) (Q : A → Phase)
    : Type 0 where
  pub at : (w : W) → after k p (m w).calls ≡ Q (m w).result

module _ {k : DedupeKey} {W A : Type 0} where
  pub Leads-pure : {p : Phase} {Q : A → Phase} (a : A) → p ≡ Q a → Leads {W = W} k p (pure a) Q
  unfolding pure after
  Leads-pure a h = record { at = λ w. h }

  pub Leads-draw : {p : Phase} (run : W → A × W) → Leads k p (draw run) (λ _. p)
  unfolding draw after
  Leads-draw run = record { at = λ w. refl }

  pub Leads-call :
      {p : Phase} {Q : A → Phase} (note : A → Call) (run : W → A × W)
      → ((a : A) → advance k p (note a) ≡ Q a)
      → Leads k p (call note run) Q
  unfolding call after
  Leads-call note run h = record { at = λ w. h (run w).0 }

  pub Leads-if :
      {p : Phase} {Q : A → Phase} {m n : Action Call W A} (b : Bool)
      → Leads k p m Q
      → Leads k p n Q
      → Leads k p (if b then m else n) Q
  Leads-if true km kn = km
  Leads-if false km kn = kn

module _ {k : DedupeKey} {W A B : Type 0} where
  pub Leads-bind :
      {p : Phase} {R : B → Phase} {Q : A → Phase} {m : Action Call W A} {f : A → Action Call W B}
      → Leads k p m Q
      → ((a : A) → Leads k (Q a) (f a) R)
      → Leads k p (m >>= f) R
  unfolding ◌>>=◌
  Leads-bind {p} {m} {f} km kf = record {
    at = λ w.
        after-append k p (m w).calls (f (m w).result (m w).world).calls
        ∙ (ap (λ (q : Phase). after k q (f (m w).result (m w).world).calls) (km.at w)
            ∙ (kf (m w).result).at (m w).world);
  }

-- An action that ends the processing where it has no result.
abbrev pub unless_stopped : {A : Type 0} → Phase → Option A → Phase
unless_stopped p none = stopped
unless_stopped p (some a) = p

-- The phase by an answer yes or no.
abbrev pub if_true : Phase → Phase → Bool → Phase
if_true p q true = p
if_true p q false = q

module _ {k : DedupeKey} {W A : Type 0} where
  pub Leads-or_return :
      {p q : Phase} {m : Action Call W (Option A)} {f : A → Action Call W (Unit {0})}
      → Leads k p m (unless_stopped q)
      → ((a : A) → Leads k q (f a) (λ _. stopped))
      → Leads k p (or_return m f) (λ _. stopped)
  unfolding or_return
  Leads-or_return km kf = Leads-bind km (elim [ none ↦ Leads-pure tt refl | some a ↦ kf a ])
