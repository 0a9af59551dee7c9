-- ===== src/Worker/Protocol/Balance.antt =====
-- Weights of calls that a potential of the phases keeps in balance.
use ai_memmail.Prelude.{
  ℕ, ◌+◌, ◌≤◌, List, [], ◌∷◌, ◌≡◌, ◌≢◌, refl, ap, ◌∙◌, String_eq, ℕ_eq, ◌==◌, Bool, true, false,
  arith,
}
use ai_memmail.Mail.{DedupeKey, DedupeKey_eq}
use ai_memmail.Worker.Services.{
  Call, claim, status_set, asked, sent, seen, delivery_begun, delivery_finished, sender_reviewed,
  recorded, read, logged,
}
use ai_memmail.Worker.Protocol.{Phase, broken, of_message, advance, after, status_phase}

-- The sum of a weight over the calls.
unfoldable pub total : (Call → ℕ) → List Call → ℕ
total weight [] = 0
total weight (c ∷ calls) = weight c + total weight calls

of_message-broken : (own : Bool) → of_message own broken ≡ broken
of_message-broken true = refl
of_message-broken false = refl

advance-broken : (k : DedupeKey) (c : Call) → advance k broken c ≡ broken
unfolding advance status_phase
advance-broken k (claim key answer) = of_message-broken (key == k)
advance-broken k (status_set key status kind answer) = of_message-broken (key == k)
advance-broken k (asked step) = refl
advance-broken k (sent smtp action answer) = refl
advance-broken k (seen uid answer) = of_message-broken (uid == k.uid)
advance-broken k delivery_begun = refl
advance-broken k (delivery_finished status) = refl
advance-broken k (sender_reviewed sender) = refl
advance-broken k recorded = refl
advance-broken k read = refl
advance-broken k (logged event) = refl

pub after-broken : (k : DedupeKey) (calls : List Call) → after k broken calls ≡ broken
unfolding after
after-broken k [] = refl
after-broken k (c ∷ calls) =
    ap (λ (q : Phase). after k q calls) (advance-broken k c) ∙ after-broken k calls

module _ (k : DedupeKey) (weight credit : Call → ℕ) (potential : Phase → ℕ) where
  abbrev pub Balanced : Type 0
  Balanced =
      (p : Phase) (c : Call)
      → advance k p c ≢ broken
      → weight c + potential p ≤ credit c + potential (advance k p c)

  pub balance :
      Balanced
      → (p : Phase) (calls : List Call) → after k p calls ≢ broken
      → total weight calls + potential p ≤ total credit calls + potential (after k p calls)
  unfolding after total
  balance step p [] h = omega arith
  balance step p (c ∷ calls) h = omega (
    arith,
    step p c (λ e. h (ap (λ (q : Phase). after k q calls) e ∙ after-broken k calls)),
    balance step (advance k p c) calls h,
  )
