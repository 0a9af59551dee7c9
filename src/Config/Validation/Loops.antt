-- ===== src/Config/Validation/Loops.antt =====
-- When a chain of checks passes: each of them does. One lemma per way in which they are composed.
use ai_memmail.Prelude.{
  ℕ, Bool, true, false, not, List, [], ◌∷◌, ◌≡◌, ◌↔◌, refl, ◌and◌, arith, All, suc, if◌then◌else◌,
}
use ai_memmail.Prelude.Result.{Result, ok, err, ◌>>◌, ◌>>=◌, each, each_from}
use ai_memmail.Text.{Text}
use ai_memmail.Config.Errors.{ConfigError, ensure}

pub ensure_iff : (test : Bool) (m : Text) → (ensure test m ≡ ok tt) ↔ (test ≡ true)
unfolding ensure
ensure_iff test m = ground arith

pub not_iff : (test : Bool) → (not test ≡ true) ↔ (test ≡ false)
not_iff test = ground arith

pub ensure_lem :
    {P : Type 0} {test : Bool} (m : Text) → (test ≡ true) ↔ P → (ensure test m ≡ ok tt) ↔ P
unfolding ensure
ensure_lem m f = ground arith

pub then_iff :
    {P Q : Type 0} {m k : Result ConfigError Unit}
    → (m ≡ ok tt) ↔ P
    → (k ≡ ok tt) ↔ Q
    → ((m >> k) ≡ ok tt) ↔ (P and Q)
then_iff {m = ok _} f g = ground arith
then_iff {m = err e} f g = ground arith

-- The second check is understood where the first one passes.
pub then_given_iff :
    {P Q : Type 0} {m k : Result ConfigError Unit}
    → (m ≡ ok tt) ↔ P
    → (P → (k ≡ ok tt) ↔ Q)
    → ((m >> k) ≡ ok tt) ↔ (P and Q)
then_given_iff {m = ok _} f g = (λ e. (f.0 refl, (g (f.0 refl)).0 e), λ h. (g h.0).1 h.1)
then_given_iff {m = err e} f g = ground arith

-- The first of two conditions, understood where the second one holds.
pub first_iff : {P Q R : Type 0} → (R → P ↔ Q) → (P and R) ↔ (Q and R)
first_iff f = (λ h. ((f h.1).0 h.0, h.1), λ h. ((f h.1).1 h.0, h.1))

pub when_iff :
    {P : Type 0} {m : Result ConfigError Unit} (test : Bool)
    → (m ≡ ok tt) ↔ P
    → ((if test then m else ok tt) ≡ ok tt) ↔ (test ≡ true → P)
when_iff true f = (λ e _. f.0 e, λ h. f.1 (h refl))
when_iff false f = (λ e h. ground arith, λ h. refl)

module _ {A : Type 0} (P : A → Type 0) where
  pub each_iff :
      (f : A → Result ConfigError Unit) (xs : List A)
      → ((x : A) → (f x ≡ ok tt) ↔ P x)
      → (each f xs ≡ ok tt) ↔ All P xs
  each_iff f [] h = (λ e. tt, λ e. refl)
  each_iff f (x ∷ xs) h = then_iff (h x) (each_iff f xs h)

  pub each_from_iff :
      (f : ℕ → A → Result ConfigError Unit) (i : ℕ) (xs : List A)
      → ((i : ℕ) (x : A) → (f i x ≡ ok tt) ↔ P x)
      → (each_from f i xs ≡ ok tt) ↔ All P xs
  each_from_iff f i [] h = (λ e. tt, λ e. refl)
  each_from_iff f i (x ∷ xs) h = then_iff (h i x) (each_from_iff f (suc i) xs h)

-- A check that answers what the next one starts from.
pub bind_iff :
    {S P Q : Type 0} (m : Result ConfigError Unit) (s : S) (f : S → Result ConfigError Unit)
    → (m ≡ ok tt) ↔ P
    → (f s ≡ ok tt) ↔ Q
    → (((m >> ok s) >>= f) ≡ ok tt) ↔ (P and Q)
bind_iff (ok _) s f g h = ground arith
bind_iff (err e) s f g h = ground arith
