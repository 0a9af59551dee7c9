-- ===== src/Prelude/Result.antt =====
-- Rust's `Result<A, E>`.
use Prim.Native.Nat.{ℕ, suc}
use mathlib.Core.List.{List, [], ◌∷◌}

pub data Result {ℓ} (E A : Type ℓ) : Type ℓ where
  ok : A → Result E A
  err : E → Result E A

-- The `?` operator.
infixl 5 ◌>>=◌
infixr 4 ◌>>◌
abbrev pub ◌>>=◌ {ℓ} : {E A B : Type ℓ} → Result E A → (A → Result E B) → Result E B
ok a >>= f = f a
err e >>= f = err e

abbrev pub ◌>>◌ {ℓ} : {E B : Type ℓ} → Result E (Unit {ℓ}) → Result E B → Result E B
m >> k = m >>= λ _. k

-- A `for` loop whose body may return early with an error, also over `enumerate()`.
abbrev pub each {ℓ} : {E A : Type ℓ} → (A → Result E (Unit {ℓ})) → List A → Result E (Unit {ℓ})
each f [] = ok tt
each f (x ∷ xs) = f x >> each f xs

abbrev pub each_from {ℓ} :
    {E A : Type ℓ} → (ℕ → A → Result E (Unit {ℓ})) → ℕ → List A → Result E (Unit {ℓ})
each_from f i [] = ok tt
each_from f i (x ∷ xs) = f i x >> each_from f (suc i) xs
