-- ===== src/Worker/Action.antt =====
-- Actions on an outside world. An action gives its result, the world that it leaves, and the calls
-- that it made, in their order.
use ai_memmail.Prelude.{List, [], ◌∷◌, ◌++◌, Option, none, some}

pub record Run (C W A : Type 0) : Type 0 where
  pub result : A
  pub world : W
  pub calls : List C

abbrev pub Action : Type 0 → Type 0 → Type 0 → Type 0
Action C W A = W → Run C W A

module _ {C W A : Type 0} where
  unfoldable pub pure : A → Action C W A
  pure a w = record { result = a; world = w; calls = [] }

  -- One call of something outside, with the note that is kept of it.
  unfoldable pub call : (A → C) → (W → A × W) → Action C W A
  call note run w = let (a, w') = run w in record { result = a; world = w'; calls = note a ∷ [] }

  -- Something that is drawn from the world and leaves no note.
  unfoldable pub draw : (W → A × W) → Action C W A
  draw run w = let (a, w') = run w in record { result = a; world = w'; calls = [] }

module _ {C W A B : Type 0} where
  infixl 5 ◌>>=◌
  unfoldable pub ◌>>=◌ : Action C W A → (A → Action C W B) → Action C W B
  unfolding pure call draw
  ◌>>=◌ m f w =
      let first = m w in
      let second = f first.result first.world in
      record { result = second.result; world = second.world; calls = first.calls ++ second.calls }

module _ {C W B : Type 0} where
  infixl 5 ◌>>◌
  abbrev pub ◌>>◌ : Action C W (Unit {0}) → Action C W B → Action C W B
  m >> n = m >>= λ _. n

module _ {C W A : Type 0} where
  -- `let Some(a) = m else { return }`
  abbrev continue_with : (A → Action C W (Unit {0})) → Option A → Action C W (Unit {0})
  continue_with f none = pure tt
  continue_with f (some a) = f a

  unfoldable pub or_return :
      Action C W (Option A) → (A → Action C W (Unit {0})) → Action C W (Unit {0})
  or_return m f = m >>= continue_with f
