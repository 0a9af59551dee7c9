-- ===== src/Worker/Protocol/Following.antt =====
-- Which calls come behind and in front of which, in the order of the phases.
use ai_memmail.Prelude.{
  Bool, true, false, not, ◌&&◌, ◌||◌, List, [], ◌∷◌, any, ◌≡◌, ◌≢◌, refl, sym, ap, ◌∙◌, arith,
}
use ai_memmail.Mail.{DedupeKey}
use ai_memmail.Worker.Services.{Call}
use ai_memmail.Worker.Protocol.{Phase, stopped, broken, advance, after}
use ai_memmail.Worker.Protocol.Balance.{after-broken}

-- Behind each call that meets `p` there is one that meets `q`.
unfoldable pub followed_by : (Call → Bool) → (Call → Bool) → List Call → Bool
followed_by p q [] = true
followed_by p q (c ∷ calls) = (not (p c) || any q calls) && followed_by p q calls

-- In front of each call that meets `p` there is one that meets `q`, or there was one before.
unfoldable pub preceded_from : Bool → (Call → Bool) → (Call → Bool) → List Call → Bool
preceded_from before p q [] = true
preceded_from before p q (c ∷ calls) =
    (not (p c) || before) && preceded_from (before || q c) p q calls

unfoldable pub preceded_by : (Call → Bool) → (Call → Bool) → List Call → Bool
unfolding preceded_from
preceded_by p q calls = preceded_from false p q calls

module _ (k : DedupeKey) where
  -- The order was kept by the first call of a list that ends well.
  kept :
      (s : Phase) (c : Call) (calls : List Call)
      → after k s (c ∷ calls) ≡ stopped
      → advance k s c ≢ broken
  unfolding after
  kept s c calls h e =
      ground (arith, sym h ∙ (ap (λ (q : Phase). after k q calls) e ∙ after-broken k calls))

module _ (k : DedupeKey) (p q : Call → Bool) (due : Phase → Bool) where
  -- `p` makes a call that meets `q` due, and only such a call pays for it.
  abbrev pub Dues : Type 0
  Dues =
      (s : Phase) (c : Call)
      → advance k s c ≢ broken
      → (not (p c) || due (advance k s c) ≡ true)
        × (not (due s) || (q c || due (advance k s c)) ≡ true)

  any_due :
      Dues
      → due stopped ≡ false
      → (s : Phase) (calls : List Call) → after k s calls ≡ stopped
      → due s ≡ true
      → any q calls ≡ true
  unfolding after
  any_due step end s [] h d = absurd (ground (arith, sym (ap due h) ∙ d, end))
  any_due step end s (c ∷ calls) h d =
      rest (q c) (due (advance k s c)) (any_due step end (advance k s c) calls h) (
        ap (λ b. not b || (q c || due (advance k s c))) (sym d) ∙ (step s c (kept k s c calls h)).1)
    where
      rest :
          {b : Bool} (here later : Bool)
          → (later ≡ true → b ≡ true)
          → (here || later) ≡ true
          → (here || b) ≡ true
      rest true later f e = refl
      rest false later f e = f e

  pub followed :
      Dues
      → due stopped ≡ false
      → (s : Phase) (calls : List Call) → after k s calls ≡ stopped
      → followed_by p q calls ≡ true
  unfolding followed_by after
  followed step end s [] h = refl
  followed step end s (c ∷ calls) h =
      both (p c) (due (advance k s c)) (step s c (kept k s c calls h)).0
        (any_due step end (advance k s c) calls h) (followed step end (advance k s c) calls h)
    where
      both :
          {a b : Bool} (here later : Bool)
          → (not here || later) ≡ true
          → (later ≡ true → a ≡ true)
          → b ≡ true
          → ((not here || a) && b) ≡ true
      both true later e f g = rw (f e) g
      both false later e f g = g

module _ (k : DedupeKey) (p q : Call → Bool) (clear : Phase → Bool) where
  -- While the phase is clear, no call meets `p`, and only one that meets `q` leaves such phases.
  abbrev pub Clears : Type 0
  Clears =
      (s : Phase) (c : Call)
      → advance k s c ≢ broken
      → clear s ≡ true
      → (p c ≡ false) × ((q c || clear (advance k s c)) ≡ true)

  preceded_after : (s : Phase) (calls : List Call) → preceded_from true p q calls ≡ true
  unfolding preceded_from
  preceded_after s [] = refl
  preceded_after s (c ∷ calls) = ground (arith, preceded_after s calls)

  preceded_clear :
      Clears
      → (s : Phase) (calls : List Call) → after k s calls ≡ stopped
      → clear s ≡ true
      → preceded_from false p q calls ≡ true
  unfolding preceded_from after
  preceded_clear step s [] h d = refl
  preceded_clear step s (c ∷ calls) h d =
      let (none, next) = step s c (kept k s c calls h) d in
      rw none
        (rest (q c) (clear (advance k s c)) next (preceded_clear step (advance k s c) calls h))
    where
      rest :
          (here later : Bool)
          → (here || later) ≡ true
          → (later ≡ true → preceded_from false p q calls ≡ true)
          → preceded_from here p q calls ≡ true
      rest true later e f = preceded_after s calls
      rest false later e f = f e

  pub preceded :
      Clears
      → (s : Phase) (calls : List Call) → after k s calls ≡ stopped
      → clear s ≡ true
      → preceded_by p q calls ≡ true
  unfolding preceded_by
  preceded step s calls h d = preceded_clear step s calls h d
