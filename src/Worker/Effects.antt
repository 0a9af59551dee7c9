-- ===== src/Worker/Effects.antt =====
-- What holds of each call of an action: which mails it sends and which requests it makes to the
-- model. One rule for each way to build an action.
pub mod Quiet
pub mod Sending
pub mod Threads
pub mod Classifying
pub mod Deciding
pub mod Reviewing
pub mod Messages
pub mod Guarantees
use ai_memmail.Prelude.{
  Bool, true, false, Option, none, some, List, All, All-append, if◌then◌else◌, ◌≡◌,
}
use ai_memmail.Mail.{OutboundAction}
use ai_memmail.Worker.Action.{Action, Run, pure, call, draw, ◌>>=◌, or_return}
use ai_memmail.Worker.Services.{
  Call, AiStep, claim, status_set, asked, sent, seen, delivery_begun, delivery_finished,
  sender_reviewed, recorded, read, logged,
}

-- The calls that are free: all but the mails and the requests, which have to satisfy a predicate.
abbrev pub Allowed : (OutboundAction → Type 0) → (AiStep → Type 0) → Call → Type 0
Allowed Mailed Asked (asked step) = Asked step
Allowed Mailed Asked (sent smtp action answer) = Mailed action
Allowed Mailed Asked (claim key answer) = Unit
Allowed Mailed Asked (status_set key status kind answer) = Unit
Allowed Mailed Asked (seen uid answer) = Unit
Allowed Mailed Asked delivery_begun = Unit
Allowed Mailed Asked (delivery_finished status) = Unit
Allowed Mailed Asked (sender_reviewed sender) = Unit
Allowed Mailed Asked recorded = Unit
Allowed Mailed Asked read = Unit
Allowed Mailed Asked (logged event) = Unit

-- Each call of the action satisfies `P`, and its result satisfies `R`.
pub record Makes {C W A : Type 0} (P : C → Type 0) (m : Action C W A) (R : A → Type 0)
    : Type 0 where
  pub at : (w : W) → All P (m w).calls × R (m w).result

-- A result of which nothing is said.
abbrev pub Anything : {A : Type 0} → A → Type 0
Anything a = Unit

-- What holds of a value that is there.
abbrev pub IfSome : {A : Type 0} → (A → Type 0) → Option A → Type 0
IfSome R none = Unit
IfSome R (some a) = R a

module _ {C W A : Type 0} {P : C → Type 0} where
  pub Makes-pure : {R : A → Type 0} (a : A) → R a → Makes {W = W} P (pure a) R
  unfolding pure
  Makes-pure a h = record { at = λ w. (tt, h) }

  pub Makes-draw : (run : W → A × W) → Makes P (draw run) Anything
  unfolding draw
  Makes-draw run = record { at = λ w. (tt, tt) }

  -- The answer of a call is one that the operation gives in some world.
  pub Makes-answer :
      {R : A → Type 0} (note : A → C) (run : W → A × W)
      → ((a : A) → P (note a))
      → ((w : W) → R (run w).0)
      → Makes P (call note run) R
  unfolding call
  Makes-answer note run h k = record { at = λ w. ((h (run w).0, tt), k w) }

  pub Makes-call :
      (note : A → C) (run : W → A × W) → ((a : A) → P (note a)) → Makes P (call note run) Anything
  Makes-call note run h = Makes-answer note run h (λ w. tt)

  pub Makes-if :
      {R : A → Type 0} {m n : Action C W A} (b : Bool)
      → Makes P m R
      → Makes P n R
      → Makes P (if b then m else n) R
  Makes-if true km kn = km
  Makes-if false km kn = kn

module _ {C W A : Type 0} {P : C → Type 0} where
  pub Makes-weaken :
      {R S : A → Type 0} {m : Action C W A} → ((a : A) → R a → S a) → Makes P m R → Makes P m S
  Makes-weaken h k = record { at = λ w. let (calls, result) = k.at w in (calls, h _ result) }

module _ {C W A B : Type 0} {P : C → Type 0} where
  pub Makes-bind :
      {R : A → Type 0} {S : B → Type 0} {m : Action C W A} {f : A → Action C W B}
      → Makes P m R
      → ((a : A) → R a → Makes P (f a) S)
      → Makes P (m >>= f) S
  unfolding ◌>>=◌
  Makes-bind {m} {f} km kf = record {
    at = λ w.
        let second = (kf (m w).result (km.at w).1).at (m w).world in
        (
          All-append P (m w).calls (f (m w).result (m w).world).calls (km.at w).0 second.0,
          second.1,
        );
  }

module _ {C W A : Type 0} {P : C → Type 0} where
  pub Makes-or_return :
      {R : A → Type 0} {m : Action C W (Option A)} {f : A → Action C W (Unit {0})}
      → Makes P m (IfSome R)
      → ((a : A) → R a → Makes P (f a) Anything)
      → Makes P (or_return m f) Anything
  unfolding or_return
  Makes-or_return km kf =
      Makes-bind km (elim [ none ↦ λ h. Makes-pure tt tt | some a ↦ λ h. kf a h ])
