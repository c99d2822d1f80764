-- ===== src/Action.antt =====
-- Asynchronous methods on a shared state: a computation takes the state and returns its outcome with
-- the state it leaves behind, also when it fails. `?` ends a block at the first failure.
use ghostsnap.Prelude.{◌≡◌, refl, Option, none, some, ◌⊎◌, inl, inr}
use ghostsnap.Errors.{Error, Result, ok, err, panic}

abbrev pub Action : Type 0 → Type 0 → Type 0
Action R A = R → Result A × R

module _ {R A B : Type 0} where
  abbrev pub resume : Result A × R → (A → Action R B) → Result B × R
  resume (panic, r) rest = (panic, r)
  resume (err failure, r) rest = (err failure, r)
  resume (ok a, r) rest = rest a r

  infixl 5 ◌>>=◌
  abbrev pub ◌>>=◌ : Action R A → (A → Action R B) → Action R B
  (first >>= rest) r = resume (first r) rest

  -- A block that returned has run its first step and its rest.
  pub resume-eq-ok :
      (first : Result A) (s : R) (rest : A → Action R B) {b : B} {r : R}
      → resume (first, s) rest ≡ (ok b, r)
      → (a : A) × (first ≡ ok a) × (rest a s ≡ (ok b, r))
  resume-eq-ok panic s rest h = cc
  resume-eq-ok (err failure) s rest h = cc
  resume-eq-ok (ok a) s rest h = (a, refl, h)

module _ {R A : Type 0} where
  abbrev pub pure : A → Action R A
  pure a r = (ok a, r)

  abbrev pub lift : Result A → Action R A
  lift outcome r = (outcome, r)

  -- A step that only reads the state.
  abbrev pub ask : (R → Result A) → Action R A
  ask read r = (read r, r)

module _ {R : Type 0} where
  abbrev pub modify : (R → R) → Action R Unit
  modify change r = (ok tt, change r)

-- `match … { Ok(a) => …, Err(e) => … }` on a step whose error is only printed.
module _ {R A : Type 0} where
  abbrev pub caught : Result A × R → Result (Option A) × R
  caught (panic, r) = (panic, r)
  caught (err failure, r) = (ok none, r)
  caught (ok a, r) = (ok (some a), r)

  abbrev pub attempt : Action R A → Action R (Option A)
  attempt step r = caught (step r)

module _ {R A B : Type 0} where
  -- A block that went on after such a step, with its error or with its value.
  pub attempt-eq-ok :
      (run : Result A × R) (rest : Option A → Action R B) {b : B} {r : R}
      → resume (caught run) rest ≡ (ok b, r)
      → ((failure : Error) × (run.0 ≡ err failure) × (rest none run.1 ≡ (ok b, r)))
        ⊎ ((a : A) × (run.0 ≡ ok a) × (rest (some a) run.1 ≡ (ok b, r)))
  attempt-eq-ok (panic, s) rest h = cc
  attempt-eq-ok (err failure, s) rest h = inl (failure, refl, h)
  attempt-eq-ok (ok a, s) rest h = inr (a, refl, h)
