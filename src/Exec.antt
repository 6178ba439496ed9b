-- ===== src/Exec.antt =====
-- Code with effects: a state that every action may change, and a result that is a value or an
-- error. What was written before an error stays written, so the state comes back beside it.
--
-- What the program calls and does not implement answers through an `Env`: each answer may depend on
-- all calls made before it, and takes any time. A theorem for every `Env` holds whatever the cloud
-- services, the state store, the agents and the clock do.
pub mod Triple
pub mod Agree
use metio.Base.{◌+++◌, ℕ, ◌+◌, String, Bool, false, List, ◌∷◌, Option, none, some}

-- A Go error: its text, and whether `errors.Is(err, ErrNotFound)` holds of it.
pub record Error : Type 0 where
  pub text : String
  pub is_not_found : Bool

-- `fmt.Errorf("<prefix>%w", err)`
abbrev pub wrap : String → Error → Error
wrap prefix e = record e { text = prefix +++ e.text }

-- `errors.New(text)` and `fmt.Errorf` without `%w`.
abbrev pub new_error : String → Error
new_error text = record { text = text; is_not_found = false }

pub data Outcome (E A : Type 0) : Type 0 where
  ok : A → Outcome E A
  err : E → Outcome E A

abbrev pub Exec : Type 0 → Type 0 → Type 0 → Type 0
Exec E S A = S → Outcome E A × S

module _ {E S A : Type 0} where
  abbrev pub pure : A → Exec E S A
  pure a s = (ok a, s)

  abbrev pub raise : E → Exec E S A
  raise e s = (err e, s)

  abbrev pub lift : Outcome E A → Exec E S A
  lift r s = (r, s)

  abbrev pub gets : (S → A) → Exec E S A
  gets f s = (ok (f s), s)

module _ {E S : Type 0} where
  abbrev pub modify : (S → S) → Exec E S (Unit {0})
  modify f s = (ok tt, f s)

module _ {E S A B : Type 0} where
  abbrev pub continue : Outcome E A → (A → Exec E S B) → Exec E S B
  continue (ok a) f s = f a s
  continue (err e) f s = (err e, s)

  infixl 10 ◌>>=◌ ◌>>◌
  unfoldable pub ◌>>=◌ : Exec E S A → (A → Exec E S B) → Exec E S B
  ◌>>=◌ m f s = let (r, s') = m s in continue r f s'

  abbrev pub ◌>>◌ : Exec E S A → Exec E S B → Exec E S B
  m >> n = m >>= λ _. n

module _ {E S A B : Type 0} where
  -- `if x != nil { … return }`, and then the rest.
  abbrev pub when_some : Option A → (A → Exec E S B) → Exec E S B → Exec E S B
  when_some (some a) f rest = f a
  when_some none f rest = rest

-- Who answers the calls: the answer to `c` after the calls of the list, last call first, and the
-- time that it takes.
pub record Env (Call : Type 0) (Answer : Call → Type 0) : Type 0 where
  pub answer : List Call → (c : Call) → Answer c
  pub latency : List Call → ℕ

-- What an action reads and changes: the calls made so far, last call first, the clock, and the
-- object that the program itself holds.
pub record World (Call X : Type 0) : Type 0 where
  pub history : List Call
  pub clock : ℕ
  pub object : X

module _ {Call X E : Type 0} {Answer : Call → Type 0} (env : Env Call Answer) where
  unfoldable pub call : (c : Call) → Exec E (World Call X) (Answer c)
  call c w = (
    ok (env.answer w.history c),
    record w { history = c ∷ w.history; clock = w.clock + env.latency w.history },
  )

  -- `time.Sleep(d)`: at least `d` passes.
  unfoldable pub sleep : ℕ → Exec E (World Call X) (Unit {0})
  sleep d w = (ok tt, record w { clock = w.clock + d + env.latency w.history })

module _ {Call X E : Type 0} where
  -- `time.Now()`
  unfoldable pub now : Exec E (World Call X) ℕ
  now w = (ok w.clock, w)

  unfoldable pub change : (X → X) → Exec E (World Call X) (Unit {0})
  change f w = (ok tt, record w { object = f w.object })
