-- ===== src/Handlers/Returns.antt =====
-- Rules for handlers that end with a value, whatever state they start from.
use metio.Base.{
  Any, ℕ, String, ◌≡◌, refl, sym, subst, inl, inr, Bool, true, Option, none, List, [], ◌∷◌, arith,
  if◌then◌else◌, false,
}
use metio.Exec.{Error, Outcome, ok, continue, ◌>>=◌, Env, call, pure}
use metio.Handlers.{
  HandlerCall, HandlerAnswer, Refusal, Visit, Handler, expect, no_error, require, any_match,
}

-- Calls that are answered in the same way at all times.
abbrev pub steady : ((c : HandlerCall) → HandlerAnswer c) → ℕ → Env HandlerCall HandlerAnswer
steady reply latency = record { answer = λ calls c. reply c; latency = λ calls. latency }

-- From every state the action ends with the value.
pub record Returns {A : Type 0} (m : Handler A) (a : A) : Type 0 where
  pub at : (w : Visit) → (m w).0 ≡ ok a

module _ {A B : Type 0} where
  continue-ok :
      (f : A → Handler B) (r : Outcome Refusal A) (w : Visit) {a : A} {b : B}
      → r ≡ ok a
      → Returns (f a) b
      → (continue r f w).0 ≡ ok b
  continue-ok f r w {b = b} e h = subst (λ x. (continue x f w).0 ≡ ok b) (sym e) (h.at w)

  pub Returns-bind :
      {a : A} {b : B} (m : Handler A) (f : A → Handler B)
      → Returns m a
      → Returns (f a) b
      → Returns (m >>= f) b
  unfolding ◌>>=◌
  Returns-bind m f h k = record { at = λ w. continue-ok f (m w).0 (m w).1 (h.at w) k }

module _ {A : Type 0} where
  pub Returns-expect :
      {r : Outcome Error A} {a : A} (status : ℕ) (text : String)
      → r ≡ ok a
      → Returns (expect status text r) a
  unfolding expect
  Returns-expect {a = a} status text e =
      subst (λ x. Returns (expect status text x) a) (sym e) (record { at = λ w. refl })

pub Returns-no_error :
    {r : Option Error} (status : ℕ) (text : String) → r ≡ none → Returns (no_error status text r) tt
unfolding no_error
Returns-no_error status text e =
    subst (λ x. Returns (no_error status text x) tt) (sym e) (record { at = λ w. refl })

pub Returns-require :
    {b : Bool} (status : ℕ) (text : String) → b ≡ true → Returns (require b status text) tt
unfolding require
Returns-require status text e =
    subst (λ x. Returns (require x status text) tt) (sym e) (record { at = λ w. refl })

pub any_match-of_Any :
    {A : Type 0} {P : A → Type 0} (test : A → Bool)
    → ((a : A) → P a → test a ≡ true)
    → (xs : List A) → Any P xs
    → any_match test xs ≡ true
unfolding any_match
any_match-of_Any test f [] h = absurd h
any_match-of_Any test f (x ∷ xs) (inl p) = let t = f x p in cc
any_match-of_Any test f (x ∷ xs) (inr h) = let rest = any_match-of_Any test f xs h in ground arith

pub either_Returns :
    (b : Bool) {m : Handler (Unit {0})} → Returns m tt → Returns (if b then pure tt else m) tt
either_Returns true h = record { at = λ w. refl }
either_Returns false h = h

module _ (reply : (c : HandlerCall) → HandlerAnswer c) (latency : ℕ) where
  pub Returns-call : (c : HandlerCall) → Returns (call (steady reply latency) c) (reply c)
  unfolding call
  Returns-call c = record { at = λ w. refl }

  -- A call of which a test is true, and the check of it.
  pub Returns-demand :
      (c : HandlerCall) (test : HandlerAnswer c → Bool) (status : ℕ) (text : String)
      → test (reply c) ≡ true
      → Returns
          ((call (steady reply latency) c >>= λ a. pure (test a)) >>= λ b. require b status text)
          tt
  Returns-demand c test status text e =
      Returns-bind _ _ (Returns-bind _ _ (Returns-call c) (record { at = λ w. refl }))
        (Returns-require status text e)
