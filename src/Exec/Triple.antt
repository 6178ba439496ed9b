-- ===== src/Exec/Triple.antt =====
-- Pre- and postconditions of actions, with one rule for each way to build an action.
use metio.Base.{if◌then◌else◌, ◌≡◌, refl, Bool, true, false, Option, none, some}
use metio.Exec.{Outcome, ok, err, Exec, pure, continue, ◌>>=◌, when_some}

module _ {E S : Type 0} (Fails : E → S → Type 0) where
  -- What holds at the end: `Q` of the value, or `Fails` of the error.
  abbrev pub AtEnd : {A : Type 0} → (A → S → Type 0) → Outcome E A → S → Type 0
  AtEnd Q (ok a) s = Q a s
  AtEnd Q (err e) s = Fails e s

-- From a state with `P` the action ends with `Q`, or with an error of which `Fails` holds.
pub record Triple {E S A : Type 0} (Fails : E → S → Type 0) (P : S → Type 0) (m : Exec E S A)
    (Q : A → S → Type 0) : Type 0 where
  pub at : (s : S) → P s → AtEnd Fails Q (m s).0 (m s).1

module _ {E S A B : Type 0} {Fails : E → S → Type 0} where
  continue-Triple :
      {Q : A → S → Type 0} {R : B → S → Type 0} (f : A → Exec E S B)
      → ((a : A) → Triple Fails (Q a) (f a) R)
      → (r : Outcome E A) (s : S) → AtEnd Fails Q r s
      → AtEnd Fails R (continue r f s).0 (continue r f s).1
  continue-Triple f kf (ok a) s h = (kf a).at s h
  continue-Triple f kf (err e) s h = h

  pub Triple-bind :
      {P : S → Type 0} {Q : A → S → Type 0} {R : B → S → Type 0} (m : Exec E S A)
      (f : A → Exec E S B)
      → Triple Fails P m Q
      → ((a : A) → Triple Fails (Q a) (f a) R)
      → Triple Fails P (m >>= f) R
  unfolding ◌>>=◌
  Triple-bind m f km kf = record {
    at = λ s h. let (r, s') = m s in continue-Triple f kf r s' (km.at s h);
  }

module _ {E S A : Type 0} {Fails : E → S → Type 0} {P : S → Type 0} where
  pub Triple-pure : (a : A) → Triple Fails P (pure a) (λ _. P)
  Triple-pure a = record { at = λ s h. h }

  pub Triple-if :
      {Q : A → S → Type 0} (b : Bool) (m n : Exec E S A)
      → Triple Fails P m Q
      → Triple Fails P n Q
      → Triple Fails P (if b then m else n) Q
  Triple-if true m n km kn = km
  Triple-if false m n km kn = kn

  pub Triple-when_some :
      {B : Type 0} {Q : A → S → Type 0} (o : Option B) (f : B → Exec E S A) (rest : Exec E S A)
      → ((b : B) → Triple Fails P (f b) Q)
      → Triple Fails P rest Q
      → Triple Fails P (when_some o f rest) Q
  Triple-when_some (some b) f rest kf k = kf b
  Triple-when_some none f rest kf k = k

  -- The same rule, which tells the branches what was found.
  pub Triple-when_some_found :
      {B : Type 0} {Q : A → S → Type 0} (o : Option B) (f : B → Exec E S A) (rest : Exec E S A)
      → ((b : B) → o ≡ some b → Triple Fails P (f b) Q)
      → Triple Fails P rest Q
      → Triple Fails P (when_some o f rest) Q
  Triple-when_some_found (some b) f rest kf k = kf b refl
  Triple-when_some_found none f rest kf k = k

  -- A test whose outcome the first branch may use.
  pub Triple-if_true :
      {Q : A → S → Type 0} (b : Bool) (m n : Exec E S A)
      → (b ≡ true → Triple Fails P m Q)
      → Triple Fails P n Q
      → Triple Fails P (if b then m else n) Q
  Triple-if_true true m n km kn = km refl
  Triple-if_true false m n km kn = kn

  -- A test whose outcome both branches may use.
  pub Triple-if_either :
      {Q : A → S → Type 0} (b : Bool) (m n : Exec E S A)
      → (b ≡ true → Triple Fails P m Q)
      → (b ≡ false → Triple Fails P n Q)
      → Triple Fails P (if b then m else n) Q
  Triple-if_either true m n km kn = km refl
  Triple-if_either false m n km kn = kn refl
