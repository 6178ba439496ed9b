-- ===== src/Exec/Agree.antt =====
-- Actions that do the same from every state with a precondition.
use metio.Base.{if◌then◌else◌, ◌≡◌, refl, Bool, true, false, Option, none, some}
use metio.Exec.{Outcome, ok, err, Exec, continue, ◌>>=◌, when_some}
use metio.Exec.Triple.{AtEnd, Triple}

pub record Agree {E S A : Type 0} (P : S → Type 0) (m n : Exec E S A) : Type 0 where
  pub at : (s : S) → P s → m s ≡ n s

module _ {E S A B : Type 0} where
  continue-Agree :
      (Fails : E → S → Type 0) {Q : A → S → Type 0} (f g : A → Exec E S B)
      → ((a : A) → Agree (Q a) (f a) (g a))
      → (r : Outcome E A) (s : S) → AtEnd Fails Q r s
      → continue r f s ≡ continue r g s
  continue-Agree Fails f g h (ok a) s p = (h a).at s p
  continue-Agree Fails f g h (err e) s p = refl

  pub Agree-bind :
      {Fails : E → S → Type 0} {P : S → Type 0} {Q : A → S → Type 0} (m : Exec E S A)
      (f g : A → Exec E S B)
      → Triple Fails P m Q
      → ((a : A) → Agree (Q a) (f a) (g a))
      → Agree P (m >>= f) (m >>= g)
  unfolding ◌>>=◌
  Agree-bind {Fails = Fails} m f g km h = record {
    at = λ s p. let (r, s') = m s in continue-Agree Fails f g h r s' (km.at s p);
  }

module _ {E S A : Type 0} {P : S → Type 0} where
  pub Agree-refl : (m : Exec E S A) → Agree P m m
  Agree-refl m = record { at = λ s p. refl }

  pub Agree-if :
      (b : Bool) (m n n' : Exec E S A)
      → Agree P n n'
      → Agree P (if b then m else n) (if b then m else n')
  Agree-if true m n n' h = Agree-refl m
  Agree-if false m n n' h = h

  pub Agree-when_some :
      {B : Type 0} (o : Option B) (f : B → Exec E S A) (m n : Exec E S A)
      → Agree P m n
      → Agree P (when_some o f m) (when_some o f n)
  Agree-when_some (some b) f m n h = Agree-refl (f b)
  Agree-when_some none f m n h = h
