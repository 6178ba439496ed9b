-- ===== src/Handlers/Steps.antt =====
-- The steps of a request handler: each rule is one call with what is checked of its answer, and
-- what the rest of the handler then knows.
use metio.Base.{ℕ, String, ◌≡◌, refl, Option, none, List, ◌∷◌, ap, ◌∙◌, ◌⊎◌, inl, inr}
use metio.Exec.{Error, Outcome, ok, ◌>>=◌, Env, call}
use metio.Exec.Triple.{Triple, Triple-bind}
use metio.Handlers.{HandlerCall, HandlerAnswer, Visit, Handler, expect, no_error}
use metio.Handlers.Guards.{
  Told, told_now, told_before, Knows, Refused, Knows-call, Knows-no_error, Knows-more, Knows-expect,
}

-- What is known stays known after any further call.
pub record Keeps (F : List HandlerCall → Type 0) : Type 0 where
  pub keep : {c : HandlerCall} {h : List HandlerCall} → F h → F (c ∷ h)

pub keeps_nothing : Keeps (λ h. Unit)
keeps_nothing = record { keep = λ f. f }

pub keeps_fixed : {P : Type 0} → Keeps (λ h. P)
keeps_fixed = record { keep = λ f. f }

module _ {F G : List HandlerCall → Type 0} where
  pub keeps_both : Keeps F → Keeps G → Keeps (λ h. F h × G h)
  keeps_both kf kg = record { keep = λ p. (kf.keep p.0, kg.keep p.1) }

  pub keeps_either : Keeps F → Keeps G → Keeps (λ h. F h ⊎ G h)
  keeps_either kf kg = record {
    keep = λ s. elim s [ inl f ↦ inl (kf.keep f) | inr g ↦ inr (kg.keep g) ];
  }

module _ (env : Env HandlerCall HandlerAnswer) where
  pub keeps_told : (c : HandlerCall) (P : HandlerAnswer c → Type 0) → Keeps (Told env c P)
  keeps_told c P = record { keep = λ t. told_before t }

  pub Told_map :
      (c : HandlerCall) {P R : HandlerAnswer c → Type 0}
      → ((a : HandlerAnswer c) → P a → R a)
      → {h : List HandlerCall} → Told env c P h
      → Told env c R h
  Told_map c f (told_now p) = told_now (f _ p)
  Told_map c f (told_before t) = told_before (Told_map c f t)

  module _ (Allowed : HandlerCall → List HandlerCall → Type 0) {F : List HandlerCall → Type 0}
      {B : Type 0} {Q : B → Visit → Type 0} (keeps : Keeps F) (c : HandlerCall)
      (allowed : (h : List HandlerCall) → F h → Allowed c h) where
    -- A call, with nothing checked.
    pub ask :
        (k : HandlerAnswer c → Handler B)
        → ((a : HandlerAnswer c)
            → Triple
                (Refused Allowed)
                (Knows Allowed (λ h. F h × Told env c (λ x. x ≡ a) h))
                (k a)
                Q)
        → Triple (Refused Allowed) (Knows Allowed F) (call env c >>= k) Q
    ask k then =
        Triple-bind _ _
          (Knows-call Allowed env c (λ a h. F h × Told env c (λ x. x ≡ a) h) allowed
            λ h f. (keeps.keep f, told_now refl))
          then

    -- A call that must not fail; `read` is the identity.
    pub ask_ok :
        {A : Type 0} (read : HandlerAnswer c → Outcome Error A) (status : ℕ) (text : String)
        (k : A → Handler B)
        → ((a : A)
            → Triple
                (Refused Allowed)
                (Knows Allowed (λ h. F h × Told env c (λ x. read x ≡ ok a) h))
                (k a)
                Q)
        → Triple
            (Refused Allowed)
            (Knows Allowed F)
            (call env c >>= λ r. expect status text (read r) >>= k)
            Q
    ask_ok read status text k then = ask _ λ r.
        Triple-bind _ _ (Knows-expect Allowed status text (read r)) λ a.
          Knows-more Allowed (λ h p. (p.0.0, Told_map c (λ x e. ap read e ∙ p.1) p.0.1)) (then a)

    -- A write that must not fail.
    pub ask_done :
        (read : HandlerAnswer c → Option Error) (status : ℕ) (text : String)
        (k : Unit {0} → Handler B)
        → Triple
            (Refused Allowed)
            (Knows Allowed (λ h. F h × Told env c (λ x. read x ≡ none) h))
            (k tt)
            Q
        → Triple
            (Refused Allowed)
            (Knows Allowed F)
            (call env c >>= λ r. no_error status text (read r) >>= k)
            Q
    ask_done read status text k then = ask _ λ r.
        Triple-bind _ _ (Knows-no_error Allowed status text (read r))
          λ a. Knows-more Allowed (λ h p. (p.0.0, Told_map c (λ x e. ap read e ∙ p.1) p.0.1)) then
