-- ===== src/Handlers/Guards.antt =====
-- What a handler may change, judged by the calls it has made before: the reasoning that the
-- theorems on the request handlers share.
use metio.Base.{ℕ, String, ◌≡◌, refl, Bool, true, false, Option, none, some, List, [], ◌∷◌, ◌⊎◌}
use metio.Exec.{Error, Outcome, ok, err, pure, Env, call, now}
use metio.Exec.Triple.{Triple, AtEnd}
use metio.Handlers.{
  HandlerCall, HandlerAnswer, Refusal, Visit, Handler, refuse, expect, no_error, require, decode,
  create_server_config, update_server_config, save_config_snapshot, update_status, upsert_backup,
  set_whitelist_config, add_whitelist_entry, remove_whitelist_entry, start_create,
  start_create_from_backup, start_update, start_destroy, revert_server_config, start_restore,
  start_instance, stop_instance,
}

-- The calls that change a document, an operation or an instance are no reads.
abbrev pub IsRead : HandlerCall → Type 0
IsRead (create_server_config _ _) = ⊥
IsRead (update_server_config _ _) = ⊥
IsRead (save_config_snapshot _ _) = ⊥
IsRead (update_status _ _) = ⊥
IsRead (upsert_backup _) = ⊥
IsRead (set_whitelist_config _ _) = ⊥
IsRead (add_whitelist_entry _ _) = ⊥
IsRead (remove_whitelist_entry _ _) = ⊥
IsRead (start_create _ _) = ⊥
IsRead (start_create_from_backup _ _) = ⊥
IsRead (start_update _ _ _) = ⊥
IsRead (start_destroy _) = ⊥
IsRead (revert_server_config _) = ⊥
IsRead (start_restore _ _ _) = ⊥
IsRead (start_instance _ _ _) = ⊥
IsRead (stop_instance _ _ _) = ⊥
IsRead _ = Unit

-- A handler that makes reads, and the other calls as far as `Writes` allows them.
abbrev pub ReadsAnd :
    (HandlerCall → List HandlerCall → Type 0) → HandlerCall → List HandlerCall → Type 0
ReadsAnd Writes c h = IsRead c ⊎ Writes c h

module _ (env : Env HandlerCall HandlerAnswer) where
  -- Among the calls of the list, `c` was made and its answer satisfies `P`.
  pub data Told (c : HandlerCall) (P : HandlerAnswer c → Type 0) : List HandlerCall → Type 0 where
    told_now : {before : List HandlerCall} → P (env.answer before c) → Told c P (c ∷ before)
    told_before :
        {d : HandlerCall} {before : List HandlerCall} → Told c P before → Told c P (d ∷ before)

module _ (Allowed : HandlerCall → List HandlerCall → Type 0) where
  -- Every call of the list was allowed after those before it.
  abbrev pub Guarded : List HandlerCall → Type 0
  Guarded [] = Unit
  Guarded (c ∷ before) = Allowed c before × Guarded before

  -- Every call was allowed, and `F` holds of the calls.
  pub record Knows (F : List HandlerCall → Type 0) (w : Visit) : Type 0 where
    pub guarded : Guarded w.history
    pub known : F w.history

  -- The end of a handler that refuses the request.
  abbrev pub Refused : Refusal → Visit → Type 0
  Refused r w = Guarded w.history

  conclude_end :
      {A : Type 0} (F G : A → List HandlerCall → Type 0)
      → ((a : A) (h : List HandlerCall) → F a h → G a h)
      → (r : Outcome Refusal A) (w : Visit) → AtEnd Refused (λ a. Knows (F a)) r w
      → AtEnd Refused (λ a. Knows (G a)) r w
  conclude_end F G f (ok a) w p = record { guarded = p.guarded; known = f a w.history p.known }
  conclude_end F G f (err e) w p = p

  pub Knows-call :
      (env : Env HandlerCall HandlerAnswer) {F : List HandlerCall → Type 0} (c : HandlerCall)
      (G : HandlerAnswer c → List HandlerCall → Type 0)
      → ((h : List HandlerCall) → F h → Allowed c h)
      → ((h : List HandlerCall) → F h → G (env.answer h c) (c ∷ h))
      → Triple Refused (Knows F) (call env c) (λ a. Knows (G a))
  unfolding call
  Knows-call env c G allowed told = record {
    at = λ w p. record {
      guarded = (allowed w.history p.known, p.guarded);
      known = told w.history p.known;
    };
  }

  module _ {F : List HandlerCall → Type 0} where
    pub Knows-now : Triple Refused (Knows F) now (λ _. Knows F)
    unfolding now
    Knows-now = record { at = λ w p. p }

    pub Knows-refuse :
        {A : Type 0} {Q : A → Visit → Type 0} (status : ℕ) (text : String)
        → Triple Refused (Knows F) (refuse {A = A} status text) Q
    Knows-refuse status text = record { at = λ w p. p.guarded }

    pub Knows-pure :
        {A : Type 0} (G : A → List HandlerCall → Type 0) (a : A)
        → ((h : List HandlerCall) → F h → G a h)
        → Triple Refused (Knows F) (pure a) (λ x. Knows (G x))
    Knows-pure G a f = record {
      at = λ w p. record { guarded = p.guarded; known = f w.history p.known };
    }

    pub Knows-require :
        (b : Bool) (status : ℕ) (text : String)
        → Triple Refused (Knows F) (require b status text) (λ _. Knows (λ h. F h × (b ≡ true)))
    unfolding require
    Knows-require true status text = record {
      at = λ w p. record { guarded = p.guarded; known = (p.known, refl) };
    }
    Knows-require false status text = Knows-refuse status text

    pub Knows-expect :
        {A : Type 0} (status : ℕ) (text : String) (r : Outcome Error A)
        → Triple Refused (Knows F) (expect status text r) (λ a. Knows (λ h. F h × (r ≡ ok a)))
    unfolding expect
    Knows-expect status text (ok a) = record {
      at = λ w p. record { guarded = p.guarded; known = (p.known, refl) };
    }
    Knows-expect status text (err e) = Knows-refuse status text

    pub Knows-no_error :
        (status : ℕ) (text : String) (r : Option Error)
        → Triple Refused (Knows F) (no_error status text r) (λ _. Knows (λ h. F h × (r ≡ none)))
    unfolding no_error
    Knows-no_error status text none = record {
      at = λ w p. record { guarded = p.guarded; known = (p.known, refl) };
    }
    Knows-no_error status text (some e) = Knows-refuse status text

    pub Knows-decode :
        {A : Type 0} (body : Option A)
        → Triple Refused (Knows F) (decode body) (λ a. Knows (λ h. F h × (body ≡ some a)))
    unfolding decode
    Knows-decode (some a) = record {
      at = λ w p. record { guarded = p.guarded; known = (p.known, refl) };
    }
    Knows-decode none = Knows-refuse _ _

  pub Knows-more :
      {A : Type 0} {F G : List HandlerCall → Type 0} {m : Handler A} {Q : A → Visit → Type 0}
      → ((h : List HandlerCall) → F h → G h)
      → Triple Refused (Knows G) m Q
      → Triple Refused (Knows F) m Q
  Knows-more f t = record {
    at = λ w p. t.at w (record { guarded = p.guarded; known = f w.history p.known });
  }

  pub Knows-conclude :
      {A : Type 0} {P : Visit → Type 0} {m : Handler A} {F G : A → List HandlerCall → Type 0}
      → Triple Refused P m (λ a. Knows (F a))
      → ((a : A) (h : List HandlerCall) → F a h → G a h)
      → Triple Refused P m (λ a. Knows (G a))
  Knows-conclude {m = m} {F = F} {G = G} t f = record {
    at = λ w p. conclude_end F G f (m w).0 (m w).1 (t.at w p);
  }

  -- What is known and does not depend on the calls can be taken as a hypothesis.
  pub Knows-given :
      {A P : Type 0} {F : List HandlerCall → Type 0} {m : Handler A} {Q : A → Visit → Type 0}
      → (P → Triple Refused (Knows F) m Q)
      → Triple Refused (Knows (λ h. F h × P)) m Q
  Knows-given t = record {
    at = λ w p. (t p.known.1).at w (record { guarded = p.guarded; known = p.known.0 });
  }
