-- ===== src/Provisioning/Assertions.antt =====
-- What the operations establish of the status object and of its last write, and one rule for each
-- action that they are built from.
use metio.Base.{
  ℕ, ◌+◌, String, ◌≡◌, refl, ◌∙◌, Bool, true, false, Option, none, some, List, [], ◌∷◌,
}
use metio.Types.{ProvisioningState, completed, failed, ProvisioningStatus}
use metio.Exec.{Error, ◌>>=◌, Env, call, sleep}
use metio.Exec.Triple.{Triple, Triple-bind}
use metio.Provisioning.Calls.{Call, save_provisioning, Answer, Run, Action}

-- The status that was written last, with the server that it was written for. The newest call is
-- the first of the list.
abbrev pub last_saved : List Call → Option (String × ProvisioningStatus)
last_saved [] = none
last_saved (save_provisioning id status ∷ calls) = some (id, status)
last_saved (_ ∷ calls) = last_saved calls

-- The call is no write of the status.
abbrev pub is_silent : Call → Bool
is_silent (save_provisioning id status) = false
is_silent _ = true

pub last_saved-silent :
    (c : Call) (calls : List Call) → is_silent c ≡ true → last_saved (c ∷ calls) ≡ last_saved calls
last_saved-silent (save_provisioning id status) calls h = cc
last_saved-silent _ calls h = refl

module _ (server_id : String) where
  -- The object's state is `state`, and the object as it is was written last.
  pub record IsSaved (state : ProvisioningState) (w : Run) : Type 0 where
    pub state_is : w.object.state ≡ state
    pub saved : last_saved w.history ≡ some (server_id, w.object)

  -- The operation has failed with `e`: the status says so, and was written last.
  pub record IsFailed (e : Error) (w : Run) : Type 0 where
    pub as_failed : IsSaved failed w
    pub message : w.object.error ≡ e.text

  abbrev pub IsCompleted : Run → Type 0
  IsCompleted = IsSaved completed

abbrev pub Anything : Run → Type 0
Anything w = Unit

module _ (server_id : String) where
  -- Started with `P`, the action ends with `Q`, or with an error and the status failed with it.
  abbrev pub Leads : {A : Type 0} → (Run → Type 0) → Action A → (Run → Type 0) → Type 0
  Leads P m Q = Triple (IsFailed server_id) P m (λ _. Q)

module _ {server_id : String} {A B : Type 0} {P Q R : Run → Type 0} where
  pub Leads-bind :
      (m : Action A) (f : A → Action B)
      → Leads server_id P m Q
      → ((a : A) → Leads server_id Q (f a) R)
      → Leads server_id P (m >>= f) R
  Leads-bind = Triple-bind

-- Assertions that a call which writes no status leaves as they are.
pub record IsStable (P : Run → Type 0) : Type 0 where
  pub keep :
      (w : Run) (c : Call) (time : ℕ)
      → is_silent c ≡ true
      → P w
      → P (record w { history = c ∷ w.history; clock = time })
  pub wait : (w : Run) (time : ℕ) → P w → P (record w { clock = time })

pub Anything-IsStable : IsStable Anything
Anything-IsStable = record { keep = λ w c time h p. tt; wait = λ w time p. tt }

pub IsSaved-IsStable :
    (server_id : String) (state : ProvisioningState) → IsStable (IsSaved server_id state)
IsSaved-IsStable server_id state = record {
  keep = λ w c time h p. record {
    state_is = p.state_is;
    saved = last_saved-silent c w.history h ∙ p.saved;
  };
  wait = λ w time p. record { state_is = p.state_is; saved = p.saved };
}

module _ {server_id : String} (env : Env Call Answer) {P : Run → Type 0} (stable : IsStable P) where
  pub Leads-call : (c : Call) → is_silent c ≡ true → Leads server_id P (call env c) P
  unfolding call
  Leads-call c h = record { at = λ w p. stable.keep w c (w.clock + env.latency w.history) h p }

  pub Leads-sleep : (d : ℕ) → Leads server_id P (sleep env d) P
  unfolding sleep
  Leads-sleep d = record { at = λ w p. stable.wait w (w.clock + d + env.latency w.history) p }
