-- ===== src/Provisioning/Cancelling.antt =====
-- How `CancelOperation` of the Cloud Tasks executor ends.
use metio.Base.{
  if◌then◌else◌, String, ◌≡◌, ◌⊎◌, inr, Bool, true, false, not, Option, none, some, List, ◌∷◌, refl,
  inl, subst, ◌+++◌,
}
use metio.Types.{Time, in_progress, failed, ProvisioningStatus}
use metio.Exec.{Error, wrap, Outcome, ok, err, pure, raise, ◌>>=◌, when_some, Env, call, new_error}
use metio.Provisioning.Calls.{Call, get_provisioning, save_provisioning, Answer, Run}
use metio.Provisioning.Executor.{
  Executor, no_operation_in_progress, is_in_progress, cancel_loaded, cancel_operation, cancel_read,
}
use metio.Provisioning.Starting.{IsRunning, is_in_progress_iff, stored, saved}

module _ (env : Env Call Answer) (e : Executor) (server_id : String) (before : List Call) where
  -- The end of `CancelOperation`: refused after the read alone, or the status that was read is
  -- written with only its state and error changed, and the result tells whether that failed.
  pub record IsRefused (x : Outcome Error (Unit {0}) × Run) : Type 0 where
    pub idle : ¬ IsRunning (stored env e server_id before)
    pub returned : x.0 ≡ err (new_error ("no operation in progress for server " +++ server_id))
    pub calls : x.1.history ≡ get_provisioning server_id ∷ before

  pub record IsCancelled (x : Outcome Error (Unit {0}) × Run) : Type 0 where
    pub old : ProvisioningStatus
    pub loaded : stored env e server_id before ≡ ok (some old)
    pub running : old.state ≡ in_progress
    pub calls :
        x.1.history
        ≡ save_provisioning server_id (record old { state = failed; error = "cancelled by user" })
          ∷ get_provisioning server_id
          ∷ before
    pub returned :
        ((saved env e server_id before (record old { state = failed; error = "cancelled by user" })
            ≡ none)
          × (x.0 ≡ ok tt))
        ⊎ ((failure : Error) × (saved env e server_id before
                (record old { state = failed; error = "cancelled by user" })
              ≡ some failure)
            × (x.0 ≡ err (wrap "failed to cancel operation: " failure)))

  abbrev pub Cancelled : Outcome Error (Unit {0}) × Run → Type 0
  Cancelled x = IsRefused x ⊎ IsCancelled x

  cancel_ends :
      (old : ProvisioningStatus) (clock : Time) (object : ProvisioningStatus) (r : Option Error)
      → stored env e server_id before ≡ ok (some old)
      → old.state ≡ in_progress
      → saved env e server_id before (record old { state = failed; error = "cancelled by user" })
        ≡ r
      → IsCancelled (
          when_some r
            (λ f. raise (wrap "failed to cancel operation: " f))
            (pure tt)
            (record {
              history =
                  save_provisioning server_id
                    (record old { state = failed; error = "cancelled by user" })
                  ∷ get_provisioning server_id
                  ∷ before;
              clock = clock;
              object = object;
            }))
  cancel_ends old clock object none l p q = record {
    old = old;
    loaded = l;
    running = p;
    calls = refl;
    returned = inl (q, refl);
  }
  cancel_ends old clock object (some f) l p q = record {
    old = old;
    loaded = l;
    running = p;
    calls = refl;
    returned = inr (f, q, refl);
  }

  abbrev idle_run : Time → ProvisioningStatus → Run
  idle_run clock object = record {
    history = get_provisioning server_id ∷ before;
    clock = clock;
    object = object;
  }

  found_ends :
      (old : ProvisioningStatus) (clock : Time) (object : ProvisioningStatus) (b : Bool)
      → stored env e server_id before ≡ ok (some old)
      → is_in_progress old.state ≡ b
      → Cancelled (
          (if not b then raise (no_operation_in_progress server_id) else do
            r ← call env (
                save_provisioning server_id
                  (record old { state = failed; error = "cancelled by user" }))
            when_some r (λ f. raise (wrap "failed to cancel operation: " f)) (pure tt))
            (idle_run clock object))
  unfolding call ◌>>=◌
  found_ends old clock object true l p =
      inr (cancel_ends old _ object _ l ((is_in_progress_iff old.state).0 p) refl)
  found_ends old clock object false l p = inl (record {
    idle = λ h. let q = (is_in_progress_iff old.state).1 (subst IsRunning l h) in absurd (cc);
    returned = refl;
    calls = refl;
  })

  loaded_ends :
      (a : Outcome Error (Option ProvisioningStatus)) (clock : Time) (object : ProvisioningStatus)
      → stored env e server_id before ≡ a
      → Cancelled (cancel_read env e server_id a (idle_run clock object))
  unfolding cancel_read cancel_loaded
  loaded_ends (err f) clock object l =
      inl (record { idle = λ h. subst IsRunning l h; returned = refl; calls = refl })
  loaded_ends (ok none) clock object l =
      inl (record { idle = λ h. subst IsRunning l h; returned = refl; calls = refl })
  loaded_ends (ok (some old)) clock object l = found_ends old clock object _ l refl

-- Whatever the database answers, `CancelOperation` ends in one of two ways. If no status in progress
-- was read, it returns the error for that, and has called nothing but the read. Otherwise its last
-- call writes the status that was read as failed, with the error "cancelled by user" and all other
-- fields as they were, and it returns nil exactly if that had no error.
pub cancel_operation-Cancelled :
    (env : Env Call Answer) (e : Executor) (server_id : String) (w : Run)
    → Cancelled env e server_id w.history (cancel_operation env e server_id w)
unfolding cancel_operation call ◌>>=◌
cancel_operation-Cancelled env e server_id w = loaded_ends env e server_id w.history _ _ _ refl
