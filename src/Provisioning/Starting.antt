-- ===== src/Provisioning/Starting.antt =====
-- How `StartOperation` of the Cloud Tasks executor ends.
use metio.Base.{
  if◌then◌else◌, ◌+++◌, decimal, ◌/◌, String, ◌≡◌, ◌⊎◌, inr, Bool, true, false, Option, none, some,
  List, [], ◌∷◌, refl, inl, ◌↔◌, arith,
}
use metio.Types.{
  Time, ProvisioningState, in_progress, failed, ProvisioningOperation, ProvisioningStatus, pending,
  completed,
}
use metio.Exec.{
  Error, wrap, Outcome, ok, err, pure, raise, ◌>>=◌, when_some, Env, call, now, new_error,
}
use metio.Provisioning.Calls.{
  Call, get_provisioning, save_provisioning, create_task, Answer, Run, second,
}
use metio.Provisioning.Executor.{
  Executor, operation_in_progress, is_in_progress, blocks, initial_status, task_url,
  start_operation,
}

-- The stored status is in progress.
abbrev pub IsRunning : Outcome Error (Option ProvisioningStatus) → Type 0
IsRunning (ok (some status)) = status.state ≡ in_progress
IsRunning _ = ⊥

pub is_in_progress_iff : (s : ProvisioningState) → (is_in_progress s ≡ true) ↔ (s ≡ in_progress)
unfolding is_in_progress
is_in_progress_iff in_progress = (λ h. refl, λ h. refl)
is_in_progress_iff pending = (λ h. ground arith, λ h. ground arith)
is_in_progress_iff completed = (λ h. ground arith, λ h. ground arith)
is_in_progress_iff failed = (λ h. ground arith, λ h. ground arith)

blocks_iff : (a : Outcome Error (Option ProvisioningStatus)) → (blocks a ≡ true) ↔ IsRunning a
unfolding blocks
blocks_iff (ok (some status)) = is_in_progress_iff status.state
blocks_iff (ok none) = (λ h. ground arith, λ h. absurd h)
blocks_iff (err e) = (λ h. ground arith, λ h. absurd h)

module _ (env : Env Call Answer) (e : Executor) (server_id : String) (before : List Call) where
  abbrev pub stored : Outcome Error (Option ProvisioningStatus)
  stored = env.answer before (get_provisioning server_id)

  -- The answer to the write of the status, after the read.
  abbrev pub saved : ProvisioningStatus → Option Error
  saved s = env.answer (get_provisioning server_id ∷ before) (save_provisioning server_id s)

  -- The address of the task of an operation.
  abbrev pub url_of : String → String
  url_of id = e.base_url +++ "/tasks/provision/" +++ server_id +++ "?opId=" +++ e.query_escape id

  -- The answer to the task of the status, after the write.
  abbrev pub queued : ProvisioningStatus → Option Error
  queued s =
      env.answer (save_provisioning server_id s ∷ get_provisioning server_id ∷ before)
        (create_task (url_of s.id))

  -- The write of `s` failed, and no task was enqueued.
  pub record IsUnsaved (s : ProvisioningStatus) (x : Outcome Error (Unit {0}) × Run) : Type 0 where
    pub failure : Error
    pub unsaved : saved s ≡ some failure
    pub returned : x.0 ≡ err (wrap "failed to save provisioning status: " failure)
    pub calls : x.1.history ≡ save_provisioning server_id s ∷ get_provisioning server_id ∷ before

  -- `s` was written without an error, and its task enqueued after that; the result tells whether
  -- this failed.
  pub record IsQueued (s : ProvisioningStatus) (x : Outcome Error (Unit {0}) × Run) : Type 0 where
    pub written : saved s ≡ none
    pub returned :
        ((queued s ≡ none) × (x.0 ≡ ok tt))
        ⊎ ((failure : Error) × (queued s ≡ some failure)
            × (x.0 ≡ err (wrap "failed to create cloud task: " failure)))
    pub calls :
        x.1.history
        ≡ create_task (url_of s.id)
          ∷ save_provisioning server_id s
          ∷ get_provisioning server_id
          ∷ before

  -- The status document of a new operation.
  pub record IsNew (operation : ProvisioningOperation) (outputs : List (String × String))
      (s : ProvisioningStatus) : Type 0 where
    pub identity : s.id ≡ server_id +++ "-" +++ decimal (s.started_at / second)
    pub operation_is : s.operation ≡ operation
    pub state : s.state ≡ in_progress
    pub outputs_are : s.outputs ≡ outputs
    pub no_steps : s.steps ≡ []
    pub no_error : s.error ≡ ""

  -- An operation is in progress: nothing but the read was called.
  pub record IsBlocked (x : Outcome Error (Unit {0}) × Run) : Type 0 where
    pub running : IsRunning stored
    pub returned : x.0 ≡ err (new_error ("operation already in progress for server " +++ server_id))
    pub calls : x.1.history ≡ get_provisioning server_id ∷ before

  -- No operation is in progress: the new status is written.
  pub record IsTried (operation : ProvisioningOperation) (outputs : List (String × String))
      (x : Outcome Error (Unit {0}) × Run) : Type 0 where
    pub free : ¬ IsRunning stored
    pub status : ProvisioningStatus
    pub is_new : IsNew operation outputs status
    pub ends : IsUnsaved status x ⊎ IsQueued status x

  task_ends :
      (s : ProvisioningStatus) (clock : Time) (object : ProvisioningStatus) (q : Option Error)
      → saved s ≡ none
      → queued s ≡ q
      → IsQueued s (
          when_some q
            (λ f. raise (wrap "failed to create cloud task: " f))
            (pure tt)
            (record {
              history =
                  create_task (task_url e server_id s.id)
                  ∷ save_provisioning server_id s
                  ∷ get_provisioning server_id
                  ∷ before;
              clock = clock;
              object = object;
            }))
  unfolding task_url
  task_ends s clock object none p q = record { written = p; returned = inl (q, refl); calls = refl }
  task_ends s clock object (some f) p q = record {
    written = p;
    returned = inr (f, q, refl);
    calls = refl;
  }

  abbrev Ends : ProvisioningStatus → Outcome Error (Unit {0}) × Run → Type 0
  Ends s x = IsUnsaved s x ⊎ IsQueued s x

  save-Ends :
      (s : ProvisioningStatus) (clock : Time) (object : ProvisioningStatus) (r : Option Error)
      → saved s ≡ r
      → Ends s (
          when_some r
            (λ f. raise (wrap "failed to save provisioning status: " f))
            (call env (create_task (task_url e server_id s.id)) >>= λ q.
              when_some q (λ f. raise (wrap "failed to create cloud task: " f)) (pure tt))
            (record {
              history = save_provisioning server_id s ∷ get_provisioning server_id ∷ before;
              clock = clock;
              object = object;
            }))
  unfolding call ◌>>=◌ task_url
  save-Ends s clock object none p = inr (task_ends s _ object _ p refl)
  save-Ends s clock object (some f) p =
      inl (record { failure = f; unsaved = p; returned = refl; calls = refl })

  -- The end of `StartOperation`.
  abbrev pub Started :
      ProvisioningOperation → List (String × String) → Outcome Error (Unit {0}) × Run → Type 0
  Started operation outputs x = IsBlocked x ⊎ IsTried operation outputs x

  start_ends :
      (operation : ProvisioningOperation) (outputs : List (String × String)) (clock : Time)
      (object : ProvisioningStatus) (b : Bool)
      → blocks stored ≡ b
      → Started operation outputs (
          (if b then raise (operation_in_progress server_id) else do
            time ← now
            let status = initial_status server_id operation outputs time
            r ← call env (save_provisioning server_id status)
            when_some r
                (λ f. raise (wrap "failed to save provisioning status: " f))
                (do
                  q ← call env (create_task (task_url e server_id status.id))
                  when_some q (λ f. raise (wrap "failed to create cloud task: " f)) (pure tt)))
            (record {
              history = get_provisioning server_id ∷ before;
              clock = clock;
              object = object;
            }))
  unfolding call ◌>>=◌ now initial_status task_url
  start_ends operation outputs clock object true p =
      inl (record { running = (blocks_iff stored).0 p; returned = refl; calls = refl })
  start_ends operation outputs clock object false p =
      let s = initial_status server_id operation outputs clock in
      inr (record {
        free = λ h. let q = (blocks_iff stored).1 h in absurd (cc);
        status = s;
        is_new = record {
          identity = refl;
          operation_is = refl;
          state = refl;
          outputs_are = refl;
          no_steps = refl;
          no_error = refl;
        };
        ends = save-Ends s _ object _ refl;
      })

-- Whatever the database and the queue answer, `StartOperation` ends in one of these ways. If the
-- stored status is in progress, it returns the error for that, and has called nothing but the read.
-- Otherwise it writes a new status: in progress, with the requested operation and outputs, and with
-- an id of the server and the time. If this write fails, it returns that error, and no task is
-- enqueued. If the write has succeeded, the task with the id of this status is enqueued, as the last
-- call, and the result is nil exactly if that had no error.
pub start_operation_outcome :
    (env : Env Call Answer) (e : Executor) (server_id : String) (operation : ProvisioningOperation)
    (outputs : List (String × String)) (w : Run)
    → Started env e server_id w.history operation outputs
        (start_operation env e server_id operation outputs w)
unfolding start_operation call ◌>>=◌
start_operation_outcome env e server_id operation outputs w =
    start_ends env e server_id w.history operation outputs _ _ _ refl
