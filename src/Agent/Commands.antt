-- ===== src/Agent/Commands.antt =====
-- What the agent reports of a command.
use metio.Types.{Status, map_get}
use metio.Base.{
  ◌+++◌, String, ◌≡◌, refl, sym, ap, subst, ◌≢◌, ◌⊎◌, inl, Option, none, some, List, [], ◌∷◌,
  Bool-cases, ◌+◌, inr, true, false, ◌||◌, arith, ◌==◌, eq_iff,
}
use metio.Exec.Triple.{AtEnd, Triple, Triple-bind, Triple-if_either}
use metio.Exec.{Error, ok, ◌>>=◌, Env, call, Outcome, err, pure}
use metio.Agent.{
  AgentCall, report_status, save_world_files, restore_world_files, AgentAnswer, AgentRun,
  AgentAction, result_text, save_result, read_status, with_result, restore_result, command_result,
  handle_pending_command,
}

-- The result text of a step that was answered: "completed", or the error.
abbrev pub Tells : Option Error → String → Type 0
Tells none result = result ≡ "completed"
Tells (some e) result = result ≡ "failed: " +++ e.text

tells : (r : Option Error) → Tells r (result_text r)
unfolding result_text
tells none = refl
tells (some e) = refl

abbrev Never : Error → AgentRun → Type 0
Never e w = ⊥

differs : (s t : String) → (s == t) ≡ false → s ≢ t
differs s t e h = let q = (eq_iff s t).1 h in absurd (cc)

either_empty : (s t : String) → (s == "" || t == "") ≡ true → (s ≡ "") ⊎ (t ≡ "")
either_empty s t e = elim (Bool-cases (s == "")) [
  | inl p ↦ inl ((eq_iff s "").0 p)
  | inr p ↦ inr ((eq_iff t "").0 (ground arith))
]

none_empty :
    (s t : String) → (s == "" || t == "") ≡ false → ((s == "") ≡ false) × ((t == "") ≡ false)
none_empty s t e = (ground arith, ground arith)

module _ (env : Env AgentCall AgentAnswer) (status : Status) (before : List AgentCall) where
  abbrev argument : String → String
  argument key = map_get key status.pending_command_args

  abbrev requested : AgentCall
  requested =
      restore_world_files (argument "snapshotId") (argument "repository") (argument "password")

  -- The save was requested and has run, and the result tells its answer.
  pub record IsSaved (result : String) (calls : List AgentCall) : Type 0 where
    pub asked : status.pending_command ≡ "save"
    pub ran : calls ≡ save_world_files ∷ before
    pub told : Tells (env.answer before save_world_files) result

  -- A restore with all its arguments was requested and has run with them, and the result tells its
  -- answer.
  pub record IsRestored (result : String) (calls : List AgentCall) : Type 0 where
    pub asked : status.pending_command ≡ "restore"
    pub snapshot : argument "snapshotId" ≢ ""
    pub repository : argument "repository" ≢ ""
    pub password : argument "password" ≢ ""
    pub ran : calls ≡ requested ∷ before
    pub told : Tells (env.answer before requested) result

  -- The command is none of the two, or a restore without an argument.
  abbrev pub IsUnusable : Type 0
  IsUnusable =
      ((status.pending_command ≢ "save") × (status.pending_command ≢ "restore"))
      ⊎ ((status.pending_command ≡ "restore")
          × ((argument "snapshotId" ≡ "")
              ⊎ ((argument "repository" ≡ "") ⊎ (argument "password" ≡ ""))))

  -- Nothing has run, and the result is a failure.
  pub record IsRejected (result : String) (calls : List AgentCall) : Type 0 where
    pub unusable : IsUnusable
    pub ran : calls ≡ before
    pub reason : String
    pub told : result ≡ "failed: " +++ reason

  abbrev pub IsAnswer : String → List AgentCall → Type 0
  IsAnswer result calls = IsSaved result calls ⊎ (IsRestored result calls ⊎ IsRejected result calls)

  -- The status that is reported: the one that was read, without the command and its arguments, and
  -- with the result.
  pub record IsAnswered (reported : Status) (result : String) : Type 0 where
    pub no_command : reported.pending_command ≡ ""
    pub no_arguments : reported.pending_command_args ≡ []
    pub result_is : reported.pending_command_result ≡ result
    pub rest :
        record reported {
          pending_command = status.pending_command;
          pending_command_args = status.pending_command_args;
          pending_command_result = status.pending_command_result;
        }
        ≡ status

  -- The last call reports this status, after the calls that the command stands for.
  pub record IsReported (w : AgentRun) : Type 0 where
    pub reported : Status
    pub result : String
    pub calls : List AgentCall
    pub last_call : w.history ≡ report_status reported ∷ calls
    pub answered : IsAnswered reported result
    pub answer : IsAnswer result calls

  abbrev Answers : AgentAction String → Type 0
  Answers m = Triple Never (λ w. w.history ≡ before) m (λ result w. IsAnswer result w.history)

  -- A step that was called right after `before`.
  ran_next :
      (c : AgentCall) (f : AgentAnswer c → String) (w : AgentRun)
      → w.history ≡ before
      → ((result : String) (calls : List AgentCall)
          → calls ≡ c ∷ before
          → result ≡ f (env.answer before c)
          → IsAnswer result calls)
      → IsAnswer (f (env.answer w.history c)) (c ∷ w.history)
  ran_next c f w e h = h _ _ (ap (λ x. c ∷ x) e) (ap (λ x. f (env.answer x c)) e)

  saved-Answers : status.pending_command ≡ "save" → Answers (save_result env)
  unfolding save_result call ◌>>=◌
  saved-Answers asked = record {
    at = λ w e. ran_next save_world_files result_text w e λ result calls ran q.
        inl (record { asked = asked; ran = ran; told = subst (Tells _) (sym q) (tells _) });
  }

  rejected-Answers : (reason : String) → IsUnusable → Answers (pure ("failed: " +++ reason))
  rejected-Answers reason unusable = record {
    at = λ w e. inr (inr (record { unusable = unusable; ran = e; reason = reason; told = refl }));
  }

  restored-Answers :
      status.pending_command ≡ "restore"
      → argument "snapshotId" ≢ ""
      → argument "repository" ≢ ""
      → argument "password" ≢ ""
      → Answers (call env requested >>= λ r. pure (result_text r))
  unfolding call ◌>>=◌
  restored-Answers asked s r p = record {
    at = λ w e. ran_next requested result_text w e λ result calls ran q. inr (
        inl (record {
          asked = asked;
          snapshot = s;
          repository = r;
          password = p;
          ran = ran;
          told = subst (Tells _) (sym q) (tells _);
        }));
  }

  restore-Answers :
      status.pending_command ≡ "restore"
      → Answers
          (restore_result env (argument "snapshotId") (argument "repository") (argument "password"))
  unfolding restore_result
  restore-Answers asked =
      Triple-if_either (argument "snapshotId" == "") _ _
        (λ e.
          rejected-Answers "restore command is missing snapshotId"
            (inr (asked, inl ((eq_iff _ _).0 e))))
        λ s.
          Triple-if_either (argument "repository" == "" || argument "password" == "") _ _
            (λ e.
              rejected-Answers "restore command is missing repository or password"
                (inr (asked, inr (either_empty _ _ e))))
            λ e.
              restored-Answers asked (differs _ _ s) (differs _ _ (none_empty _ _ e).0)
                (differs _ _ (none_empty _ _ e).1)

  command_result-Answers : Answers (command_result env status)
  unfolding command_result
  command_result-Answers =
      Triple-if_either (status.pending_command == "save") _ _
        (λ e. saved-Answers ((eq_iff _ _).0 e))
        λ s.
          Triple-if_either (status.pending_command == "restore") _ _
            (λ e. restore-Answers ((eq_iff _ _).0 e))
            λ r. rejected-Answers _ (inl (differs _ _ s, differs _ _ r))

module _ (env : Env AgentCall AgentAnswer) (status : Status) (before : List AgentCall) where
  report_command :
      Triple Never
        (λ w. w.history ≡ before)
        (command_result env status >>= λ result.
          call env (report_status (with_result status result)))
        (λ _. IsReported env status before)
  unfolding call with_result
  report_command = Triple-bind _ _ (command_result-Answers env status before) λ result. record {
    at = λ w p. record {
      reported = with_result status result;
      result = result;
      calls = w.history;
      last_call = refl;
      answered = record { no_command = refl; no_arguments = refl; result_is = refl; rest = refl };
      answer = p;
    };
  }

ends :
    (P : AgentRun → Type 0) (r : Outcome Error (Option Error)) (w : AgentRun)
    → AtEnd Never (λ _. P) r w
    → P w
ends P (ok a) w h = h
ends P (err e) w h = absurd h

-- A command that stands in the status document is always answered: the agent's last call reports the
-- status that was read, with the command and its arguments taken out, a result put in, and nothing
-- else changed. For "save" the save has run right before, and for "restore" with all its arguments
-- the restore with them; the result is then "completed" if that had no error, and "failed: " with the
-- error otherwise. For any other command, and for a restore without an argument, nothing has run and
-- the result is a failure.
pub handle_pending_command-IsReported :
    (env : Env AgentCall AgentAnswer) (w : AgentRun) (status : Status)
    → env.answer w.history read_status ≡ ok status
    → (status.pending_command == "") ≡ false
    → IsReported env status (read_status ∷ w.history) (handle_pending_command env w).1
unfolding handle_pending_command ◌>>=◌ call
handle_pending_command-IsReported env w status h k =
    let w' : AgentRun = record w {
      history = read_status ∷ w.history;
      clock = w.clock + env.latency w.history;
    } in
    rw (h, k)
      (ends (IsReported env status (read_status ∷ w.history)) _ _
        ((report_command env status (read_status ∷ w.history)).at w' refl))
