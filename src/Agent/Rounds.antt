-- ===== src/Agent/Rounds.antt =====
-- How a round of the machine agent ends.
use metio.Base.{
  ℕ, String, ◌≡◌, refl, ap, ◌⊎◌, inl, inr, Bool, true, false, Option, none, some, List, [], ◌∷◌,
  if◌then◌else◌,
}
use metio.Base.Int.{pos}
use metio.Types.{Time, Players, server_state_stopped, server_state_running, Status}
use metio.Exec.{Error, Outcome, ok, err, ◌>>=◌, Env, World, call, now}
use metio.Agent.Round.{
  RoundCall, check_shutdown, handle_command, get_service_running, get_player_count, get_uptime,
  fetch_status, put_status, RoundAnswer, Observed, nothing_observed, observed_status, observe_rest,
  observe, returned_error, report_observed, run_status_update, get_instance_ip, get_version,
  sync_players_of_server, or_default,
}

abbrev Log : Type 0
Log = World RoundCall (Unit {0})

-- The value of an answer, or the one that stands for an error.
abbrev pub IsOr : {A : Type 0} → A → Outcome Error A → A → Type 0
IsOr default (ok x) a = a ≡ x
IsOr default (err e) a = a ≡ default

or_default-IsOr :
    {A : Type 0} (default : A) (r : Outcome Error A) → IsOr default r (or_default default r)
unfolding or_default
or_default-IsOr default (ok x) = refl
or_default-IsOr default (err e) = refl

-- Nil, or the error.
abbrev pub IsReturned : Option Error → Outcome Error (Unit {0}) → Type 0
IsReturned none r = r ≡ ok tt
IsReturned (some e) r = r ≡ err e

abbrev started : List RoundCall
started = get_service_running ∷ handle_command ∷ check_shutdown ∷ []

-- The calls of a round up to the uptime, and up to the sync.
abbrev counted : List RoundCall
counted = get_player_count ∷ started

abbrev located : List RoundCall
located = get_instance_ip ∷ get_uptime ∷ counted

-- What the report says of the server, apart from its state, in the order of the fields.
abbrev pub Says : Status → Players → String → String → String → Bool → Type 0
Says s players uptime instance_ip version enabled =
    (s.players ≡ players)
    × (s.uptime ≡ uptime)
    × (s.instance_ip ≡ instance_ip)
    × (s.version ≡ version)
    × (s.whitelist_enabled ≡ enabled)

module _ (env : Env RoundCall RoundAnswer) (agent_version : String) where
  -- A report on a server that runs has the answers of the round, with the values that stand for an
  -- error; one on a server that does not run says nothing.
  abbrev pub IsObserved : Bool → Status → List RoundCall → Type 0
  IsObserved false reported before =
      (before ≡ started)
      × Says reported (record { current = pos 0; max = pos 0 }) "" "" "Unknown" false
  IsObserved true reported before =
      (before ≡ sync_players_of_server ∷ get_version ∷ located)
      × (reported.players ≡ (env.answer started get_player_count).0)
      × (env.answer counted get_uptime ≡ ok reported.uptime)
      × IsOr "" (env.answer (get_uptime ∷ counted) get_instance_ip) reported.instance_ip
      × IsOr "Unknown" (env.answer located get_version) reported.version
      × IsOr false (env.answer (get_version ∷ located) sync_players_of_server)
          reported.whitelist_enabled

  -- The pending command with its arguments, its result, and the shutdown time are as they were read.
  pub record IsKept (old reported : Status) : Type 0 where
    pub command : reported.pending_command ≡ old.pending_command
    pub arguments : reported.pending_command_args ≡ old.pending_command_args
    pub result : reported.pending_command_result ≡ old.pending_command_result
    pub shutdown : reported.scheduled_shutdown ≡ old.scheduled_shutdown

  abbrev StateOf : Bool → String → Type 0
  StateOf true state = state ≡ "RUNNING"
  StateOf false state = state ≡ "STOPPED"

  -- The last two calls read a status and write the reported one, and the result tells whether that
  -- failed.
  pub record IsRoundReported (running : Bool) (x : Outcome Error (Unit {0}) × Log) : Type 0 where
    pub before : List RoundCall
    pub reported : Status
    pub last_calls : x.1.history ≡ put_status reported ∷ fetch_status ∷ before
    pub kept : IsKept (env.answer before fetch_status).0 reported
    pub state : StateOf running reported.server_state
    pub observed : IsObserved running reported before
    pub agent : reported.agent_version ≡ agent_version
    pub returned : IsReturned (env.answer (fetch_status ∷ before) (put_status reported)) x.0

  returned_error-IsReturned : (o : Option Error) (w : Log) → IsReturned o (returned_error env o w).0
  unfolding returned_error
  returned_error-IsReturned none w = refl
  returned_error-IsReturned (some e) w = refl

  returned_error-history : (o : Option Error) (w : Log) → (returned_error env o w).1 ≡ w
  unfolding returned_error
  returned_error-history none w = refl
  returned_error-history (some e) w = refl

  state_of :
      (running : Bool)
      → StateOf running (if running then server_state_running else server_state_stopped)
  state_of true = refl
  state_of false = refl

  report_observed-IsRoundReported :
      (running : Bool) (seen : Observed) (w : Log)
      → ((time : Time) (old : Status)
          → IsObserved running (observed_status agent_version running seen time old) w.history)
      → IsRoundReported running (report_observed env agent_version running seen w)
  unfolding report_observed ◌>>=◌ call now observed_status
  report_observed-IsRoundReported running seen w h = record {
    before = w.history;
    reported = _;
    last_calls = ap (λ v. v.history) (returned_error-history _ _);
    kept = record { command = refl; arguments = refl; result = refl; shutdown = refl };
    state = state_of running;
    observed = h _ (env.answer w.history fetch_status).0;
    agent = refl;
    returned = returned_error-IsReturned _ _;
  }

  -- The uptime of a running server could not be read, and nothing was done after it.
  pub record IsRoundBroken (running : Bool) (x : Outcome Error (Unit {0}) × Log) : Type 0 where
    pub up : running ≡ true
    pub error : Error
    pub unread : env.answer counted get_uptime ≡ err error
    pub returned : x.0 ≡ err error
    pub last_call : x.1.history ≡ get_uptime ∷ counted

  -- A round that ends.
  abbrev pub IsRoundEnd : Bool → Outcome Error (Unit {0}) × Log → Type 0
  IsRoundEnd running x = IsRoundReported running x ⊎ IsRoundBroken running x

  rest-ends :
      (o : Outcome Error String) (clock : ℕ)
      → env.answer counted get_uptime ≡ o
      → IsRoundEnd true (
          (observe_rest env (env.answer started get_player_count).0 o
              >>= report_observed env agent_version true)
            (record { history = get_uptime ∷ counted; clock = clock; object = tt }))
  unfolding observe_rest ◌>>=◌ call observed_status
  rest-ends (err e) clock p =
      inr (record { up = refl; error = e; unread = p; returned = refl; last_call = refl })
  rest-ends (ok uptime) clock p = inl (
      report_observed-IsRoundReported true _ _
        λ time old. (refl, refl, p, or_default-IsOr _ _, or_default-IsOr _ _, or_default-IsOr _ _))

  observe-ends :
      (running : Bool) (clock : ℕ)
      → IsRoundEnd running (
          (observe env running >>= report_observed env agent_version running)
            (record { history = started; clock = clock; object = tt }))
  unfolding observe ◌>>=◌ call observed_status
  observe-ends false clock = inl (
      report_observed-IsRoundReported false nothing_observed _
        λ time old. (refl, (refl, refl, refl, refl, refl)))
  observe-ends true clock = rest-ends _ _ refl

-- A round always ends in one of two ways, whatever the calls answer. Either its last two calls read
-- a status and write it back: the pending command with its arguments and result and the shutdown
-- time as they were read, RUNNING or STOPPED as the server was found, and for a running server the
-- answers of the round to the other questions, with "", "Unknown" and false for an address, a version
-- or a sync that failed, and nothing for a stopped one; the round returns the error of the write, or
-- nil. Or the server is running, and its uptime could not be read: then the round returns that
-- error, and nothing is reported.
pub run_status_update-ends :
    (env : Env RoundCall RoundAnswer) (agent_version : String) (time : ℕ)
    → IsRoundEnd env agent_version
        (env.answer (handle_command ∷ check_shutdown ∷ []) get_service_running).0
        (run_status_update env agent_version (record { history = []; clock = time; object = tt }))
unfolding run_status_update ◌>>=◌ call
run_status_update-ends env agent_version time = observe-ends env agent_version _ _
