-- ===== src/Agent/Round.antt =====
-- One round of the machine agent: runStatusUpdate of cmd/machine-agent/main.go. The calls are the
-- function variables through which the program makes each step, and the controller API. Tracing is
-- left out.
use metio.Base.{if◌then◌else◌, String, Bool, true, false, Option, none, some}
use metio.Base.Int.{pos}
use metio.Types.{Time, server_state_stopped, server_state_running, Players, Status}
use metio.Exec.{Error, Outcome, ok, err, Exec, pure, raise, ◌>>=◌, Env, World, call, now}

pub data RoundCall : Type 0 where
  -- the function variables, by the names without `Func`
  check_shutdown handle_command : RoundCall
  get_service_running get_player_count get_uptime get_instance_ip get_version : RoundCall
  sync_players_of_server : RoundCall
  -- the controller API
  fetch_status : RoundCall
  put_status : Status → RoundCall

-- A value and an error that is only logged, or a value or an error.
abbrev pub RoundAnswer : RoundCall → Type 0
RoundAnswer get_service_running = Bool × Option Error
RoundAnswer get_player_count = Players × Option Error
RoundAnswer get_uptime = Outcome Error String
RoundAnswer get_instance_ip = Outcome Error String
RoundAnswer get_version = Outcome Error String
RoundAnswer sync_players_of_server = Outcome Error Bool
RoundAnswer fetch_status = Status × Option Error
RoundAnswer _ = Option Error

abbrev pub Round : Type 0 → Type 0
Round A = Exec Error (World RoundCall (Unit {0})) A

-- What the round has found out of the server.
pub record Observed : Type 0 where
  pub players : Players
  pub uptime : String
  pub instance_ip : String
  pub version : String
  pub whitelist_enabled : Bool

abbrev pub nothing_observed : Observed
nothing_observed = record {
  players = record { current = pos 0; max = pos 0 };
  uptime = "";
  instance_ip = "";
  version = "Unknown";
  whitelist_enabled = false;
}

-- The value, or the one that an error is replaced by.
unfoldable pub or_default : {A : Type 0} → A → Outcome Error A → A
or_default default (ok a) = a
or_default default (err e) = default

unfoldable pub observed_status : String → Bool → Observed → Time → Status → Status
observed_status agent_version running seen time status = record status {
  players = seen.players;
  timestamp = time;
  uptime = seen.uptime;
  server_state = if running then server_state_running else server_state_stopped;
  instance_ip = seen.instance_ip;
  version = seen.version;
  whitelist_enabled = seen.whitelist_enabled;
  agent_version = agent_version;
}

module _ (env : Env RoundCall RoundAnswer) where
  -- From the uptime on.
  unfoldable pub observe_rest : Players → Outcome Error String → Round Observed
  observe_rest players (err e) = raise e
  observe_rest players (ok uptime) = call env get_instance_ip >>= λ ip.
      call env get_version >>= λ version. call env sync_players_of_server >>= λ enabled.
      pure (record {
        players = players;
        uptime = uptime;
        instance_ip = or_default "" ip;
        version = or_default "Unknown" version;
        whitelist_enabled = or_default false enabled;
      })

  unfoldable pub observe : Bool → Round Observed
  observe false = pure nothing_observed
  observe true = call env get_player_count >>= λ count. call env get_uptime >>= observe_rest count.0

  unfoldable pub returned_error : Option Error → Round (Unit {0})
  returned_error none = pure tt
  returned_error (some e) = raise e

  unfoldable pub report_observed : String → Bool → Observed → Round (Unit {0})
  report_observed agent_version running seen = call env fetch_status >>= λ current. now >>= λ time.
      call env (put_status (observed_status agent_version running seen time current.0))
      >>= returned_error

  unfoldable pub run_status_update : String → Round (Unit {0})
  run_status_update agent_version = call env check_shutdown >>= λ checked.
      call env handle_command >>= λ handled. call env get_service_running >>= λ running.
      observe running.0 >>= report_observed agent_version running.0
