-- ===== src/Tests/Rounds.antt =====
-- Examples of a round of the agent.
use metio.Base.{true, none, List, [], ◌∷◌}
use metio.Base.Int.{pos}
use metio.Types.{zero_status}
use metio.Exec.{ok, Env}
use metio.Agent.Round.{
  RoundCall, check_shutdown, handle_command, get_service_running, get_player_count, get_uptime,
  get_instance_ip, get_version, sync_players_of_server, fetch_status, put_status, RoundAnswer,
  run_status_update,
}
use metio.Agent.Rounds.{run_status_update-ends, IsRoundEnd}

abbrev round_answers : List RoundCall → (c : RoundCall) → RoundAnswer c
round_answers calls check_shutdown = none
round_answers calls handle_command = none
round_answers calls get_service_running = (true, none)
round_answers calls get_player_count = (record { current = pos 2; max = pos 20 }, none)
round_answers calls get_uptime = ok "1:05"
round_answers calls get_instance_ip = ok "203.0.113.7"
round_answers calls get_version = ok "1.21.4"
round_answers calls sync_players_of_server = ok true
round_answers calls fetch_status = (record zero_status { pending_command = "save" }, none)
round_answers calls (put_status status) = none

abbrev round_env : Env RoundCall RoundAnswer
round_env = record { answer = round_answers; latency = λ calls. 1 }

run_status_update-ends_example :
    IsRoundEnd round_env "1.0"
      (round_env.answer (handle_command ∷ check_shutdown ∷ []) get_service_running).0
      (run_status_update round_env "1.0" (record { history = []; clock = 7; object = tt }))
run_status_update-ends_example = run_status_update-ends round_env "1.0" 7
