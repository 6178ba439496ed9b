-- ===== src/Tests/Restores.antt =====
-- Examples of the restore of a world by the agent.
use metio.Base.{beq, if◌then◌else◌, length, none, some}
use metio.Exec.{new_error, Env}
use metio.Agent.Restore.{DockerCall, DockerAnswer}

-- A docker client of which the restore of a snapshot fails.
abbrev failing_docker : Env DockerCall DockerAnswer
failing_docker = record {
  answer = λ calls c.
      if beq (length calls) 4 then ("", some (new_error "exit status 1")) else ("/data", none);
  latency = λ calls. 1;
}
