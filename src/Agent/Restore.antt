-- ===== src/Agent/Restore.antt =====
-- The restore of a world by the machine agent: cmd/machine-agent/restore.go. Every step is a run of
-- the docker client, which the environment answers with its output and an error that may be nil. The
-- time limit of the context is the environment's: a run that it stops ends with an error.
use metio.Base.{if◌then◌else◌, ◌+++◌, String, Option, none, some, List, [], ◌∷◌, ◌==◌}
use metio.Exec.{Error, wrap, new_error, Outcome, ok, err, Exec, pure, ◌>>=◌, Env, World, call}

pub data DockerCall : Type 0 where
  docker : List String → DockerCall

abbrev pub DockerAnswer : DockerCall → Type 0
DockerAnswer c = String × Option Error

abbrev pub Docker : Type 0 → Type 0
Docker A = Exec Error (World DockerCall (Unit {0})) A

abbrev minecraft_unit : String
minecraft_unit = "minecraft.service"

abbrev pub backup_unit : String
backup_unit = "minecraft-backup.service"

abbrev pub agent_unit : String
agent_unit = "metio-machine-agent.service"

abbrev pub world_mount_dest : String
world_mount_dest = "/data"

-- `fmt.Errorf("<prefix>%w, output: %s", err, output)`, if there is an error.
unfoldable pub command_error : String → String × Option Error → Option Error
command_error prefix (output, none) = none
command_error prefix (output, some e) =
    some (record e { text = prefix +++ e.text +++ ", output: " +++ output })

-- The command line of `hostSystemctl`.
unfoldable pub host_systemctl : String → List String → DockerCall
host_systemctl agent_image args = docker (
    "run" ∷ "--rm" ∷ "--privileged" ∷ "--pid=host" ∷ "--user" ∷ "0" ∷ "--entrypoint"
    ∷ "/usr/bin/nsenter" ∷ agent_image ∷ "-t" ∷ "1" ∷ "-m" ∷ "-u" ∷ "-i" ∷ "-n"
    ∷ "/usr/bin/systemctl" ∷ args)

abbrev pub stop_command : String → DockerCall
stop_command agent_image = host_systemctl agent_image ("stop" ∷ minecraft_unit ∷ backup_unit ∷ [])

abbrev pub start_command : String → DockerCall
start_command agent_image = host_systemctl agent_image ("start" ∷ minecraft_unit ∷ backup_unit ∷ [])

abbrev pub inspect_image : String → DockerCall
inspect_image name = docker ("inspect" ∷ "--format" ∷ "{{.Config.Image}}" ∷ name ∷ [])

abbrev pub inspect_mount : String → String → DockerCall
inspect_mount name dest = docker (
    "inspect"
    ∷ "--format"
    ∷ ("{{ range .Mounts }}{{ if eq .Destination \"" +++ dest
        +++ "\" }}{{ .Source }}{{ end }}{{ end }}")
    ∷ name
    ∷ [])

-- The command line of `runResticRestore`.
unfoldable pub restic_restore : String → String → String → String → String → DockerCall
restic_restore backup_image world_dir snapshot_id repository password = docker (
    "run"
    ∷ "--rm"
    ∷ "--network"
    ∷ "host"
    ∷ "-e"
    ∷ ("RESTIC_REPOSITORY=" +++ repository)
    ∷ "-e"
    ∷ ("RESTIC_PASSWORD=" +++ password)
    ∷ "-v"
    ∷ (world_dir +++ ":" +++ world_mount_dest)
    ∷ "--entrypoint"
    ∷ "/usr/bin/restic"
    ∷ backup_image
    ∷ "restore"
    ∷ (snapshot_id +++ ":" +++ world_mount_dest)
    ∷ "--target"
    ∷ world_mount_dest
    ∷ [])

-- What `restoreMinecraftWorld` returns, by the error of the restore and that of the restart.
unfoldable pub restore_error : Option Error → Option Error → Option Error
restore_error (some e) (some s) = some (
    new_error
      (e.text +++ " (additionally, restarting Minecraft services failed: " +++ s.text +++ ")"))
restore_error (some e) none = some e
restore_error none (some s) =
    some (wrap "restore succeeded but restarting Minecraft services failed: " s)
restore_error none none = none

unfoldable pub present : String → String → Outcome Error String
present text missing = if text == "" then err (new_error missing) else ok text

-- `strings.TrimSpace` is a parameter.
module _ (trim_space : String → String) where
  unfoldable pub image_of : String → String × Option Error → Outcome Error String
  image_of name (output, some e) = err (record e {
    text = "docker inspect " +++ name +++ " image failed: " +++ e.text +++ ", output: " +++ output;
  })
  image_of name (output, none) =
      present (trim_space output) ("container " +++ name +++ " has no image reference")

  unfoldable pub mount_of : String → String → String × Option Error → Outcome Error String
  mount_of name dest (output, some e) = err (record e {
    text = "docker inspect " +++ name +++ " mounts failed: " +++ e.text +++ ", output: " +++ output;
  })
  mount_of name dest (output, none) =
      present (trim_space output)
        ("container " +++ name +++ " has no mount at destination " +++ dest)

module _ (env : Env DockerCall DockerAnswer) where
  unfoldable pub stop_minecraft_services : String → Docker (Option Error)
  stop_minecraft_services agent_image =
      call env (stop_command agent_image) >>= λ r. pure (command_error "systemctl stop failed: " r)

  unfoldable pub start_minecraft_services : String → Docker (Option Error)
  start_minecraft_services agent_image = call env (start_command agent_image) >>= λ r.
      pure (command_error "systemctl start failed: " r)

  unfoldable pub run_restic_restore :
      String → String → String → String → String → Docker (Option Error)
  run_restic_restore backup_image world_dir snapshot_id repository password =
      call env (restic_restore backup_image world_dir snapshot_id repository password) >>= λ r.
      pure (command_error "restic restore failed: " r)

  module _ (trim_space : String → String) (snapshot_id repository password : String) where
    -- From the stop on.
    unfoldable pub restore_stopped : String → String → String → Option Error → Docker (Option Error)
    restore_stopped agent_image backup_image world_dir (some e) =
        pure (some (wrap "failed to stop Minecraft services: " e))
    restore_stopped agent_image backup_image world_dir none =
        run_restic_restore backup_image world_dir snapshot_id repository password >>= λ restored.
        start_minecraft_services agent_image >>= λ started. pure (restore_error restored started)

    unfoldable pub restore_located : String → String → Outcome Error String → Docker (Option Error)
    restore_located agent_image backup_image (err e) =
        pure (some (wrap "unable to identify world directory: " e))
    restore_located agent_image backup_image (ok world_dir) =
        stop_minecraft_services agent_image >>= restore_stopped agent_image backup_image world_dir

    unfoldable pub restore_imaged : String → Outcome Error String → Docker (Option Error)
    restore_imaged agent_image (err e) = pure (some (wrap "unable to identify backup image: " e))
    restore_imaged agent_image (ok backup_image) =
        call env (inspect_mount backup_unit world_mount_dest) >>= λ r.
        restore_located agent_image backup_image
          (mount_of trim_space backup_unit world_mount_dest r)

    unfoldable pub restore_hosted : Outcome Error String → Docker (Option Error)
    restore_hosted (err e) = pure (some (wrap "unable to identify agent image: " e))
    restore_hosted (ok agent_image) = call env (inspect_image backup_unit) >>= λ r.
        restore_imaged agent_image (image_of trim_space backup_unit r)

    unfoldable pub restore_minecraft_world : Docker (Option Error)
    restore_minecraft_world = call env (inspect_image agent_unit) >>= λ r.
        restore_hosted (image_of trim_space agent_unit r)
