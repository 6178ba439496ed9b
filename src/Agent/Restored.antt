-- ===== src/Agent/Restored.antt =====
-- How a restore of the world ends.
use metio.Base.{String, ◌≡◌, ◌↔◌, Option, none, some, List, ◌∷◌, ◌⊎◌, []}
use metio.Exec.{Error, Outcome, ok, Env, World}
use metio.Agent.Restore.{
  DockerCall, DockerAnswer, command_error, stop_command, start_command, restic_restore, backup_unit,
  agent_unit, world_mount_dest, inspect_image, inspect_mount, image_of, mount_of,
}

abbrev Log : Type 0
Log = World DockerCall (Unit {0})

abbrev End : Type 0
End = Outcome Error (Option Error) × Log

module _ (env : Env DockerCall DockerAnswer) (snapshot_id repository password : String) where
  -- The services were stopped, the snapshot restored, and the services started again, also when the
  -- restore failed; nil was returned exactly if the restore and the start had no error.
  pub record IsRestarted (agent_image backup_image world_dir : String) (h : List DockerCall)
      (r : Option Error) (calls : List DockerCall) : Type 0 where
    pub stopped :
        command_error "systemctl stop failed: " (env.answer h (stop_command agent_image)) ≡ none
    pub last_calls :
        calls
        ≡ start_command agent_image
          ∷ restic_restore backup_image world_dir snapshot_id repository password
          ∷ stop_command agent_image
          ∷ h
    pub none_iff :
        (r ≡ none)
        ↔ (command_error "restic restore failed: " (
              env.answer
                (stop_command agent_image ∷ h)
                (restic_restore backup_image world_dir snapshot_id repository password))
            ≡ none)
          × (command_error "systemctl start failed: " (
                env.answer
                  (restic_restore backup_image world_dir snapshot_id repository password
                    ∷ stop_command agent_image
                    ∷ h)
                  (start_command agent_image))
              ≡ none)

  -- The stop failed, and nothing was done after it.
  pub record IsStillUp (agent_image : String) (h : List DockerCall) (r : Option Error)
      (calls : List DockerCall) : Type 0 where
    pub error : Error
    pub returned : r ≡ some error
    pub last_calls : calls ≡ stop_command agent_image ∷ h

  -- One of the two, for a run that ends.
  abbrev pub IsSettled : String → String → String → List DockerCall → End → Type 0
  IsSettled agent_image backup_image world_dir h x =
      (r : Option Error) × (x.0 ≡ ok r)
      × (IsStillUp agent_image h r x.1.history
          ⊎ IsRestarted agent_image backup_image world_dir h r x.1.history)

  abbrev looked : List DockerCall
  looked =
      inspect_mount backup_unit world_mount_dest
      ∷ inspect_image backup_unit
      ∷ inspect_image agent_unit
      ∷ []

  module _ (trim_space : String → String) where
    -- The images and the directory that the inspections name.
    pub record IsLocated (agent_image backup_image world_dir : String) : Type 0 where
      pub agent_found :
          image_of trim_space agent_unit (env.answer [] (inspect_image agent_unit)) ≡ ok agent_image
      pub backup_found :
          image_of trim_space backup_unit
            (env.answer (inspect_image agent_unit ∷ []) (inspect_image backup_unit))
          ≡ ok backup_image
      pub world_found :
          mount_of trim_space backup_unit world_mount_dest (
            env.answer
              (inspect_image backup_unit ∷ inspect_image agent_unit ∷ [])
              (inspect_mount backup_unit world_mount_dest))
          ≡ ok world_dir

    -- An inspection failed, and nothing but inspections was run.
    abbrev pub IsUntouched : End → Type 0
    IsUntouched x =
        (e : Error) × (x.0 ≡ ok (some e))
        × ((x.1.history ≡ inspect_image agent_unit ∷ [])
            ⊎ ((x.1.history ≡ inspect_image backup_unit ∷ inspect_image agent_unit ∷ [])
                ⊎ (x.1.history ≡ looked)))

    abbrev pub IsRestoreEnd : End → Type 0
    IsRestoreEnd x =
        IsUntouched x
        ⊎ ((agent_image : String) × (backup_image : String) × (world_dir : String) × IsLocated
              agent_image backup_image world_dir
            × IsSettled agent_image backup_image world_dir looked x)
