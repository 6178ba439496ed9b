-- ===== src/Agent/Syncs.antt =====
-- The calls of the whitelist sync.
use metio.Base.{if◌then◌else◌, ◌≡◌, Bool, List, [], ◌∷◌, ◌++◌, map, Option, none}
use metio.Types.{WhitelistEntry}
use metio.Exec.{ok, Env, World, Error, Outcome}
use metio.Agent.Whitelist.{
  MinecraftWhitelistEntry, WhitelistCall, add_player, remove_player, WhitelistAnswer, Sync,
  has_player, has_entry, read_properties, set_enabled, enabled_of, differ, read_minecraft_whitelist,
  entries_map,
}

-- The elements of which the test is false.
unfoldable pub rejected : {A : Type 0} → (A → Bool) → List A → List A
rejected test [] = []
rejected test (x ∷ xs) = let rest = rejected test xs in if test x then rest else x ∷ rest

-- The log after the calls, which are listed in the order in which they are made.
unfoldable pub after : List WhitelistCall → List WhitelistCall → List WhitelistCall
after [] h = h
after (c ∷ cs) h = after cs (c ∷ h)

abbrev Log : Type 0
Log = World WhitelistCall (Unit {0})

-- From every state the action ends without an error and makes these calls, whatever they answer.
record Makes (m : Sync (Unit {0})) (cs : List WhitelistCall) : Type 0 where
  returned : (w : Log) → (m w).0 ≡ ok tt
  made : (w : Log) → (m w).1.history ≡ after cs w.history

-- The calls that bring the players of the server in line with the entries.
unfoldable pub player_calls :
    List WhitelistEntry → List WhitelistEntry → List MinecraftWhitelistEntry → List WhitelistCall
player_calls ordered known players =
    map (λ e. add_player e.username) (rejected (λ e. has_player e.uuid players) ordered)
    ++ map (λ m. remove_player m.name) (rejected (λ m. has_entry m.uuid known) players)

-- The call that sets the wanted setting, if it is not the current one.
abbrev pub switch_calls : Bool → Bool → List WhitelistCall
switch_calls wanted current = if differ wanted current then set_enabled wanted ∷ [] else []

module _ (env : Env WhitelistCall WhitelistAnswer) where
  -- The sync returned the wanted setting and no error; after the calls `h` it has read the current
  -- setting, and set the wanted one if they differ.
  pub record IsSynced (wanted : Bool) (h : List WhitelistCall)
      (r : Outcome Error (Bool × Option Error) × Log) : Type 0 where
    pub returned : r.0 ≡ ok (wanted, none)
    pub made :
        r.1.history
        ≡ after
            (switch_calls wanted (enabled_of (env.answer h read_properties)))
            (read_properties ∷ h)

  module _ (order : List WhitelistEntry → List WhitelistEntry) where
    abbrev exchanged :
        List WhitelistEntry → List MinecraftWhitelistEntry → List WhitelistCall → List WhitelistCall
    exchanged entries players h =
        after (player_calls (order (entries_map [] entries)) (entries_map [] entries) players)
          (read_minecraft_whitelist ∷ h)
