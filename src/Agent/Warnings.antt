-- ===== src/Agent/Warnings.antt =====
-- The warnings before a scheduled shutdown.
use metio.Base.{ℕ, String, none, some, List, [], ◌∷◌}
use metio.Types.{Time}
use metio.Agent.{WarningState, warning_none, warning_five_min, warning_one_min, next_warning}

-- The messages that the checks at some times send, one after the other, for one shutdown time.
unfoldable pub messages : Time → WarningState → List Time → List String
messages shutdown state [] = []
messages shutdown state (time ∷ times) =
    let (next, message) = next_warning time shutdown state in
    let rest = messages shutdown next times in
    elim message [ none ↦ rest | some text ↦ text ∷ rest ]

-- The warnings that are still to come.
abbrev pub warnings_left : WarningState → ℕ
warnings_left warning_none = 2
warnings_left warning_five_min = 1
warnings_left warning_one_min = 0
