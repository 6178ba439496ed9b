-- ===== src/Types/Codec.antt =====
-- The wire names of the two provisioning enumerations (`String`, `MarshalJSON`, `UnmarshalJSON` of
-- internal/db/provisioning.go). The quoting of a JSON string is that of the standard library; what
-- is modelled is the text inside the quotes.
use metio.Base.{if◌then◌else◌, String, ◌≡◌, refl, ◌↔◌, Option, none, some, arith, ◌==◌, eq_iff}
use metio.Types.{
  ProvisioningState, pending, in_progress, completed, failed, ProvisioningOperation, create, update,
  destroy, restore,
}

-- `ProvisioningState.String`, for the declared states. The source answers any other integer with
-- "UNKNOWN", which the type has no value for.
unfoldable pub state_string : ProvisioningState → String
state_string pending = "PENDING"
state_string in_progress = "IN_PROGRESS"
state_string completed = "COMPLETED"
state_string failed = "FAILED"

-- `ProvisioningState.UnmarshalJSON`; `none` is the error for an unknown name.
unfoldable pub parse_state : String → Option ProvisioningState
parse_state str =
    if str == "PENDING"
    then some pending
    else if str == "IN_PROGRESS"
    then some in_progress
    else if str == "COMPLETED"
    then some completed
    else if str == "FAILED"
    then some failed
    else none

-- `ProvisioningOperation.String`, likewise for the declared operations.
unfoldable pub operation_string : ProvisioningOperation → String
operation_string create = "CREATE"
operation_string update = "UPDATE"
operation_string destroy = "DESTROY"
operation_string restore = "RESTORE"

-- `ProvisioningOperation.UnmarshalJSON`.
unfoldable pub parse_operation : String → Option ProvisioningOperation
parse_operation str =
    if str == "CREATE"
    then some create
    else if str == "UPDATE"
    then some update
    else if str == "DESTROY"
    then some destroy
    else if str == "RESTORE"
    then some restore
    else none

parse-state_string : (s : ProvisioningState) → parse_state (state_string s) ≡ some s
unfolding parse_state state_string
parse-state_string pending = refl
parse-state_string _ = refl

parse-operation_string : (o : ProvisioningOperation) → parse_operation (operation_string o) ≡ some o
unfolding parse_operation operation_string
parse-operation_string create = refl
parse-operation_string _ = refl

parse_state_exact :
    (t : String) (s : ProvisioningState) → parse_state t ≡ some s → t ≡ state_string s
unfolding parse_state state_string
parse_state_exact t s h =
    ground
      (arith, eq_iff t "PENDING", eq_iff t "IN_PROGRESS", eq_iff t "COMPLETED", eq_iff t "FAILED")

parse_operation_exact :
    (t : String) (o : ProvisioningOperation) → parse_operation t ≡ some o → t ≡ operation_string o
unfolding parse_operation operation_string
parse_operation_exact t o h =
    ground (arith, eq_iff t "CREATE", eq_iff t "UPDATE", eq_iff t "DESTROY", eq_iff t "RESTORE")

-- The wire names of the operation states and of the operations decode to the value that wrote
-- them, and a name that decodes is the name of its value: decoding and encoding are inverse.
pub wire_names_roundtrip :
    ((t : String) (s : ProvisioningState) → (parse_state t ≡ some s) ↔ (t ≡ state_string s))
    × ((t : String) (o : ProvisioningOperation)
        → (parse_operation t ≡ some o) ↔ (t ≡ operation_string o))
wire_names_roundtrip = (
  λ t s. (parse_state_exact t s, λ e. rw e (parse-state_string s)),
  λ t o. (parse_operation_exact t o, λ e. rw e (parse-operation_string o)),
)
