-- ===== src/Db/Store.antt =====
-- The Dapr client and the JSON codec as parameters, and the documents with one key each.
use metio.Base.{
  if◌then◌else◌, ◌+++◌, String, Bool, true, false, not, Option, none, some, List, [], ◌∷◌, ◌++◌,
  ◌==◌,
}
use metio.Types.{
  Time, Status, WhitelistEntry, WhitelistConfig, Backup, ServerConfig, completed, failed,
  ProvisioningStep, ProvisioningStatus,
}
use metio.Exec.{Error, Outcome, ok, err, Exec, lift, ◌>>=◌}

-- An item of a bulk read (`daprBulkStateItem`).
pub record BulkItem (Bytes : Type 0) : Type 0 where
  pub key : String
  pub value : Option Bytes
  pub error : String

-- `daprClient`, for one state store; `S` is the state of the store and of the connection to it.
pub record Client (S Bytes : Type 0) : Type 0 where
  pub save : String → Bytes → Exec Error S (Unit {0})
  pub get : String → Exec Error S (Option Bytes)
  pub get_bulk : List String → Exec Error S (List (BulkItem Bytes))
  pub delete : String → Exec Error S (Unit {0})

-- `json.Marshal` and `json.Unmarshal` at one type.
pub record Codec (A Bytes : Type 0) : Type 0 where
  pub marshal : A → Outcome Error Bytes
  pub unmarshal : Bytes → Outcome Error A

-- The codecs of the types that the database stores, and a format verb. The three index types are structs of one list.
pub record Codecs (Bytes : Type 0) : Type 0 where
  -- The format verb `%q`.
  pub quote : String → String
  pub status : Codec Status Bytes
  pub whitelist_config : Codec WhitelistConfig Bytes
  pub whitelist_entry : Codec WhitelistEntry Bytes
  pub whitelist_index : Codec (List String) Bytes
  pub server_index : Codec (List String) Bytes
  pub server_config : Codec ServerConfig Bytes
  pub provisioning : Codec ProvisioningStatus Bytes
  pub backup : Codec Backup Bytes
  pub backup_server_index : Codec (List String) Bytes
  pub backup_global_index : Codec (List String) Bytes

-- `fmt.Errorf("%w: …", ErrNotFound, …)`
abbrev pub not_found : String → Error
not_found text = record { text = "not found: " +++ text; is_not_found = true }

-- The loop that looks for a text in an index.
unfoldable pub in_index : String → List String → Bool
in_index id [] = false
in_index id (x ∷ xs) = if x == id then true else in_index id xs

-- The loop that copies an index without a text.
unfoldable pub without : String → List String → List String
without id [] = []
without id (x ∷ xs) = if not (x == id) then x ∷ without id xs else without id xs

module _ {S Bytes : Type 0} (client : Client S Bytes) where
  -- `Marshal` and `Save` under a key.
  unfoldable pub put_document : {A : Type 0} → Codec A Bytes → String → A → Exec Error S (Unit {0})
  put_document codec key a = lift (codec.marshal a) >>= λ bytes. client.save key bytes

  -- `Get` and `Unmarshal`, with what the source returns for a missing document.
  unfoldable pub get_document :
      {A : Type 0} → Codec A Bytes → String → Outcome Error A → Exec Error S A
  get_document codec key missing =
      client.get key >>= elim [ none ↦ lift missing | some bytes ↦ lift (codec.unmarshal bytes) ]

  -- The documents of a bulk read; an item with an error, without a value or that does not parse is
  -- left out.
  unfoldable pub parse_items :
      {A : Type 0} → Codec A Bytes → (String → A → A) → List (BulkItem Bytes) → List A
  parse_items codec f [] = []
  parse_items codec f (item ∷ items) =
      let rest = parse_items codec f items in
      if not (item.error == "") then rest else elim item.value [
        | none ↦ rest
        | some bytes ↦ elim (codec.unmarshal bytes) [ err e ↦ rest | ok a ↦ f item.key a ∷ rest ]
      ]

abbrev pub status_key : String → String
status_key name = "status:" +++ name

abbrev pub provisioning_key : String → String
provisioning_key id = "provisioning:" +++ id

module _ {S Bytes : Type 0} (client : Client S Bytes) (codecs : Codecs Bytes) where
  unfoldable pub update_status : String → Status → Exec Error S (Unit {0})
  update_status name status = put_document client codecs.status (status_key name) status

  unfoldable pub get_status : String → Exec Error S Status
  get_status name =
      get_document client codecs.status (status_key name)
        (err (not_found ("status not found for " +++ codecs.quote name)))

  unfoldable pub get_provisioning_status : String → Exec Error S ProvisioningStatus
  get_provisioning_status id =
      get_document client codecs.provisioning (provisioning_key id)
        (err (not_found ("provisioning status not found for " +++ codecs.quote id)))

  unfoldable pub update_provisioning_status : String → ProvisioningStatus → Exec Error S (Unit {0})
  update_provisioning_status id status =
      put_document client codecs.provisioning (provisioning_key id) status

  unfoldable pub add_provisioning_step : String → ProvisioningStep → Exec Error S (Unit {0})
  add_provisioning_step id step = do
    status ← get_provisioning_status id
    update_provisioning_status id
        (record status { steps = status.steps ++ (step ∷ []); current_step = step.name })

  -- `CompleteProvisioning`, at the time that `time.Now` returns.
  unfoldable pub complete_provisioning :
      String → Time → List (String × String) → Exec Error S (Unit {0})
  complete_provisioning id time outputs = do
    status ← get_provisioning_status id
    update_provisioning_status id
        (record status { state = completed; completed_at = some time; outputs = outputs })

  unfoldable pub fail_provisioning : String → Time → String → Exec Error S (Unit {0})
  fail_provisioning id time message = do
    status ← get_provisioning_status id
    update_provisioning_status id
        (record status { state = failed; completed_at = some time; error = message })
