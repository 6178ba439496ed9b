-- ===== src/Db/Laws.antt =====
-- What the database relies on of the Dapr client and of encoding/json, and the two lemmas on the
-- documents that the rest follows from.
pub mod Index
pub mod ServerLaws
pub mod WhitelistLaws
pub mod StatusLaws
pub mod Memory
use metio.Base.{
  if◌then◌else◌, Bool-cases, Option-cases, String, ◌≡◌, ◌≢◌, inl, inr, false, Option, none, some,
  ◌==◌, eq_iff, eq_refl,
}
use metio.Types.{ServerConfig}
use metio.Exec.{Error, Outcome, ok, ◌>>=◌}
use metio.Db.Store.{Client, Codec, Codecs, put_document, get_document}

-- A store that answers: it keeps the value saved last under each key.
pub record IsStore {S Bytes : Type 0} (client : Client S Bytes) : Type 0 where
  pub view : S → String → Option Bytes
  pub put : String → Bytes → S → S
  pub remove : String → S → S
  pub save_is : (k : String) (b : Bytes) (s : S) → client.save k b s ≡ (ok tt, put k b s)
  pub delete_is : (k : String) (s : S) → client.delete k s ≡ (ok tt, remove k s)
  pub get_is : (k : String) (s : S) → client.get k s ≡ (ok (view s k), s)
  pub view-put :
      (k : String) (b : Bytes) (s : S) (j : String)
      → view (put k b s) j ≡ (if j == k then some b else view s j)
  pub view-remove :
      (k : String) (s : S) (j : String) → view (remove k s) j ≡ (if j == k then none else view s j)

-- A codec reads back what it has written, up to `normal`: the fields that are not part of the
-- document.
pub record IsCodec {A Bytes : Type 0} (codec : Codec A Bytes) (normal : A → A) : Type 0 where
  pub encode : A → Bytes
  pub marshal_is : (a : A) → codec.marshal a ≡ ok (encode a)
  pub unmarshal_is : (a : A) → codec.unmarshal (encode a) ≡ ok (normal a)

-- `ServerConfig.ID` has the tag `json:"-"`.
abbrev pub without_id : ServerConfig → ServerConfig
without_id config = record config { id = "" }

pub record AreCodecs {Bytes : Type 0} (codecs : Codecs Bytes) : Type 0 where
  pub status : IsCodec codecs.status (λ a. a)
  pub whitelist_entry : IsCodec codecs.whitelist_entry (λ a. a)
  pub whitelist_index : IsCodec codecs.whitelist_index (λ a. a)
  pub server_index : IsCodec codecs.server_index (λ a. a)
  pub server_config : IsCodec codecs.server_config without_id
  pub provisioning : IsCodec codecs.provisioning (λ a. a)
  pub backup : IsCodec codecs.backup (λ a. a)
  pub backup_server_index : IsCodec codecs.backup_server_index (λ a. a)
  pub backup_global_index : IsCodec codecs.backup_global_index (λ a. a)

-- What a read makes of the value under its key.
abbrev pub parse :
    {A Bytes : Type 0} → Codec A Bytes → Outcome Error A → Option Bytes → Outcome Error A
parse codec missing none = missing
parse codec missing (some bytes) = codec.unmarshal bytes

-- Different texts fail the test of equality.
pub differ : {a b : String} → a ≢ b → (a == b) ≡ false
differ {a} {b} h = elim (Bool-cases (a == b)) [ inl e ↦ absurd (h ((eq_iff a b).0 e)) | inr e ↦ e ]

module _ {S Bytes A : Type 0} {client : Client S Bytes} (store : IsStore client)
    (codec : Codec A Bytes) where
  pub get_document-parse :
      (k : String) (missing : Outcome Error A) (s : S)
      → get_document client codec k missing s ≡ (parse codec missing (store.view s k), s)
  unfolding get_document ◌>>=◌
  get_document-parse k missing s = elim (Option-cases (store.view s k)) [
    | inl h ↦ rw (store.get_is k s, h)
    | inr (b, h) ↦ rw (store.get_is k s, h)
  ]

  pub put_document-put :
      {normal : A → A} (law : IsCodec codec normal) (k : String) (a : A) (s : S)
      → put_document client codec k a s ≡ (ok tt, store.put k (law.encode a) s)
  unfolding put_document ◌>>=◌
  put_document-put law k a s = rw (law.marshal_is a, store.save_is k (law.encode a) s)

  -- A key that was just written reads as what was written.
  pub parse-same :
      {normal : A → A} (law : IsCodec codec normal) (k : String) (missing : Outcome Error A) (a : A)
      (s : S)
      → parse codec missing (store.view (store.put k (law.encode a) s) k) ≡ ok (normal a)
  parse-same law k missing a s =
      let e = eq_refl k in rw (store.view-put k (law.encode a) s k, e, law.unmarshal_is a)

module _ {S Bytes : Type 0} {client : Client S Bytes} (store : IsStore client) where
  pub view-put_other :
      (k : String) (b : Bytes) (s : S) (j : String)
      → j ≢ k
      → store.view (store.put k b s) j ≡ store.view s j
  view-put_other k b s j h = rw (store.view-put k b s j, differ h)

  pub view-remove_other :
      (k : String) (s : S) (j : String) → j ≢ k → store.view (store.remove k s) j ≡ store.view s j
  view-remove_other k s j h = rw (store.view-remove k s j, differ h)

  pub view-remove_same : (k : String) (s : S) → store.view (store.remove k s) k ≡ none
  view-remove_same k s = let e = eq_refl k in rw (store.view-remove k s k, e)
