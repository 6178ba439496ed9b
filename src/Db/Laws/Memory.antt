-- ===== src/Db/Laws/Memory.antt =====
-- A store in memory, for the examples: the documents themselves under their keys.
use metio.Base.{if◌then◌else◌, String, refl, Option, none, some, List, map, ◌==◌}
use metio.Types.{Status, WhitelistEntry, WhitelistConfig, Backup, ServerConfig, ProvisioningStatus}
use metio.Exec.{Error, new_error, ok, err}
use metio.Db.Store.{Client, Codec, Codecs}
use metio.Db.Laws.{IsStore, IsCodec, without_id, AreCodecs}

pub data Document : Type 0 where
  status_document : Status → Document
  whitelist_document : WhitelistConfig → Document
  entry_document : WhitelistEntry → Document
  index_document : List String → Document
  config_document : ServerConfig → Document
  provisioning_document : ProvisioningStatus → Document
  backup_document : Backup → Document

abbrev pub Memory : Type 0
Memory = String → Option Document

abbrev pub empty_memory : Memory
empty_memory k = none

abbrev pub put_memory : String → Document → Memory → Memory
put_memory k b s j = if j == k then some b else s j

abbrev pub remove_memory : String → Memory → Memory
remove_memory k s j = if j == k then none else s j

abbrev pub memory_client : Client Memory Document
memory_client = record {
  save = λ k b s. (ok tt, put_memory k b s);
  get = λ k s. (ok (s k), s);
  get_bulk = λ ks s. (ok (map (λ k. record { key = k; value = s k; error = "" }) ks), s);
  delete = λ k s. (ok tt, remove_memory k s);
}

pub memory-IsStore : IsStore memory_client
memory-IsStore = record {
  view = λ s. s;
  put = put_memory;
  remove = remove_memory;
  save_is = λ k b s. refl;
  delete_is = λ k s. refl;
  get_is = λ k s. refl;
  view-put = λ k b s j. refl;
  view-remove = λ k s j. refl;
}

abbrev wrong_document : Error
wrong_document = new_error "json: wrong document"

abbrev index_codec : Codec (List String) Document
index_codec = record {
  marshal = λ ids. ok (index_document ids);
  unmarshal = elim [ index_document ids ↦ ok ids | _ ↦ err wrong_document ];
}

abbrev pub memory_codecs : Codecs Document
memory_codecs = record {
  quote = λ s. s;
  status = record {
    marshal = λ a. ok (status_document a);
    unmarshal = elim [ status_document a ↦ ok a | _ ↦ err wrong_document ];
  };
  whitelist_config = record {
    marshal = λ a. ok (whitelist_document a);
    unmarshal = elim [ whitelist_document a ↦ ok a | _ ↦ err wrong_document ];
  };
  whitelist_entry = record {
    marshal = λ a. ok (entry_document a);
    unmarshal = elim [ entry_document a ↦ ok a | _ ↦ err wrong_document ];
  };
  whitelist_index = index_codec;
  server_index = index_codec;
  server_config = record {
    marshal = λ a. ok (config_document (without_id a));
    unmarshal = elim [ config_document a ↦ ok a | _ ↦ err wrong_document ];
  };
  provisioning = record {
    marshal = λ a. ok (provisioning_document a);
    unmarshal = elim [ provisioning_document a ↦ ok a | _ ↦ err wrong_document ];
  };
  backup = record {
    marshal = λ a. ok (backup_document a);
    unmarshal = elim [ backup_document a ↦ ok a | _ ↦ err wrong_document ];
  };
  backup_server_index = index_codec;
  backup_global_index = index_codec;
}

index_codec-IsCodec : IsCodec index_codec (λ a. a)
index_codec-IsCodec = record {
  encode = index_document;
  marshal_is = λ a. refl;
  unmarshal_is = λ a. refl;
}

pub memory-AreCodecs : AreCodecs memory_codecs
memory-AreCodecs = record {
  status = record { encode = status_document; marshal_is = λ a. refl; unmarshal_is = λ a. refl };
  whitelist_entry = record {
    encode = entry_document;
    marshal_is = λ a. refl;
    unmarshal_is = λ a. refl;
  };
  whitelist_index = index_codec-IsCodec;
  server_index = index_codec-IsCodec;
  server_config = record {
    encode = λ a. config_document (without_id a);
    marshal_is = λ a. refl;
    unmarshal_is = λ a. refl;
  };
  provisioning = record {
    encode = provisioning_document;
    marshal_is = λ a. refl;
    unmarshal_is = λ a. refl;
  };
  backup = record { encode = backup_document; marshal_is = λ a. refl; unmarshal_is = λ a. refl };
  backup_server_index = index_codec-IsCodec;
  backup_global_index = index_codec-IsCodec;
}
