-- ===== src/Db/Laws/ServerLaws.antt =====
-- The server configs and their index, in a store that answers.
use metio.Base.{
  if◌then◌else◌, String, ◌≡◌, List, [], ◌∷◌, ◌++◌, Bool-cases, heads_differ, refl, sym, ◌≢◌, inl,
  inr, ◌+++◌, ap, ◌∙◌, if-true, if-false, subst,
}
use metio.Types.{ServerConfig}
use metio.Exec.{Error, Outcome, ok, ◌>>=◌, err, pure, continue}
use metio.Db.Store.{Client, Codecs, in_index, not_found, without}
use metio.Db.Servers.{
  get_server_index, create_server_config, list_all_server_ids, config_key, save_server_index,
  get_server_config, delete_server_config,
}
use metio.Db.Laws.{
  IsStore, AreCodecs, parse, get_document-parse, put_document-put, view-put_other, parse-same,
  view-remove_other, view-remove_same,
}

-- An index with one more entry.
abbrev pub extended : String → List String → List String
extended id ids = if in_index id ids then ids else ids ++ (id ∷ [])

index-ne-config : (id : String) → "serverindex" ≢ config_key id
index-ne-config id = heads_differ "serveri" "ndex" "" "serverc" "onfig:" id refl refl

config-ne-index : (id : String) → config_key id ≢ "serverindex"
config-ne-index id h = index-ne-config id (sym h)

-- The config that was read, with its id.
with_id : String → Outcome Error ServerConfig → Outcome Error ServerConfig
with_id id (ok config) = ok (record config { id = id })
with_id id (err e) = err e

continue-with_id :
    {S : Type 0} (id : String) (r : Outcome Error ServerConfig) (s : S)
    → continue r (λ config. pure (record config { id = id })) s ≡ (with_id id r, s)
unfolding with_id
continue-with_id id (ok config) s = refl
continue-with_id id (err e) s = refl

module _ {S Bytes : Type 0} {client : Client S Bytes} (store : IsStore client)
    {codecs : Codecs Bytes} (laws : AreCodecs codecs) where
  -- The index and the documents as functions of the stored values.
  ids_of : S → Outcome Error (List String)
  ids_of s = parse codecs.server_index (ok []) (store.view s "serverindex")

  list_ids : (s : S) → list_all_server_ids client codecs s ≡ (ids_of s, s)
  unfolding list_all_server_ids get_server_index ids_of
  list_ids s = get_document-parse store codecs.server_index "serverindex" (ok []) s

  saved : String → ServerConfig → S → S
  saved id config s = store.put (config_key id) (laws.server_config.encode config) s

  indexed : List String → S → S
  indexed ids s = store.put "serverindex" (laws.server_index.encode ids) s

  create_run :
      (id : String) (config : ServerConfig) (ids : List String) (s : S)
      → ids_of s ≡ ok ids
      → create_server_config client codecs id config s ≡ (
          if in_index id ids
          then (ok tt, saved id config s)
          else (ok tt, indexed (ids ++ (id ∷ [])) (saved id config s)))
  unfolding create_server_config get_server_index save_server_index ◌>>=◌ ids_of saved indexed
  create_run id config ids s h = elim (Bool-cases (in_index id ids)) [
    | inl e ↦ rw (
      put_document-put store codecs.server_config laws.server_config (config_key id) config s,
      get_document-parse store codecs.server_index "serverindex" (ok []) (saved id config s),
      view-put_other store (config_key id) (laws.server_config.encode config) s "serverindex"
          (index-ne-config id),
      h,
      e,
    )
    | inr e ↦ rw (
      put_document-put store codecs.server_config laws.server_config (config_key id) config s,
      get_document-parse store codecs.server_index "serverindex" (ok []) (saved id config s),
      view-put_other store (config_key id) (laws.server_config.encode config) s "serverindex"
          (index-ne-config id),
      h,
      e,
      put_document-put store codecs.server_index laws.server_index "serverindex" (ids ++ (id ∷ []))
          (saved id config s),
    )
  ]

  ids_of-saved :
      (id : String) (config : ServerConfig) (s : S) → ids_of (saved id config s) ≡ ids_of s
  unfolding ids_of saved
  ids_of-saved id config s = rw (
      view-put_other store (config_key id) (laws.server_config.encode config) s "serverindex"
        (index-ne-config id))

  ids_of-indexed : (ids : List String) (s : S) → ids_of (indexed ids s) ≡ ok ids
  unfolding ids_of indexed
  ids_of-indexed ids s =
      parse-same store codecs.server_index laws.server_index "serverindex" (ok []) ids s

  missing_config : String → Outcome Error ServerConfig
  missing_config id = err (not_found ("server config not found for " +++ codecs.quote id))

  config_of : String → S → Outcome Error ServerConfig
  config_of id s =
      with_id id (parse codecs.server_config (missing_config id) (store.view s (config_key id)))

  get_config_run :
      (id : String) (s : S) → get_server_config client codecs id s ≡ (config_of id s, s)
  unfolding get_server_config config_of missing_config ◌>>=◌
  get_config_run id s =
      let r = parse codecs.server_config (missing_config id) (store.view s (config_key id)) in
      ap (λ p. continue p.0 (λ config. pure (record config { id = id })) p.1)
        (get_document-parse store codecs.server_config (config_key id) (missing_config id) s)
      ∙ continue-with_id id r s

  config_of-saved :
      (id : String) (config : ServerConfig) (s : S)
      → config_of id (saved id config s) ≡ ok (record config { id = id })
  unfolding config_of saved with_id
  config_of-saved id config s = ap (with_id id) (
      parse-same store codecs.server_config laws.server_config (config_key id) (missing_config id)
        config s)

  -- A change under another key leaves a config as it is.
  config_of-view :
      (id : String) (s s' : S)
      → store.view s' (config_key id) ≡ store.view s (config_key id)
      → config_of id s' ≡ config_of id s
  unfolding config_of
  config_of-view id s s' h =
      ap (λ v. with_id id (parse codecs.server_config (missing_config id) v)) h

  config_of-indexed :
      (id : String) (ids : List String) (s : S) → config_of id (indexed ids s) ≡ config_of id s
  unfolding indexed
  config_of-indexed id ids s = config_of-view id s (indexed ids s) (
      view-put_other store "serverindex" (laws.server_index.encode ids) s (config_key id)
        (config-ne-index id))

  -- The end of an operation: it has returned nil, the index is `ids`, and the config of `id` reads
  -- as `found`.
  abbrev pub Leaves :
      String → List String → Outcome Error ServerConfig → Outcome Error (Unit {0}) × S → Type 0
  Leaves id ids found r =
      (r.0 ≡ ok tt)
      × ((list_all_server_ids client codecs r.1).0 ≡ ok ids)
      × ((get_server_config client codecs id r.1).0 ≡ found)

  leaves :
      (id : String) (ids : List String) (found : Outcome Error ServerConfig)
      {run : Outcome Error (Unit {0}) × S} (s' : S)
      → run ≡ (ok tt, s')
      → ids_of s' ≡ ok ids
      → config_of id s' ≡ found
      → Leaves id ids found run
  leaves id ids found s' h hi hc =
      subst (Leaves id ids found) (sym h)
        (refl, ap (λ p. p.0) (list_ids s') ∙ hi, ap (λ p. p.0) (get_config_run id s') ∙ hc)

  -- `CreateServerConfig` on a store that answers returns nil and saves the config, which then reads
  -- back with its id, and the id is in the index, once.
  pub create_server_config-stored :
      (id : String) (config : ServerConfig) (ids : List String) (s : S)
      → (list_all_server_ids client codecs s).0 ≡ ok ids
      → Leaves id
          (extended id ids)
          (ok (record config { id = id }))
          (create_server_config client codecs id config s)
  create_server_config-stored id config ids s h =
      let known = sym (ap (λ p. p.0) (list_ids s)) ∙ h in
      let run = create_run id config ids s known in
      let saved_ids = ids_of-saved id config s ∙ known in
      let read = config_of-saved id config s in
      elim (Bool-cases (in_index id ids)) [
        | inl e ↦
            leaves id _ _ (saved id config s) (run ∙ if-true _ _ e)
              (saved_ids ∙ ap ok (sym (if-true _ _ e))) read
        | inr e ↦
            leaves id _ _ (indexed (ids ++ (id ∷ [])) (saved id config s)) (run ∙ if-false _ _ e)
              (ids_of-indexed (ids ++ (id ∷ [])) (saved id config s) ∙ ap ok (sym (if-false _ _ e)))
              (config_of-indexed id (ids ++ (id ∷ [])) (saved id config s) ∙ read)
      ]

  removed : String → S → S
  removed id s = store.remove (config_key id) s

  delete_run :
      (id : String) (ids : List String) (s : S)
      → ids_of s ≡ ok ids
      → delete_server_config client codecs id s ≡ (ok tt, indexed (without id ids) (removed id s))
  unfolding delete_server_config get_server_index save_server_index ◌>>=◌ ids_of removed indexed
  delete_run id ids s h = rw (
    store.delete_is (config_key id) s,
    get_document-parse store codecs.server_index "serverindex" (ok []) (removed id s),
    view-remove_other store (config_key id) s "serverindex" (index-ne-config id),
    h,
    put_document-put store codecs.server_index laws.server_index "serverindex" (without id ids)
        (removed id s),
  )

  -- `DeleteServerConfig` on a store that answers returns nil; the id is gone from the index and its
  -- config is not found any more.
  pub delete_server_config-gone :
      (id : String) (ids : List String) (s : S)
      → (list_all_server_ids client codecs s).0 ≡ ok ids
      → Leaves id
          (without id ids)
          (err (not_found ("server config not found for " +++ codecs.quote id)))
          (delete_server_config client codecs id s)
  unfolding removed missing_config config_of with_id
  delete_server_config-gone id ids s h =
      let known = sym (ap (λ p. p.0) (list_ids s)) ∙ h in
      leaves id _ _ (indexed (without id ids) (removed id s)) (delete_run id ids s known)
        (ids_of-indexed (without id ids) (removed id s))
        (config_of-indexed id (without id ids) (removed id s)
          ∙ ap (λ v. with_id id (parse codecs.server_config (missing_config id) v))
              (view-remove_same store (config_key id) s))
