-- ===== src/Db/Laws/WhitelistLaws.antt =====
-- The whitelist entries and their index, in a store that answers.
use metio.Base.{
  if◌then◌else◌, Bool-cases, if-true, if-false, ◌+++◌, heads_differ, String, ◌≡◌, refl, sym, ap,
  ◌∙◌, subst, ◌≢◌, inl, inr, List, [], ◌∷◌, ◌++◌, Any, ◌↔◌, not, ◌==◌, eq_iff, none,
}
use metio.Types.{WhitelistEntry}
use metio.Exec.{Error, Outcome, ok, ◌>>=◌}
use metio.Db.Store.{Client, Codecs, in_index, without}
use metio.Db.Whitelist.{
  index_key, entry_key, get_whitelist_index, save_whitelist_index, add_whitelist_entry,
  remove_whitelist_entry,
}
use metio.Db.Laws.{
  IsStore, AreCodecs, parse, get_document-parse, put_document-put, parse-same, view-put_other,
  view-remove_other, view-remove_same,
}
use metio.Db.Laws.ServerLaws.{extended}

index-ne-entry : (name uuid : String) → index_key name ≢ entry_key name uuid
index-ne-entry name uuid =
    heads_differ "whitelisti" "dx:" name "whitelist:" "" (name +++ (":" +++ uuid)) refl refl

-- What is left in a list, one element further.
kept_iff :
    (uuid x y : String) (ys : List String)
    → y ≢ uuid
    → Any (λ z. z ≡ x) (without uuid ys) ↔ Any (λ z. z ≡ x) ys × (x ≢ uuid)
    → Any (λ z. z ≡ x) (y ∷ without uuid ys) ↔ Any (λ z. z ≡ x) (y ∷ ys) × (x ≢ uuid)
kept_iff uuid x y ys n iff = (
  elim [ inl e ↦ (inl e, λ q. n (e ∙ q)) | inr h ↦ (inr (iff.0 h).0, (iff.0 h).1) ],
  λ p. elim p.0 [ inl e ↦ inl e | inr h ↦ inr (iff.1 (h, p.1)) ],
)

dropped_iff :
    (uuid x y : String) (ys : List String)
    → y ≡ uuid
    → Any (λ z. z ≡ x) (without uuid ys) ↔ Any (λ z. z ≡ x) ys × (x ≢ uuid)
    → Any (λ z. z ≡ x) (without uuid ys) ↔ Any (λ z. z ≡ x) (y ∷ ys) × (x ≢ uuid)
dropped_iff uuid x y ys e iff = (
  λ h. (inr (iff.0 h).0, (iff.0 h).1),
  λ p. elim p.0 [ inl q ↦ absurd (p.1 (sym q ∙ e)) | inr h ↦ iff.1 (h, p.1) ],
)

Any-without_iff :
    (uuid x : String) (ys : List String)
    → Any (λ z. z ≡ x) (without uuid ys) ↔ Any (λ z. z ≡ x) ys × (x ≢ uuid)
unfolding without
Any-without_iff uuid x [] = (λ h. absurd h, λ p. absurd p.0)
Any-without_iff uuid x (y ∷ ys) =
    let iff = Any-without_iff uuid x ys in
    elim (Bool-cases (y == uuid)) [
      | inl e ↦
          subst (λ zs. Any (λ z. z ≡ x) zs ↔ Any (λ z. z ≡ x) (y ∷ ys) × (x ≢ uuid))
            (sym (if-false _ _ (ap not e))) (dropped_iff uuid x y ys ((eq_iff y uuid).0 e) iff)
      | inr e ↦
          subst (λ zs. Any (λ z. z ≡ x) zs ↔ Any (λ z. z ≡ x) (y ∷ ys) × (x ≢ uuid))
            (sym (if-true _ _ (ap not e)))
            (kept_iff uuid x y ys (λ q. let r = (eq_iff y uuid).1 q in absurd (cc)) iff)
    ]

module _ {S Bytes : Type 0} {client : Client S Bytes} (store : IsStore client)
    {codecs : Codecs Bytes} (laws : AreCodecs codecs) where
  uuids_of : String → S → Outcome Error (List String)
  uuids_of name s = parse codecs.whitelist_index (ok []) (store.view s (index_key name))

  list_uuids :
      (name : String) (s : S) → get_whitelist_index client codecs name s ≡ (uuids_of name s, s)
  unfolding get_whitelist_index uuids_of
  list_uuids name s = get_document-parse store codecs.whitelist_index (index_key name) (ok []) s

  saved : String → WhitelistEntry → S → S
  saved name entry s = store.put (entry_key name entry.uuid) (laws.whitelist_entry.encode entry) s

  indexed : String → List String → S → S
  indexed name uuids s = store.put (index_key name) (laws.whitelist_index.encode uuids) s

  uuids_of-indexed :
      (name : String) (uuids : List String) (s : S)
      → uuids_of name (indexed name uuids s) ≡ ok uuids
  unfolding uuids_of indexed
  uuids_of-indexed name uuids s =
      parse-same store codecs.whitelist_index laws.whitelist_index (index_key name) (ok []) uuids s

  uuids_of-saved :
      (name : String) (entry : WhitelistEntry) (s : S)
      → uuids_of name (saved name entry s) ≡ uuids_of name s
  unfolding uuids_of saved
  uuids_of-saved name entry s = ap (parse codecs.whitelist_index (ok [])) (
      view-put_other store (entry_key name entry.uuid) (laws.whitelist_entry.encode entry) s
        (index_key name) (index-ne-entry name entry.uuid))

  add_run :
      (name : String) (entry : WhitelistEntry) (uuids : List String) (s : S)
      → uuids_of name s ≡ ok uuids
      → add_whitelist_entry client codecs name entry s ≡ (
          if in_index entry.uuid uuids
          then (ok tt, saved name entry s)
          else (ok tt, indexed name (uuids ++ (entry.uuid ∷ [])) (saved name entry s)))
  unfolding add_whitelist_entry get_whitelist_index save_whitelist_index ◌>>=◌ uuids_of saved
      indexed
  add_run name entry uuids s h =
      let put =
        put_document-put store codecs.whitelist_entry laws.whitelist_entry
          (entry_key name entry.uuid) entry s in
      let got =
        get_document-parse store codecs.whitelist_index (index_key name) (ok [])
          (saved name entry s) in
      let kept =
        view-put_other store (entry_key name entry.uuid) (laws.whitelist_entry.encode entry) s
          (index_key name) (index-ne-entry name entry.uuid) in
      elim (Bool-cases (in_index entry.uuid uuids)) [
        | inl e ↦ rw (put, got, kept, h, e)
        | inr e ↦ rw (
          put,
          got,
          kept,
          h,
          e,
          put_document-put store codecs.whitelist_index laws.whitelist_index (index_key name)
              (uuids ++ (entry.uuid ∷ [])) (saved name entry s),
        )
      ]

  -- The end of an operation: it has returned nil, and the index of the instance is `uuids`.
  abbrev pub Leaves : String → List String → Outcome Error (Unit {0}) × S → Type 0
  Leaves name uuids r = (r.0 ≡ ok tt) × ((get_whitelist_index client codecs name r.1).0 ≡ ok uuids)

  leaves :
      (name : String) (uuids : List String) (run : Outcome Error (Unit {0}) × S) (s' : S)
      → run ≡ (ok tt, s')
      → uuids_of name s' ≡ ok uuids
      → Leaves name uuids run
  leaves name uuids run s' h hi =
      subst (Leaves name uuids) (sym h) (refl, ap (λ p. p.0) (list_uuids name s') ∙ hi)

  -- `AddWhitelistEntry` on a store that answers returns nil, and the player's UUID is in the index
  -- of the instance, once.
  pub add_whitelist_entry-indexed :
      (name : String) (entry : WhitelistEntry) (uuids : List String) (s : S)
      → (get_whitelist_index client codecs name s).0 ≡ ok uuids
      → Leaves name (extended entry.uuid uuids) (add_whitelist_entry client codecs name entry s)
  add_whitelist_entry-indexed name entry uuids s h =
      let known = sym (ap (λ p. p.0) (list_uuids name s)) ∙ h in
      let run = add_run name entry uuids s known in
      elim (Bool-cases (in_index entry.uuid uuids)) [
        | inl e ↦
            leaves name _ _ (saved name entry s) (run ∙ if-true _ _ e)
              (uuids_of-saved name entry s ∙ known ∙ ap ok (sym (if-true _ _ e)))
        | inr e ↦
            leaves name _ _ (indexed name (uuids ++ (entry.uuid ∷ [])) (saved name entry s))
              (run ∙ if-false _ _ e)
              (uuids_of-indexed name (uuids ++ (entry.uuid ∷ [])) (saved name entry s)
                ∙ ap ok (sym (if-false _ _ e)))
      ]

  remove_run :
      (name uuid : String) (uuids : List String) (s : S)
      → uuids_of name s ≡ ok uuids
      → remove_whitelist_entry client codecs name uuid s
        ≡ (ok tt, indexed name (without uuid uuids) (store.remove (entry_key name uuid) s))
  unfolding remove_whitelist_entry get_whitelist_index save_whitelist_index ◌>>=◌ uuids_of indexed
  remove_run name uuid uuids s h =
      let gone = store.remove (entry_key name uuid) s in
      rw (
        store.delete_is (entry_key name uuid) s,
        get_document-parse store codecs.whitelist_index (index_key name) (ok []) gone,
        view-remove_other store (entry_key name uuid) s (index_key name) (index-ne-entry name uuid),
        h,
        put_document-put store codecs.whitelist_index laws.whitelist_index (index_key name)
            (without uuid uuids) gone,
      )

  -- `RemoveWhitelistEntry` on a store that answers returns nil. Afterwards the document of the entry
  -- is gone, and the index of the instance has exactly those UUIDs that it had before and that are
  -- not the given one, wherever that one stood.
  pub remove_whitelist_entry-gone :
      (name uuid : String) (uuids : List String) (s : S)
      → (get_whitelist_index client codecs name s).0 ≡ ok uuids
      → (left : List String) × Leaves name left (remove_whitelist_entry client codecs name uuid s)
        × (store.view (remove_whitelist_entry client codecs name uuid s).1 (entry_key name uuid)
            ≡ none)
        × ((x : String) → Any (λ y. y ≡ x) left ↔ Any (λ y. y ≡ x) uuids × (x ≢ uuid))
  unfolding indexed
  remove_whitelist_entry-gone name uuid uuids s h =
      let known = sym (ap (λ p. p.0) (list_uuids name s)) ∙ h in
      (
        without uuid uuids,
        leaves name _ _ (indexed name (without uuid uuids) (store.remove (entry_key name uuid) s))
            (remove_run name uuid uuids s known)
            (uuids_of-indexed name (without uuid uuids) (store.remove (entry_key name uuid) s)),
        ap (λ r. store.view r.1 (entry_key name uuid)) (remove_run name uuid uuids s known)
            ∙ (view-put_other store (index_key name)
                  (laws.whitelist_index.encode (without uuid uuids))
                  (store.remove (entry_key name uuid) s) (entry_key name uuid)
                  (λ q. index-ne-entry name uuid (sym q))
                ∙ view-remove_same store (entry_key name uuid) s),
        λ x. Any-without_iff uuid x uuids,
      )
