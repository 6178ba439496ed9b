-- ===== src/Db/Laws/StatusLaws.antt =====
-- Round trips of the documents with one key each.
use metio.Base.{
  ◌+++◌, +++_cancel, String, ◌≡◌, sym, ap, ◌∙◌, if◌then◌else◌, Bool-cases, if-true, if-false, inl,
  inr, ◌==◌, eq_iff,
}
use metio.Types.{Status}
use metio.Exec.{Error, Outcome, ok, err}
use metio.Db.Store.{Client, Codecs, not_found, status_key, update_status, get_status}
use metio.Db.Laws.{
  IsStore, AreCodecs, parse, get_document-parse, put_document-put, parse-same, view-put_other,
}

module _ {S Bytes : Type 0} {client : Client S Bytes} (store : IsStore client)
    {codecs : Codecs Bytes} (laws : AreCodecs codecs) where
  missing_status : String → Outcome Error Status
  missing_status name = err (not_found ("status not found for " +++ codecs.quote name))

  status_of : String → S → Outcome Error Status
  status_of name s = parse codecs.status (missing_status name) (store.view s (status_key name))

  get_status_run : (name : String) (s : S) → get_status client codecs name s ≡ (status_of name s, s)
  unfolding get_status status_of missing_status
  get_status_run name s =
      get_document-parse store codecs.status (status_key name) (missing_status name) s

  update_run :
      (name : String) (status : Status) (s : S)
      → update_status client codecs name status s
        ≡ (ok tt, store.put (status_key name) (laws.status.encode status) s)
  unfolding update_status
  update_run name status s =
      put_document-put store codecs.status laws.status (status_key name) status s

  read_after :
      (name other : String) (status : Status) (s : S)
      → status_of other (store.put (status_key name) (laws.status.encode status) s)
        ≡ (if other == name then ok status else status_of other s)
  unfolding status_of
  read_after name other status s = elim (Bool-cases (other == name)) [
    | inl e ↦
        let same = (eq_iff other name).0 e in
        ap
          (λ k.
            parse codecs.status (missing_status k) (
              store.view (store.put (status_key name) (laws.status.encode status) s)
                (status_key k)))
          same
        ∙ parse-same store codecs.status laws.status (status_key name) (missing_status name) status
            s
        ∙ sym (if-true _ _ e)
    | inr e ↦
        ap (parse codecs.status (missing_status other)) (
          view-put_other store (status_key name) (laws.status.encode status) s (status_key other)
            (λ p. let q = (eq_iff other name).1 (+++_cancel "status:" other name p) in absurd (cc)))
        ∙ sym (if-false _ _ e)
  ]

  -- After `UpdateStatus` of one instance on a store that answers, which returns nil, `GetStatus` of
  -- that instance returns the status that was written, and `GetStatus` of any other instance what
  -- it returned before.
  pub update_status-get_status :
      (name other : String) (status : Status) (s : S)
      → ((update_status client codecs name status s).0 ≡ ok tt)
        × ((get_status client codecs other (update_status client codecs name status s).1).0
            ≡ (if other == name then ok status else (get_status client codecs other s).0))
  update_status-get_status name other status s =
      let s' = store.put (status_key name) (laws.status.encode status) s in
      let run = update_run name status s in
      (
        ap (λ r. r.0) run,
        ap (λ r. (get_status client codecs other r.1).0) run
            ∙ ap (λ r. r.0) (get_status_run other s')
            ∙ read_after name other status s
            ∙ ap (λ r. if other == name then ok status else r.0) (sym (get_status_run other s)),
      )
