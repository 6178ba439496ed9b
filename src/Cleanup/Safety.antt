-- ===== src/Cleanup/Safety.antt =====
-- What the sweep deletes.
use metio.Base.{
  if◌then◌else◌, All, ℕ, ◌+◌, String, ◌≡◌, refl, sym, ap, ◌∙◌, Bool, true, false, not, none, some,
  List, [], ◌∷◌, length,
}
use metio.Types.{Time, Backup}
use metio.Exec.{Error, Outcome, ok, err, pure, ◌>>=◌, Env, World, call, now, change, gets}
use metio.Exec.Triple.{AtEnd, Triple, Triple-bind, Triple-pure}
use metio.Cleanup.{
  scan_backups, CleanupResult, SweepCall, list_backups, delete_prefix, delete_server_backups,
  SweepAnswer, prefix_of, clean_server, clean_servers, run_sweep, sweep_backups, Sweep,
}
use metio.Cleanup.Expiry.{find_server, verdict, scan_backups-verdict}

module _ (K : String → Type 0) where
  -- The call deletes nothing but the data of servers of which `K` holds.
  abbrev pub Spares : SweepCall → Type 0
  Spares list_backups = Unit
  Spares (delete_prefix prefix) = (id : String) × (prefix ≡ prefix_of id) × K id
  Spares (delete_server_backups id) = K id

  abbrev Spared : World SweepCall CleanupResult → Type 0
  Spared w = All Spares w.history

  abbrev SparedAnyway : Error → World SweepCall CleanupResult → Type 0
  SparedAnyway e w = Spared w

  module _ (env : Env SweepCall SweepAnswer) where
    ask : (c : SweepCall) → Spares c → Triple SparedAnyway Spared (call env c) (λ _. Spared)
    unfolding call
    ask c h = record { at = λ w p. (h, p) }

    count :
        (f : CleanupResult → CleanupResult) → Triple SparedAnyway Spared (change f) (λ _. Spared)
    unfolding change
    count f = record { at = λ w p. p }

    clean_server-Spared :
        (id : String) → K id → Triple SparedAnyway Spared (clean_server env id) (λ _. Spared)
    unfolding clean_server
    clean_server-Spared id k =
        Triple-bind _ _ (ask (delete_prefix (prefix_of id)) (id, refl, k)) (elim [
          | err e ↦ count _
          | ok deleted ↦ Triple-bind _ _ (count _) λ _.
              Triple-bind _ _ (ask (delete_server_backups id) k)
                (elim [ some e ↦ count _ | none ↦ count _ ])
        ])

    one :
        (id : String) (expired : Bool)
        → (expired ≡ true → K id)
        → Triple SparedAnyway Spared
            (if not expired then pure tt else clean_server env id)
            (λ _. Spared)
    one id true h = clean_server-Spared id (h refl)
    one id false h = Triple-pure tt

    clean_servers-Spared :
        (servers : List (String × Bool))
        → All (λ entry. entry.1 ≡ true → K entry.0) servers
        → Triple SparedAnyway Spared (clean_servers env servers) (λ _. Spared)
    unfolding clean_servers
    clean_servers-Spared [] h = Triple-pure tt
    clean_servers-Spared ((id, expired) ∷ servers) (h, hs) =
        Triple-bind _ _ (one id expired h) λ _. clean_servers-Spared servers hs

module _ (time : Time) (backups : List Backup) where
  -- Every backup of the server that has both deletion stamps is past its retention, and there is
  -- one.
  abbrev pub IsExpired : String → Type 0
  IsExpired id = verdict id time backups ≡ some true

  entries-IsExpired :
      (servers : List (String × Bool))
      → All (λ entry. find_server entry.0 (scan_backups time backups []) ≡ some entry.1) servers
      → All (λ entry. entry.1 ≡ true → IsExpired entry.0) servers
  entries-IsExpired [] h = tt
  entries-IsExpired ((id, expired) ∷ servers) (h, hs) = (
    λ e. sym (scan_backups-verdict id time backups) ∙ h ∙ ap some e,
    entries-IsExpired servers hs,
  )

at_end :
    {A : Type 0} (P : World SweepCall CleanupResult → Type 0) (r : Outcome Error A)
    (w : World SweepCall CleanupResult)
    → AtEnd (λ e. P) (λ a. P) r w
    → P w
at_end P (ok a) w h = h
at_end P (err e) w h = h

module _ (K : String → Type 0) (env : Env SweepCall SweepAnswer) where
  abbrev cleaned : List (String × Bool) → Sweep CleanupResult
  cleaned servers = clean_servers env servers >>= λ _. gets (λ w. w.object)

  cleaned-Spared :
      (servers : List (String × Bool))
      → All (λ entry. entry.1 ≡ true → K entry.0) servers
      → Triple
          (λ e v. All (Spares K) v.history)
          (λ v. All (Spares K) v.history)
          (cleaned servers)
          (λ _ v. All (Spares K) v.history)
  cleaned-Spared servers h =
      Triple-bind _ _ (clean_servers-Spared K env servers h) λ _. record { at = λ v q. q }

  sweep_backups-Spared :
      (order : List (String × Bool) → List (String × Bool)) (backups : List Backup)
      (w : World SweepCall CleanupResult)
      → All (Spares K) w.history
      → All (λ entry. entry.1 ≡ true → K entry.0) (order (scan_backups w.clock backups []))
      → All (Spares K) (sweep_backups env order backups w).1.history
  unfolding sweep_backups now change ◌>>=◌
  sweep_backups-Spared order backups w p h =
      let w' : World SweepCall CleanupResult = record w {
        object = record {
          servers_scanned = length (scan_backups w.clock backups []);
          servers_cleaned = 0;
          servers_failed = 0;
          objects_deleted = 0;
        };
      } in
      let m : Sweep CleanupResult = cleaned (order (scan_backups w.clock backups [])) in
      at_end (λ v. All (Spares K) v.history) (m w').0 (m w').1
        ((cleaned-Spared (order (scan_backups w.clock backups [])) h).at w' p)

-- A sweep that starts afresh, and to which the database lists `backups`, deletes storage and
-- catalog records of expired servers only: servers of which every backup with deletion stamps is
-- past its retention at the time of the sweep. The visit of the map may have any order, as long as
-- it yields entries of the map.
pub run_sweep-safe :
    (env : Env SweepCall SweepAnswer) (order : List (String × Bool) → List (String × Bool))
    (clock : ℕ) (object : CleanupResult) (backups : List Backup)
    → env.answer [] list_backups ≡ ok backups
    → All
        (λ entry.
          find_server entry.0 (scan_backups (clock + env.latency []) backups []) ≡ some entry.1)
        (order (scan_backups (clock + env.latency []) backups []))
    → All
        (Spares (IsExpired (clock + env.latency []) backups))
        (run_sweep env order (record { history = []; clock = clock; object = object })).1.history
unfolding run_sweep ◌>>=◌ call
run_sweep-safe env order clock object backups h entries =
    let time = clock + env.latency [] in
    let w : World SweepCall CleanupResult = record {
      history = list_backups ∷ [];
      clock = time;
      object = object;
    } in
    rw h (
      sweep_backups-Spared (IsExpired time backups) env order backups w (tt, tt)
        (entries-IsExpired time backups (order (scan_backups time backups [])) entries))
