-- ===== src/Goroutines/Overlap.antt =====
-- What a cancellation does to the executor's map.
use metio.Base.{String, ◌≡◌, true, false, none, eq_refl, if-true, ap, ◌∙◌, ◌&&◌, [], ◌∷◌}
use metio.Goroutines.{
  Pool, empty_pool, has_server, delete_server, is_running_run, end_run, start_run, cancel_run,
  finish_run,
}

-- A server's operation is started and cancelled, a second one is started, and then the goroutine of
-- the first one ends.
unfoldable pub superseded : String → Pool
superseded k = finish_run k 0 (start_run none k (cancel_run k (start_run none k empty_pool).1).1).1

-- The pool after the cancellation.
cancelled :
    (k : String)
    → (cancel_run k (start_run none k empty_pool).1).1
      ≡ record { operations = []; running = (k, 0) ∷ []; next = 1 }
unfolding start_run cancel_run has_server delete_server
cancelled k = let e = eq_refl k in simp e

-- The end of the first goroutine, beside the second.
finished :
    (k : String)
    → finish_run k 0 (record { operations = (k, 1) ∷ []; running = (k, 1) ∷ (k, 0) ∷ []; next = 2 })
      ≡ record { operations = []; running = (k, 1) ∷ []; next = 2 }
unfolding finish_run is_running_run delete_server end_run
finished k = let e = eq_refl k in simp e

superseded-pool :
    (k : String) → superseded k ≡ record { operations = []; running = (k, 1) ∷ []; next = 2 }
unfolding superseded start_run has_server
superseded-pool k = ap (λ p. finish_run k 0 (start_run none k p).1) (cancelled k) ∙ finished k

-- After that the second operation still runs, but its entry is gone, and a third operation of the
-- same server is accepted beside it.
pub superseded-overlap :
    (k : String)
    → (is_running_run k 1 (superseded k).running ≡ true)
      × (has_server k (superseded k).operations ≡ false)
      × ((start_run none k (superseded k)).0 ≡ none)
unfolding start_run has_server is_running_run
superseded-overlap k =
    let e = eq_refl k in
    let p = superseded-pool k in
    (
      ap (λ x. is_running_run k 1 x.running) p ∙ if-true _ _ (ap (λ b. b && true) e),
      ap (λ x. has_server k x.operations) p,
      ap (λ x. (start_run none k x).0) p,
    )
