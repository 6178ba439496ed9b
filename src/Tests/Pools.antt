-- ===== src/Tests/Pools.antt =====
-- Examples of the goroutine executor.
use metio.Base.{◌≡◌, true, false, none}
use metio.Goroutines.{
  Pool, empty_pool, has_server, is_running_run, start_run, finish_run, at_first, after_start,
  after_finish,
}
use metio.Goroutines.Exclusion.{IsExclusive, Uncancelled-IsExclusive}
use metio.Goroutines.Overlap.{superseded, superseded-overlap}

abbrev two_servers : Pool
two_servers = (start_run none "s2" (start_run none "s1" empty_pool).1).1

Uncancelled-IsExclusive_example : IsExclusive (finish_run "s1" 0 two_servers)
Uncancelled-IsExclusive_example =
    Uncancelled-IsExclusive (finish_run "s1" 0 two_servers)
      (after_finish "s1" 0 (after_start none "s2" (after_start none "s1" at_first)))

superseded-overlap_example :
    (is_running_run "s1" 1 (superseded "s1").running ≡ true)
    × (has_server "s1" (superseded "s1").operations ≡ false)
    × ((start_run none "s1" (superseded "s1")).0 ≡ none)
superseded-overlap_example = superseded-overlap "s1"
