-- ===== src/Goroutines.antt =====
-- The executor that runs operations in goroutines: internal/services/executor_goroutine.go. A step
-- is one critical section of its mutex: a start, a cancellation, or the end of a goroutine.
pub mod Exclusion
pub mod Overlap
use metio.Base.{
  beq, if◌then◌else◌, ℕ, suc, String, Bool, true, false, ◌&&◌, Option, none, some, List, [], ◌∷◌,
  ◌==◌,
}
use metio.Exec.{Error}
use metio.Provisioning.Executor.{operation_in_progress, no_operation_in_progress}

-- `operations`: the server and the number of the operation whose context the entry cancels; and the
-- goroutines that run, each with its server and number.
pub record Pool : Type 0 where
  pub operations : List (String × ℕ)
  pub running : List (String × ℕ)
  pub next : ℕ

abbrev pub empty_pool : Pool
empty_pool = record { operations = []; running = []; next = 0 }

unfoldable pub has_server : String → List (String × ℕ) → Bool
has_server k [] = false
has_server k ((j, n) ∷ m) = if j == k then true else has_server k m

-- `delete(e.operations, serverID)`
unfoldable pub delete_server : String → List (String × ℕ) → List (String × ℕ)
delete_server k [] = []
delete_server k ((j, n) ∷ m) =
    let rest = delete_server k m in if j == k then rest else (j, n) ∷ rest

-- The goroutine with its server and number is among those that run.
unfoldable pub is_running_run : String → ℕ → List (String × ℕ) → Bool
is_running_run k i [] = false
is_running_run k i ((j, n) ∷ m) = if j == k && beq n i then true else is_running_run k i m

unfoldable pub end_run : String → ℕ → List (String × ℕ) → List (String × ℕ)
end_run k i [] = []
end_run k i ((j, n) ∷ m) =
    let rest = end_run k i m in if j == k && beq n i then rest else (j, n) ∷ rest

-- `StartOperation`, with what `ctx.Done()` and `ctx.Err()` say.
unfoldable pub start_run : Option Error → String → Pool → Option Error × Pool
start_run (some e) k pool = (some e, pool)
start_run none k pool =
    if has_server k pool.operations then (some (operation_in_progress k), pool) else (
      none,
      record {
        operations = (k, pool.next) ∷ pool.operations;
        running = (k, pool.next) ∷ pool.running;
        next = suc pool.next;
      },
    )

-- `CancelOperation`. The goroutine goes on until its function returns.
unfoldable pub cancel_run : String → Pool → Option Error × Pool
cancel_run k pool =
    if has_server k pool.operations
    then (none, record pool { operations = delete_server k pool.operations })
    else (some (no_operation_in_progress k), pool)

-- The deferred end of a goroutine that runs.
unfoldable pub finish_run : String → ℕ → Pool → Pool
finish_run k i pool =
    if is_running_run k i pool.running
    then record pool {
      operations = delete_server k pool.operations;
      running = end_run k i pool.running;
    }
    else pool

-- The pools that starts and ends lead to, without cancellations.
pub data Uncancelled : Pool → Type 0 where
  at_first : Uncancelled empty_pool
  after_start :
      {pool : Pool} (done : Option Error) (k : String)
      → Uncancelled pool
      → Uncancelled (start_run done k pool).1
  after_finish :
      {pool : Pool} (k : String) (i : ℕ) → Uncancelled pool → Uncancelled (finish_run k i pool)
