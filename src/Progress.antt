-- ===== src/Progress.antt =====
-- The progress of an operation: `calculateProgress` of internal/handlers/servers/common.go.
use native.Mathlib.Nat.{div-le_of_le-mul, le-div_iff_mul-le, div-mul-le_self}
use metio.Base.{
  beq, if◌then◌else◌, Bool-cases, length, ℕ, suc, ◌*◌, ◌/◌, ◌≤◌, ◌<◌, String, ◌≡◌, refl, inl, inr,
  Bool, true, false, List, [], ◌∷◌, arith, ◌==◌, sym, subst,
}
use metio.Types.{Time, ProvisioningState, completed, ProvisioningStep, ProvisioningStatus}
use metio.Provisioning.Calls.{mark_step, Call, Answer, Run, write_status, complete_step}
use metio.Exec.{◌>>=◌, Env, call, now, change}

unfoldable pub is_completed : ProvisioningState → Bool
is_completed completed = true
is_completed _ = false

-- The loop that counts the completed steps.
unfoldable pub count_completed : List ProvisioningStep → ℕ
unfolding is_completed
count_completed [] = 0
count_completed (step ∷ steps) =
    let rest = count_completed steps in if is_completed step.status then suc rest else rest

unfoldable pub calculate_progress : ProvisioningStatus → ℕ
unfolding count_completed is_completed
calculate_progress status =
    if beq (length status.steps) 0
    then 0
    else if is_completed status.state
    then 100
    else count_completed status.steps * 100 / length status.steps

count_completed-length : (steps : List ProvisioningStep) → count_completed steps ≤ length steps
unfolding count_completed
count_completed-length [] = omega arith
count_completed-length (step ∷ steps) = let r = count_completed-length steps in ground arith

module _ (name message : String) (time : Time) where
  length-mark_step :
      (state : ProvisioningState) (steps : List ProvisioningStep)
      → length (mark_step name state message time steps) ≡ length steps
  unfolding mark_step
  length-mark_step state [] = refl
  length-mark_step state (step ∷ steps) =
      let r = length-mark_step state steps in
      elim (Bool-cases (step.name == name)) [ inl e ↦ rw e | inr e ↦ rw (e, r) ]

  count_completed-mark_step :
      (steps : List ProvisioningStep)
      → count_completed steps ≤ count_completed (mark_step name completed message time steps)
  unfolding mark_step count_completed is_completed
  count_completed-mark_step [] = omega arith
  count_completed-mark_step (step ∷ steps) = let r = count_completed-mark_step steps in ground arith

div_mono : (a b n : ℕ) → 0 < n → a ≤ b → a / n ≤ b / n
div_mono a b n h le =
    let d = div-mul-le_self a n in (le-div_iff_mul-le {k = n} {x = a / n} {y = b} h).1 (omega arith)

-- The progress for `c` completed steps of `n`, of an operation that is completed or not.
abbrev percent : ℕ → ℕ → Bool → ℕ
percent c n done = if beq n 0 then 0 else if done then 100 else c * 100 / n

percent_le : (c n : ℕ) (done : Bool) → c ≤ n → percent c n done ≤ 100
percent_le c n done h =
    let d = div-le_of_le-mul n {m = c * 100} {n = 100} (omega arith) in ground arith

positive : (n : ℕ) → beq n 0 ≡ false → 0 < n
positive n h = ground arith

percent_mono : (c c' n : ℕ) (done : Bool) → c ≤ c' → percent c n done ≤ percent c' n done
percent_mono c c' n done h = elim (Bool-cases (beq n 0)) [
  | inl e ↦ rw e (omega arith)
  | inr e ↦ let d = div_mono (c * 100) (c' * 100) n (positive n e) (omega arith) in ground arith
]

-- The progress of an operation is at most 100, and the end of a step never lowers it, whichever
-- step it is and whether or not it is in the list.
pub calculate_progress-complete_step :
    (env : Env Call Answer) (server_id name : String) (w : Run)
    → (calculate_progress w.object ≤ 100)
      × (calculate_progress w.object
          ≤ calculate_progress (complete_step env server_id name w).1.object)
unfolding calculate_progress is_completed complete_step write_status ◌>>=◌ call now change
calculate_progress-complete_step env server_id name w =
    let steps = w.object.steps in
    let done = is_completed w.object.state in
    let after = mark_step name completed "Completed" w.clock steps in
    let n = length-mark_step name "Completed" w.clock completed steps in
    let c = count_completed-mark_step name "Completed" w.clock steps in
    (
      percent_le (count_completed steps) (length steps) done (count_completed-length steps),
      subst
          (λ l.
            percent (count_completed steps) (length steps) done
            ≤ percent (count_completed after) l done)
          (sym n)
          (percent_mono (count_completed steps) (count_completed after) (length steps) done c),
    )
