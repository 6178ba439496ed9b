-- ===== src/Goroutines/Exclusion.antt =====
-- The goroutines of internal/services/executor_goroutine.go that run at the same time.
use metio.Base.{
  beq, Bool-cases, if-true, if-false, ℕ, String, ◌≡◌, refl, sym, ap, ◌∙◌, subst, inl, inr, true,
  false, Option, none, some, List, [], ◌∷◌, ◌==◌, eq_iff,
}
use metio.Exec.{Error}
use metio.Goroutines.{
  Pool, has_server, delete_server, is_running_run, end_run, start_run, finish_run, Uncancelled,
  at_first, after_start, after_finish,
}

-- No server stands twice in the list.
abbrev pub AreDistinct : List (String × ℕ) → Type 0
AreDistinct [] = Unit
AreDistinct ((k, n) ∷ m) = (has_server k m ≡ false) × AreDistinct m

miss :
    (k j : String) (n : ℕ) (m : List (String × ℕ))
    → has_server k ((j, n) ∷ m) ≡ false
    → ((j == k) ≡ false) × (has_server k m ≡ false)
unfolding has_server
miss k j n m h = elim (Bool-cases (j == k)) [
  | inl e ↦ let q = sym (if-true true (has_server k m) e) ∙ h in absurd (cc)
  | inr e ↦ (e, sym (if-false true (has_server k m) e) ∙ h)
]

delete-absent :
    (k : String) (m : List (String × ℕ)) → has_server k m ≡ false → delete_server k m ≡ m
unfolding delete_server
delete-absent k [] h = refl
delete-absent k ((j, n) ∷ m) h =
    let (e, rest) = miss k j n m h in let r = delete-absent k m rest in rw (e, r)

end-absent :
    (k : String) (i : ℕ) (m : List (String × ℕ)) → has_server k m ≡ false → end_run k i m ≡ m
unfolding end_run
end-absent k i [] h = refl
end-absent k i ((j, n) ∷ m) h =
    let (e, rest) = miss k j n m h in let r = end-absent k i m rest in rw (e, r)

run-absent :
    (k : String) (i : ℕ) (m : List (String × ℕ))
    → has_server k m ≡ false
    → is_running_run k i m ≡ false
unfolding is_running_run
run-absent k i [] h = refl
run-absent k i ((j, n) ∷ m) h =
    let (e, rest) = miss k j n m h in let r = run-absent k i m rest in rw (e, r)

-- In a list without repetitions, the goroutine that ends is the one whose entry is deleted.
end-delete :
    (k : String) (i : ℕ) (m : List (String × ℕ))
    → AreDistinct m
    → is_running_run k i m ≡ true
    → end_run k i m ≡ delete_server k m
unfolding end_run delete_server is_running_run
end-delete k i [] d h = refl
end-delete k i ((j, n) ∷ m) d h = elim (Bool-cases (j == k)) [
  | inl jk ↦
      let absent = subst (λ x. has_server x m ≡ false) ((eq_iff j k).0 jk) d.0 in
      let a = end-absent k i m absent in
      let b = delete-absent k m absent in
      elim (Bool-cases (beq n i)) [
        | inl ni ↦ rw (jk, ni, a, b)
        | inr ni ↦
            let q : is_running_run k i m ≡ true = rw (jk, ni) at h in
            let z = run-absent k i m absent in absurd (cc)
      ]
  | inr jk ↦
      let q : is_running_run k i m ≡ true = rw jk at h in
      let r = end-delete k i m d.1 q in rw (jk, r)
]

has_server-delete :
    (j k : String) (m : List (String × ℕ))
    → has_server j m ≡ false
    → has_server j (delete_server k m) ≡ false
unfolding has_server delete_server
has_server-delete j k [] h = refl
has_server-delete j k ((x, n) ∷ m) h =
    let (e, rest) = miss j x n m h in
    let r = has_server-delete j k m rest in
    elim (Bool-cases (x == k)) [ inl xk ↦ rw (xk, r) | inr xk ↦ rw (xk, e, r) ]

delete-AreDistinct :
    (k : String) (m : List (String × ℕ)) → AreDistinct m → AreDistinct (delete_server k m)
unfolding delete_server
delete-AreDistinct k [] d = tt
delete-AreDistinct k ((x, n) ∷ m) d =
    let r = delete-AreDistinct k m d.1 in
    elim (Bool-cases (x == k)) [
      | inl xk ↦ subst AreDistinct (sym (if-true _ _ xk)) r
      | inr xk ↦ subst AreDistinct (sym (if-false _ _ xk)) (has_server-delete x k m d.0, r)
    ]

-- The entries are those of the goroutines that run, and their servers differ.
pub record IsExclusive (pool : Pool) : Type 0 where
  pub same : pool.operations ≡ pool.running
  pub distinct : AreDistinct pool.running

start-IsExclusive :
    (done : Option Error) (k : String) (pool : Pool)
    → IsExclusive pool
    → IsExclusive (start_run done k pool).1
unfolding start_run
start-IsExclusive (some e) k pool x = x
start-IsExclusive none k pool x = elim (Bool-cases (has_server k pool.operations)) [
  | inl e ↦ subst (λ (r : Option Error × Pool). IsExclusive r.1) (sym (if-true _ _ e)) x
  | inr e ↦
      subst (λ (r : Option Error × Pool). IsExclusive r.1) (sym (if-false _ _ e))
        (record {
          same = ap (λ m. (k, pool.next) ∷ m) x.same;
          distinct = (ap (has_server k) (sym x.same) ∙ e, x.distinct);
        })
]

finish-IsExclusive :
    (k : String) (i : ℕ) (pool : Pool) → IsExclusive pool → IsExclusive (finish_run k i pool)
unfolding finish_run
finish-IsExclusive k i pool x = elim (Bool-cases (is_running_run k i pool.running)) [
  | inl e ↦
      let ended = end-delete k i pool.running x.distinct e in
      subst IsExclusive (sym (if-true _ _ e)) (record {
        same = ap (delete_server k) x.same ∙ sym ended;
        distinct = subst AreDistinct (sym ended) (delete-AreDistinct k pool.running x.distinct);
      })
  | inr e ↦ subst IsExclusive (sym (if-false _ _ e)) x
]

-- As long as no operation is cancelled, the executor runs at most one goroutine per server, and its
-- map holds exactly the goroutines that run.
pub Uncancelled-IsExclusive : (pool : Pool) → Uncancelled pool → IsExclusive pool
Uncancelled-IsExclusive pool at_first = record { same = refl; distinct = tt }
Uncancelled-IsExclusive _ (after_start {pool} done k u) =
    start-IsExclusive done k pool (Uncancelled-IsExclusive pool u)
Uncancelled-IsExclusive _ (after_finish {pool} k i u) =
    finish-IsExclusive k i pool (Uncancelled-IsExclusive pool u)
