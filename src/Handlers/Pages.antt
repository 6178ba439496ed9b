-- ===== src/Handlers/Pages.antt =====
-- The pages of `ListAllBackups`.

use mathlib.Core.List.{Perm}
use native.Mathlib.Nat.{suc-mul, zero-mul}
use metio.Base.{
  length, take, drop, ℕ, zero, suc, ◌+◌, ◌-◌, ◌≤◌, ◌<◌, ◌≡◌, refl, ap, ◌↔◌, ◌⊎◌, none, some, List,
  [], ◌∷◌, arith, leb, leb→le, Bool-cases, sym, ◌∙◌, inl, inr, false, Option, ◌++◌, ◌*◌, Bool,
}
use metio.Base.Int.{pos, negsuc}
use metio.Handlers.Catalog.{
  max_int, int_add, clamp, end_of, slice, page_of, SortParams, filter_backups, comes_before,
  sorted_backups,
}
use metio.Types.{Backup}

clamp-le : (total n : ℕ) → (clamp total n ≤ total) × (clamp total n ≤ n)
unfolding clamp
clamp-le total n = (ground arith, ground arith)

clamp-cases :
    (total n : ℕ) → ((n ≤ total) × (clamp total n ≡ n)) ⊎ ((total < n) × (clamp total n ≡ total))
unfolding clamp
clamp-cases total n = ground arith

int_add-pos : (a b : ℕ) → a + b ≤ max_int → int_add a b ≡ pos (a + b)
unfolding int_add
int_add-pos a b h = ground arith

int_add-negsuc : (a b : ℕ) → max_int < a + b → (n : ℕ) × (int_add a b ≡ negsuc n)
unfolding int_add
int_add-negsuc a b h = (18446744073709551615 - (a + b), ground arith)

clamp-after : (total start limit : ℕ) → start ≤ total → start ≤ clamp total (start + limit)
unfolding clamp
clamp-after total start limit h = ground arith

not_le : (a b : ℕ) → leb a b ≡ false → b < a
not_le a b h = ground arith

count_pages : (n limit : ℕ) → limit + n * limit ≡ suc n * limit
count_pages n limit = grind (arith, suc-mul n limit)

module _ {A : Type 0} where
  take-all : (n : ℕ) (xs : List A) → length xs ≤ n → take n xs ≡ xs
  take-all zero [] h = refl
  take-all zero (x ∷ xs) h = absurd (omega (arith, h))
  take-all (suc n) [] h = refl
  take-all (suc n) (x ∷ xs) h = ap (λ ys. x ∷ ys) (take-all n xs (omega (arith, h)))

  length-drop : (n : ℕ) (xs : List A) → length (drop n xs) ≡ length xs - n
  length-drop zero xs = omega arith
  length-drop (suc n) [] = omega arith
  length-drop (suc n) (x ∷ xs) = omega (arith, length-drop n xs)

  -- Two lengths that differ only past the end take the same.
  take-past :
      (m n : ℕ) (ys : List A)
      → (m ≡ n) ⊎ ((length ys ≤ m) × (length ys ≤ n))
      → take m ys ≡ take n ys
  take-past m n ys (inl e) = ap (λ k. take k ys) e
  take-past m n ys (inr (h, k)) = take-all m ys h ∙ sym (take-all n ys k)

  slice-some :
      (start end : ℕ) (xs : List A)
      → start ≤ end
      → end ≤ length xs
      → slice start (pos end) xs ≡ some (take (end - start) (drop start xs))
  unfolding slice
  slice-some start end xs h k = ground arith

  within :
      (start limit : ℕ) (xs : List A)
      → start ≤ length xs
      → start + limit ≤ max_int
      → slice start (end_of (length xs) (int_add start limit)) xs
        ≡ some (take limit (drop start xs))
  unfolding end_of
  within start limit xs h k =
      let total = length xs in
      let end = clamp total (start + limit) in
      let split = clamp-cases total (start + limit) in
      let dropped = length-drop start xs in
      let same = take-past (end - start) limit (drop start xs) (elim split [
        | inl (le, e) ↦ inl (omega (arith, e))
        | inr (lt, e) ↦ inr (omega (arith, e, dropped), omega (arith, lt, dropped))
      ]) in
      let before = clamp-after total start limit h in
      ap (λ n. slice start (end_of total n) xs) (int_add-pos start limit k)
      ∙ slice-some start end xs before (clamp-le total (start + limit)).0
      ∙ ap some same

  past :
      (start limit : ℕ) (xs : List A)
      → max_int < start + limit
      → slice start (end_of (length xs) (int_add start limit)) xs ≡ none
  unfolding end_of slice
  past start limit xs h = let (n, e) = int_add-negsuc start limit h in rw e

  -- The page at an offset: the next `limit` entries, where its end does not overflow.
  page_of-cases :
      (offset limit : ℕ) (xs : List A)
      → ((clamp (length xs) offset + limit ≤ max_int)
          × (page_of offset limit xs ≡ some (take limit (drop (clamp (length xs) offset) xs))))
        ⊎ ((max_int < clamp (length xs) offset + limit) × (page_of offset limit xs ≡ none))
  unfolding page_of end_of
  page_of-cases offset limit xs =
      let start = clamp (length xs) offset in
      elim (Bool-cases (leb (start + limit) max_int)) [
        | inl h ↦
            inl (leb→le _ _ h, within start limit xs (clamp-le (length xs) offset).0 (leb→le _ _ h))
        | inr h ↦ inr (not_le _ _ h, past start limit xs (not_le _ _ h))
      ]

  -- The slice expression of `ListAllBackups` panics exactly if the offset, at most the length, and
  -- the limit add up to more than the largest `int`.
  pub page_of-none_iff :
      (offset limit : ℕ) (xs : List A)
      → (page_of offset limit xs ≡ none) ↔ (max_int < clamp (length xs) offset + limit)
  unfolding page_of end_of
  page_of-none_iff offset limit xs = elim (page_of-cases offset limit xs) [
    | inl (fits, e) ↦ (λ n. absurd (cc (e, n)), λ over. absurd (omega (arith, fits, over)))
    | inr (over, e) ↦ (λ n. over, λ o. e)
  ]

  abbrev joined : Option (List A) → Option (List A) → Option (List A)
  joined (some xs) (some ys) = some (xs ++ ys)
  joined (some xs) none = none
  joined none o = none

  -- The first `n` pages behind `offset`, one after the other.
  abbrev pub gather : ℕ → ℕ → ℕ → List A → Option (List A)
  gather zero offset limit xs = some []
  gather (suc n) offset limit xs =
      joined (page_of offset limit xs) (gather n (offset + limit) limit xs)

  take-nil : (n : ℕ) → take {A = A} n [] ≡ []
  take-nil zero = refl
  take-nil (suc n) = refl

  drop-nil : (n : ℕ) → drop {A = A} n [] ≡ []
  drop-nil zero = refl
  drop-nil (suc n) = refl

  drop-all : (n : ℕ) (xs : List A) → length xs ≤ n → drop n xs ≡ []
  drop-all n [] h = drop-nil n
  drop-all zero (x ∷ xs) h = absurd (omega (arith, h))
  drop-all (suc n) (x ∷ xs) h = drop-all n xs (omega (arith, h))

  take-add : (m n : ℕ) (xs : List A) → take m xs ++ take n (drop m xs) ≡ take (m + n) xs
  take-add zero n xs = ap (λ k. take k xs) (omega arith)
  take-add (suc m) n [] = take-nil n ∙ sym (take-nil (suc m + n))
  take-add (suc m) n (x ∷ xs) =
      ap (λ ys. x ∷ ys) (take-add m n xs)
      ∙ ap (λ k. take k (x ∷ xs)) {x = suc (m + n)} (omega arith)

  drop-add : (m n : ℕ) (xs : List A) → drop n (drop m xs) ≡ drop (m + n) xs
  drop-add zero n xs = ap (λ k. drop k xs) (omega arith)
  drop-add (suc m) n [] = drop-nil n ∙ sym (drop-nil (suc m + n))
  drop-add (suc m) n (x ∷ xs) =
      drop-add m n xs ∙ ap (λ k. drop k (x ∷ xs)) {x = suc (m + n)} (omega arith)

  -- The offset of a page that starts past the end does not matter.
  drop-clamp : (offset : ℕ) (xs : List A) → drop (clamp (length xs) offset) xs ≡ drop offset xs
  drop-clamp offset xs = elim (clamp-cases (length xs) offset) [
    | inl (h, e) ↦ ap (λ k. drop k xs) e
    | inr (h, e) ↦
        ap (λ k. drop k xs) e
        ∙ drop-all _ xs (omega arith)
        ∙ sym (drop-all offset xs (omega (arith, h)))
  ]

  gather-take :
      (n offset limit : ℕ) (xs : List A)
      → length xs + limit ≤ max_int
      → gather n offset limit xs ≡ some (take (n * limit) (drop offset xs))
  gather-take zero offset limit xs h =
      ap (λ k. some (take k (drop offset xs))) (sym (zero-mul limit))
  gather-take (suc n) offset limit xs h = elim (page_of-cases offset limit xs) [
    | inl (fits, e) ↦
        let rest = gather-take n (offset + limit) limit xs h in
        let page = e ∙ ap (λ ys. some (take limit ys)) (drop-clamp offset xs) in
        let tail = rest ∙ ap (λ ys. some (take (n * limit) ys)) (sym (drop-add offset limit xs)) in
        (λ i. joined (page i) (tail i))
        ∙ ap some (take-add limit (n * limit) (drop offset xs))
        ∙ ap (λ k. some (take k (drop offset xs))) (count_pages n limit)
    | inr (over, e) ↦ absurd (omega (arith, h, over, (clamp-le (length xs) offset).0))
  ]

  gather-all :
      (n limit : ℕ) (xs : List A)
      → length xs + limit ≤ max_int
      → length xs ≤ n * limit
      → gather n 0 limit xs ≡ some xs
  gather-all n limit xs h k = gather-take n 0 limit xs h ∙ ap some (take-all (n * limit) xs k)

-- The backups that match are shown on the pages of `ListAllBackups`, each exactly once, whatever the
-- order that is asked for: if the total and the limit add up without overflow, then the first pages,
-- one behind the other, are a permutation of the backups that match the filter, as soon as their
-- number is large enough. What is assumed of `sort.SliceStable` is that it permutes the slice.
pub gather-Perm :
    (sort_stable : (Backup → Backup → Bool) → List Backup → List Backup)
    → ((less : Backup → Backup → Bool) (bs : List Backup) → Perm (sort_stable less bs) bs)
    → (params : SortParams) (backups : List Backup) (n : ℕ)
    → length (sorted_backups sort_stable params backups) + params.limit ≤ max_int
    → length (sorted_backups sort_stable params backups) ≤ n * params.limit
    → (shown : List Backup) × (gather n 0 params.limit (sorted_backups sort_stable params backups)
        ≡ some shown)
      × Perm shown (filter_backups params.server backups)
unfolding sorted_backups
gather-Perm sort_stable permutes params backups n h k = (
  sorted_backups sort_stable params backups,
  gather-all n params.limit _ h k,
  permutes (comes_before params) (filter_backups params.server backups),
)
