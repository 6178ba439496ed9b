-- ===== src/Db/Laws/Index.antt =====
-- The indexes as sets: what is in them after an insertion and after a removal.
use metio.Base.{
  if◌then◌else◌, Bool-cases, String, ◌≡◌, refl, inl, inr, true, false, List, [], ◌∷◌, ◌++◌, ◌==◌,
  if-true, if-false, sym, ap, ◌∙◌, subst, not, eq_iff, eq_refl,
}
use metio.Db.Store.{in_index, without}
use metio.Db.Laws.ServerLaws.{extended}

-- No text stands twice in the index.
abbrev pub IsUnique : List String → Type 0
IsUnique [] = Unit
IsUnique (x ∷ xs) = (in_index x xs ≡ false) × IsUnique xs

in_index-append :
    (id x : String) (ids : List String)
    → in_index id (ids ++ (x ∷ [])) ≡ (if in_index id ids then true else (x == id))
unfolding in_index
in_index-append id x [] = elim (Bool-cases (x == id)) [ inl h ↦ rw h | inr h ↦ rw h ]
in_index-append id x (y ∷ ys) = elim (Bool-cases (y == id)) [
  | inl h ↦ rw h
  | inr h ↦ let r = in_index-append id x ys in rw (h, r)
]

in_index-without-same : (id : String) (ids : List String) → in_index id (without id ids) ≡ false
unfolding in_index without
in_index-without-same id [] = refl
in_index-without-same id (x ∷ xs) =
    let r = in_index-without-same id xs in
    elim (Bool-cases (x == id)) [ inl h ↦ rw (h, r) | inr h ↦ rw (h, h, r) ]

-- What a failed search shows of the entries.
in_index-miss :
    (x y : String) (ys : List String)
    → in_index x (y ∷ ys) ≡ false
    → ((y == x) ≡ false) × (in_index x ys ≡ false)
unfolding in_index
in_index-miss x y ys h = elim (Bool-cases (y == x)) [
  | inl e ↦ let q = sym (if-true true (in_index x ys) e) ∙ h in absurd (cc)
  | inr e ↦ (e, sym (if-false true (in_index x ys) e) ∙ h)
]

in_index-without-other :
    (id x : String) (ids : List String)
    → in_index x ids ≡ false
    → in_index x (without id ids) ≡ false
unfolding in_index without
in_index-without-other id x [] h = refl
in_index-without-other id x (y ∷ ys) h =
    let (yx, rest) = in_index-miss x y ys h in
    let r = in_index-without-other id x ys rest in
    elim (Bool-cases (y == id)) [ inl e ↦ rw (e, r) | inr e ↦ rw (e, yx, r) ]

without-IsUnique : (id : String) (ids : List String) → IsUnique ids → IsUnique (without id ids)
unfolding without
without-IsUnique id [] u = tt
without-IsUnique id (y ∷ ys) u =
    let r = without-IsUnique id ys u.1 in
    elim (Bool-cases (y == id)) [
      | inl e ↦ subst IsUnique (sym (if-false _ _ (ap not e))) r
      | inr e ↦
          subst IsUnique (sym (if-true _ _ (ap not e))) (in_index-without-other id y ys u.0, r)
    ]

differ_sym : (a b : String) → (a == b) ≡ false → (b == a) ≡ false
differ_sym a b h = elim (Bool-cases (b == a)) [
  | inl e ↦ let q = (eq_iff a b).1 (sym ((eq_iff b a).0 e)) in absurd (cc)
  | inr e ↦ e
]

append-IsUnique :
    (x : String) (ids : List String)
    → in_index x ids ≡ false
    → IsUnique ids
    → IsUnique (ids ++ (x ∷ []))
unfolding in_index
append-IsUnique x [] h u = (refl, tt)
append-IsUnique x (y ∷ ys) h u =
    let (yx, rest) = in_index-miss x y ys h in
    (in_index-append y x ys ∙ if-false _ _ u.0 ∙ differ_sym y x yx, append-IsUnique x ys rest u.1)

-- An index without repetitions stays one, when an id is added as `CreateServerConfig` does and when
-- one is removed as `DeleteServerConfig` does; the added id is in it, the removed id is not.
pub index_stays-IsUnique :
    (id : String) (ids : List String)
    → IsUnique ids
    → IsUnique (extended id ids)
      × (in_index id (extended id ids) ≡ true)
      × IsUnique (without id ids)
      × (in_index id (without id ids) ≡ false)
index_stays-IsUnique id ids u = elim (Bool-cases (in_index id ids)) [
  | inl e ↦
      let same = sym (if-true ids (ids ++ (id ∷ [])) e) in
      (
        subst IsUnique same u,
        ap (in_index id) (sym same) ∙ e,
        without-IsUnique id ids u,
        in_index-without-same id ids,
      )
  | inr e ↦
      let same = sym (if-false ids (ids ++ (id ∷ [])) e) in
      let self = eq_refl id in
      (
        subst IsUnique same (append-IsUnique id ids e u),
        ap (in_index id) (sym same) ∙ in_index-append id id ids ∙ if-false _ _ e ∙ self,
        without-IsUnique id ids u,
        in_index-without-same id ids,
      )
]
