-- ===== src/Cleanup/Expiry.antt =====
-- Which servers the scan calls expired, described without the map.
use metio.Base.{
  ltb, if◌then◌else◌, String, ◌≡◌, refl, Bool, true, false, not, ◌&&◌, Option, none, some, List, [],
  ◌∷◌, ◌==◌, Bool-cases, sym, ap, ◌∙◌, inl, inr, eq_iff,
}
use metio.Types.{Time, Backup}
use metio.Cleanup.{note_retention, deletion_stamp, note_stamp, scan_backups}

-- Reading the map.
unfoldable pub find_server : String → List (String × Bool) → Option Bool
find_server id [] = none
find_server id ((j, expired) ∷ m) =
    let rest = find_server id m in if j == id then some expired else rest

-- What two lots of backups of one server say together.
unfoldable pub both : Option Bool → Option Bool → Option Bool
both none v = v
both (some a) none = some a
both (some a) (some b) = some (a && b)

-- What one backup says of a server: nothing, or whether its retention is over.
unfoldable pub verdict_of : String → Time → Option (String × Time) → Option Bool
verdict_of id time none = none
verdict_of id time (some (j, until)) = if j == id then some (not (ltb time until)) else none

-- What all backups say of a server: `none` if it has no backup with both stamps, and otherwise
-- whether the retention of every such backup is over.
unfoldable pub verdict : String → Time → List Backup → Option Bool
unfolding verdict_of both
verdict id time [] = none
verdict id time (b ∷ bs) = both (verdict_of id time (deletion_stamp b)) (verdict id time bs)

both_assoc : (u v w : Option Bool) → both (both u v) w ≡ both u (both v w)
unfolding both
both_assoc none v w = refl
both_assoc (some a) none w = refl
both_assoc (some a) (some b) none = refl
both_assoc (some true) (some b) (some c) = refl
both_assoc (some false) (some b) (some c) = refl

both-none : (v : Option Bool) → both v none ≡ v
unfolding both
both-none none = refl
both-none (some a) = refl

-- Where the map has the server, its entry is what both lots say.
kept : (late expired : Bool) → (if late then false else expired) ≡ (expired && not late)
kept true true = refl
kept true false = refl
kept false true = refl
kept false false = refl

find-note_retention :
    (id j : String) (late : Bool) (m : List (String × Bool))
    → find_server id (note_retention j late m)
      ≡ both (find_server id m) (if j == id then some (not late) else none)
unfolding find_server note_retention both
find-note_retention id j late [] = refl
find-note_retention id j late ((k, expired) ∷ m) = elim (Bool-cases (k == j)) [
  | inl kj ↦
      let same = ap (λ x. x == id) (sym ((eq_iff k j).0 kj)) in
      let n = both-none (find_server id m) in
      let c = kept late expired in
      elim (Bool-cases (k == id)) [
        | inl kid ↦ let jid = same ∙ kid in rw (kj, kid, jid, c)
        | inr kid ↦ let jid = same ∙ kid in rw (kj, kid, jid, n)
      ]
  | inr kj ↦
      let r = find-note_retention id j late m in
      elim (Bool-cases (k == id)) [
        | inl kid ↦ elim (Bool-cases (j == id)) [
          | inl jid ↦
              let q = (eq_iff k j).1 ((eq_iff k id).0 kid ∙ sym ((eq_iff j id).0 jid)) in
              absurd (cc)
          | inr jid ↦ rw (kj, kid, jid)
        ]
        | inr kid ↦ rw (kj, kid, r)
      ]
]

find-note_stamp :
    (id : String) (time : Time) (stamp : Option (String × Time)) (m : List (String × Bool))
    → find_server id (note_stamp time stamp m) ≡ both (find_server id m) (verdict_of id time stamp)
unfolding note_stamp verdict_of
find-note_stamp id time none m = sym (both-none (find_server id m))
find-note_stamp id time (some (j, until)) m = find-note_retention id j (ltb time until) m

find-scan_backups :
    (id : String) (time : Time) (backups : List Backup) (m : List (String × Bool))
    → find_server id (scan_backups time backups m)
      ≡ both (find_server id m) (verdict id time backups)
unfolding scan_backups verdict
find-scan_backups id time [] m = sym (both-none (find_server id m))
find-scan_backups id time (b ∷ bs) m =
    find-scan_backups id time bs (note_stamp time (deletion_stamp b) m)
    ∙ ap (λ v. both v (verdict id time bs)) (find-note_stamp id time (deletion_stamp b) m)
    ∙ both_assoc (find_server id m) (verdict_of id time (deletion_stamp b)) (verdict id time bs)

pub scan_backups-verdict :
    (id : String) (time : Time) (backups : List Backup)
    → find_server id (scan_backups time backups []) ≡ verdict id time backups
unfolding find_server both
scan_backups-verdict id time backups = find-scan_backups id time backups []
