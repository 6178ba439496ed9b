-- ===== src/Tests/Pages.antt =====
-- Examples of the pages of the backup catalogue.
use mathlib.Core.List.Perm
use mathlib.Core.List.{Perm}
use metio.Handlers.Catalog.{
  max_int, clamp, page_of, SortParams, of_server, filter_backups, sorted_backups, is_less,
  comes_before,
}
use metio.Handlers.Pages.{page_of-none_iff, gather, gather-Perm}
use metio.Base.{
  true, false, none, some, List, [], ◌∷◌, if◌then◌else◌, ◌+◌, ◌<◌, ◌≡◌, ◌↔◌, Bool, arith,
}
use metio.Types.{Backup}
use metio.Tests.Requests.{nightly_backup}

page_of-none_iff_example :
    (page_of 1 max_int (nightly_backup ∷ []) ≡ none) ↔ (max_int < clamp 1 1 + max_int)
page_of-none_iff_example = page_of-none_iff 1 max_int (nightly_backup ∷ [])

-- A sort that puts each entry in front of the first one that it comes before.
unfoldable insert_backup : (Backup → Backup → Bool) → Backup → List Backup → List Backup
insert_backup less b [] = b ∷ []
insert_backup less b (c ∷ bs) =
    let rest = insert_backup less b bs in if less b c then b ∷ c ∷ bs else c ∷ rest

unfoldable sort_backups : (Backup → Backup → Bool) → List Backup → List Backup
sort_backups less [] = []
sort_backups less (b ∷ bs) = insert_backup less b (sort_backups less bs)

placed :
    (b c : Backup) (bs cs : List Backup) (before : Bool)
    → Perm cs (b ∷ bs)
    → Perm (if before then b ∷ c ∷ bs else c ∷ cs) (b ∷ c ∷ bs)
placed b c bs cs true h = Perm.refl (b ∷ c ∷ bs)
placed b c bs cs false h = Perm.trans (Perm.cons c h) (Perm.swap b c bs)

inserted-Perm :
    (less : Backup → Backup → Bool) (b : Backup) (bs : List Backup)
    → Perm (insert_backup less b bs) (b ∷ bs)
unfolding insert_backup
inserted-Perm less b [] = Perm.refl (b ∷ [])
inserted-Perm less b (c ∷ bs) = placed b c bs _ (less b c) (inserted-Perm less b bs)

sorted-Perm : (less : Backup → Backup → Bool) (bs : List Backup) → Perm (sort_backups less bs) bs
unfolding sort_backups
sorted-Perm less [] = Perm.refl []
sorted-Perm less (b ∷ bs) =
    Perm.trans (inserted-Perm less b (sort_backups less bs)) (Perm.cons b (sorted-Perm less bs))

abbrev older_backup : Backup
older_backup = record nightly_backup { snapshot_id = "old"; created_at = 1 }

abbrev by_age : SortParams
by_age = record {
  sort_by = "created_at";
  sort_dir = "asc";
  limit = 1;
  offset = 0;
  server = "survival";
}

gather-Perm_example :
    (shown : List Backup) × (gather 2 0 1
        (sorted_backups sort_backups by_age (nightly_backup ∷ older_backup ∷ []))
      ≡ some shown)
    × Perm shown (filter_backups "survival" (nightly_backup ∷ older_backup ∷ []))
unfolding sorted_backups filter_backups of_server sort_backups insert_backup comes_before is_less
gather-Perm_example =
    gather-Perm sort_backups sorted-Perm by_age (nightly_backup ∷ older_backup ∷ []) 2 (omega arith)
      (omega arith)
