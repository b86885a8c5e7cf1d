-- ===== src/Tests/BackupRuns.antt =====
-- A directory with two backups, of which one is retained.
use flow_proxy.Prelude.{
  length, All, ◌||◌, ◌≤◌, take, List, ℕ, ◌≡◌, refl, true, false, not, ◌&&◌, [], ◌∷◌, none, some,
  Text, codes, member, keep, drop, arith, pos,
}
use flow_proxy.Backups.{
  File, BackupLib, Manager, made, names, is_backup, sort_files, new_manager, current_keep_last,
  create,
}
use flow_proxy.Backups.Retention.{create-retains, create-unpruned}

abbrev disk : BackupLib
disk = record {
  parse_duration = λ s. some (pos 86_400_000_000_000);
  read_error = none;
  remove_error = λ s. none;
  base = λ s. s;
  ext = λ s. codes ".zip";
}

abbrev retaining : ℕ → Manager
retaining n = new_manager (record { enabled = true; interval = codes "24h"; keep_last = pos n })

abbrev file : Text → ℕ → File
file name at = record {
  is_dir = false;
  is_readable = true;
  snapshot = record { name = name; size_bytes = 9; created_at = at };
}

create_drops_oldest :
    names
      (create disk
        (made (file (codes "b.zip") 8))
        8
        (retaining 1)
        (file (codes "a.zip") 5 ∷ [])).1.1
    ≡ codes "b.zip" ∷ []
unfolding create new_manager
create_drops_oldest = refl

abbrev listed : List File
listed = sort_files (keep is_backup (file (codes "b.zip") 8 ∷ file (codes "a.zip") 5 ∷ []))

two_backups : length (keep is_backup (file (codes "b.zip") 8 ∷ file (codes "a.zip") 5 ∷ [])) ≤ 200
unfolding is_backup
two_backups = omega arith

create-retains_example :
    ((create disk (made (file (codes "b.zip") 8)) 8 (retaining 1) (file (codes "a.zip") 5 ∷ [])).0
      ≡ some (file (codes "b.zip") 8).snapshot)
    × (member (codes "a.zip") (
          names (
            keep is_backup
              (create disk
                (made (file (codes "b.zip") 8))
                8
                (retaining 1)
                (file (codes "a.zip") 5 ∷ [])).1.1))
        ≡ member
            (codes "a.zip")
            (names (keep is_backup (file (codes "b.zip") 8 ∷ file (codes "a.zip") 5 ∷ [])))
          && not (member (codes "a.zip") (names (drop (current_keep_last (retaining 1)) listed))))
    × All
        (λ a.
          All
            (λ b. b.snapshot.created_at ≤ a.snapshot.created_at)
            (drop (current_keep_last (retaining 1)) listed))
        (take (current_keep_last (retaining 1)) listed)
    × (member (codes "a.zip") (names (take (current_keep_last (retaining 1)) listed))
          || member (codes "a.zip") (names (drop (current_keep_last (retaining 1)) listed))
        ≡ member
            (codes "a.zip")
            (names (keep is_backup (file (codes "b.zip") 8 ∷ file (codes "a.zip") 5 ∷ []))))
create-retains_example =
    create-retains disk 8 (retaining 1) (file (codes "b.zip") 8) (file (codes "a.zip") 5 ∷ [])
      (codes "a.zip") refl (λ s. refl) two_backups

create-unpruned_example :
    (create disk
      (made (file (codes "b.zip") 8))
      8
      (retaining 300)
      (file (codes "a.zip") 5 ∷ [])).1.1
    ≡ file (codes "b.zip") 8 ∷ file (codes "a.zip") 5 ∷ []
unfolding current_keep_last new_manager
create-unpruned_example =
    create-unpruned disk 8 (retaining 300) (file (codes "b.zip") 8) (file (codes "a.zip") 5 ∷ [])
      refl (omega arith)
