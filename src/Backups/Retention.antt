-- ===== src/Backups/Retention.antt =====
-- Which backups are left when another one is made.
use flow_proxy.Prelude.{
  All, suc, zero, ℤ, negsuc, nonneg, is_positive, ℕ, ◌≡◌, ◌≤◌, refl, sym, ap, ◌∙◌, subst, Bool,
  true, false, not, ◌||◌, ◌&&◌, List, [], ◌∷◌, none, some, Text, text_eq, text_eq_iff, member,
  if◌then◌else◌, keep, take, drop, length, pos, arith, leb, Bool-cases, inl, inr,
}
use flow_proxy.Backups.{
  File, BackupLib, Manager, made, names, is_backup, insert_file, sort_files, list_backups,
  current_keep_last, remove_all, prune_old_backups, create, set_last_success,
}
use flow_proxy.Backups.Newest.{sort_files-NewestFirst, take-drop_older}

member-insert_file :
    (n : Text) (f : File) (files : List File)
    → member n (names (insert_file f files)) ≡ text_eq n f.snapshot.name || member n (names files)
unfolding insert_file
member-insert_file n f [] = ground arith
member-insert_file n f (g ∷ files) = ground (arith, member-insert_file n f files)

member-sort_files :
    (n : Text) (files : List File) → member n (names (sort_files files)) ≡ member n (names files)
unfolding sort_files
member-sort_files n [] = refl
member-sort_files n (f ∷ files) =
    member-insert_file n f (sort_files files)
    ∙ ap (λ b. text_eq n f.snapshot.name || b) (member-sort_files n files)

member-take-drop :
    (n : Text) (k : ℕ) (files : List File)
    → member n (names (take k files)) || member n (names (drop k files)) ≡ member n (names files)
member-take-drop n zero files = refl
member-take-drop n (suc k) [] = refl
member-take-drop n (suc k) (f ∷ files) = ground (arith, member-take-drop n k files)

keep-without :
    (ns : List Text) (n : Text) (files : List File)
    → keep
        (λ f. not (member f.snapshot.name ns))
        (keep (λ f. not (text_eq f.snapshot.name n)) files)
      ≡ keep (λ f. not (member f.snapshot.name (n ∷ ns))) files
keep-without ns n [] = refl
keep-without ns n (f ∷ files) = ground (arith, keep-without ns n files)

keep-is_backup :
    (q : File → Bool) (files : List File)
    → keep is_backup (keep q files) ≡ keep q (keep is_backup files)
keep-is_backup q [] = refl
keep-is_backup q (f ∷ files) = ground (arith, keep-is_backup q files)

member-keep :
    (n : Text) (ns : List Text) (files : List File)
    → member n (names (keep (λ f. not (member f.snapshot.name ns)) files))
      ≡ member n (names files) && not (member n ns)
member-keep n ns [] = refl
member-keep n ns (f ∷ files) =
    (let same : text_eq n f.snapshot.name ≡ true → member n ns ≡ member f.snapshot.name ns =
        λ e. ap (λ t. member t ns) ((text_eq_iff n f.snapshot.name).0 e) in
      elim (Bool-cases (member f.snapshot.name ns)) [
        | inl dropped ↦ rw dropped (ground (arith, member-keep n ns files, same, dropped))
        | inr kept ↦ rw kept (ground (arith, member-keep n ns files, same, kept))
      ])

take_all : (k : ℕ) (files : List File) → length files ≤ k → take k files ≡ files
take_all zero [] h = refl
take_all (suc k) [] h = refl
take_all zero (f ∷ files) h = absurd (ground (arith, h))
take_all (suc k) (f ∷ files) h = ap (λ fs. f ∷ fs) (take_all k files (omega (arith, h)))

drop_all : (k : ℕ) (files : List File) → length files ≤ k → drop k files ≡ []
drop_all zero [] h = refl
drop_all (suc k) [] h = refl
drop_all zero (f ∷ files) h = absurd (ground (arith, h))
drop_all (suc k) (f ∷ files) h = drop_all k files (omega (arith, h))

length-take-le : (k : ℕ) (files : List File) → length (take k files) ≤ k
length-take-le zero files = omega arith
length-take-le (suc k) [] = omega arith
length-take-le (suc k) (f ∷ files) = ground (arith, length-take-le k files)

length-insert_file :
    (f : File) (files : List File) → length (insert_file f files) ≡ suc (length files)
unfolding insert_file
length-insert_file f [] = refl
length-insert_file f (g ∷ files) = ground (arith, length-insert_file f files)

length-sort_files : (files : List File) → length (sort_files files) ≡ length files
unfolding sort_files
length-sort_files [] = refl
length-sort_files (f ∷ files) =
    length-insert_file f (sort_files files) ∙ ap suc (length-sort_files files)

keep_every : (files : List File) → keep (λ f. not (member f.snapshot.name [])) files ≡ files
keep_every [] = refl
keep_every (f ∷ files) = ap (λ fs. f ∷ fs) (keep_every files)

current_keep_last-positive : (v : ℤ) → leb (if is_positive v then nonneg v else 30) 0 ≡ false
current_keep_last-positive (pos v) = ground arith
current_keep_last-positive (negsuc v) = refl

positive : (m : Manager) → leb (current_keep_last m) 0 ≡ false
unfolding current_keep_last
positive m = current_keep_last-positive m.schedule.keep_last

module _ (lib : BackupLib) where
  remove_all-keep :
      ((n : Text) → lib.remove_error n ≡ none)
      → (ns : List Text) (files : List File)
      → remove_all lib ns files ≡ (none, keep (λ f. not (member f.snapshot.name ns)) files)
  unfolding remove_all
  remove_all-keep removes [] files = ap (λ fs. (none, fs)) (sym (keep_every files))
  remove_all-keep removes (n ∷ ns) files =
      rw
        (
          remove_all,
          removes n,
          remove_all-keep removes ns (keep (λ f. not (text_eq f.snapshot.name n)) files),
          keep-without ns n files,
        )
        refl

  prune-drops :
      (k : ℕ) (files : List File)
      → lib.read_error ≡ none
      → leb k 0 ≡ false
      → prune_old_backups lib k files
        ≡ remove_all lib (names (drop k (list_backups (pos 0) files))) files
  unfolding prune_old_backups
  prune-drops k files reads full = rw (prune_old_backups, full, reads) refl

  list-all :
      (files : List File)
      → length (keep is_backup files) ≤ 200
      → list_backups (pos 0) files ≡ sort_files (keep is_backup files)
  unfolding list_backups
  list-all files few =
      take_all 200 (sort_files (keep is_backup files))
        (subst (λ l. l ≤ 200) (sym (length-sort_files (keep is_backup files))) few)

  create-removes :
      (now : ℕ) (m : Manager) (f : File) (files left : List File)
      → prune_old_backups lib (current_keep_last m) (f ∷ files) ≡ (none, left)
      → create lib (made f) now m files
        ≡ (some f.snapshot, (set_last_success now f.snapshot.name m, left))
  unfolding create
  create-removes now m f files left h =
      rw (create, h) (ap (λ r. (some f.snapshot, (set_last_success now f.snapshot.name m, r.1))) h)

  left-names :
      (k : ℕ) (files : List File) (n : Text)
      → member n (
          names (
            keep is_backup (
              keep
                (λ g.
                  not (member g.snapshot.name (names (drop k (sort_files (keep is_backup files))))))
                files)))
        ≡ member n (names (keep is_backup files))
          && not (member n (names (drop k (sort_files (keep is_backup files)))))
  left-names k files n =
      (let ns = names (drop k (sort_files (keep is_backup files))) in
        ap (λ fs. member n (names fs)) (keep-is_backup (λ g. not (member g.snapshot.name ns)) files)
        ∙ member-keep n ns (keep is_backup files))

  -- Where the directory can be read, its files can be removed, and it has at most 200 backups with the
  -- new one, making a backup succeeds, and those names of backups are left that are not among the dropped
  -- ones. The sorted listing has all names; the dropped ones are those behind as many as the schedule
  -- retains, and each of these first ones is at least as new as each dropped one.
  pub create-retains :
      (now : ℕ) (m : Manager) (f : File) (files : List File) (n : Text)
      → lib.read_error ≡ none
      → ((s : Text) → lib.remove_error s ≡ none)
      → length (keep is_backup (f ∷ files)) ≤ 200
      → let sorted = sort_files (keep is_backup (f ∷ files)) in
        let k = current_keep_last m in
        ((create lib (made f) now m files).0 ≡ some f.snapshot)
        × (member n (names (keep is_backup (create lib (made f) now m files).1.1))
            ≡ member n (names (keep is_backup (f ∷ files)))
              && not (member n (names (drop k sorted))))
        × All
            (λ a. All (λ b. b.snapshot.created_at ≤ a.snapshot.created_at) (drop k sorted))
            (take k sorted)
        × (member n (names (take k sorted)) || member n (names (drop k sorted))
            ≡ member n (names (keep is_backup (f ∷ files))))
  create-retains now m f files n reads removes few =
      let k = current_keep_last m in
      let all = f ∷ files in
      let sorted = sort_files (keep is_backup all) in
      let ns = names (drop k sorted) in
      let done = create-removes now m f files (keep (λ g. not (member g.snapshot.name ns)) all) (
        prune-drops k all reads (positive m)
        ∙ ap (λ fs. remove_all lib (names (drop k fs)) all) (list-all all few)
        ∙ remove_all-keep removes ns all) in
      (
        ap (λ r. r.0) done,
        ap (λ r. member n (names (keep is_backup r.1.1))) done ∙ left-names k all n,
        take-drop_older k sorted (sort_files-NewestFirst (keep is_backup all)),
        member-take-drop n k sorted ∙ member-sort_files n (keep is_backup all),
      )

  -- Where the directory can be read and the schedule retains 200 or more, a backup never removes another
  -- one.
  pub create-unpruned :
      (now : ℕ) (m : Manager) (f : File) (files : List File)
      → lib.read_error ≡ none
      → 200 ≤ current_keep_last m
      → (create lib (made f) now m files).1.1 ≡ f ∷ files
  unfolding list_backups remove_all
  create-unpruned now m f files reads many =
      (let k = current_keep_last m in
        let all = f ∷ files in
        let sorted = sort_files (keep is_backup all) in
        ap (λ r. r.1.1)
          (create-removes now m f files all (
            prune-drops k all reads (positive m)
            ∙ ap (λ fs. remove_all lib (names fs) all)
                (drop_all k (take 200 sorted) (omega (arith, length-take-le 200 sorted, many))))))
