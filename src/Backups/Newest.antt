-- ===== src/Backups/Newest.antt =====
-- The order in which the backups are listed: the newest first.
use flow_proxy.Prelude.{
  All, All-map, suc, zero, ℕ, ◌≡◌, ◌≤◌, true, false, List, [], ◌∷◌, take, drop, arith, Bool-cases,
  inl, inr,
}
use flow_proxy.Backups.{newer, File, insert_file, sort_files}

-- Each is at least as new as all behind it.
abbrev pub NewestFirst : List File → Type 0
NewestFirst [] = Unit {0}
NewestFirst (f ∷ files) =
    All (λ g. g.snapshot.created_at ≤ f.snapshot.created_at) files × NewestFirst files

-- What stands behind a newer file is not newer than it.
All-insert_file :
    (t : ℕ) (f : File) (files : List File)
    → f.snapshot.created_at ≤ t
    → All (λ g. g.snapshot.created_at ≤ t) files
    → All (λ g. g.snapshot.created_at ≤ t) (insert_file f files)
unfolding insert_file
All-insert_file t f [] h hs = (h, tt)
All-insert_file t f (g ∷ files) h hs = elim (Bool-cases (newer f g)) [
  | inl first ↦ rw (insert_file, first) (h, hs)
  | inr later ↦ rw (insert_file, later) (hs.0, All-insert_file t f files h hs.1)
]

newer-le : (f g : File) → newer f g ≡ true → g.snapshot.created_at ≤ f.snapshot.created_at
newer-le f g h = ground (arith, h)

not_newer-le : (f g : File) → newer f g ≡ false → f.snapshot.created_at ≤ g.snapshot.created_at
not_newer-le f g h = ground (arith, h)

insert_file-NewestFirst :
    (f : File) (files : List File) → NewestFirst files → NewestFirst (insert_file f files)
unfolding insert_file
insert_file-NewestFirst f [] h = (tt, tt)
insert_file-NewestFirst f (g ∷ files) h = elim (Bool-cases (newer f g)) [
  | inl first ↦
      (let le = newer-le f g first in
        rw (insert_file, first) ((le, All-map files (λ x k. omega (arith, k, le)) h.0), h))
  | inr later ↦
      rw (insert_file, later)
        (
          All-insert_file g.snapshot.created_at f files (not_newer-le f g later) h.0,
          insert_file-NewestFirst f files h.1,
        )
]

pub sort_files-NewestFirst : (files : List File) → NewestFirst (sort_files files)
unfolding sort_files
sort_files-NewestFirst [] = tt
sort_files-NewestFirst (f ∷ files) =
    insert_file-NewestFirst f (sort_files files) (sort_files-NewestFirst files)

-- All in front of a place are at least as new as all behind it.
All-drop_within :
    (t k : ℕ) (files : List File)
    → All (λ g. g.snapshot.created_at ≤ t) files
    → All (λ g. g.snapshot.created_at ≤ t) (drop k files)
All-drop_within t zero files h = h
All-drop_within t (suc k) [] h = tt
All-drop_within t (suc k) (f ∷ files) h = All-drop_within t k files h.1

pub take-drop_older :
    (k : ℕ) (files : List File)
    → NewestFirst files
    → All
        (λ f. All (λ g. g.snapshot.created_at ≤ f.snapshot.created_at) (drop k files))
        (take k files)
take-drop_older zero files h = tt
take-drop_older (suc k) [] h = tt
take-drop_older (suc k) (f ∷ files) h =
    (All-drop_within f.snapshot.created_at k files h.0, take-drop_older k files h.1)
