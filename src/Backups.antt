-- ===== src/Backups.antt =====
-- The manager of the backups: internal/backup/manager.go. The directory is the list of its files,
-- instants are nanoseconds since Go's zero time, and the archive that a backup is written to is given.
pub mod Newest
pub mod Retention
use flow_proxy.Prelude.{
  ℕ, ◌-◌, Bool, true, false, not, ◌||◌, ◌&&◌, List, [], ◌∷◌, ◌++◌, Option, none, some, Text, codes,
  text_eq, is_empty, ltb, leb, ◌==◌, if◌then◌else◌, trim_space, to_lower, has_suffix, reverse, map,
  keep, take, drop, length, ℤ, pos, nonneg, is_positive, guard, ◌>>◌, ◌>>=◌,
}
use flow_proxy.Nodes.Sorting.{text_lt}
use flow_proxy.Sites.Limits.{exceeds}
use flow_proxy.Settings.{BackupSettings}
use flow_proxy.Settings.Lists.{text_or, is_shorter}
use flow_proxy.Settings.Parts.{is_within, is_zero}

pub record Snapshot : Type 0 where
  pub name : Text
  pub size_bytes : ℕ
  pub created_at : ℕ

-- An entry of the directory, and whether its attributes can be read.
pub record File : Type 0 where
  pub is_dir : Bool
  pub is_readable : Bool
  pub snapshot : Snapshot

-- The calls of packages time, os and filepath: time.ParseDuration in nanoseconds, the error of
-- os.ReadDir, the error of os.Remove for a name, filepath.Base and filepath.Ext.
pub record BackupLib : Type 0 where
  pub parse_duration : Text → Option ℤ
  pub read_error : Option Text
  pub remove_error : Text → Option Text
  pub base : Text → Text
  pub ext : Text → Text

-- `Manager`; `last_scheduled_at` and `last_success_at` are 0 where they are zero.
pub record Manager : Type 0 where
  pub schedule : BackupSettings
  pub last_scheduled_at : ℕ
  pub last_success_at : ℕ
  pub last_backup_name : Text
  pub last_error : Text

pub data Made : Type 0 where
  failed : Text → Made
  made : File → Made

pub data Resolved : Type 0 where
  not_found : Resolved
  found : Snapshot → Resolved

abbrev pub names : List File → List Text
names = map (λ f. f.snapshot.name)

unfoldable pub is_backup : File → Bool
unfolding has_suffix to_lower
is_backup f = not f.is_dir && has_suffix (to_lower f.snapshot.name) (codes ".zip") && f.is_readable

-- The order of `List`: the newest first, and by name where the times are equal.
abbrev pub newer : File → File → Bool
newer a b =
    if a.snapshot.created_at == b.snapshot.created_at
    then text_lt b.snapshot.name a.snapshot.name
    else ltb b.snapshot.created_at a.snapshot.created_at

unfoldable pub insert_file : File → List File → List File
unfolding text_lt
insert_file f [] = f ∷ []
insert_file f (g ∷ files) = if newer f g then f ∷ g ∷ files else g ∷ insert_file f files

unfoldable pub sort_files : List File → List File
unfolding insert_file
sort_files [] = []
sort_files (f ∷ files) = insert_file f (sort_files files)

-- `List`, where the directory can be read.
unfoldable pub list_backups : ℤ → List File → List File
unfolding is_backup sort_files
list_backups limit files =
    take (if is_positive limit then nonneg limit else 200) (sort_files (keep is_backup files))

unfoldable pub new_manager : BackupSettings → Manager
new_manager s = record {
  schedule = s;
  last_scheduled_at = 0;
  last_success_at = 0;
  last_backup_name = [];
  last_error = [];
}

unfoldable pub current_keep_last : Manager → ℕ
current_keep_last m = if is_positive m.schedule.keep_last then nonneg m.schedule.keep_last else 30

unfoldable pub set_last_error : Text → Manager → Manager
unfolding trim_space
set_last_error message m = record m { last_error = trim_space message }

unfoldable pub set_last_success : ℕ → Text → Manager → Manager
set_last_success now name m = record m {
  last_success_at = now;
  last_backup_name = name;
  last_error = [];
}

-- `markScheduledRun`, and whether it lets a backup be made.
unfoldable pub mark_scheduled_run : ℕ → Manager → Bool × Manager
mark_scheduled_run now m =
    if m.schedule.enabled then (true, record m { last_scheduled_at = now }) else (false, m)

module _ (lib : BackupLib) where
  unfoldable pub normalize_schedule : BackupSettings → Option BackupSettings
  unfolding trim_space
  normalize_schedule input =
      let interval = text_or (codes "24h") (trim_space input.interval) in
      let keep_last = if is_zero input.keep_last then pos 30 else input.keep_last in
      do
        d ← lib.parse_duration interval
        guard (not (is_shorter d 60_000_000_000))
        guard (is_within 1000 keep_last)
        some (record { enabled = input.enabled; interval = interval; keep_last = keep_last })

  -- `ApplySchedule`; none where the schedule is refused.
  unfoldable pub apply_schedule : BackupSettings → ℕ → Manager → Option Manager
  unfolding normalize_schedule
  apply_schedule cfg now m = elim (normalize_schedule cfg) [
    | none ↦ none
    | some s ↦ some (record m {
      schedule = s;
      last_scheduled_at =
          if not s.enabled then 0 else if m.schedule.enabled then m.last_scheduled_at else now;
    })
  ]

  -- `nextWaitDuration`, in nanoseconds.
  unfoldable pub next_wait_duration : ℕ → Manager → ℕ
  next_wait_duration now m =
      let idle : ℕ = 86_400_000_000_000 in
      if not m.schedule.enabled then idle else elim (lib.parse_duration m.schedule.interval) [
        | none ↦ idle
        | some d ↦
            (if is_shorter d 60_000_000_000
              then idle
              else if m.last_scheduled_at == 0
              then nonneg d
              else nonneg d - (now - m.last_scheduled_at))
      ]

  -- `Resolve` of a name, where the attributes of the files can be read.
  unfoldable pub resolve : Text → List File → Resolved
  unfolding trim_space to_lower has_suffix
  resolve name files =
      let cleaned = trim_space name in
      if is_empty cleaned
        || not (text_eq cleaned (lib.base cleaned))
        || not (has_suffix (to_lower cleaned) (codes ".zip"))
      then not_found
      else elim (keep (λ (f : File). text_eq f.snapshot.name cleaned) files) [
        | [] ↦ not_found
        | f ∷ fs ↦ (if f.is_dir then not_found else found f.snapshot)
      ]

  -- The loop that removes files, which the first error ends.
  unfoldable pub remove_all : List Text → List File → Option Text × List File
  remove_all [] files = (none, files)
  remove_all (n ∷ ns) files =
      let rest = remove_all ns (keep (λ f. not (text_eq f.snapshot.name n)) files) in
      elim (lib.remove_error n) [ some e ↦ (some e, files) | none ↦ rest ]

  unfoldable pub prune_old_backups : ℕ → List File → Option Text × List File
  unfolding list_backups remove_all
  prune_old_backups keep_last files =
      if leb keep_last 0 then (none, files) else elim lib.read_error [
        | some e ↦ (some e, files)
        | none ↦ remove_all (names (drop keep_last (list_backups (pos 0) files))) files
      ]

  -- `Create` and the end of `Import`, with what was written.
  unfoldable pub create : Made → ℕ → Manager → List File → Option Snapshot × (Manager × List File)
  unfolding prune_old_backups current_keep_last set_last_error set_last_success
  create (failed e) now m files = (none, (set_last_error e m, files))
  create (made f) now m files =
      let (error, kept) = prune_old_backups (current_keep_last m) (f ∷ files) in
      elim error [
        | some e ↦ (none, (set_last_error e m, kept))
        | none ↦ (some f.snapshot, (set_last_success now f.snapshot.name m, kept))
      ]

  abbrev cleaned_char : ℕ → ℕ
  cleaned_char c =
      if leb b'a' c && leb c b'z' || leb b'0' c && leb c b'9' || c == b'-' || c == b'_' || c == b'.'
      then c
      else b'-'

  abbrev trim_marks : Text → Text
  trim_marks [] = []
  trim_marks (c ∷ s) = if c == b'.' || c == b'_' || c == b'-' then trim_marks s else c ∷ s

  unfoldable pub sanitize_backup_base_name : Text → Text
  unfolding trim_space to_lower has_suffix
  sanitize_backup_base_name filename =
      let b = trim_space (lib.base filename) in
      let stem = if has_suffix b (lib.ext b) then take (length b - length (lib.ext b)) b else b in
      reverse (trim_marks (reverse (trim_marks (map cleaned_char (to_lower stem)))))
