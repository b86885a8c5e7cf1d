-- ===== src/Logs/History.antt =====
-- The access log after many appends, each of which prunes it.
use flow_proxy.Prelude.{
  ℕ, zero, suc, ◌+◌, ◌-◌, ◌≤◌, ◌≡◌, refl, sym, ap, ◌∙◌, false, not, List, [], ◌∷◌, ◌++◌, ltb,
  if◌then◌else◌, length, length-drop, drop, keep, arith, All, All-map, Bool-cases, inl, inr,
}
use flow_proxy.Logs.Store.{
  AccessLogEntry, AccessLogLimits, AccessLogStore, drop_before, prune, append_entry,
}
use flow_proxy.Logs.Retention.{IsOrdered, drop_before-keep}

-- The last `n` of a list.
abbrev pub newest : ℕ → List AccessLogEntry → List AccessLogEntry
newest n es = drop (length es - n) es

-- The instant from which entries are kept.
abbrev pub cutoff_at : AccessLogLimits → ℕ → ℕ
cutoff_at l now = if ltb 0 l.retention_ttl then now - l.retention_ttl else 0

drop_before_zero : (es : List AccessLogEntry) → drop_before 0 es ≡ es
unfolding drop_before
drop_before_zero [] = refl
drop_before_zero (e ∷ es) = ground arith

newest_short : (n : ℕ) (es : List AccessLogEntry) → length es ≤ n → newest n es ≡ es
newest_short n es h = ground (arith, h)

prune-newest :
    (l : AccessLogLimits) (now : ℕ) (es : List AccessLogEntry)
    → prune l now es ≡ newest l.max_rows (drop_before (cutoff_at l now) es)
unfolding prune
prune-newest l now es = ground (
  arith,
  drop_before_zero es,
  newest_short l.max_rows (drop_before (now - l.retention_ttl) es),
  newest_short l.max_rows es,
)

-- What an earlier cutoff drops, a later one drops too.
drop_before_twice :
    (c d : ℕ) (e : AccessLogEntry) (es : List AccessLogEntry)
    → c ≤ d
    → drop_before d (drop_before c es ++ e ∷ []) ≡ drop_before d (es ++ e ∷ [])
unfolding drop_before
drop_before_twice c d e [] h = refl
drop_before_twice c d e (f ∷ es) h = ground (arith, h, drop_before_twice c d e es h)

suc_add : (m a : ℕ) → suc (m + a) ≡ suc m + a
suc_add m a = omega arith

drop-drop : (a m : ℕ) (es : List AccessLogEntry) → drop a (drop m es) ≡ drop (m + a) es
drop-drop a zero es = ap (λ k. drop k es) (omega arith)
drop-drop zero (suc m) [] = ap (λ k. drop k []) (suc_add m zero)
drop-drop (suc a) (suc m) [] = ap (λ k. drop k []) (suc_add m (suc a))
drop-drop a (suc m) (e ∷ es) = drop-drop a m es ∙ ap (λ k. drop k (e ∷ es)) (suc_add m a)

drop_append :
    (m : ℕ) (e : AccessLogEntry) (es : List AccessLogEntry)
    → m ≤ length es
    → drop m es ++ e ∷ [] ≡ drop m (es ++ e ∷ [])
drop_append zero e es h = refl
drop_append (suc m) e [] h = ground (arith, h)
drop_append (suc m) e (f ∷ es) h = drop_append m e es (omega (arith, h))

length_snoc :
    (e : AccessLogEntry) (es : List AccessLogEntry) → length (es ++ e ∷ []) ≡ suc (length es)
length_snoc e [] = refl
length_snoc e (f ∷ es) = omega (arith, length_snoc e es)

newest-drop :
    (n m : ℕ) (es : List AccessLogEntry) → m + n ≤ length es → newest n (drop m es) ≡ newest n es
newest-drop n m es h =
    drop-drop (length (drop m es) - n) m es
    ∙ ap (λ k. drop k es) (omega (arith, h, length-drop m es))

drop_before_none :
    (c : ℕ) (es : List AccessLogEntry) → All (λ f. c ≤ f.timestamp) es → drop_before c es ≡ es
unfolding drop_before
drop_before_none c [] h = refl
drop_before_none c (e ∷ es) h = ground (arith, h.0)

All-drop :
    (P : AccessLogEntry → Type 0) (m : ℕ) (es : List AccessLogEntry) → All P es → All P (drop m es)
All-drop P zero es h = h
All-drop P (suc m) [] h = h
All-drop P (suc m) (e ∷ es) h = All-drop P m es h.1

-- Of ordered entries, the ones in front of the last `n` do not matter.
newest-drop_before :
    (n m c : ℕ) (es : List AccessLogEntry)
    → IsOrdered es
    → m + n ≤ length es
    → newest n (drop_before c (drop m es)) ≡ newest n (drop_before c es)
unfolding drop_before
newest-drop_before n zero c es ordered h = refl
newest-drop_before n (suc m) c [] ordered h = refl
newest-drop_before n (suc m) c (e ∷ es) ordered h = elim (Bool-cases (ltb e.timestamp c)) [
  | inl old ↦ rw old (newest-drop_before n m c es ordered.1 (omega (arith, h)))
  | inr new ↦
      let recent : All (λ f. c ≤ f.timestamp) es =
        All-map es (λ f k. ground (arith, new, k)) ordered.0 in
      rw (new, drop_before_none c (drop m es) (All-drop (λ f. c ≤ f.timestamp) m es recent))
        (newest-drop n (suc m) (e ∷ es) h)
]

drop_before-IsOrdered :
    (c : ℕ) (e : AccessLogEntry) (es : List AccessLogEntry)
    → IsOrdered (es ++ e ∷ [])
    → IsOrdered (drop_before c es ++ e ∷ [])
unfolding drop_before
drop_before-IsOrdered c e [] h = h
drop_before-IsOrdered c e (f ∷ es) h = ground (arith, h, drop_before-IsOrdered c e es h.1)

newest_twice :
    (n d : ℕ) (e : AccessLogEntry) (r : List AccessLogEntry)
    → IsOrdered (r ++ e ∷ [])
    → newest n (drop_before d (newest n r ++ e ∷ [])) ≡ newest n (drop_before d (r ++ e ∷ []))
newest_twice n d e r ordered = elim (Bool-cases (ltb n (length r))) [
  | inl long ↦
      let m = length r - n in
      ap (λ xs. newest n (drop_before d xs)) (drop_append m e r (omega arith))
      ∙ newest-drop_before n m d (r ++ e ∷ []) ordered (ground (arith, long, length_snoc e r))
  | inr short ↦
      ap (λ xs. newest n (drop_before d (xs ++ e ∷ []))) (newest_short n r (ground (arith, short)))
]

-- A prune in between does not matter.
prune_twice :
    (l : AccessLogLimits) (now next : ℕ) (e : AccessLogEntry) (es : List AccessLogEntry)
    → now ≤ next
    → IsOrdered (es ++ e ∷ [])
    → prune l next (prune l now es ++ e ∷ []) ≡ prune l next (es ++ e ∷ [])
prune_twice l now next e es h ordered =
    let c = cutoff_at l now in
    let d = cutoff_at l next in
    let c_le : c ≤ d = ground (arith, h) in
    prune-newest l next (prune l now es ++ e ∷ [])
    ∙ ap (λ xs. newest l.max_rows (drop_before d (xs ++ e ∷ []))) (prune-newest l now es)
    ∙ newest_twice l.max_rows d e (drop_before c es) (drop_before-IsOrdered c e es ordered)
    ∙ ap (newest l.max_rows) (drop_before_twice c d e es c_le)
    ∙ sym (prune-newest l next (es ++ e ∷ []))

-- The instants of the appends and the entries, with what was appended at last in front.
abbrev pub Appends : Type 0
Appends = List (ℕ × AccessLogEntry)

unfoldable pub append_entries : AccessLogLimits → Appends → AccessLogStore → AccessLogStore
append_entries l [] s = s
append_entries l ((now, e) ∷ rest) s = append_entry l now e (append_entries l rest s)

abbrev pub entries_of : Appends → List AccessLogEntry
entries_of [] = []
entries_of ((now, e) ∷ rest) = entries_of rest ++ e ∷ []

abbrev pub IsForward : ℕ → Appends → Type 0
IsForward now [] = Unit {0}
IsForward now ((past, e) ∷ rest) = (past ≤ now) × IsForward past rest

All-front :
    (P : AccessLogEntry → Type 0) (e : AccessLogEntry) (es : List AccessLogEntry)
    → All P (es ++ e ∷ [])
    → All P es
All-front P e [] h = tt
All-front P e (f ∷ es) h = (h.0, All-front P e es h.1)

IsOrdered-front :
    (e : AccessLogEntry) (es : List AccessLogEntry) → IsOrdered (es ++ e ∷ []) → IsOrdered es
IsOrdered-front e [] h = tt
IsOrdered-front e (f ∷ es) h =
    (All-front (λ g. f.timestamp ≤ g.timestamp) e es h.0, IsOrdered-front e es h.1)

abbrev pub fresh : AccessLogStore
fresh = record { logs = []; dirty = false; closed = false }

append_entries-open :
    (l : AccessLogLimits) (rest : Appends) → (append_entries l rest fresh).closed ≡ false
unfolding append_entries append_entry
append_entries-open l [] = refl
append_entries-open l ((now, e) ∷ rest) = ground (arith, append_entries-open l rest)

logs-append_entry :
    (l : AccessLogLimits) (now : ℕ) (e : AccessLogEntry) (s : AccessLogStore)
    → s.closed ≡ false
    → (append_entry l now e s).logs ≡ prune l now (s.logs ++ e ∷ [])
unfolding append_entry
logs-append_entry l now e s unclosed = ground (arith, unclosed)

append_entries-prune :
    (l : AccessLogLimits) (now : ℕ) (e : AccessLogEntry) (rest : Appends)
    → IsForward now rest
    → IsOrdered (entries_of rest ++ e ∷ [])
    → (append_entries l ((now, e) ∷ rest) fresh).logs ≡ prune l now (entries_of rest ++ e ∷ [])
unfolding append_entries append_entry
append_entries-prune l now e [] forward ordered = refl
append_entries-prune l now e ((past, f) ∷ rest) forward ordered =
    logs-append_entry l now e (append_entries l ((past, f) ∷ rest) fresh)
      (append_entries-open l ((past, f) ∷ rest))
    ∙ ap (λ xs. prune l now (xs ++ e ∷ []))
        (append_entries-prune l past f rest forward.1
          (IsOrdered-front e (entries_of rest ++ f ∷ []) ordered))
    ∙ prune_twice l past now e (entries_of rest ++ f ∷ []) forward.0 ordered

-- After any appends to an empty store, at instants that do not go back and with entries none of which
-- is older than the one before it, the log holds the newest entries, at most as many as its limit, of
-- those that are not older than the retention at the last append, each earlier prune notwithstanding.
pub append_entries-newest :
    (l : AccessLogLimits) (now : ℕ) (e : AccessLogEntry) (rest : Appends)
    → IsForward now rest
    → IsOrdered (entries_of rest ++ e ∷ [])
    → (append_entries l ((now, e) ∷ rest) fresh).logs
      ≡ newest l.max_rows
          (keep (λ f. not (ltb f.timestamp (cutoff_at l now))) (entries_of rest ++ e ∷ []))
append_entries-newest l now e rest forward ordered =
    append_entries-prune l now e rest forward ordered
    ∙ prune-newest l now (entries_of rest ++ e ∷ [])
    ∙ ap (newest l.max_rows)
        (drop_before-keep (cutoff_at l now) (entries_of rest ++ e ∷ []) ordered)
