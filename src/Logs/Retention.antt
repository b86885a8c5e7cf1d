-- ===== src/Logs/Retention.antt =====
-- Which entries the access log keeps.
use flow_proxy.Prelude.{
  ℕ, zero, suc, ◌-◌, ◌≤◌, ◌≡◌, refl, sym, ap, not, List, [], ◌∷◌, ltb, if◌then◌else◌, length,
  length-drop, drop, keep, arith, All, All-map, Bool-cases, inl, inr,
}
use flow_proxy.Logs.Store.{AccessLogEntry, AccessLogLimits, drop_before, prune}

length-drop_before :
    (cutoff : ℕ) (es : List AccessLogEntry) → length (drop_before cutoff es) ≤ length es
unfolding drop_before
length-drop_before cutoff [] = omega arith
length-drop_before cutoff (e ∷ es) = ground (arith, length-drop_before cutoff es)

drop_before_same :
    (cutoff : ℕ) (es : List AccessLogEntry)
    → length (drop_before cutoff es) ≡ length es
    → drop_before cutoff es ≡ es
unfolding drop_before
drop_before_same cutoff [] h = refl
drop_before_same cutoff (e ∷ es) h = ground (arith, h, length-drop_before cutoff es)

drop_same : (n : ℕ) (es : List AccessLogEntry) → length (drop n es) ≡ length es → drop n es ≡ es
drop_same zero es h = refl
drop_same (suc n) [] h = refl
drop_same (suc n) (e ∷ es) h = ground (arith, h, length-drop n es)

pub length-prune :
    (l : AccessLogLimits) (now : ℕ) (es : List AccessLogEntry)
    → length (prune l now es) ≤ l.max_rows
unfolding prune
length-prune l now es =
    let recent = if ltb 0 l.retention_ttl then drop_before (now - l.retention_ttl) es else es in
    elim (Bool-cases (ltb l.max_rows (length recent))) [
      | inl e ↦ rw e (ground (arith, length-drop (length recent - l.max_rows) recent))
      | inr e ↦ rw e (ground (arith, e))
    ]

-- Nothing was dropped where nothing became shorter.
pub prune_same :
    (l : AccessLogLimits) (now : ℕ) (es : List AccessLogEntry)
    → length (prune l now es) ≡ length es
    → prune l now es ≡ es
unfolding prune
prune_same l now es h =
    let recent = if ltb 0 l.retention_ttl then drop_before (now - l.retention_ttl) es else es in
    ground (
      arith,
      h,
      length-drop (length recent - l.max_rows) recent,
      drop_same (length recent - l.max_rows) recent,
      drop_before_same (now - l.retention_ttl) es,
      length-drop_before (now - l.retention_ttl) es,
    )

-- No entry is older than the one before it.
abbrev pub IsOrdered : List AccessLogEntry → Type 0
IsOrdered [] = Unit {0}
IsOrdered (e ∷ es) = All (λ f. e.timestamp ≤ f.timestamp) es × IsOrdered es

drop_before-All :
    (cutoff : ℕ) (es : List AccessLogEntry)
    → All (λ e. cutoff ≤ e.timestamp) es
    → keep (λ e. not (ltb e.timestamp cutoff)) es ≡ es
drop_before-All cutoff [] h = refl
drop_before-All cutoff (e ∷ es) h = ground (arith, h.0, drop_before-All cutoff es h.1)

pub drop_before-keep :
    (cutoff : ℕ) (es : List AccessLogEntry)
    → IsOrdered es
    → drop_before cutoff es ≡ keep (λ e. not (ltb e.timestamp cutoff)) es
unfolding drop_before
drop_before-keep cutoff [] h = refl
drop_before-keep cutoff (e ∷ es) h = elim (Bool-cases (ltb e.timestamp cutoff)) [
  | inl old ↦ rw old (drop_before-keep cutoff es h.1)
  | inr new ↦ rw new (
      ap (λ fs. e ∷ fs)
        (sym (
          drop_before-All cutoff es
            (All-map es (λ f later_than. ground (arith, new, later_than)) h.0))))
]
