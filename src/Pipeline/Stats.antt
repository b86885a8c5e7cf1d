-- ===== src/Pipeline/Stats.antt =====
-- What `ServeHTTP` records of each request: `recordAccess` and `queryInMemoryLogs` of
-- internal/proxy/proxy.go. The hook for alerts and the subscribers of the log are left out.
use flow_proxy.Prelude.{
  ℕ, suc, ◌+◌, ◌-◌, ◌≤◌, ◌≡◌, refl, Bool, ◌&&◌, List, [], ◌∷◌, ◌++◌, Option, none, some, some_inj,
  subst, sym, ◌∙◌, Text, text_eq, is_empty, if◌then◌else◌, ltb, leb, ◌==◌, lookup, store,
  lookup-store, length, length-drop, drop, reverse, trim_space, arith, Bool-cases, inl, inr,
}
use flow_proxy.Logs.Store.{
  AccessLogEntry, AccessLogQuery, AccessLogLimits, AccessLogStore, append_entry, match_access_log,
  collect, query,
}

pub record SiteMetric : Type 0 where
  pub domain : Text
  pub requests : ℕ
  pub success : ℕ
  pub failed : ℕ
  pub total_latency : ℕ

-- What the router counts and keeps of its requests.
pub record RouterStats : Type 0 where
  pub total_req : ℕ
  pub success_req : ℕ
  pub failed_req : ℕ
  pub total_latency : ℕ
  pub site_stats : List (Text × SiteMetric)
  pub recent_logs : List AccessLogEntry
  pub log_store : Option (AccessLogLimits × AccessLogStore)

-- One call: the site with its name and port's text, if the request has one, the host, the status, the
-- duration and the instant.
pub record Recorded : Type 0 where
  pub site : Option (Text × Text × Text)
  pub host : Text
  pub status_code : ℕ
  pub duration : ℕ
  pub now : ℕ

abbrev pub is_success : ℕ → Bool
is_success status = leb 200 status && ltb status 400

-- The names in the entry: those of the site, whose domain may be its port, or the host alone.
abbrev pub site_id_of : Recorded → Text
site_id_of a = elim a.site [ none ↦ [] | some (id, domain, port) ↦ id ]

abbrev pub domain_of : Recorded → Text
domain_of a = elim a.site [
  | none ↦ a.host
  | some (id, domain, port) ↦ (if is_empty domain then port else domain)
]

unfoldable pub count_metric : Recorded → Option SiteMetric → SiteMetric
count_metric a none = record {
  domain = domain_of a;
  requests = 1;
  success = if is_success a.status_code then 1 else 0;
  failed = if is_success a.status_code then 0 else 1;
  total_latency = a.duration;
}
count_metric a (some m) = record m {
  requests = suc m.requests;
  success = if is_success a.status_code then suc m.success else m.success;
  failed = if is_success a.status_code then m.failed else suc m.failed;
  total_latency = m.total_latency + a.duration;
}

-- The metric of the site, where the request has one.
unfoldable pub count_site :
    Recorded → Option (Text × Text × Text) → List (Text × SiteMetric) → List (Text × SiteMetric)
unfolding count_metric lookup store
count_site a none stats = stats
count_site a (some (id, domain, port)) stats = store id (count_metric a (lookup id stats)) stats

abbrev pub max_recent_logs : ℕ
max_recent_logs = 400

unfoldable pub keep_recent : AccessLogEntry → List AccessLogEntry → List AccessLogEntry
keep_recent e logs =
    let all = logs ++ e ∷ [] in
    if ltb max_recent_logs (length all) then drop (length all - max_recent_logs) all else all

unfoldable pub record_access : Recorded → RouterStats → RouterStats
unfolding count_site keep_recent append_entry
record_access a r =
    let e : AccessLogEntry = record {
      timestamp = a.now;
      site_id = site_id_of a;
      domain = domain_of a;
      status_code = a.status_code;
    } in
    record {
      total_req = suc r.total_req;
      success_req = if is_success a.status_code then suc r.success_req else r.success_req;
      failed_req = if is_success a.status_code then r.failed_req else suc r.failed_req;
      total_latency = r.total_latency + a.duration;
      site_stats = count_site a a.site r.site_stats;
      recent_logs = keep_recent e r.recent_logs;
      log_store = elim r.log_store [
        | none ↦ none
        | some (l, s) ↦ some (l, append_entry l a.now e s)
      ];
    }

unfoldable pub query_logs : AccessLogQuery → RouterStats → List AccessLogEntry
unfolding query match_access_log collect trim_space
query_logs q r = elim r.log_store [
  | some (l, s) ↦ query q s
  | none ↦
      collect
        (λ e.
          match_access_log e q.from q.to (trim_space q.site_id) (trim_space q.domain) q.status_min
            (if q.status_max == 0 then 999 else q.status_max))
        (if q.rows == 0 then 50 else q.rows) (reverse r.recent_logs)
]

unfoldable pub record_accesses : List Recorded → RouterStats → RouterStats
unfolding record_access
record_accesses [] r = r
record_accesses (a ∷ rest) r = record_accesses rest (record_access a r)

-- Each counter of requests is the sum of its successes and failures, and the recent log is bounded.
pub record IsTallied (r : RouterStats) : Type 0 where
  pub totals : r.total_req ≡ r.success_req + r.failed_req
  pub sites :
      (id : Text) (m : SiteMetric)
      → lookup id r.site_stats ≡ some m
      → m.requests ≡ m.success + m.failed
  pub recent : length r.recent_logs ≤ max_recent_logs

count_metric-tallied :
    (a : Recorded) (old : Option SiteMetric)
    → ((m : SiteMetric) → old ≡ some m → m.requests ≡ m.success + m.failed)
    → (count_metric a old).requests ≡ (count_metric a old).success + (count_metric a old).failed
unfolding count_metric
count_metric-tallied a none h = ground arith
count_metric-tallied a (some m) h = ground (arith, h m refl)

count_site-tallied :
    (a : Recorded) (site : Option (Text × Text × Text)) (stats : List (Text × SiteMetric))
    → ((id : Text) (m : SiteMetric) → lookup id stats ≡ some m → m.requests ≡ m.success + m.failed)
    → (id : Text) (m : SiteMetric) → lookup id (count_site a site stats) ≡ some m
    → m.requests ≡ m.success + m.failed
unfolding count_site
count_site-tallied a none stats h id m e = h id m e
count_site-tallied a (some (key, domain, port)) stats h id m e =
    let counted = count_metric a (lookup key stats) in
    let found = sym (lookup-store key id counted stats) ∙ e in
    elim (Bool-cases (text_eq key id)) [
      | inl same ↦
          subst (λ x. x.requests ≡ x.success + x.failed) (some_inj (rw same at found))
            (count_metric-tallied a (lookup key stats) (h key))
      | inr other ↦ h id m (rw other at found)
    ]

length-keep_recent :
    (e : AccessLogEntry) (logs : List AccessLogEntry)
    → length (keep_recent e logs) ≤ max_recent_logs
unfolding keep_recent
length-keep_recent e logs = elim (Bool-cases (ltb max_recent_logs (length (logs ++ e ∷ [])))) [
  | inl over ↦ rw over (
      ground
        (arith, over, length-drop (length (logs ++ e ∷ []) - max_recent_logs) (logs ++ e ∷ [])))
  | inr under ↦ rw under (ground (arith, under))
]

-- Whatever requests are recorded, the totals and the counters of each site stay the sums of their
-- successes and failures, and the recent log holds at most 400 entries.
pub record_accesses-IsTallied :
    (as_recorded : List Recorded) (r : RouterStats)
    → IsTallied r
    → IsTallied (record_accesses as_recorded r)
unfolding record_accesses record_access
record_accesses-IsTallied [] r h = h
record_accesses-IsTallied (a ∷ rest) r h =
    record_accesses-IsTallied rest (record_access a r) (record {
      totals = ground (arith, h.totals);
      sites = count_site-tallied a a.site r.site_stats h.sites;
      recent = length-keep_recent _ r.recent_logs;
    })
