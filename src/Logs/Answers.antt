-- ===== src/Logs/Answers.antt =====
-- What a query of the access log answers.
use flow_proxy.Prelude.{
  ℕ, zero, suc, ◌≡◌, refl, Bool, List, [], ◌∷◌, ◌==◌, if◌then◌else◌, keep, take, reverse,
  trim_space, arith,
}
use flow_proxy.Logs.Store.{
  AccessLogEntry, AccessLogQuery, AccessLogStore, match_access_log, collect, query,
}

collect-take :
    (matches : AccessLogEntry → Bool) (room : ℕ) (es : List AccessLogEntry)
    → collect matches room es ≡ take room (keep matches es)
unfolding collect
collect-take matches zero es = refl
collect-take matches (suc room) [] = refl
collect-take matches (suc room) (e ∷ es) =
    ground (arith, collect-take matches room es, collect-take matches (suc room) es)

-- A query answers with the first of the entries that match it, from the newest on: as many as it
-- asks for, or 50 where it does not say, and with a highest status of 999 where it names none.
pub query-take :
    (q : AccessLogQuery) (s : AccessLogStore)
    → query q s
      ≡ take (if q.rows == 0 then 50 else q.rows) (
          keep
            (λ e.
              match_access_log e q.from q.to
                (trim_space q.site_id)
                (trim_space q.domain)
                q.status_min
                (if q.status_max == 0 then 999 else q.status_max))
            (reverse s.logs))
unfolding query
query-take q s = collect-take _ _ (reverse s.logs)
