-- ===== src/Tests/LogRuns.antt =====
-- Runs of an access log of two rows.
use flow_proxy.Prelude.{ℕ, ◌+◌, ◌≡◌, refl, true, false, List, [], ◌∷◌, ◌++◌, none, codes, arith}
use flow_proxy.Logs.Store.{AccessLogEntry, AccessLogLimits, prune}
use flow_proxy.Logs.Flush.{
  LogSystem, LogEvent, LogJson, waiting, appended, ticked, wrote, closing, stopping, done, absent,
  log_run, new_access_log_store,
}
use flow_proxy.Logs.Durable.{log_run-durable}
use flow_proxy.Logs.History.{Appends, fresh, append_entries, append_entries-newest}

abbrev entry_at : ℕ → AccessLogEntry
entry_at t = record {
  timestamp = t;
  site_id = codes "s";
  domain = codes "a.com";
  status_code = 200 + t;
}

abbrev two_rows : AccessLogLimits
two_rows = record { max_rows = 2; retention_ttl = 10 }

abbrev json : LogJson
json = record { model = λ t. none; plain = λ t. none }

abbrev opened : LogSystem
opened = record { store = fresh; flusher = waiting; file = [] }

-- An append in the middle of a write that fails, and one after the closing.
abbrev before : List LogEvent
before = appended 1 (entry_at 1) ∷ ticked ∷ appended 2 (entry_at 2) ∷ wrote false ∷ []

abbrev after : List LogEvent
after = appended 3 (entry_at 3) ∷ ticked ∷ []

log_run-durable_example :
    let z =
      log_run two_rows
        (before ++ (closing ∷ (after ++ (wrote true ∷ stopping ∷ wrote true ∷ []))))
        opened in
    (z.flusher ≡ done) × (z.file ≡ entry_at 1 ∷ entry_at 2 ∷ [])
unfolding log_run new_access_log_store prune
log_run-durable_example =
    log_run-durable two_rows json 0 true absent opened before after refl
      (refl, (refl, (refl, (refl, tt)))) (refl, (refl, tt))

abbrev earlier : Appends
earlier = (13, entry_at 12) ∷ (5, entry_at 4) ∷ (2, entry_at 1) ∷ []

append_entries-newest_example :
    (append_entries two_rows ((14, entry_at 14) ∷ earlier) fresh).logs
    ≡ entry_at 12 ∷ entry_at 14 ∷ []
append_entries-newest_example =
    append_entries-newest two_rows 14 (entry_at 14) earlier
      (omega arith, (omega arith, (omega arith, tt)))
      (
        (omega arith, (omega arith, (omega arith, tt))),
        ((omega arith, (omega arith, tt)), ((omega arith, tt), (tt, tt))),
      )
