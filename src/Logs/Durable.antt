-- ===== src/Logs/Durable.antt =====
-- That the file has every entry once the store has been closed.
use flow_proxy.Prelude.{
  ℕ, ◌≡◌, refl, ◌∙◌, Bool, true, false, not, ◌&&◌, ◌||◌, List, [], ◌∷◌, ◌++◌, some, some_inj,
  no_some, text_eq, arith, All, All-append, Bool-cases, Option-cases, inl, inr, subst,
}
use flow_proxy.Logs.Store.{AccessLogEntry, AccessLogLimits, AccessLogStore, append_entry}
use flow_proxy.Logs.Retention.{prune_same}
use flow_proxy.Logs.Flush.{
  Flusher, waiting, writing, done, LogSystem, mark_dirty, close, begin_flush, end_flush, LogEvent,
  appended, ticked, wrote, closing, stopping, flusher_step, log_step, log_run, FileRead, absent,
  failed, content, LogJson, decode_logs, load_entries, new_access_log_store,
}

abbrev pub is_closing : LogEvent → Bool
is_closing closing = true
is_closing _ = false

abbrev pub is_failed_write : LogEvent → Bool
is_failed_write (wrote written) = not written
is_failed_write _ = false

-- What the file holds once the running write succeeds.
abbrev awaited : Flusher → List AccessLogEntry → List AccessLogEntry
awaited (writing at_end snapshot) file = snapshot
awaited _ file = file

-- The goroutine is in its last flush or after it.
abbrev is_ending : Flusher → Bool
is_ending waiting = false
is_ending (writing at_end snapshot) = at_end
is_ending done = true

-- A store that is not dirty is on its way into the file, and at the end nothing makes it dirty again.
abbrev Synced : LogSystem → Type 0
Synced y =
    (y.store.dirty ≡ false → awaited y.flusher y.file ≡ y.store.logs)
    × (is_ending y.flusher ≡ true → (y.store.closed ≡ true) × (y.store.dirty ≡ false))

flusher_step-Synced :
    (e : LogEvent) (f : Flusher) (s : AccessLogStore) (file : List AccessLogEntry)
    → is_failed_write e && s.closed ≡ false
    → Synced (record { store = s; flusher = f; file = file })
    → Synced (flusher_step e f (record { store = s; flusher = f; file = file }))
unfolding flusher_step begin_flush end_flush mark_dirty
flusher_step-Synced ticked waiting s file fine h = ground (arith, h.0, h.1)
flusher_step-Synced stopping waiting s file fine h = ground (arith, h.0, h.1)
flusher_step-Synced (wrote true) (writing true snapshot) s file fine h = ground (arith, h.0, h.1)
flusher_step-Synced (wrote true) (writing false snapshot) s file fine h = ground (arith, h.0, h.1)
flusher_step-Synced (wrote false) (writing true snapshot) s file fine h =
    ground (arith, h.0, h.1, fine)
flusher_step-Synced (wrote false) (writing false snapshot) s file fine h =
    ground (arith, h.0, h.1, fine)
flusher_step-Synced e f s file fine h = h

log_step-Synced :
    (l : AccessLogLimits) (e : LogEvent) (y : LogSystem)
    → is_failed_write e && y.store.closed ≡ false
    → Synced y
    → Synced (log_step l e y)
unfolding log_step append_entry close
log_step-Synced l (appended now e) y fine h = ground (arith, h.0, h.1)
log_step-Synced l closing y fine h = ground (arith, h.0, h.1)
log_step-Synced l ticked y fine h = flusher_step-Synced ticked y.flusher y.store y.file fine h
log_step-Synced l stopping y fine h = flusher_step-Synced stopping y.flusher y.store y.file fine h
log_step-Synced l (wrote written) y fine h =
    flusher_step-Synced (wrote written) y.flusher y.store y.file fine h

flusher_step-store :
    (e : LogEvent) (f : Flusher) (y : LogSystem)
    → ((flusher_step e f y).store.closed ≡ y.store.closed)
      × ((flusher_step e f y).store.logs ≡ y.store.logs)
unfolding flusher_step begin_flush end_flush mark_dirty
flusher_step-store ticked waiting y = ground arith
flusher_step-store stopping waiting y = ground arith
flusher_step-store (wrote written) (writing at_end snapshot) y = ground arith
flusher_step-store e f y = (refl, refl)

log_step-closed :
    (l : AccessLogLimits) (e : LogEvent) (y : LogSystem)
    → (log_step l e y).store.closed ≡ is_closing e || y.store.closed
unfolding log_step append_entry close
log_step-closed l (appended now e) y = ground arith
log_step-closed l closing y = refl
log_step-closed l ticked y = (flusher_step-store ticked y.flusher y).0
log_step-closed l stopping y = (flusher_step-store stopping y.flusher y).0
log_step-closed l (wrote written) y = (flusher_step-store (wrote written) y.flusher y).0

log_step-logs :
    (l : AccessLogLimits) (e : LogEvent) (y : LogSystem)
    → y.store.closed ≡ true
    → (log_step l e y).store.logs ≡ y.store.logs
unfolding log_step append_entry close
log_step-logs l (appended now e) y closed = ground (arith, closed)
log_step-logs l closing y closed = refl
log_step-logs l ticked y closed = (flusher_step-store ticked y.flusher y).1
log_step-logs l stopping y closed = (flusher_step-store stopping y.flusher y).1
log_step-logs l (wrote written) y closed = (flusher_step-store (wrote written) y.flusher y).1

-- Until the store is closed no write fails for good; from the closing on none may fail.
log_run-Synced_open :
    (l : AccessLogLimits) (es : List LogEvent) (y : LogSystem)
    → All (λ e. is_closing e ≡ false) es
    → y.store.closed ≡ false
    → Synced y
    → Synced (log_run l es y) × ((log_run l es y).store.closed ≡ false)
unfolding log_run
log_run-Synced_open l [] y none_closes fresh h = (h, fresh)
log_run-Synced_open l (e ∷ es) y none_closes fresh h =
    log_run-Synced_open l es (log_step l e y) none_closes.1
      (log_step-closed l e y ∙ rw (none_closes.0, fresh) refl)
      (log_step-Synced l e y (ground (arith, fresh)) h)

log_run-Synced_closed :
    (l : AccessLogLimits) (es : List LogEvent) (y : LogSystem)
    → All (λ e. is_failed_write e ≡ false) es
    → y.store.closed ≡ true
    → Synced y
    → Synced (log_run l es y)
      × ((log_run l es y).store.closed ≡ true)
      × ((log_run l es y).store.logs ≡ y.store.logs)
unfolding log_run
log_run-Synced_closed l [] y fine closed h = (h, closed, refl)
log_run-Synced_closed l (e ∷ es) y fine closed h =
    let rest =
      log_run-Synced_closed l es (log_step l e y) fine.1
        (log_step-closed l e y ∙ rw closed (ground arith))
        (log_step-Synced l e y (ground (arith, fine.0)) h) in
    (rest.0, rest.1, rest.2 ∙ log_step-logs l e y closed)

-- Once the store is closed, a write, the stop and a write end the goroutine.
log_run-done :
    (l : AccessLogLimits) (y : LogSystem)
    → y.store.closed ≡ true
    → (log_run l (wrote true ∷ stopping ∷ wrote true ∷ []) y).flusher ≡ done
unfolding log_run log_step flusher_step begin_flush end_flush
log_run-done l y closed = ground (arith, closed)

log_run-append :
    (l : AccessLogLimits) (es fs : List LogEvent) (y : LogSystem)
    → log_run l (es ++ fs) y ≡ log_run l fs (log_run l es y)
unfolding log_run
log_run-append l [] fs y = refl
log_run-append l (e ∷ es) fs y = log_run-append l es fs (log_step l e y)

load_entries-Synced :
    (l : AccessLogLimits) (now : ℕ) (written : Bool) (es : List AccessLogEntry)
    → Synced (load_entries l now written es)
      × ((load_entries l now written es).store.closed ≡ false)
unfolding load_entries begin_flush end_flush mark_dirty
load_entries-Synced l now written es = ground (arith, prune_same l now es)

new_access_log_store-Synced :
    (l : AccessLogLimits) (json : LogJson) (now : ℕ) (written : Bool) (r : FileRead) (y : LogSystem)
    → new_access_log_store l json now written r ≡ some y
    → Synced y × (y.store.closed ≡ false)
unfolding new_access_log_store
new_access_log_store-Synced l json now written absent y h =
    subst (λ z. Synced z × (z.store.closed ≡ false)) (some_inj h)
      (load_entries-Synced l now written [])
new_access_log_store-Synced l json now written failed y h = absurd (no_some h)
new_access_log_store-Synced l json now written (content t) y h = elim (Bool-cases (text_eq t [])) [
  | inl e ↦
      subst (λ z. Synced z × (z.store.closed ≡ false)) (some_inj (rw e at h))
        (load_entries-Synced l now written [])
  | inr e ↦ elim (Option-cases (decode_logs json t)) [
    | inl f ↦ absurd (no_some (rw (e, f) at h))
    | inr (es, f) ↦
        subst (λ z. Synced z × (z.store.closed ≡ false)) (some_inj (rw (e, f) at h))
          (load_entries-Synced l now written es)
  ]
]

file_of-Synced : (z : LogSystem) → z.flusher ≡ done → Synced z → z.file ≡ z.store.logs
file_of-Synced z ended h = ground (arith, ended, h.0, h.1)

-- Take a store that was opened, any events without a closing in which writes of the file may fail, the
-- closing, and any events in which no write fails. Once the goroutine has gone through a running
-- write, the stop and its last write, it is done and the file holds exactly the entries that the store
-- had when it was closed, in every interleaving of appends, flushes and the stop.
pub log_run-durable :
    (l : AccessLogLimits) (json : LogJson) (now : ℕ) (written : Bool) (r : FileRead) (y : LogSystem)
    (before after : List LogEvent)
    → new_access_log_store l json now written r ≡ some y
    → All (λ e. is_closing e ≡ false) before
    → All (λ e. is_failed_write e ≡ false) after
    → let z =
        log_run l (before ++ (closing ∷ (after ++ (wrote true ∷ stopping ∷ wrote true ∷ [])))) y in
      (z.flusher ≡ done) × (z.file ≡ (log_run l before y).store.logs)
unfolding log_step close log_run
log_run-durable l json now written r y before after opened none_closes none_fails =
    let final = wrote true ∷ stopping ∷ wrote true ∷ [] in
    let start = new_access_log_store-Synced l json now written r y opened in
    let a = log_run l before y in
    let b = log_step l closing a in
    let kept = log_run-Synced_open l before y none_closes start.1 start.0 in
    let rest =
      log_run-Synced_closed l (after ++ final) b
        (All-append (λ e. is_failed_write e ≡ false) after final none_fails
          (refl, (refl, (refl, tt))))
        refl (log_step-Synced l closing a refl kept.0) in
    let ended : (log_run l (after ++ final) b).flusher ≡ done =
      rw (log_run-append l after final b) (
        log_run-done l (log_run l after b)
          (log_run-Synced_closed l after b none_fails refl
            (log_step-Synced l closing a refl kept.0)).1) in
    rw (log_run-append l before (closing ∷ (after ++ final)) y)
      (ended, file_of-Synced (log_run l (after ++ final) b) ended rest.0 ∙ rest.2)
