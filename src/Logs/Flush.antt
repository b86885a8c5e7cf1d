-- ===== src/Logs/Flush.antt =====
-- The file of the access log: `load`, `flush`, `markDirty`, `Close` and the goroutine `runFlusher` of
-- internal/proxy/log_store.go, each step of which is an event between those of other goroutines.
use flow_proxy.Prelude.{
  ℕ, Bool, true, false, not, List, [], ◌∷◌, Option, none, some, Text, text_eq, ◌==◌, if◌then◌else◌,
  length,
}
use flow_proxy.Logs.Store.{AccessLogEntry, AccessLogLimits, AccessLogStore, prune, append_entry}

-- What the goroutine is at: it waits in its select, or writes the entries that it took, which the
-- flush at its end does too (`at_end`), or it is done.
pub data Flusher : Type 0 where
  waiting : Flusher
  writing : (at_end : Bool) → (snapshot : List AccessLogEntry) → Flusher
  done : Flusher

-- The file holds the entries that `load` would read from it.
pub record LogSystem : Type 0 where
  pub store : AccessLogStore
  pub flusher : Flusher
  pub file : List AccessLogEntry

unfoldable pub mark_dirty : AccessLogStore → AccessLogStore
mark_dirty s = if s.closed then s else record s { dirty = true }

unfoldable pub close : AccessLogStore → AccessLogStore
close s = record s { closed = true }

-- Where a flush leads: back to the select, or out of the goroutine.
abbrev pub resumed : Bool → Flusher
resumed at_end = if at_end then done else waiting

-- The first half of `flush`, which takes the entries, and its second half, after the file has been
-- written and renamed, or not.
unfoldable pub begin_flush : Bool → LogSystem → LogSystem
begin_flush at_end y =
    if y.store.dirty
    then record y {
      store = record y.store { dirty = false };
      flusher = writing at_end y.store.logs;
    }
    else record y { flusher = resumed at_end }

unfoldable pub end_flush : Bool → Bool → List AccessLogEntry → LogSystem → LogSystem
unfolding mark_dirty
end_flush at_end written snapshot y =
    if written
    then record y { flusher = resumed at_end; file = snapshot }
    else record y { flusher = resumed at_end; store = mark_dirty y.store }

-- What can happen next; the goroutine sees the stop only where it waits and the store is closed.
pub data LogEvent : Type 0 where
  appended : (now : ℕ) → AccessLogEntry → LogEvent
  ticked : LogEvent
  wrote : (written : Bool) → LogEvent
  closing : LogEvent
  stopping : LogEvent

unfoldable pub flusher_step : LogEvent → Flusher → LogSystem → LogSystem
unfolding begin_flush end_flush
flusher_step ticked waiting y = begin_flush false y
flusher_step stopping waiting y = if y.store.closed then begin_flush true y else y
flusher_step (wrote written) (writing at_end snapshot) y = end_flush at_end written snapshot y
flusher_step e f y = y

unfoldable pub log_step : AccessLogLimits → LogEvent → LogSystem → LogSystem
unfolding append_entry close flusher_step
log_step l (appended now e) y = record y { store = append_entry l now e y.store }
log_step l closing y = record y { store = close y.store }
log_step l ticked y = flusher_step ticked y.flusher y
log_step l stopping y = flusher_step stopping y.flusher y
log_step l (wrote written) y = flusher_step (wrote written) y.flusher y

unfoldable pub log_run : AccessLogLimits → List LogEvent → LogSystem → LogSystem
unfolding log_step
log_run l [] y = y
log_run l (e ∷ es) y = log_run l es (log_step l e y)

-- os.Stat and os.ReadFile as `load` sees them, and json.Unmarshal into the model or a plain list.
pub data FileRead : Type 0 where
  absent failed : FileRead
  content : Text → FileRead

pub record LogJson : Type 0 where
  pub model : Text → Option (List AccessLogEntry)
  pub plain : Text → Option (List AccessLogEntry)

unfoldable pub decode_logs : LogJson → Text → Option (List AccessLogEntry)
decode_logs json t = elim (json.model t) [ some es ↦ some es | none ↦ json.plain t ]

-- The second part of `load`, which ends with a flush where entries were dropped.
unfoldable pub load_entries : AccessLogLimits → ℕ → Bool → List AccessLogEntry → LogSystem
unfolding prune begin_flush end_flush
load_entries l now written es =
    let logs = prune l now es in
    let y : LogSystem = record {
      store = record { logs = logs; dirty = not (length logs == length es); closed = false };
      flusher = waiting;
      file = es;
    } in
    if length logs == length es then y else end_flush false written logs (begin_flush false y)

unfoldable pub new_access_log_store :
    AccessLogLimits → LogJson → ℕ → Bool → FileRead → Option LogSystem
unfolding decode_logs load_entries
new_access_log_store l json now written absent = some (load_entries l now written [])
new_access_log_store l json now written failed = none
new_access_log_store l json now written (content t) =
    if text_eq t []
    then some (load_entries l now written [])
    else elim (decode_logs json t) [ none ↦ none | some es ↦ some (load_entries l now written es) ]
