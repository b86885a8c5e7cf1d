-- ===== src/Logs/Store.antt =====
-- `AccessLogStore` of internal/proxy/log_store.go. Its mutex makes an append, a query and each half of
-- a flush one step; the file is written between the two halves. Whether the directory can be made and
-- the file be written and renamed is given, and so is the JSON text that is read.
use flow_proxy.Prelude.{
  ℕ, zero, suc, ◌-◌, Bool, true, false, not, ◌&&◌, ◌||◌, List, [], ◌∷◌, ◌++◌, Option, none, some,
  Text, text_eq, ltb, ◌==◌, if◌then◌else◌, length, drop, reverse, trim_space, to_lower,
}

-- `AccessLogEntry` in what the store reads of it.
pub record AccessLogEntry : Type 0 where
  pub timestamp : ℕ
  pub site_id : Text
  pub domain : Text
  pub status_code : ℕ

-- The numbers are 0 where the query leaves them out or has them below 0, which the code treats alike.
pub record AccessLogQuery : Type 0 where
  pub rows : ℕ
  pub from : Option ℕ
  pub to : Option ℕ
  pub site_id : Text
  pub domain : Text
  pub status_min : ℕ
  pub status_max : ℕ

-- The limits of a store, as they are once the default stands in for a missing one; a retention of 0
-- is none.
pub record AccessLogLimits : Type 0 where
  pub max_rows : ℕ
  pub retention_ttl : ℕ

pub record AccessLogStore : Type 0 where
  pub logs : List AccessLogEntry
  pub dirty : Bool
  pub closed : Bool

-- The first loop of `pruneLocked`, which stops at the first entry that is not before the cutoff.
unfoldable pub drop_before : ℕ → List AccessLogEntry → List AccessLogEntry
drop_before cutoff [] = []
drop_before cutoff (e ∷ es) = if ltb e.timestamp cutoff then drop_before cutoff es else e ∷ es

unfoldable pub prune : AccessLogLimits → ℕ → List AccessLogEntry → List AccessLogEntry
unfolding drop_before
prune l now es =
    let recent = if ltb 0 l.retention_ttl then drop_before (now - l.retention_ttl) es else es in
    if ltb l.max_rows (length recent) then drop (length recent - l.max_rows) recent else recent

-- `Append`.
unfoldable pub append_entry : AccessLogLimits → ℕ → AccessLogEntry → AccessLogStore → AccessLogStore
unfolding prune
append_entry l now e s =
    if s.closed then s else record s { logs = prune l now (s.logs ++ e ∷ []); dirty = true }

unfoldable pub match_access_log : AccessLogEntry → Option ℕ → Option ℕ → Text → Text → ℕ → ℕ → Bool
unfolding to_lower
match_access_log e from to site domain status_min status_max =
    if elim from [ none ↦ false | some t ↦ ltb e.timestamp t ]
    then false
    else if elim to [ none ↦ false | some t ↦ ltb t e.timestamp ]
    then false
    else if not (text_eq site []) && not (text_eq e.site_id site)
    then false
    else if not (text_eq domain []) && not (text_eq (to_lower e.domain) (to_lower domain))
    then false
    else not (ltb e.status_code status_min || ltb status_max e.status_code)

-- The loop of `Query` over the entries from the newest on; `room` more may be taken.
unfoldable pub collect : (AccessLogEntry → Bool) → ℕ → List AccessLogEntry → List AccessLogEntry
collect matches zero es = []
collect matches (suc room) [] = []
collect matches (suc room) (e ∷ es) =
    if matches e then e ∷ collect matches room es else collect matches (suc room) es

unfoldable pub query : AccessLogQuery → AccessLogStore → List AccessLogEntry
unfolding match_access_log collect trim_space
query q s =
    let room = if q.rows == 0 then 50 else q.rows in
    let status_max = if q.status_max == 0 then 999 else q.status_max in
    collect
      (λ e.
        match_access_log e q.from q.to (trim_space q.site_id) (trim_space q.domain) q.status_min
          status_max)
      room (reverse s.logs)
