-- ===== src/Sync/Client.antt =====
-- The endpoints of `Client` in internal/clustersync/client.go and which of them is tried. Each
-- operation holds the mutex and is one step. Instants are nanoseconds, 0 is Go's zero time.
use flow_proxy.Prelude.{
  ℕ, zero, suc, ◌+◌, ◌-◌, ◌*◌, Bool, true, false, not, ◌||◌, List, [], ◌∷◌, ◌++◌, Option, none,
  some, Text, codes, text_eq, is_empty, member, min, if◌then◌else◌, lookup, store, delete, length,
  take, drop, keep, reverse, get_elem?, leb, ltb, ◌==◌, has_prefix, trim_space, to_lower,
}

pub record Client : Type 0 where
  pub base_urls : List Text
  pub logged_in : List Text
  pub active_index : ℕ
  pub failures_by_url : List (Text × ℕ)
  pub cooldown_until : List (Text × ℕ)

-- What a call ends with: a 401, or another error with its text.
pub data SyncError : Type 0 where
  unauthorized : SyncError
  message : Text → SyncError

-- strings.TrimRight(s, "/"), on the reversed text.
abbrev pub trim_slashes : Text → Text
trim_slashes [] = []
trim_slashes (c ∷ s) = if c == b'/' then trim_slashes s else c ∷ s

abbrev pub trim_right_slashes : Text → Text
trim_right_slashes s = reverse (trim_slashes (reverse s))

-- The loop of `normalizeBaseURLs` with what was seen.
unfoldable pub fresh_urls : List Text → List Text → List Text
unfolding trim_space
fresh_urls seen [] = []
fresh_urls seen (item ∷ items) =
    let value = trim_right_slashes (trim_space item) in
    let kept = fresh_urls (value ∷ seen) items in
    let rest = fresh_urls seen items in
    if is_empty value || member value seen then rest else value ∷ kept

unfoldable pub normalize_base_urls : Text → List Text → List Text
unfolding fresh_urls
normalize_base_urls base_url base_urls = fresh_urls [] (base_url ∷ base_urls)

unfoldable pub should_failover : SyncError → Bool
unfolding has_prefix to_lower trim_space
should_failover unauthorized = false
should_failover (message text) =
    let msg = to_lower (trim_space text) in
    if not (has_prefix msg (codes "cluster sync request failed:"))
    then true
    else has_prefix msg (codes "cluster sync request failed: 5")

-- `d *= 2`, a number of times.
unfoldable pub doubled : ℕ → ℕ → ℕ
doubled zero d = d
doubled (suc n) d = doubled n (d * 2)

unfoldable pub failover_cooldown : ℕ → ℕ
unfolding doubled
failover_cooldown failures =
    let d = doubled (min failures 6 - 1) 2_000_000_000 in
    if failures == 0 then 0 else if ltb 60_000_000_000 d then 60_000_000_000 else d

abbrev pub number_of : Option ℕ → ℕ
number_of none = 0
number_of (some n) = n

unfoldable pub current_active_index : ℕ → Client → ℕ × Client
current_active_index size c =
    if size == 0
    then (0, c)
    else if leb size c.active_index
    then (0, record c { active_index = 0 })
    else (c.active_index, c)

unfoldable pub set_active_index : ℕ → Client → Client
set_active_index index c =
    if leb (length c.base_urls) index then c else record c { active_index = index }

unfoldable pub active_endpoint : Client → Text
active_endpoint c =
    let index = if leb (length c.base_urls) c.active_index then 0 else c.active_index in
    elim (get_elem? c.base_urls index) [ none ↦ [] | some url ↦ url ]

unfoldable pub mark_failure_and_switch : Text → ℕ → Client → Client
unfolding trim_space lookup store failover_cooldown
mark_failure_and_switch from now c =
    let fails = suc (number_of (lookup from c.failures_by_url)) in
    if is_empty (trim_space from) then c else record c {
      failures_by_url = store from fails c.failures_by_url;
      logged_in = keep (λ url. not (text_eq url from)) c.logged_in;
      cooldown_until = store from (now + failover_cooldown fails) c.cooldown_until;
    }

unfoldable pub mark_success : Text → Client → Client
unfolding trim_space store delete
mark_success base_url c = if is_empty (trim_space base_url) then c else record c {
  failures_by_url = store base_url 0 c.failures_by_url;
  cooldown_until = delete base_url c.cooldown_until;
}

-- Whether an endpoint's cooldown is over.
abbrev pub is_eligible : ℕ → Client → Text → Bool
is_eligible now c url =
    let until = number_of (lookup url c.cooldown_until) in until == 0 || leb until now

-- The endpoints from `start` on and around, those in their cooldown last.
unfoldable pub prioritize_eligible_endpoints : List Text → ℕ → ℕ → Client → List Text
unfolding lookup
prioritize_eligible_endpoints base_urls start now c =
    let around = drop start base_urls ++ take start base_urls in
    let eligible = keep (is_eligible now c) around in
    let held = keep (λ url. not (is_eligible now c url)) around in
    if is_empty eligible then base_urls else eligible ++ held

unfoldable pub index_of : List Text → Text → Option ℕ
index_of [] target = none
index_of (item ∷ items) target =
    let rest = index_of items target in
    if text_eq item target then some 0 else elim rest [ none ↦ none | some i ↦ some (suc i) ]

-- One call at an endpoint, with the endpoints that are logged in.
abbrev pub Calling : Type 0
Calling = Text → List Text → Option SyncError × List Text

-- The loop of `withFailover`, at turn `i` with the last error so far.
unfoldable pub try_endpoints :
    Calling → ℕ → ℕ → List Text → SyncError → Client → Option SyncError × Client
unfolding index_of should_failover mark_failure_and_switch mark_success set_active_index
try_endpoints call now i [] last c = (some last, c)
try_endpoints call now i (endpoint ∷ rest) last c = elim (index_of c.base_urls endpoint) [
  | none ↦ try_endpoints call now (suc i) rest last c
  | some index ↦
      (let (failed, logged) = call endpoint c.logged_in in
        let d : Client = record c { logged_in = logged } in
        elim failed [
          | none ↦ (none, set_active_index index (mark_success endpoint d))
          | some e ↦
              (let next =
                  try_endpoints call now (suc i) rest e (mark_failure_and_switch endpoint now d) in
                if not (should_failover e) || suc i == length c.base_urls
                then (some e, d)
                else next)
        ])
]

unfoldable pub with_failover : Calling → ℕ → Client → Option SyncError × Client
unfolding current_active_index prioritize_eligible_endpoints try_endpoints
with_failover call now c =
    let (start, d) = current_active_index (length c.base_urls) c in
    try_endpoints call now 0 (prioritize_eligible_endpoints c.base_urls start now d)
      (message (codes "cluster sync request failed")) d
