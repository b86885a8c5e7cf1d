-- ===== src/Cache.antt =====
-- The response cache of internal/proxy/proxy.go: a bounded store with expiry that evicts the least
-- recently used entry. Instants are nanoseconds since Go's zero time, so an expiry of 0 is none.
-- The map and the list of keys in order of use are kept beside each other, as in the source; the
-- element that an entry points to is found by its key.
pub mod Steps
pub mod Capacity
pub mod Lookup
pub mod Cacheable
use flow_proxy.Prelude.{
  ℕ, zero, suc, ◌+◌, ◌-◌, Bool, true, false, not, ◌&&◌, ◌||◌, List, [], ◌∷◌, ◌++◌, Option, none,
  some, Text, text_eq, ltb, leb, ◌==◌, if◌then◌else◌, ℤ, positive_or, length, any, keep, take,
  lookup, delete, remove,
}
use flow_proxy.Http.{Header}
use flow_proxy.Upstream.Target.{seconds_or}

-- site.CacheConfig.
pub record CacheConfig : Type 0 where
  pub enabled : Bool
  pub ttl_seconds : ℤ
  pub max_entries : ℤ
  pub max_body_bytes : ℤ
  pub proactive : Bool
  pub key_ignore_query_params : List Text

pub record CachePolicy : Type 0 where
  pub enabled : Bool
  pub ttl : ℕ
  pub max_entries : ℕ
  pub max_body_bytes : ℕ
  pub proactive : Bool

unfoldable pub resolve_cache_policy : CacheConfig → CachePolicy
resolve_cache_policy cfg =
    if cfg.enabled
    then record {
      enabled = true;
      ttl = seconds_or 30_000_000_000 cfg.ttl_seconds;
      max_entries = positive_or 512 cfg.max_entries;
      max_body_bytes = positive_or 1_048_576 cfg.max_body_bytes;
      proactive = cfg.proactive;
    }
    else record { enabled = false; ttl = 0; max_entries = 0; max_body_bytes = 0; proactive = false }

-- What is stored for a key; the body is a list of bytes.
pub record CacheEntry : Type 0 where
  pub status : ℕ
  pub header : Header
  pub body : List ℕ
  pub expires_at : ℕ

abbrev pub Entries : Type 0
Entries = List (Text × CacheEntry)

-- `lru_list` holds the keys, most recently used first.
pub record ResponseCache : Type 0 where
  pub entries : Entries
  pub lru_list : List Text
  pub policy : CachePolicy

unfoldable pub new_response_cache : CachePolicy → Option ResponseCache
new_response_cache policy =
    if policy.enabled then some (record { entries = []; lru_list = []; policy = policy }) else none

abbrev pub expired : ℕ → CacheEntry → Bool
expired now e = not (e.expires_at == 0) && ltb e.expires_at now

-- An entry leaves the map and the list.
unfoldable pub drop_key : Text → ResponseCache → ResponseCache
drop_key k c = record c { entries = delete k c.entries; lru_list = remove k c.lru_list }

-- `Get` at a key that is stored: an expired entry is dropped, any other moves to the front.
unfoldable pub get_found : ℕ → Text → CacheEntry → ResponseCache → Option CacheEntry × ResponseCache
get_found now key e c =
    if expired now e
    then (none, drop_key key c)
    else (some e, record c { lru_list = key ∷ remove key c.lru_list })

unfoldable pub get : ℕ → Text → ResponseCache → Option CacheEntry × ResponseCache
get now key c =
    if text_eq key []
    then (none, c)
    else elim (lookup key c.entries) [ none ↦ (none, c) | some e ↦ get_found now key e c ]

-- The loop that drops expired entries, ten at most; `order` is the order in which the range over
-- the map meets its keys.
unfoldable pub evict_expired : ℕ → ℕ → List Text → ResponseCache → ResponseCache
evict_expired now evicted [] c = c
evict_expired now evicted (k ∷ order) c =
    let drop_it = evict_expired now (suc evicted) order (drop_key k c) in
    let keep_it = evict_expired now evicted order c in
    if leb 10 evicted then c else elim (lookup k c.entries) [
      | none ↦ keep_it
      | some e ↦ (if expired now e then drop_it else keep_it)
    ]

-- `lruList.Back()`.
abbrev pub back : List Text → Option Text
back [] = none
back (k ∷ []) = some k
back (k ∷ j ∷ ks) = back (j ∷ ks)

-- The loop that drops the least recently used entry while the map is full.
unfoldable pub evict_lru : ℕ → ResponseCache → ResponseCache
evict_lru zero c = c
evict_lru (suc fuel) c =
    if ltb (length c.entries) c.policy.max_entries
    then c
    else elim (back c.lru_list) [ none ↦ c | some k ↦ evict_lru fuel (drop_key k c) ]

unfoldable pub push_front : Text → CacheEntry → ResponseCache → ResponseCache
push_front key e c = record c {
  entries = (key, e) ∷ delete key c.entries;
  lru_list = key ∷ c.lru_list;
}

-- `Set` behind its two guards. The fuel of the last loop is the number of listed keys and one.
unfoldable pub set_entry : ℕ → List Text → Text → CacheEntry → ResponseCache → ResponseCache
set_entry now order key e c =
    let swept = evict_expired now 0 order (drop_key key c) in
    push_front key e (evict_lru (suc (length swept.lru_list)) swept)

unfoldable pub set : ℕ → List Text → Text → ℕ → Header → List ℕ → ResponseCache → ResponseCache
set now order key status header body c =
    if text_eq key []
    then c
    else if ltb c.policy.max_body_bytes (length body)
    then c
    else set_entry now order key
        (record { status = status; header = header; body = body; expires_at = now + c.policy.ttl })
        c

unfoldable pub purge_all : ResponseCache → ℕ × ResponseCache
purge_all c =
    if length c.entries == 0
    then (0, c)
    else (length c.entries, record c { entries = []; lru_list = [] })
