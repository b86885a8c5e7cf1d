-- ===== src/Cache/Lookup.antt =====
-- What the cache returns, and what it keeps over a history of calls.
use flow_proxy.Prelude.{
  ℕ, ◌+◌, ◌≤◌, ◌<◌, ◌≡◌, ◌≢◌, refl, List, [], ◌∷◌, Option, none, some, Text, text_eq, text_eq_iff,
  ltb, ◌==◌, if◌then◌else◌, length, lookup, lookup-delete, length-delete-le, arith, Bool-cases,
  subst, inl, inr, text_eq_refl, ◌&&◌, not,
}
use flow_proxy.Http.{Header}
use flow_proxy.Cache.{
  ResponseCache, CacheEntry, CachePolicy, expired, drop_key, get_found, get, push_front, set_entry,
  set, purge_all, new_response_cache,
}
use flow_proxy.Cache.Steps.{InStep, get-InStep, evict_expired_keeps, evict_lru_keeps}
use flow_proxy.Cache.Capacity.{set-InStep, set-length}

-- A call of the cache.
pub data Call : Type 0 where
  reads : ℕ → Text → Call
  writes : ℕ → List Text → Text → ℕ → Header → List ℕ → Call
  purges : Call

unfoldable pub step : Call → ResponseCache → ResponseCache
step (reads now key) c = (get now key c).1
step (writes now order key status header body) c = set now order key status header body c
step purges c = (purge_all c).1

unfoldable pub run : List Call → ResponseCache → ResponseCache
run [] c = c
run (s ∷ ss) c = run ss (step s c)

-- In step, with a positive limit and at most as many entries as it says.
pub record IsBounded (c : ResponseCache) : Type 0 where
  pub in_step : InStep c
  pub positive : 0 < c.policy.max_entries
  pub within : length c.entries ≤ c.policy.max_entries

length-get :
    (now : ℕ) (key : Text) (c : ResponseCache) → length (get now key c).1.entries ≤ length c.entries
unfolding get get_found drop_key
length-get now key c = ground (arith, length-delete-le key c.entries)

policy-get : (now : ℕ) (key : Text) (c : ResponseCache) → (get now key c).1.policy ≡ c.policy
unfolding get get_found drop_key
policy-get now key c = ground arith

policy-drop_key :
    (p : CachePolicy) (k : Text) (c : ResponseCache) → c.policy ≡ p → (drop_key k c).policy ≡ p
unfolding drop_key
policy-drop_key p k c h = h

policy-set_entry :
    (now : ℕ) (order : List Text) (key : Text) (e : CacheEntry) (c : ResponseCache)
    → (set_entry now order key e c).policy ≡ c.policy
unfolding set_entry push_front
policy-set_entry now order key e c =
    let kept = λ (k : Text) (d : ResponseCache). policy-drop_key c.policy k d in
    evict_lru_keeps (λ d. d.policy ≡ c.policy) kept _ _
      (evict_expired_keeps (λ d. d.policy ≡ c.policy) kept now 0 order (drop_key key c)
        (kept key c refl))

policy-step : (s : Call) (c : ResponseCache) → (step s c).policy ≡ c.policy
unfolding step set purge_all
policy-step (reads now key) c = policy-get now key c
policy-step (writes now order key status header body) c = ground (
  arith,
  policy-set_entry now order key
      (record { status = status; header = header; body = body; expires_at = now + c.policy.ttl }) c,
)
policy-step purges c = ground arith

purge_all-InStep : (c : ResponseCache) → InStep c → InStep (purge_all c).1
unfolding purge_all
purge_all-InStep c s = elim (Bool-cases (length c.entries == 0)) [
  | inl empty ↦ rw empty s
  | inr full ↦ rw full (record { same = λ k. refl; listed_once = tt; stored_once = tt })
]

step-IsBounded : (s : Call) (c : ResponseCache) → IsBounded c → IsBounded (step s c)
step-IsBounded (reads now key) c b = record {
  in_step = unfold step in get-InStep now key c b.in_step;
  positive = rw policy-step b.positive;
  within = rw policy-step (unfold step in omega (arith, length-get now key c, b.within));
}
step-IsBounded (writes now order key status header body) c b = record {
  in_step = unfold step in set-InStep now order key status header body c b.in_step;
  positive = rw policy-step b.positive;
  within =
      rw policy-step (
        unfold step in set-length now order key status header body c b.in_step b.positive b.within);
}
step-IsBounded purges c b = record {
  in_step = unfold step in purge_all-InStep c b.in_step;
  positive = rw policy-step b.positive;
  within = rw policy-step (unfold step purge_all in ground (arith, b.within));
}

run-IsBounded : (ss : List Call) (c : ResponseCache) → IsBounded c → IsBounded (run ss c)
unfolding run
run-IsBounded [] c b = b
run-IsBounded (s ∷ ss) c b = run-IsBounded ss (step s c) (step-IsBounded s c b)

-- After any history of reads, writes and purges of a new cache, at any instants and with any order
-- of eviction, the map and the list hold the same keys, each once, and no more of them than the
-- policy allows.
pub run_new-IsBounded :
    (policy : CachePolicy) (ss : List Call) (c : ResponseCache)
    → 0 < policy.max_entries
    → new_response_cache policy ≡ some c
    → IsBounded (run ss c)
run_new-IsBounded policy ss c pos h =
    let empty : IsBounded (record { entries = []; lru_list = []; policy = policy }) = record {
      in_step = record { same = λ k. refl; listed_once = tt; stored_once = tt };
      positive = pos;
      within = omega arith;
    } in
    let e : record { entries = []; lru_list = []; policy = policy } ≡ c =
      unfold new_response_cache in ground arith in
    run-IsBounded ss c (subst IsBounded e empty)

-- What a read may return of a stored entry.
abbrev pub live : ℕ → Option CacheEntry → Option CacheEntry
live now none = none
live now (some e) = if expired now e then none else some e

get_lem :
    (now : ℕ) (key : Text) (c : ResponseCache)
    → (get now key c).0 ≡ (if text_eq key [] then none else live now (lookup key c.entries))
unfolding get get_found
get_lem now key c = ground arith

lookup-get :
    (now : ℕ) (key j : Text) (c : ResponseCache)
    → lookup j (get now key c).1.entries ≡ (
        if text_eq key j && not (text_eq key [])
        then live now (lookup j c.entries)
        else lookup j c.entries)
unfolding get get_found drop_key
lookup-get now key j c = ground (arith, lookup-delete key j c.entries, text_eq_iff key j)

live-live :
    (now later : ℕ) (o : Option CacheEntry) → now ≤ later → live later (live now o) ≡ live later o
live-live now later o h = ground arith

-- A read returns the stored entry of a named key if that has not expired, and it changes nothing
-- that a read of any key at the same or a later instant returns.
pub get-get :
    (now later : ℕ) (key j : Text) (c : ResponseCache)
    → now ≤ later
    → ((get now key c).0 ≡ (if text_eq key [] then none else live now (lookup key c.entries)))
      × ((get later j (get now key c).1).0 ≡ (get later j c).0)
get-get now later key j c h = (
  get_lem now key c,
  rw (get_lem, get_lem, lookup-get) (ground (arith, live-live now later (lookup j c.entries) h)),
)

-- The entry that `Set` stores.
abbrev pub entry_of : ℕ → ℕ → Header → List ℕ → CachePolicy → CacheEntry
entry_of now status header body p = record {
  status = status;
  header = header;
  body = body;
  expires_at = now + p.ttl;
}

lookup-set_entry :
    (now : ℕ) (order : List Text) (key : Text) (e : CacheEntry) (c : ResponseCache)
    → lookup key (set_entry now order key e c).entries ≡ some e
unfolding set_entry push_front lookup
lookup-set_entry now order key e c = rw text_eq_refl refl

set_small :
    (now : ℕ) (order : List Text) (key : Text) (status : ℕ) (header : Header) (body : List ℕ)
    (c : ResponseCache)
    → key ≢ []
    → length body ≤ c.policy.max_body_bytes
    → set now order key status header body c
      ≡ set_entry now order key (entry_of now status header body c.policy) c
unfolding set
set_small now order key status header body c named small = ground (arith, text_eq_iff key [])

-- What is set under a name, with a body of an allowed size, is returned by a read at any instant
-- up to the time to live later, and by none after that, but for an expiry of 0 (Go's zero time),
-- which never passes.
pub get-set :
    (now later : ℕ) (order : List Text) (key : Text) (status : ℕ) (header : Header) (body : List ℕ)
    (c : ResponseCache)
    → key ≢ []
    → length body ≤ c.policy.max_body_bytes
    → (get later key (set now order key status header body c)).0 ≡ (
        if not (now + c.policy.ttl == 0) && ltb (now + c.policy.ttl) later
        then none
        else some (entry_of now status header body c.policy))
get-set now later order key status header body c named small =
    rw (set_small now order key status header body c named small, get_lem, lookup-set_entry)
      (ground (arith, text_eq_iff key []))
