-- ===== src/Tests/Caching.antt =====
-- A cache of two entries.
use flow_proxy.Prelude.{
  ℕ, ◌+◌, ◌≡◌, refl, true, false, not, ◌&&◌, List, [], ◌∷◌, Option, none, some, Text, codes, ltb,
  ◌==◌, arith, if◌then◌else◌, lookup, contains, to_lower, trim_space,
}
use flow_proxy.Http.{Header, header_get, header_values}
use flow_proxy.Cache.{CachePolicy, ResponseCache, new_response_cache, get, set}
use flow_proxy.Cache.Lookup.{
  Call, reads, writes, run, IsBounded, entry_of, run_new-IsBounded, get-set,
}
use flow_proxy.Cache.Cacheable.{is_response_cacheable}

abbrev policy : CachePolicy
policy = record {
  enabled = true;
  ttl = 100;
  max_entries = 2;
  max_body_bytes = 3;
  proactive = false;
}

abbrev empty_cache : ResponseCache
empty_cache = record { entries = []; lru_list = []; policy = policy }

starts : new_response_cache policy ≡ some empty_cache
unfolding new_response_cache
starts = refl

abbrev calls : List Call
calls =
    writes 1 [] (codes "a") 200 [] (7 ∷ [])
    ∷ writes 2 [] (codes "b") 200 [] []
    ∷ reads 3 (codes "a")
    ∷ writes 4 [] (codes "c") 200 [] []
    ∷ []

run_new-IsBounded_example : IsBounded (run calls empty_cache)
run_new-IsBounded_example = run_new-IsBounded policy calls empty_cache (omega arith) starts

get-set_example : (get 9 (codes "a") (set 5 [] (codes "a") 200 [] (7 ∷ []) empty_cache)).0 ≡ (
    if not (5 + 100 == 0) && ltb (5 + 100) 9
    then none
    else some (entry_of 5 200 [] (7 ∷ []) policy))
get-set_example =
    get-set 5 9 [] (codes "a") 200 [] (7 ∷ []) empty_cache (λ e. ground arith) (omega arith)

abbrev public_header : Header
public_header = (codes "Cache-Control", codes "Public" ∷ []) ∷ []

abbrev never : Text → Option ℕ
never t = none

abbrev ok_status : ℕ
ok_status = 200

cacheable : is_response_cacheable never 5 ok_status public_header true ≡ true
unfolding is_response_cacheable header_values header_get lookup to_lower trim_space contains
cacheable = refl
