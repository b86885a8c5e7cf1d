-- ===== src/Limiter.antt =====
-- The rate limiter of internal/proxy/proxy.go: a token bucket for each client address, with the
-- automatic block of addresses that keep violating the limit. Instants are nanoseconds since Go's
-- zero time, so 0 is `time.Time{}`. Tokens are float64, as numbers of units of which each float64 is a
-- whole number; how the refill rounds is a parameter, `float_sum`.
pub mod State
pub mod Credit
pub mod Rate
pub mod Blocking
use flow_proxy.Prelude.{
  ℕ, ◌*◌, ◌^◌, Bool, List, [], ◌∷◌, Option, none, some, Text, lookup, store, ℤ, is_positive, nonneg,
  if◌then◌else◌,
}
use State.{
  AutoBlockConfig, Limit, Bucket, Decision, token_units, resolve_auto_block_policy, allow_bucket,
}

-- site.RateLimitConfig; a site is refused where the rate is negative.
pub record RateLimitConfig : Type 0 where
  pub enabled : Bool
  pub requests_per_minute : ℕ
  pub burst : ℤ
  pub auto_block : AutoBlockConfig

pub record RateLimiter : Type 0 where
  pub limit : Limit
  pub by_ip : List (Text × Bucket)

-- The limiter of `compileSite`; `float_sum` is the float64 value of tokens and what requests a minute
-- earn in a time, for bursts of fewer than 2^53.
unfoldable pub new_limiter : (ℕ → ℕ → ℕ → ℕ) → RateLimitConfig → Option RateLimiter
new_limiter float_sum cfg =
    if cfg.enabled
    then some (record {
      limit = record {
        rate = cfg.requests_per_minute * 2 ^ 1074;
        sum = float_sum cfg.requests_per_minute;
        burst =
            (if is_positive cfg.burst then nonneg cfg.burst else cfg.requests_per_minute)
            * token_units;
        auto_block = resolve_auto_block_policy cfg.auto_block;
      };
      by_ip = [];
    })
    else none

-- The bucket that a call works on; a new one is full.
unfoldable pub bucket_from : Limit → Option Bucket → ℕ → Bucket
bucket_from l none now = record {
  tokens = l.burst;
  last = now;
  violation_count = 0;
  violation_window_start = 0;
  blocked_until = 0;
}
bucket_from l (some s) now = s

abbrev pub bucket_of : RateLimiter → Text → ℕ → Bucket
bucket_of l ip now = bucket_from l.limit (lookup ip l.by_ip) now

unfoldable pub allow : RateLimiter → Text → ℕ → Decision × RateLimiter
allow l ip now =
    let (decision, s) = allow_bucket l.limit now (bucket_of l ip now) in
    (decision, record l { by_ip = store ip s l.by_ip })
