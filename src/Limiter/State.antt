-- ===== src/Limiter/State.antt =====
-- One bucket: `allow` and `registerViolation` on its state.
use flow_proxy.Prelude.{
  ℕ, ◌+◌, ◌-◌, ◌*◌, ◌^◌, Bool, true, false, not, ◌&&◌, min, ltb, ◌==◌, if◌then◌else◌, ℤ,
  positive_or,
}
use flow_proxy.Upstream.Target.{seconds_or}

-- site.AutoBlockConfig.
pub record AutoBlockConfig : Type 0 where
  pub enabled : Bool
  pub violation_threshold : ℤ
  pub violation_window_seconds : ℤ
  pub block_seconds : ℤ

pub record AutoBlockPolicy : Type 0 where
  pub enabled : Bool
  pub violation_threshold : ℕ
  pub violation_window : ℕ
  pub block_duration : ℕ

-- The parameters of a limiter: what the rate earns in a nanosecond, and the burst, both in units, and
-- the float64 value of `state.tokens + elapsed*l.ratePerSec`, of tokens and an elapsed time.
pub record Limit : Type 0 where
  pub rate : ℕ
  pub burst : ℕ
  pub sum : ℕ → ℕ → ℕ
  pub auto_block : AutoBlockPolicy

pub record Bucket : Type 0 where
  pub tokens : ℕ
  pub last : ℕ
  pub violation_count : ℕ
  pub violation_window_start : ℕ
  pub blocked_until : ℕ

-- `rateLimitDecision`.
pub data Decision : Type 0 where
  allowed : Decision
  limited : Decision
  blocked : ℕ → Decision

-- The units of a token, so many that each float64 is a whole number of them, and so is what a rate of
-- one request a minute earns in a nanosecond.
abbrev pub token_units : ℕ
token_units = 60_000_000_000 * 2 ^ 1074

unfoldable pub resolve_auto_block_policy : AutoBlockConfig → AutoBlockPolicy
resolve_auto_block_policy cfg =
    if cfg.enabled
    then record {
      enabled = true;
      violation_threshold = positive_or 5 cfg.violation_threshold;
      violation_window = seconds_or 60_000_000_000 cfg.violation_window_seconds;
      block_duration = seconds_or 600_000_000_000 cfg.block_seconds;
    }
    else record {
      enabled = false;
      violation_threshold = 0;
      violation_window = 0;
      block_duration = 0;
    }

-- `a.Sub(b)` for a not before b, which stops at the largest duration; 0 for a before b.
abbrev pub time_sub : ℕ → ℕ → ℕ
time_sub a b = min (a - b) (2 ^ 63 - 1)

abbrev pub is_set : ℕ → Bool
is_set t = not (t == 0)

-- The window has not begun, or began longer ago than it lasts.
abbrev pub window_over : Limit → ℕ → Bucket → Bool
window_over l now s = ltb l.auto_block.violation_window (time_sub now s.violation_window_start)

abbrev pub open_window : Limit → ℕ → Bucket → Bucket
open_window l now s =
    if not (is_set s.violation_window_start)
    then record s { violation_window_start = now; violation_count = 0 }
    else if window_over l now s
    then record s { violation_window_start = now; violation_count = 0 }
    else s

abbrev pub count_violation : Limit → ℕ → Bucket → Bucket
count_violation l now s =
    if ltb (s.violation_count + 1) l.auto_block.violation_threshold
    then record s { violation_count = s.violation_count + 1 }
    else record s {
      blocked_until = now + l.auto_block.block_duration;
      violation_count = 0;
      violation_window_start = 0;
    }

unfoldable pub register_violation : Limit → ℕ → Bucket → Bucket
register_violation l now s = count_violation l now (open_window l now s)

-- The end of a block that is over.
unfoldable pub unblock : Limit → Bucket → Bucket
unblock l s =
    if l.auto_block.enabled && is_set s.blocked_until
    then record s { blocked_until = 0; violation_count = 0; violation_window_start = 0 }
    else s

unfoldable pub refill : Limit → ℕ → Bucket → Bucket
refill l now s = record s {
  last = now;
  tokens = min l.burst (l.sum s.tokens (time_sub now s.last));
}

-- The decision after a violation was registered.
unfoldable pub after_violation : ℕ → Bucket → Decision × Bucket
after_violation now s =
    if is_set s.blocked_until && ltb now s.blocked_until
    then (Decision.blocked (time_sub s.blocked_until now), s)
    else (Decision.limited, s)

-- The part of `allow` from the test of the tokens on; float64 takes 1 from fewer than 2^53 exactly.
unfoldable pub spend : Limit → ℕ → Bucket → Decision × Bucket
spend l now s =
    if ltb s.tokens token_units
    then (if l.auto_block.enabled
        then after_violation now (register_violation l now s)
        else (Decision.limited, s))
    else (if l.auto_block.enabled && is_set s.violation_window_start && window_over l now s
        then (
          Decision.allowed,
          record s {
            tokens = s.tokens - token_units;
            violation_count = 0;
            violation_window_start = 0;
          },
        )
        else (Decision.allowed, record s { tokens = s.tokens - token_units }))

unfoldable pub is_blocked : Limit → ℕ → Bucket → Bool
is_blocked l now s = l.auto_block.enabled && is_set s.blocked_until && ltb now s.blocked_until

unfoldable pub allow_bucket : Limit → ℕ → Bucket → Decision × Bucket
allow_bucket l now s =
    if is_blocked l now s
    then (Decision.blocked (time_sub s.blocked_until now), s)
    else spend l now (refill l now (unblock l s))
