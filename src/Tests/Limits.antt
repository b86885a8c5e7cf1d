-- ===== src/Tests/Limits.antt =====
-- Rate limits, automatic blocks and request slots.
use flow_proxy.Prelude.{
  ◌^◌, ℕ, ◌+◌, ◌-◌, ◌*◌, ◌≤◌, ◌≡◌, refl, true, List, [], ◌∷◌, Text, codes, arith, lookup,
}
use flow_proxy.Limiter.{RateLimiter}
use flow_proxy.Limiter.State.{Limit, Bucket, token_units, register_violation}
use flow_proxy.Limiter.Credit.{slack, IsRounded}
use flow_proxy.Limiter.Rate.{admitted, asked, admitted-le}
use flow_proxy.Limiter.Blocking.{violate, violate_blocks}
use flow_proxy.Slots.Site
use flow_proxy.Slots.PerIp

abbrev limit : Limit
limit = record {
  rate = 60 * 2 ^ 1074;
  sum = λ tokens elapsed. tokens + elapsed * (60 * 2 ^ 1074);
  burst = 2 * token_units;
  auto_block = record {
    enabled = true;
    violation_threshold = 3;
    violation_window = 60_000_000_000;
    block_duration = 600_000_000_000;
  };
}

abbrev pub limiter : RateLimiter
limiter = record { limit = limit; by_ip = [] }

abbrev calls : List (Text × ℕ)
calls = (codes "a", 1_000) ∷ (codes "b", 1_000) ∷ (codes "a", 2_000_001_000) ∷ []

limit-IsRounded : IsRounded limit
limit-IsRounded t e = omega arith

admitted-le_example :
    admitted limiter (codes "a") calls * token_units
    ≤ limit.burst + (3_000_000_000 - 1_000) * limit.rate + asked (codes "a") calls * slack limit
admitted-le_example =
    admitted-le limiter (codes "a") 1_000 3_000_000_000 calls limit-IsRounded refl
      (omega arith, (omega arith, (omega arith, omega arith)))

abbrev bucket : Bucket
bucket = record {
  tokens = token_units;
  last = 1_000;
  violation_count = 0;
  violation_window_start = 0;
  blocked_until = 5_000;
}

violate_blocks_example :
    ((violate limit (2_000 ∷ 1_500 ∷ []) (register_violation limit 1_000 bucket)).blocked_until
      ≡ 2_000 + limit.auto_block.block_duration)
    × ((violate limit (1_500 ∷ []) (register_violation limit 1_000 bucket)).blocked_until ≡ 5_000)
violate_blocks_example =
    violate_blocks limit 1_000 2_000 (1_500 ∷ []) bucket (λ e. ground arith) refl
      (omega arith, (omega arith, tt)) refl

abbrev idle_site : Site.System
idle_site = record { active = 0; requests = Site.Pc.outside ∷ Site.Pc.outside ∷ [] }

idle_site-IsCounted : Site.IsCounted 1 idle_site
idle_site-IsCounted = record { counted = refl; bounded = omega arith }

abbrev busy_site : Site.System
busy_site = record { active = 0; requests = Site.Pc.trying ∷ Site.Pc.outside ∷ [] }

busy_site-Reach : Site.Reach 1 idle_site busy_site
busy_site-Reach =
    Site.Reach.later Site.Reach.start
      (Site.Step.moves [] (Site.Pc.outside ∷ []) refl (Site.Move.arrive (omega arith)))

Reach-IsCounted_example : Site.IsCounted 1 busy_site
Reach-IsCounted_example =
    Site.Reach-IsCounted 1 idle_site busy_site (omega arith) idle_site-IsCounted busy_site-Reach

abbrev one_client : PerIp.System
one_client = record {
  counters = (PerIp.try_acquire_per_ip_slot 2 (codes "a") []).1;
  holders = codes "a" ∷ [];
}

admits : (PerIp.try_acquire_per_ip_slot 2 (codes "a") []).0 ≡ true
unfolding PerIp.try_acquire_per_ip_slot lookup
admits = refl

one_client-Reach : PerIp.Reach 2 one_client
one_client-Reach = PerIp.Reach.later PerIp.Reach.start (PerIp.Step.admitted (codes "a") admits)

Reach-IsCounted_per_ip_example : PerIp.IsCounted 2 one_client
Reach-IsCounted_per_ip_example =
    PerIp.Reach-IsCounted_per_ip 2 one_client (omega arith) one_client-Reach
