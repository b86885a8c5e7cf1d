-- ===== src/Sync/Cooldown.antt =====
-- How long an endpoint that failed is held back.
use flow_proxy.Prelude.{ℕ, zero, suc, ◌-◌, ◌*◌, ◌^◌, ◌≡◌, ◌∙◌, min, arith}
use flow_proxy.Sync.Client.{doubled, failover_cooldown}

doubled-pow : (n d : ℕ) → doubled n d ≡ d * 2 ^ n
unfolding doubled
doubled-pow zero d = ground arith
doubled-pow (suc n) d = doubled-pow n (d * 2) ∙ grind arith

-- From the first failure on the cooldown doubles from 2 seconds, up to a minute.
pub failover_cooldown-pow :
    (n : ℕ) → failover_cooldown (suc n) ≡ min 60_000_000_000 (2_000_000_000 * 2 ^ min n 5)
unfolding failover_cooldown
failover_cooldown-pow n =
    let e : min (suc n) 6 - 1 ≡ min n 5 = omega arith in
    rw (doubled-pow (min (suc n) 6 - 1) 2_000_000_000, e) (ground arith)
