-- ===== src/Tests/Balancer.antt =====
-- Targets, retry policies and pools as the code builds them.
use flow_proxy.Prelude.{
  member, to_upper, trim_space, length, ◌<◌, if◌then◌else◌, ◌==◌, ℕ, ◌+◌, ◌*◌, ◌≤◌, ◌<◌, ◌≡◌, refl,
  true, false, ◌&&◌, ◌||◌, List, [], ◌∷◌, codes, ltb, pos, nonneg, arith, min, to_upper, trim_space,
}
use flow_proxy.Http.{stream, Request, Body, method_of, is_upgrade_request}
use flow_proxy.Upstream.Target.{mark_failure, UpstreamTarget, unavailable}
use flow_proxy.Upstream.Attempts.{World, serve_attempts}
use flow_proxy.Upstream.Retrying.{
  IsFaithful, upgrades, serve_attempts-IsFaithful, serve_attempts-repeats,
}
use flow_proxy.Upstream.Breaker.{
  Outcome, failure, success, marks, IsFresh, paused_until, unavailable-marks,
}
use flow_proxy.Upstream.Retry.{
  should_retry, base_delay, RetryPolicy, backoff_delay, effective_attempts, is_safe_method,
  is_one_shot,
}
use flow_proxy.Upstream.Backoff.{IsPlain, backoff_delay-le}
use flow_proxy.Upstream.Pool.{
  after_pick, UpstreamPool, weighted_round_robin, build_weighted_plan, healthy_targets, pick,
  pick_among, weighted_pick, planned_pick, rr_index, target_at, chosen,
}
use flow_proxy.Upstream.Selection.{IsDraw, IsValid, PickSound, pick-PickSound}
use flow_proxy.Upstream.Balance.{occurrences, build_weighted_plan-occurrences}

abbrev target : ℕ → UpstreamTarget
target weight = record {
  key = codes "a";
  weight = weight;
  active = 0;
  failures = 0;
  unhealthy_until = 0;
  health = record {
    enabled = false;
    interval = 0;
    timeout = 0;
    path = [];
    expected_status = pos 0;
  };
  circuit = record { enabled = true; failure_threshold = 2; open_duration = 20_000_000_000 };
  cb_failures = 0;
  cb_open_until = 0;
}

target-IsFresh : IsFresh (target 1)
target-IsFresh = record {
  failures = refl;
  unhealthy_until = refl;
  cb_failures = refl;
  cb_open_until = refl;
  threshold = λ h. omega arith;
}

abbrev two_failures : List Outcome
two_failures = failure 1_000 ∷ failure 500 ∷ success ∷ []

unavailable-marks_example : unavailable 2_000 (marks two_failures (target 1)) ≡ (
    ltb 2_000 (paused_until 3 30_000_000_000 two_failures)
    || (true && ltb 2_000 (paused_until 2 20_000_000_000 two_failures)))
unavailable-marks_example = unavailable-marks (target 1) two_failures 2_000 target-IsFresh

two_failures_open : unavailable 2_000 (marks two_failures (target 1)) ≡ true
unfolding unavailable marks
two_failures_open = refl

abbrev policy : ℕ → RetryPolicy
policy jitter = record {
  enabled = true;
  attempts = 3;
  statuses = 502 ∷ [];
  backoff = pos 100;
  max_backoff = 250;
  jitter_percent = jitter;
  backoff_strategy = codes "exponential";
  retry_on_5xx = true;
  retry_on_timeout = true;
  retry_on_connection = true;
}

abbrev draw : ℕ → ℕ
draw n = 0

draw-IsDraw : IsDraw draw
draw-IsDraw n h = h

policy-IsPlain : IsPlain (policy 0) 100
policy-IsPlain = record {
  enabled = refl;
  base = refl;
  positive = omega arith;
  limited = omega arith;
  no_jitter = refl;
}

backoff_delay-le_example : nonneg (backoff_delay (policy 20) draw (pos 3)) * 100 ≤ 250 * (100 + 20)
backoff_delay-le_example = backoff_delay-le (policy 20) draw (pos 3) draw-IsDraw (omega arith)

abbrev get_request : Request
get_request = record {
  method = codes "GET";
  path = codes "/";
  header = [];
  cookies = [];
  query = [];
  body = Body.nil;
  has_get_body = false;
  content_length = 0;
}

get_request_retries : 1 < effective_attempts (policy 0) get_request
unfolding effective_attempts is_safe_method is_one_shot method_of to_upper trim_space
    is_upgrade_request
get_request_retries = omega arith

abbrev pool : UpstreamPool
pool = record {
  name = codes "default";
  strategy = weighted_round_robin;
  targets = target 2 ∷ target 3 ∷ [];
  weighted_plan = 0 ∷ 0 ∷ 1 ∷ 1 ∷ 1 ∷ [];
  rr_counter = 7;
  retry = policy 0;
}

pool-IsValid : IsValid pool
pool-IsValid = record {
  counter = omega arith;
  plan = (omega arith, (omega arith, (omega arith, (omega arith, (omega arith, tt)))));
}

pick-PickSound_example : PickSound 5 pool (pick 5 draw (codes "10.0.0.1") pool)
pick-PickSound_example = pick-PickSound 5 draw (codes "10.0.0.1") pool draw-IsDraw pool-IsValid

pool-pick : pick 5 draw (codes "10.0.0.1") pool ≡ chosen 1
unfolding pick healthy_targets unavailable pick_among weighted_pick planned_pick rr_index target_at
pool-pick = refl

build_weighted_plan-occurrences_example :
    occurrences 1 (build_weighted_plan pool.targets) ≡ min 3 20
build_weighted_plan-occurrences_example =
    build_weighted_plan-occurrences pool.targets 1 (target 3) refl (omega arith)

-- The first exchange fails with 502, which is retried, and the second succeeds.
abbrev world : World
world = record {
  picked_at = λ k. 5;
  ended_at = λ k. 6;
  draws = λ k n. 0;
  shift = λ k n. 0;
  exchange = λ k i. if k == 0 then 502 else 200;
  body_again = λ k. true;
  cancelled = λ k. false;
}

serve_attempts-IsFaithful_example :
    IsFaithful world get_request pool.retry 3
      (serve_attempts world get_request (codes "10.0.0.1") 3 pool)
serve_attempts-IsFaithful_example =
    serve_attempts-IsFaithful world get_request (codes "10.0.0.1") 3 pool

exchanged_often :
    length
      (serve_attempts world get_request
        (codes "10.0.0.1")
        (effective_attempts pool.retry get_request)
        pool).exchanges
    ≡ 2
unfolding serve_attempts effective_attempts is_safe_method method_of is_one_shot is_upgrade_request
    should_retry pick to_upper trim_space backoff_delay healthy_targets unavailable pick_among
    weighted_pick planned_pick rr_index target_at base_delay after_pick mark_failure
exchanged_often = refl

repeats_once :
    1
    < length
        (serve_attempts world get_request
          (codes "10.0.0.1")
          (effective_attempts pool.retry get_request)
          pool).exchanges
repeats_once = omega (arith, exchanged_often)

serve_attempts-repeats_example :
    (member
        (to_upper (trim_space get_request.method))
        (codes "GET" ∷ codes "HEAD" ∷ codes "OPTIONS" ∷ [])
      ≡ true)
    × (get_request.has_get_body || elim get_request.body [ stream ↦ false | _ ↦ true ] ≡ true)
    × (upgrades get_request ≡ false)
    × (pool.retry.enabled ≡ true)
serve_attempts-repeats_example =
    serve_attempts-repeats world get_request (codes "10.0.0.1") pool repeats_once
