-- ===== src/Upstream/Target.antt =====
-- One upstream target and its marks. Instants are nanoseconds of the Unix clock, and each call
-- reads the clock once. The counters are int64 in the source and stay below their thresholds.
use flow_proxy.Prelude.{
  ℕ, ◌+◌, Bool, true, false, ◌&&◌, ◌||◌, [], ◌∷◌, ltb, leb, if◌then◌else◌, Text, ℤ, positive_or,
  wrap64, scale, second, is_positive, nonneg, trim_space, has_prefix, codes, text_eq,
}

-- site.CircuitBreakerConfig and site.ActiveHealthCheckConfig.
pub record CircuitBreakerConfig : Type 0 where
  pub enabled : Bool
  pub failure_threshold : ℤ
  pub open_seconds : ℤ

pub record ActiveHealthCheckConfig : Type 0 where
  pub enabled : Bool
  pub interval_seconds : ℤ
  pub timeout_seconds : ℤ
  pub path : Text
  pub expected_status : ℤ

pub record CircuitBreakerPolicy : Type 0 where
  pub enabled : Bool
  pub failure_threshold : ℕ
  pub open_duration : ℕ

pub record ActiveHealthPolicy : Type 0 where
  pub enabled : Bool
  pub interval : ℕ
  pub timeout : ℕ
  pub path : Text
  pub expected_status : ℤ

pub record UpstreamTarget : Type 0 where
  pub key : Text
  pub weight : ℕ
  pub active : ℕ
  pub failures : ℕ
  pub unhealthy_until : ℕ
  pub health : ActiveHealthPolicy
  pub circuit : CircuitBreakerPolicy
  pub cb_failures : ℕ
  pub cb_open_until : ℕ

abbrev pub passive_fail_threshold : ℕ
passive_fail_threshold = 3

abbrev pub passive_recover_window : ℕ
passive_recover_window = 30_000_000_000

-- `time.Duration(n) * time.Second`, or the default where that is not positive.
abbrev pub seconds_or : ℕ → ℤ → ℕ
seconds_or d n = positive_or d (wrap64 (scale second n))

unfoldable pub resolve_circuit_breaker_policy : CircuitBreakerConfig → CircuitBreakerPolicy
unfolding positive_or wrap64
resolve_circuit_breaker_policy cfg =
    if cfg.enabled
    then record {
      enabled = true;
      failure_threshold = positive_or 5 cfg.failure_threshold;
      open_duration = seconds_or 30_000_000_000 cfg.open_seconds;
    }
    else record { enabled = false; failure_threshold = 0; open_duration = 0 }

health_path : Text → Text
unfolding trim_space has_prefix
health_path raw =
    let path = trim_space raw in
    let named = if text_eq path [] then codes "/health" else path in
    if has_prefix named (codes "/") then named else b'/' ∷ named

unfoldable pub resolve_active_health_policy : ActiveHealthCheckConfig → ActiveHealthPolicy
unfolding positive_or wrap64 health_path
resolve_active_health_policy cfg =
    if cfg.enabled
    then record {
      enabled = true;
      interval = seconds_or 10_000_000_000 cfg.interval_seconds;
      timeout = seconds_or 5_000_000_000 cfg.timeout_seconds;
      path = health_path cfg.path;
      expected_status = cfg.expected_status;
    }
    else record { enabled = false; interval = 0; timeout = 0; path = []; expected_status = ℤ.pos 0 }

-- The test of `healthyTargets` for leaving a target out.
unfoldable pub unavailable : ℕ → UpstreamTarget → Bool
unavailable now u = ltb now u.unhealthy_until || (u.circuit.enabled && ltb now u.cb_open_until)

-- The two halves of `markFailure`.
unfoldable pub count_failure : ℕ → UpstreamTarget → UpstreamTarget
count_failure now u =
    if leb passive_fail_threshold (u.failures + 1)
    then record u { failures = 0; unhealthy_until = now + passive_recover_window }
    else record u { failures = u.failures + 1 }

unfoldable pub trip_circuit : ℕ → UpstreamTarget → UpstreamTarget
trip_circuit now u =
    if u.circuit.enabled
    then (if leb u.circuit.failure_threshold (u.cb_failures + 1)
        then record u { cb_failures = 0; cb_open_until = now + u.circuit.open_duration }
        else record u { cb_failures = u.cb_failures + 1 })
    else u

unfoldable pub mark_failure : ℕ → UpstreamTarget → UpstreamTarget
unfolding count_failure trip_circuit
mark_failure now u = trip_circuit now (count_failure now u)

unfoldable pub mark_success : UpstreamTarget → UpstreamTarget
mark_success u = record u { failures = 0; unhealthy_until = 0; cb_failures = 0; cb_open_until = 0 }

-- What an active probe met: no request could be sent, or a response came with a status.
pub data Probe : Type 0 where
  failed : Probe
  answered : ℕ → Probe

-- The verdict of `performHealthCheck` on a status.
unfoldable pub probe_passes : ℤ → ℕ → Bool
probe_passes expected status =
    if is_positive expected
    then leb status (nonneg expected) && leb (nonneg expected) status
    else leb 200 status && ltb status 400

unfoldable pub perform_health_check : ℕ → Probe → UpstreamTarget → UpstreamTarget
unfolding probe_passes mark_failure mark_success
perform_health_check now failed u = mark_failure now u
perform_health_check now (answered status) u =
    if probe_passes u.health.expected_status status then mark_success u else mark_failure now u
