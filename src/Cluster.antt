-- ===== src/Cluster.antt =====
-- The runtime state of a cluster node, internal/clustersync/state.go: what the sync loop records of
-- its attempts, and when a follower fails closed. Instants are Unix nanoseconds on the UTC clock,
-- 0 is Go's zero time; each operation takes the clock's reading with the instant it is given.
pub mod FailClose
use flow_proxy.Prelude.{
  ℕ, suc, ◌+◌, ◌-◌, ◌*◌, ◌/◌, Bool, true, false, ◌||◌, not, List, [], ◌∷◌, Option, none, some, Text,
  codes, text_eq, ltb, leb, ◌==◌, if◌then◌else◌, trim_space, to_lower, ℤ, pos, negsuc, positive_or,
  is_positive, nonneg, second, minute,
}

-- What the state reads of settings.ClusterSync.
pub record ClusterSync : Type 0 where
  pub fail_close_enabled : Bool
  pub fail_close_consecutive_failures : ℤ
  pub fail_close_stale_after : Text
  pub certificate_sync_enabled : Bool

pub record CertificateSyncStatus : Type 0 where
  pub enabled : Bool
  pub last_sync_at : ℕ
  pub last_failure_at : ℕ
  pub last_error : Text
  pub synced_count : ℕ

pub record RuntimeState : Type 0 where
  pub mode : Text
  pub sync_interval : ℕ
  pub config : ClusterSync
  pub last_attempt_at : ℕ
  pub last_fetch_at : ℕ
  pub last_apply_at : ℕ
  pub last_success_at : ℕ
  pub last_failure_at : ℕ
  pub last_error : Text
  pub last_failed_stage : Text
  pub consecutive_failures : ℕ
  pub certificate : CertificateSyncStatus
  pub active_endpoint : Text

-- `if m == "" { m = ModeController }` of the trimmed lower-case mode.
unfoldable pub mode_of : Text → Text
unfolding trim_space to_lower
mode_of mode = let m = to_lower (trim_space mode) in if text_eq m [] then codes "controller" else m

-- `now`, or the clock where it is the zero time.
abbrev pub instant : ℕ → ℕ → ℕ
instant clock now = if now == 0 then clock else now

unfoldable pub new_runtime_state : Text → ClusterSync → ℤ → RuntimeState
unfolding mode_of
new_runtime_state mode cfg interval = record {
  mode = mode_of mode;
  sync_interval = positive_or 3_000_000_000 interval;
  config = cfg;
  last_attempt_at = 0;
  last_fetch_at = 0;
  last_apply_at = 0;
  last_success_at = 0;
  last_failure_at = 0;
  last_error = [];
  last_failed_stage = [];
  consecutive_failures = 0;
  certificate = record {
    enabled = cfg.certificate_sync_enabled;
    last_sync_at = 0;
    last_failure_at = 0;
    last_error = [];
    synced_count = 0;
  };
  active_endpoint = [];
}

unfoldable pub set_mode : Text → RuntimeState → RuntimeState
unfolding mode_of
set_mode mode s = record s { mode = mode_of mode }

unfoldable pub update_config : ClusterSync → RuntimeState → RuntimeState
update_config cfg s = record s {
  config = cfg;
  certificate = record s.certificate { enabled = cfg.certificate_sync_enabled };
}

unfoldable pub set_sync_interval : ℤ → RuntimeState → RuntimeState
set_sync_interval interval s =
    if is_positive interval then record s { sync_interval = nonneg interval } else s

unfoldable pub start_attempt : ℕ → ℕ → RuntimeState → RuntimeState
start_attempt clock now s = record s { last_attempt_at = instant clock now }

unfoldable pub mark_fetch_success : ℕ → ℕ → RuntimeState → RuntimeState
mark_fetch_success clock now s = record s { last_fetch_at = instant clock now }

unfoldable pub mark_apply_success : ℕ → ℕ → RuntimeState → RuntimeState
mark_apply_success clock now s = record s { last_apply_at = instant clock now }

unfoldable pub mark_success : ℕ → ℕ → RuntimeState → RuntimeState
mark_success clock now s = record s {
  last_success_at = instant clock now;
  last_error = [];
  last_failed_stage = [];
  consecutive_failures = 0;
}

-- The message of an error, empty where there is none.
abbrev pub message_of : Option Text → Text
unfolding trim_space
message_of none = []
message_of (some e) = trim_space e

unfoldable pub mark_failure : Text → Option Text → ℕ → ℕ → RuntimeState → RuntimeState
unfolding trim_space
mark_failure stage err clock now s = record s {
  last_failure_at = instant clock now;
  last_failed_stage = if text_eq (trim_space stage) [] then codes "sync" else trim_space stage;
  last_error = message_of err;
  consecutive_failures = suc s.consecutive_failures;
}

unfoldable pub mark_certificate_sync_success : ℤ → ℕ → ℕ → RuntimeState → RuntimeState
mark_certificate_sync_success count clock now s = record s {
  certificate = record s.certificate {
    last_sync_at = instant clock now;
    last_error = [];
    synced_count = nonneg count;
  };
}

unfoldable pub mark_certificate_sync_failure : Option Text → ℕ → ℕ → RuntimeState → RuntimeState
mark_certificate_sync_failure err clock now s = record s {
  certificate = record s.certificate {
    last_failure_at = instant clock now;
    last_error = message_of err;
  };
}

unfoldable pub set_active_endpoint : Text → RuntimeState → RuntimeState
unfolding trim_space
set_active_endpoint endpoint s = record s { active_endpoint = trim_space endpoint }

-- The reason of `shouldFailClose`, none where the node serves.
pub data FailCloseReason : Type 0 where
  consecutive_failures stale_sync : FailCloseReason

-- Seconds of the interval, kept between 3 and 30. The interval is printed by Duration.String and
-- parsed back, which gives it again.
unfoldable pub default_retry_after : ℕ → ℕ
default_retry_after interval =
    let seconds = interval / second in
    if ltb seconds 3 then 3 else if ltb 30 seconds then 30 else seconds

-- time.ParseDuration is a parameter; an error is none.
module _ (parse_duration : Text → Option ℤ) where
  unfoldable pub stale_after_of : ClusterSync → ℕ
  unfolding trim_space positive_or
  stale_after_of cfg =
      let text = trim_space cfg.fail_close_stale_after in
      elim (parse_duration (if text_eq text [] then codes "5m" else text)) [
        | none ↦ 300_000_000_000
        | some d ↦ positive_or 300_000_000_000 d
      ]

  -- `shouldFailClose`: the reason and the seconds to wait.
  unfoldable pub should_fail_close : RuntimeState → ℕ → Option (FailCloseReason × ℕ)
  unfolding stale_after_of default_retry_after positive_or
  should_fail_close s now =
      let retry = default_retry_after s.sync_interval in
      let stale : ℕ → Option (FailCloseReason × ℕ) = λ since.
        (if ltb (since + stale_after_of s.config) now then some (stale_sync, retry) else none) in
      if not (text_eq s.mode (codes "follower"))
      then none
      else if not s.config.fail_close_enabled
      then none
      else if leb (positive_or 10 s.config.fail_close_consecutive_failures) s.consecutive_failures
      then some (consecutive_failures, retry)
      else if s.last_failure_at == 0
      then none
      else if s.last_success_at == 0
      then (if s.last_attempt_at == 0 then none else stale s.last_attempt_at)
      else stale s.last_success_at

  -- `FailCloseStatus`: the snapshot's flag and the seconds to wait.
  unfoldable pub fail_close_status : ℕ → ℕ → RuntimeState → Bool × ℕ
  unfolding should_fail_close
  fail_close_status clock now s = elim (should_fail_close s (instant clock now)) [
    | none ↦ (false, 0)
    | some (reason, retry) ↦ (true, retry)
  ]
