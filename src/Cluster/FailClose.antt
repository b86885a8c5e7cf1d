-- ===== src/Cluster/FailClose.antt =====
-- When a node fails closed, over the history of its sync attempts.
use flow_proxy.Prelude.{
  Bool-cases, inl, inr, is_positive, ℕ, suc, ◌+◌, ◌≤◌, ◌<◌, ◌≡◌, refl, ap, ◌↔◌, Bool, true, false,
  ◌||◌, ◌&&◌, not, List, [], ◌∷◌, Option, Text, codes, text_eq, ltb, leb, ◌==◌, if◌then◌else◌, ℤ,
  positive_or, positive_or_pos, arith,
}
use flow_proxy.Cluster.{
  ClusterSync, RuntimeState, mode_of, instant, new_runtime_state, start_attempt, mark_fetch_success,
  mark_apply_success, mark_success, mark_failure, mark_certificate_sync_success,
  mark_certificate_sync_failure, set_active_endpoint, update_config, set_mode, set_sync_interval,
  stale_after_of, should_fail_close, fail_close_status, default_retry_after,
}

-- What a sync loop records, with the clock's reading and the instant it is given, and the changes of
-- the configuration, of the mode and of the interval.
pub data Event : Type 0 where
  attempted : ℕ → ℕ → Event
  fetched : ℕ → ℕ → Event
  applied : ℕ → ℕ → Event
  succeeded : ℕ → ℕ → Event
  failed : Text → Option Text → ℕ → ℕ → Event
  certificates_synced : ℤ → ℕ → ℕ → Event
  certificates_failed : Option Text → ℕ → ℕ → Event
  endpoint_chosen : Text → Event
  configured : ClusterSync → Event
  switched : Text → Event
  paced : ℤ → Event

abbrev pub recorded : Event → RuntimeState → RuntimeState
recorded (attempted clock now) s = start_attempt clock now s
recorded (fetched clock now) s = mark_fetch_success clock now s
recorded (applied clock now) s = mark_apply_success clock now s
recorded (succeeded clock now) s = mark_success clock now s
recorded (failed stage err clock now) s = mark_failure stage err clock now s
recorded (certificates_synced count clock now) s = mark_certificate_sync_success count clock now s
recorded (certificates_failed err clock now) s = mark_certificate_sync_failure err clock now s
recorded (endpoint_chosen endpoint) s = set_active_endpoint endpoint s
recorded (configured cfg) s = update_config cfg s
recorded (switched mode) s = set_mode mode s
recorded (paced interval) s = set_sync_interval interval s

-- A history, latest event first.
unfoldable pub after : List Event → RuntimeState → RuntimeState
after [] s = s
after (e ∷ h) s = recorded e (after h s)

-- The failures since the latest success.
abbrev pub failures : List Event → ℕ
failures [] = 0
failures (succeeded clock now ∷ h) = 0
failures (failed stage err clock now ∷ h) = suc (failures h)
failures (_ ∷ h) = failures h

-- The instants of the latest attempt, success and failure, 0 where there was none.
abbrev pub latest_attempt : List Event → ℕ
latest_attempt [] = 0
latest_attempt (attempted clock now ∷ h) = instant clock now
latest_attempt (_ ∷ h) = latest_attempt h

abbrev pub latest_success : List Event → ℕ
latest_success [] = 0
latest_success (succeeded clock now ∷ h) = instant clock now
latest_success (_ ∷ h) = latest_success h

abbrev pub latest_failure : List Event → ℕ
latest_failure [] = 0
latest_failure (failed stage err clock now ∷ h) = instant clock now
latest_failure (_ ∷ h) = latest_failure h

-- The configuration and the mode after a history, from those at its start.
abbrev pub config_after : ClusterSync → List Event → ClusterSync
config_after cfg [] = cfg
config_after cfg (configured new ∷ h) = new
config_after cfg (_ ∷ h) = config_after cfg h

abbrev pub mode_after : Text → List Event → Text
mode_after mode [] = mode_of mode
mode_after mode (switched new ∷ h) = mode_of new
mode_after mode (_ ∷ h) = mode_after mode h

-- The state after a history agrees with it.
abbrev Agrees : Text → ClusterSync → List Event → RuntimeState → Type 0
Agrees mode cfg h s =
    (s.mode ≡ mode_after mode h)
    × (s.config ≡ config_after cfg h)
    × (s.consecutive_failures ≡ failures h)
    × (s.last_attempt_at ≡ latest_attempt h)
    × (s.last_success_at ≡ latest_success h)
    × (s.last_failure_at ≡ latest_failure h)

paced-Agrees :
    (mode : Text) (cfg : ClusterSync) (h : List Event) (interval : ℤ) (t : RuntimeState)
    → Agrees mode cfg h t
    → Agrees mode cfg h (set_sync_interval interval t)
unfolding set_sync_interval
paced-Agrees mode cfg h interval t a = elim (Bool-cases (is_positive interval)) [
  | inl longer ↦ rw (set_sync_interval, longer) a
  | inr kept ↦ rw (set_sync_interval, kept) a
]

after-Agrees :
    (mode : Text) (cfg : ClusterSync) (interval : ℤ) (h : List Event)
    → Agrees mode cfg h (after h (new_runtime_state mode cfg interval))
unfolding after new_runtime_state start_attempt mark_fetch_success mark_apply_success mark_success
    mark_failure mark_certificate_sync_success mark_certificate_sync_failure set_active_endpoint
    update_config set_mode
after-Agrees mode cfg interval [] = (refl, refl, refl, refl, refl, refl)
after-Agrees mode cfg interval (e ∷ h) = stays e _ (after-Agrees mode cfg interval h)
  where
    stays :
        (e : Event) (t : RuntimeState)
        → Agrees mode cfg h t
        → Agrees mode cfg (e ∷ h) (recorded e t)
    stays (attempted clock now) t (m, c, n, a, s, f) = (m, c, n, refl, s, f)
    stays (fetched clock now) t a = a
    stays (applied clock now) t a = a
    stays (succeeded clock now) t (m, c, n, a, s, f) = (m, c, refl, a, refl, f)
    stays (failed stage err clock now) t (m, c, n, a, s, f) = (m, c, ap suc n, a, s, refl)
    stays (certificates_synced count clock now) t a = a
    stays (certificates_failed err clock now) t a = a
    stays (endpoint_chosen endpoint) t a = a
    stays (configured new) t (m, c, n, a, s, f) = (m, refl, n, a, s, f)
    stays (switched new) t (m, c, n, a, s, f) = (refl, c, n, a, s, f)
    stays (paced new) t a = paced-Agrees mode cfg h new t a

closed_now :
    (parse_duration : Text → Option ℤ) (s : RuntimeState) (clock now : ℕ)
    → fail_close_status parse_duration clock now s ≡ (
        if text_eq s.mode (codes "follower")
          && s.config.fail_close_enabled
          && (leb (positive_or 10 s.config.fail_close_consecutive_failures) s.consecutive_failures
              || (not (s.last_failure_at == 0)
                  && (let since =
                        if s.last_success_at == 0 then s.last_attempt_at else s.last_success_at in
                      not (since == 0)
                      && ltb (since + stale_after_of parse_duration s.config) (instant clock now))))
        then (true, default_retry_after s.sync_interval)
        else (false, 0))
unfolding fail_close_status should_fail_close
closed_now parse_duration s clock now = ground arith

module _ (parse_duration : Text → Option ℤ) (mode : Text) (cfg : ClusterSync) (interval : ℤ)
    (h : List Event) where
  -- Whether the latest good sync, or the latest attempt where there was none, is too long ago.
  abbrev pub stale : ℕ → Bool
  stale now =
      let since = if latest_success h == 0 then latest_attempt h else latest_success h in
      not (since == 0) && ltb (since + stale_after_of parse_duration (config_after cfg h)) now

  abbrev closes : ℕ → Bool
  closes now =
      text_eq (mode_after mode h) (codes "follower")
      && (config_after cfg h).fail_close_enabled
      && (leb (positive_or 10 (config_after cfg h).fail_close_consecutive_failures) (failures h)
          || (not (latest_failure h == 0) && stale now))

  closed_after :
      (clock now : ℕ) (s : RuntimeState)
      → Agrees mode cfg h s
      → fail_close_status parse_duration clock now s ≡ (
          if closes (instant clock now)
          then (true, default_retry_after s.sync_interval)
          else (false, 0))
  closed_after clock now s (m, c, n, a, g, f) = rw (closed_now, m, c, n, a, g, f)

  -- After any history of a new node, changes of its configuration and mode included, it fails closed exactly if it is a follower with failing
  -- closed enabled, and either the failures since its latest good sync reach the threshold, or some
  -- sync failed and the latest good one (the latest attempt where none was good) is older than the
  -- age that is configured then.
  pub fail_close_status-after :
      (clock now : ℕ)
      → (fail_close_status parse_duration clock now
          (after h (new_runtime_state mode cfg interval))).0
        ≡ (text_eq (mode_after mode h) (codes "follower")
            && (config_after cfg h).fail_close_enabled
            && (leb
                  (positive_or 10 (config_after cfg h).fail_close_consecutive_failures)
                  (failures h)
                || (not (latest_failure h == 0) && stale (instant clock now))))
  fail_close_status-after clock now =
      rw
        (closed_after clock now (after h (new_runtime_state mode cfg interval))
          (after-Agrees mode cfg interval h))
        (ground arith)

-- A node that has just completed a good sync serves, with no wait named, at every instant but the
-- zero time until the configured age has passed.
pub fail_close_status-recovers :
    (parse_duration : Text → Option ℤ) (mode : Text) (cfg : ClusterSync) (interval : ℤ)
    (h : List Event) (clock now at later : ℕ)
    → later ≤ instant clock at + stale_after_of parse_duration (config_after cfg h)
    → 0 < later
    → fail_close_status parse_duration now later
        (after (succeeded clock at ∷ h) (new_runtime_state mode cfg interval))
      ≡ (false, 0)
fail_close_status-recovers parse_duration mode cfg interval h clock now at later fresh pos =
    let history = succeeded clock at ∷ h in
    rw
      (closed_after parse_duration mode cfg interval history now later
        (after history (new_runtime_state mode cfg interval))
        (after-Agrees mode cfg interval history))
      (ground (
        arith,
        positive_or_pos 10 (config_after cfg h).fail_close_consecutive_failures (omega arith),
      ))

-- A node that fails closed asks its clients to come back in 3 to 30 seconds, and one that does not
-- names no wait.
pub fail_close_status-retry :
    (parse_duration : Text → Option ℤ) (clock now : ℕ) (s : RuntimeState)
    → let r = fail_close_status parse_duration clock now s in
      (r.1 ≤ 30) × ((r.0 ≡ true) ↔ (3 ≤ r.1))
unfolding default_retry_after
fail_close_status-retry parse_duration clock now s = rw closed_now (ground arith)
