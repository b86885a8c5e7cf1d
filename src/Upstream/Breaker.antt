-- ===== src/Upstream/Breaker.antt =====
-- The marks of a target over a history of outcomes.
use native.Mathlib.Nat.{mod-eq_of_lt, mod_self, suc-mod, mod-lt, zero-mod}
use flow_proxy.Prelude.{
  ℕ, suc, ◌+◌, ◌%◌, ◌<◌, ◌≡◌, refl, true, ◌||◌, ◌&&◌, List, [], ◌∷◌, ltb, leb, ◌==◌, if◌then◌else◌,
  arith, Bool-cases, inl, inr, ◌∙◌, sym, subst,
}
use flow_proxy.Upstream.Target.{
  CircuitBreakerPolicy, UpstreamTarget, passive_fail_threshold, passive_recover_window, unavailable,
  count_failure, trip_circuit, mark_failure, mark_success,
}

-- An exchange or a probe that ended at an instant.
pub data Outcome : Type 0 where
  failure : ℕ → Outcome
  success : Outcome

unfoldable pub mark : Outcome → UpstreamTarget → UpstreamTarget
unfolding mark_failure mark_success
mark (failure now) u = mark_failure now u
mark success u = mark_success u

-- A history, latest outcome first.
unfoldable pub marks : List Outcome → UpstreamTarget → UpstreamTarget
unfolding mark
marks [] u = u
marks (o ∷ h) u = mark o (marks h u)

-- The failures since the latest success.
abbrev pub streak : List Outcome → ℕ
streak [] = 0
streak (failure now ∷ h) = suc (streak h)
streak (success ∷ h) = 0

-- A fresh target has no mark, and its breaker, where enabled, a positive threshold.
pub record IsFresh (u : UpstreamTarget) : Type 0 where
  pub failures : u.failures ≡ 0
  pub unhealthy_until : u.unhealthy_until ≡ 0
  pub cb_failures : u.cb_failures ≡ 0
  pub cb_open_until : u.cb_open_until ≡ 0
  pub threshold : u.circuit.enabled ≡ true → 0 < u.circuit.failure_threshold

-- The end of the latest pause that the failures of the running streak have earned: every
-- `k`-th of them pauses the target for `window`.
abbrev pub paused_until : ℕ → ℕ → List Outcome → ℕ
paused_until k window [] = 0
paused_until k window (failure now ∷ h) =
    if suc (streak h) % k == 0 then now + window else paused_until k window h
paused_until k window (success ∷ h) = 0

-- A counter that restarts at `k` counts modulo `k`.
wraps_below : (r k : ℕ) → r < k → suc r % k ≡ (if leb k (r + 1) then 0 else r + 1)
wraps_below r k h = elim (Bool-cases (leb k (r + 1))) [
  | inl full ↦ let e : suc r ≡ k = ground arith in rw full (rw e (mod_self k))
  | inr more ↦ rw more (mod-eq_of_lt {n = suc r} {m = k} (ground arith) ∙ omega arith)
]

count_wraps : (n k : ℕ) → 0 < k → suc n % k ≡ (if leb k (n % k + 1) then 0 else n % k + 1)
count_wraps n k h = suc-mod n k ∙ wraps_below (n % k) k (mod-lt n h)

-- What the marks of `v` are after a history, for a breaker `c`.
pub record Tracks (h : List Outcome) (c : CircuitBreakerPolicy) (v : UpstreamTarget) : Type 0 where
  pub failures : v.failures ≡ streak h % passive_fail_threshold
  pub unhealthy_until :
      v.unhealthy_until ≡ paused_until passive_fail_threshold passive_recover_window h
  pub cb_failures : c.enabled ≡ true → v.cb_failures ≡ streak h % c.failure_threshold
  pub cb_open_until :
      c.enabled ≡ true → v.cb_open_until ≡ paused_until c.failure_threshold c.open_duration h
  pub circuit : v.circuit ≡ c

count_failure-Tracks :
    (now : ℕ) (h : List Outcome) (v : UpstreamTarget)
    → v.failures ≡ streak h % passive_fail_threshold
    → v.unhealthy_until ≡ paused_until passive_fail_threshold passive_recover_window h
    → let w = count_failure now v in
      (w.failures ≡ suc (streak h) % passive_fail_threshold)
      × (w.unhealthy_until
          ≡ paused_until passive_fail_threshold passive_recover_window (failure now ∷ h))
      × (w.circuit ≡ v.circuit)
      × (w.cb_failures ≡ v.cb_failures)
      × (w.cb_open_until ≡ v.cb_open_until)
unfolding count_failure
count_failure-Tracks now h v failures until = ground (arith, count_wraps (streak h) 3)

trip_circuit-Tracks :
    (now : ℕ) (h : List Outcome) (c : CircuitBreakerPolicy) (v : UpstreamTarget)
    → v.circuit ≡ c
    → c.enabled ≡ true
    → 0 < c.failure_threshold
    → v.cb_failures ≡ streak h % c.failure_threshold
    → v.cb_open_until ≡ paused_until c.failure_threshold c.open_duration h
    → let w = trip_circuit now v in
      (w.cb_failures ≡ suc (streak h) % c.failure_threshold)
      × (w.cb_open_until ≡ paused_until c.failure_threshold c.open_duration (failure now ∷ h))
unfolding trip_circuit
trip_circuit-Tracks now h c v same on pos cb until =
    ground (arith, count_wraps (streak h) c.failure_threshold pos)

trip_circuit-keeps :
    (now : ℕ) (v : UpstreamTarget)
    → let w = trip_circuit now v in
      (w.circuit ≡ v.circuit) × (w.failures ≡ v.failures) × (w.unhealthy_until ≡ v.unhealthy_until)
unfolding trip_circuit
trip_circuit-keeps now v = ground arith

mark-Tracks :
    (o : Outcome) (h : List Outcome) (v : UpstreamTarget)
    → (v.circuit.enabled ≡ true → 0 < v.circuit.failure_threshold)
    → Tracks h v.circuit v
    → Tracks (o ∷ h) v.circuit (mark o v)
unfolding mark
mark-Tracks success h v pos t = record {
  failures = refl;
  unhealthy_until = refl;
  cb_failures = λ on. sym (zero-mod _);
  cb_open_until = λ on. refl;
  circuit = t.circuit;
}
mark-Tracks (failure now) h v pos t =
    let w = count_failure now v in
    let (f, u, c, n, m) = count_failure-Tracks now h v t.failures t.unhealthy_until in
    let (c', f', u') = trip_circuit-keeps now w in
    let tripped = λ (on : v.circuit.enabled ≡ true).
      trip_circuit-Tracks now h v.circuit w c on (pos on) (n ∙ t.cb_failures on)
        (m ∙ t.cb_open_until on) in
    record {
      failures = f' ∙ f;
      unhealthy_until = u' ∙ u;
      cb_failures = λ on. (tripped on).0;
      cb_open_until = λ on. (tripped on).1;
      circuit = c' ∙ c;
    }

marks-Tracks : (u : UpstreamTarget) (h : List Outcome) → IsFresh u → Tracks h u.circuit (marks h u)
unfolding marks
marks-Tracks u [] f = record {
  failures = f.failures;
  unhealthy_until = f.unhealthy_until;
  cb_failures = λ on. f.cb_failures ∙ sym (zero-mod _);
  cb_open_until = λ on. f.cb_open_until;
  circuit = refl;
}
marks-Tracks u (o ∷ h) f =
    let t = marks-Tracks u h f in
    let e = t.circuit in
    subst (λ c. Tracks (o ∷ h) c (mark o (marks h u))) e
      (mark-Tracks o h (marks h u)
        (λ on.
          subst (λ (c : CircuitBreakerPolicy). 0 < c.failure_threshold) (sym e)
            (f.threshold (subst (λ (c : CircuitBreakerPolicy). c.enabled ≡ true) e on)))
        (subst (λ c. Tracks h c (marks h u)) (sym e) t))

-- After any history of a fresh target, latest first, the load balancer leaves the target out at
-- an instant exactly if the instant lies in the pause of 30 s that every third consecutive failure
-- starts, or, where the breaker is enabled, in the pause of its open duration that every
-- `failure_threshold`-th consecutive failure starts. A success ends both.
pub unavailable-marks :
    (u : UpstreamTarget) (h : List Outcome) (now : ℕ)
    → IsFresh u
    → unavailable now (marks h u) ≡ (
        ltb now (paused_until 3 30_000_000_000 h)
        || (u.circuit.enabled
            && ltb now (paused_until u.circuit.failure_threshold u.circuit.open_duration h)))
unfolding unavailable
unavailable-marks u h now f =
    let t = marks-Tracks u h f in ground (arith, t.unhealthy_until, t.circuit, t.cb_open_until)
