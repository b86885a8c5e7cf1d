-- ===== src/Upstream/Backoff.antt =====
-- The delay between two attempts.
use flow_proxy.Prelude.{
  ℕ, zero, suc, ◌+◌, ◌-◌, ◌*◌, ◌/◌, ◌^◌, ◌≤◌, ◌<◌, ◌≡◌, refl, true, not, ◌||◌, codes, ◌==◌,
  if◌then◌else◌, ℤ, pos, negsuc, wrap64, scale, is_positive, is_negative, nonneg, millisecond,
  arith, wrap64-nonneg-le, wrap64_of_lt, Bool-cases, inl, inr, min,
}
use native.Mathlib.Nat.{mul-le-mul_right, mul-mod_left, le_trans, pow-suc}
use flow_proxy.Upstream.Retry.{
  RetryPolicy, base_delay, capped, jittered, with_jitter, backoff_delay,
}

capped-le : (limit : ℕ) (z : ℤ) → 0 < limit → nonneg (capped limit z) ≤ limit
capped-le limit (pos d) h = ground arith
capped-le limit (negsuc d) h = omega arith

jittered-le :
    (int63n : ℕ → ℕ) (range d : ℕ)
    → ((n : ℕ) → 0 < n → int63n n < n)
    → nonneg (jittered int63n range d) ≤ d + range * millisecond
unfolding jittered
jittered-le int63n range d below =
    let n = d + int63n (range * 2 + 1) * millisecond - range * millisecond in
    omega (arith, below (range * 2 + 1) (omega arith), wrap64-nonneg-le n)

-- The jitter range in nanoseconds is at most `percent` hundredths of the delay.
range-le : (d percent : ℕ) → d / millisecond * percent / 100 * millisecond * 100 ≤ d * percent
range-le d percent =
    let q = d / millisecond in
    let whole : q * millisecond ≤ d = omega arith in
    let part : q * percent / 100 * 100 ≤ q * percent = omega arith in
    let scaled : q * millisecond * percent ≤ d * percent = mul-le-mul_right percent whole in
    omega arith

with_jitter-le :
    (int63n : ℕ → ℕ) (percent : ℕ) (z : ℤ)
    → ((n : ℕ) → 0 < n → int63n n < n)
    → nonneg (with_jitter int63n percent z) * 100 ≤ nonneg z * (100 + percent)
unfolding with_jitter
with_jitter-le int63n percent (negsuc d) below = omega arith
with_jitter-le int63n percent (pos d) below =
    let range = d / millisecond * percent / 100 in
    elim (Bool-cases (range == 0)) [
      | inl zero_range ↦ rw zero_range (omega arith)
      | inr wide ↦ rw wide (omega (arith, jittered-le int63n range d below, range-le d percent))
    ]

module _ (p : RetryPolicy) (int63n : ℕ → ℕ) where
  delayed : ℤ → ℤ
  delayed delay = if p.jitter_percent == 0 then delay else with_jitter int63n p.jitter_percent delay

  delayed-le :
      (delay : ℤ)
      → ((n : ℕ) → 0 < n → int63n n < n)
      → nonneg (delayed delay) * 100 ≤ nonneg delay * (100 + p.jitter_percent)
  unfolding delayed
  delayed-le delay below = elim (Bool-cases (p.jitter_percent == 0)) [
    | inl off ↦ rw off (grind arith)
    | inr on ↦ rw on (with_jitter-le int63n p.jitter_percent delay below)
  ]

-- Whatever the attempt, also where the exponential delay overflows 64 bits, and whatever is drawn
-- for the jitter below the bound that is asked for, the delay exceeds a positive maximum by at most
-- the jitter percentage.
pub backoff_delay-le :
    (p : RetryPolicy) (int63n : ℕ → ℕ) (attempt : ℤ)
    → ((n : ℕ) → 0 < n → int63n n < n)
    → 0 < p.max_backoff
    → nonneg (backoff_delay p int63n attempt) * 100 ≤ p.max_backoff * (100 + p.jitter_percent)
unfolding backoff_delay delayed
backoff_delay-le p int63n attempt below positive =
    let z = capped p.max_backoff (base_delay p (nonneg attempt)) in
    let c = capped-le p.max_backoff (base_delay p (nonneg attempt)) positive in
    let m = mul-le-mul_right (100 + p.jitter_percent) c in
    elim (Bool-cases (not p.enabled || is_negative attempt || not (is_positive p.backoff))) [
      | inl off ↦ rw off (omega arith)
      | inr on ↦ rw on (le_trans (delayed-le p int63n z below) m)
    ]

-- An enabled policy with a positive base delay and no jitter.
pub record IsPlain (p : RetryPolicy) (b : ℕ) : Type 0 where
  pub enabled : p.enabled ≡ true
  pub base : p.backoff ≡ pos b
  pub positive : 0 < b
  pub limited : 0 < p.max_backoff
  pub no_jitter : p.jitter_percent ≡ 0

plain_delay :
    (p : RetryPolicy) (b : ℕ) (int63n : ℕ → ℕ) (n : ℕ)
    → IsPlain p b
    → backoff_delay p int63n (pos n) ≡ capped p.max_backoff (base_delay p n)
unfolding backoff_delay
plain_delay p b int63n n h = ground (arith, h.enabled, h.base, h.no_jitter)

exponential_base :
    (p : RetryPolicy) (b n : ℕ)
    → p.backoff ≡ pos b
    → p.backoff_strategy ≡ codes "exponential"
    → base_delay p n ≡ wrap64 (scale b (wrap64 (pos (2 ^ n))))
unfolding base_delay
exponential_base p b n e s = rw (s, e)

-- For an enabled policy with a positive base delay and maximum and no jitter, and as long as 2^n
-- times the base delay fits 63 bits, the exponential delay before retry n is that product, cut off
-- at the maximum.
pub backoff_delay_exponential :
    (p : RetryPolicy) (b : ℕ) (int63n : ℕ → ℕ) (n : ℕ)
    → IsPlain p b
    → p.backoff_strategy ≡ codes "exponential"
    → 2 ^ n * b < 2 ^ 63
    → backoff_delay p int63n (pos n) ≡ pos (min (2 ^ n * b) p.max_backoff)
backoff_delay_exponential p b int63n n h s fits =
    let small : 2 ^ n ≤ 2 ^ n * b = grind (arith, h.positive) in
    rw
      (
        plain_delay p b int63n n h,
        exponential_base p b n h.base s,
        wrap64_of_lt (2 ^ n) (omega arith),
        wrap64_of_lt (2 ^ n * b) fits,
      )
      (ground (arith, h.limited))

pow_shift : (k : ℕ) → 2 ^ (k + 64) ≡ 2 ^ k * 2 ^ 64
pow_shift zero = refl
pow_shift (suc k) =
    let e : suc k + 64 ≡ suc (k + 64) = omega arith in
    rw (e, pow-suc 2 (k + 64), pow-suc 2 k, pow_shift k) (omega arith)

-- For an enabled policy with a positive base delay and maximum and no jitter, the exponential delay
-- before every retry from number 64 on is zero: the shift has dropped every bit.
pub backoff_delay_overflow :
    (p : RetryPolicy) (b : ℕ) (int63n : ℕ → ℕ) (k : ℕ)
    → IsPlain p b
    → p.backoff_strategy ≡ codes "exponential"
    → backoff_delay p int63n (pos (k + 64)) ≡ pos 0
unfolding wrap64
backoff_delay_overflow p b int63n k h s =
    rw
      (
        plain_delay p b int63n (k + 64) h,
        exponential_base p b (k + 64) h.base s,
        pow_shift k,
        mul-mod_left (2 ^ k) (2 ^ 64),
      )
      (ground (arith, h.limited))
