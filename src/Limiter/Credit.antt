-- ===== src/Limiter/Credit.antt =====
-- What one call of an address costs it.
use flow_proxy.Prelude.{◌/◌, ◌^◌, ℕ, ◌+◌, ◌-◌, ◌*◌, ◌≤◌, ◌≡◌, ap, inl, inr, arith, Bool-cases, min}
use native.Mathlib.Nat.{mul-le-mul_right}
use flow_proxy.Limiter.State.{
  Limit, Bucket, Decision, token_units, time_sub, unblock, refill, spend, is_blocked, allow_bucket,
  register_violation, after_violation,
}

-- The units that a decision spends.
abbrev pub cost : Decision → ℕ
cost Decision.allowed = token_units
cost Decision.limited = 0
cost (Decision.blocked d) = 0

after_violation-keeps :
    (now : ℕ) (s : Bucket)
    → let r = after_violation now s in
      (cost r.0 ≡ 0) × (r.1.tokens ≡ s.tokens) × (r.1.last ≡ s.last)
unfolding after_violation
after_violation-keeps now s = ground arith

register_violation-keeps :
    (l : Limit) (now : ℕ) (s : Bucket)
    → let r = register_violation l now s in (r.tokens ≡ s.tokens) × (r.last ≡ s.last)
unfolding register_violation
register_violation-keeps l now s = ground arith

-- A decision costs what the bucket loses.
spend-conserves :
    (l : Limit) (now : ℕ) (s : Bucket)
    → let r = spend l now s in (cost r.0 + r.1.tokens ≡ s.tokens) × (r.1.last ≡ s.last)
unfolding spend
spend-conserves l now s = ground (
  arith,
  after_violation-keeps now (register_violation l now s),
  register_violation-keeps l now s,
)

unblock-keeps :
    (l : Limit) (s : Bucket) → ((unblock l s).tokens ≡ s.tokens) × ((unblock l s).last ≡ s.last)
unfolding unblock
unblock-keeps l s = ground arith

-- What float64 may add to a bucket in one refill.
abbrev pub slack : Limit → ℕ
slack l = l.burst / 2 ^ 50 + 1

-- The relative error of the refill is 2^-50 at most.
abbrev pub IsRounded : Limit → Type 0
IsRounded l = (t e : ℕ) → l.sum t e * 2 ^ 50 ≤ (t + e * l.rate) * (2 ^ 50 + 1)

-- A call spends no more than the bucket held and has earned since the call before, but for the slack, and leaves no
-- more than the burst. (The last two fields compare credits at the same instant.)
pub record Paid (l : Limit) (now : ℕ) (s : Bucket) (d : Decision) (t : Bucket) : Type 0 where
  pub full : t.tokens ≤ l.burst
  pub later : s.last ≤ t.last
  pub past : t.last ≤ now
  pub paid : cost d + t.tokens + s.last * l.rate ≤ s.tokens + t.last * l.rate + slack l

earned-le :
    (now last rate : ℕ)
    → last ≤ now
    → min (now - last) 9223372036854775807 * rate + last * rate ≤ now * rate
earned-le now last rate h =
    let k = now - last in
    let capped : min k 9223372036854775807 * rate ≤ k * rate =
      mul-le-mul_right rate (let h : min k 9223372036854775807 ≤ k = omega arith in h) in
    let split : now ≡ last + k = omega arith in omega (arith, ap (λ (n : ℕ). n * rate) split)

refilled-le :
    (l : Limit) (e t : ℕ) → IsRounded l → min l.burst (l.sum t e) ≤ t + e * l.rate + slack l
refilled-le l e t rounded = omega (arith, rounded t e)

refill-Paid :
    (l : Limit) (now : ℕ) (s : Bucket)
    → IsRounded l
    → s.last ≤ now
    → Paid l now s Decision.limited (refill l now s)
unfolding refill
refill-Paid l now s rounded h = record {
  full = omega arith;
  later = h;
  past = omega arith;
  paid =
      omega (
        arith,
        refilled-le l (time_sub now s.last) s.tokens rounded,
        earned-le now s.last l.rate h,
      );
}

pub allow_bucket-Paid :
    (l : Limit) (now : ℕ) (s : Bucket)
    → IsRounded l
    → s.last ≤ now
    → s.tokens ≤ l.burst
    → let r = allow_bucket l now s in Paid l now s r.0 r.1
unfolding allow_bucket
allow_bucket-Paid l now s rounded h full = elim (Bool-cases (is_blocked l now s)) [
  | inl held ↦ rw held (record { full = full; later = omega arith; past = h; paid = omega arith })
  | inr unheld ↦
      let u = unblock l s in
      let (tokens, last) = unblock-keeps l s in
      let p = refill-Paid l now u rounded (omega arith) in
      let (spent, kept) = spend-conserves l now (refill l now u) in
      rw unheld (record {
        full = omega (arith, p.full);
        later = omega (arith, p.later);
        past = omega (arith, p.past);
        paid = omega (
          arith,
          p.paid,
          spent,
          tokens,
          ap (λ (n : ℕ). n * l.rate) kept,
          ap (λ (n : ℕ). n * l.rate) last,
        );
      })
]
