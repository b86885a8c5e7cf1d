-- ===== src/Limiter/Rate.antt =====
-- How many requests an address gets through.
use flow_proxy.Prelude.{
  ℕ, ◌+◌, ◌-◌, ◌*◌, ◌≤◌, ◌≡◌, refl, ap, inl, inr, List, [], ◌∷◌, Option, none, some, if◌then◌else◌,
  arith, Bool-cases, Text, text_eq, text_eq_sound, text_eq_refl, subst, sym, lookup, lookup-store,
}
use flow_proxy.Limiter.{RateLimiter, allow, bucket_from, bucket_of}
use native.Mathlib.Nat.{mul-le-mul_right}
use flow_proxy.Limiter.State.{Limit, Bucket, Decision, token_units, allow_bucket}
use flow_proxy.Limiter.Credit.{cost, slack, IsRounded, Paid, allow_bucket-Paid}

-- 1 for a request that is let through.
abbrev pub passes : Decision → ℕ
passes Decision.allowed = 1
passes Decision.limited = 0
passes (Decision.blocked d) = 0

-- A run of requests, each with its address and instant: the number of requests of one address that
-- are let through.
unfoldable pub admitted : RateLimiter → Text → List (Text × ℕ) → ℕ
admitted l ip [] = 0
admitted l ip ((j, now) ∷ rs) =
    (if text_eq j ip then passes (allow l j now).0 else 0) + admitted (allow l j now).1 ip rs

-- The number of its requests.
abbrev pub asked : Text → List (Text × ℕ) → ℕ
asked ip [] = 0
asked ip ((j, now) ∷ rs) = (if text_eq j ip then 1 else 0) + asked ip rs

-- The instants of a run never go back, from a first one up to a last one.
abbrev pub Within : ℕ → ℕ → List (Text × ℕ) → Type 0
Within from until [] = from ≤ until
Within from until ((ip, now) ∷ rs) = (from ≤ now) × Within now until rs

-- What an address could spend until an instant, if no request came in between.
credit : Limit → Option Bucket → ℕ → ℕ → ℕ
credit l none from until = l.burst + (until - from) * l.rate
credit l (some s) from until = s.tokens + (until - s.last) * l.rate

abbrev Sane : Limit → Option Bucket → ℕ → Type 0
Sane l none from = Unit {0}
Sane l (some s) from = (s.tokens ≤ l.burst) × (s.last ≤ from)

pub record IsSane (l : RateLimiter) (from : ℕ) : Type 0 where
  pub at : (ip : Text) → Sane l.limit (lookup ip l.by_ip) from

limit-allow : (l : RateLimiter) (ip : Text) (now : ℕ) → (allow l ip now).1.limit ≡ l.limit
unfolding allow
limit-allow l ip now = refl

lookup-allow :
    (l : RateLimiter) (ip j : Text) (now : ℕ)
    → lookup j (allow l ip now).1.by_ip ≡ (
        if text_eq ip j
        then some (allow_bucket l.limit now (bucket_of l ip now)).1
        else lookup j l.by_ip)
unfolding allow
lookup-allow l ip j now = lookup-store ip j _ l.by_ip

Within-le : (from until : ℕ) (rs : List (Text × ℕ)) → Within from until rs → from ≤ until
Within-le from until [] h = h
Within-le from until ((ip, now) ∷ rs) h = omega (arith, Within-le now until rs h.1)

Sane-later :
    (l : Limit) (o : Option Bucket) (from now : ℕ) → from ≤ now → Sane l o from → Sane l o now
Sane-later l none from now h s = tt
Sane-later l (some b) from now h s = (s.0, omega arith)

credit-later :
    (l : Limit) (o : Option Bucket) (from now until : ℕ)
    → from ≤ now
    → credit l o now until ≤ credit l o from until
unfolding credit
credit-later l none from now until h =
    omega (arith, mul-le-mul_right l.rate (let e : until - now ≤ until - from = omega arith in e))
credit-later l (some s) from now until h = omega arith

bucket_from-Sane :
    (l : Limit) (o : Option Bucket) (now : ℕ)
    → Sane l o now
    → ((bucket_from l o now).tokens ≤ l.burst) × ((bucket_from l o now).last ≤ now)
unfolding bucket_from
bucket_from-Sane l none now h = (omega arith, omega arith)
bucket_from-Sane l (some s) now h = h

bucket_from-credit :
    (l : Limit) (o : Option Bucket) (now until : ℕ)
    → credit l (some (bucket_from l o now)) now until ≡ credit l o now until
unfolding bucket_from credit
bucket_from-credit l none now until = refl
bucket_from-credit l (some s) now until = refl

Paid-credit :
    (l : Limit) (now until : ℕ) (s : Bucket) (d : Decision) (t : Bucket)
    → now ≤ until
    → Paid l now s d t
    → cost d + credit l (some t) now until ≤ credit l (some s) now until + slack l
unfolding credit
Paid-credit l now until s d t h p =
    let e : until ≡ (until - t.last) + t.last = omega (arith, p.past) in
    let f : until ≡ (until - s.last) + s.last = omega (arith, p.past, p.later) in
    omega (arith, p.paid, ap (λ (n : ℕ). n * l.rate) e, ap (λ (n : ℕ). n * l.rate) f)

allow-Paid :
    (l : RateLimiter) (ip : Text) (now : ℕ)
    → IsRounded l.limit
    → Sane l.limit (lookup ip l.by_ip) now
    → let s = bucket_from l.limit (lookup ip l.by_ip) now in
      let r = allow_bucket l.limit now s in Paid l.limit now s r.0 r.1
allow-Paid l ip now rounded sane =
    let (full, last) = bucket_from-Sane l.limit (lookup ip l.by_ip) now sane in
    allow_bucket-Paid l.limit now _ rounded last full

allow-Sane :
    (l : RateLimiter) (ip : Text) (now : ℕ)
    → IsRounded l.limit
    → IsSane l now
    → IsSane (allow l ip now).1 now
unfolding allow
allow-Sane l ip now rounded sane = record {
  at = λ j. rw (lookup-store ip j _ l.by_ip) (elim (Bool-cases (text_eq ip j)) [
    | inl same ↦ rw same (let p = allow-Paid l ip now rounded (sane.at ip) in (p.full, p.past))
    | inr other ↦ rw other (sane.at j)
  ]);
}

passes-cost : (d : Decision) → passes d * token_units ≡ cost d
passes-cost Decision.allowed = refl
passes-cost Decision.limited = refl
passes-cost (Decision.blocked d) = refl

allow-credit_self :
    (l : RateLimiter) (ip : Text) (now until : ℕ)
    → IsRounded l.limit
    → now ≤ until
    → IsSane l now
    → passes (allow l ip now).0 * token_units
        + credit l.limit (lookup ip (allow l ip now).1.by_ip) now until
      ≤ credit l.limit (lookup ip l.by_ip) now until + slack l.limit
unfolding allow
allow-credit_self l ip now until rounded h sane =
    let o = lookup ip l.by_ip in
    let r = allow_bucket l.limit now (bucket_of l ip now) in
    rw (lookup-store ip ip r.1 l.by_ip, text_eq_refl ip)
      (omega (
        arith,
        passes-cost r.0,
        Paid-credit l.limit now until (bucket_of l ip now) r.0 r.1 h
            (allow-Paid l ip now rounded (sane.at ip)),
        bucket_from-credit l.limit o now until,
      ))

-- What one call of `allow` does to the credit of an address.
allow-credit :
    (l : RateLimiter) (ip j : Text) (now until : ℕ)
    → IsRounded l.limit
    → now ≤ until
    → IsSane l now
    → (if text_eq j ip then passes (allow l j now).0 else 0) * token_units
        + credit l.limit (lookup ip (allow l j now).1.by_ip) now until
      ≤ credit l.limit (lookup ip l.by_ip) now until
        + (if text_eq j ip then 1 else 0) * slack l.limit
allow-credit l ip j now until rounded h sane = elim (Bool-cases (text_eq j ip)) [
  | inl same ↦
      rw (same, text_eq_sound j ip same)
        (omega (arith, allow-credit_self l ip now until rounded h sane))
  | inr other ↦ rw (lookup-allow, other) (omega arith)
]

admitted-credit :
    (l : RateLimiter) (ip : Text) (from until : ℕ) (rs : List (Text × ℕ))
    → IsRounded l.limit
    → IsSane l from
    → Within from until rs
    → admitted l ip rs * token_units
      ≤ credit l.limit (lookup ip l.by_ip) from until + asked ip rs * slack l.limit
unfolding admitted
admitted-credit l ip from until [] rounded sane h = omega arith
admitted-credit l ip from until ((j, now) ∷ rs) rounded sane h =
    let sane' : IsSane l now = record { at = λ k. Sane-later l.limit _ from now h.0 (sane.at k) } in
    let kept = limit-allow l j now in
    let rest =
      admitted-credit (allow l j now).1 ip now until rs (subst IsRounded (sym kept) rounded)
        (allow-Sane l j now rounded sane') h.1 in
    let step = allow-credit l ip j now until rounded (Within-le now until rs h.1) sane' in
    omega (
      arith,
      step,
      credit-later l.limit (lookup ip l.by_ip) from now until h.0,
      subst
          (λ m.
            admitted (allow l j now).1 ip rs * token_units
            ≤ credit m (lookup ip (allow l j now).1.by_ip) now until + asked ip rs * slack m)
          kept rest,
    )

-- From a new limiter, in a run of requests of any addresses whose instants do not go back from
-- `from` to `until`, an address gets at most its burst and one request for each token that the
-- rate earns from `from` to `until`, whatever the others do, and beyond that what float64 may add at
-- each of its requests where the relative error of a refill is 2^-50 at most.
pub admitted-le :
    (l : RateLimiter) (ip : Text) (from until : ℕ) (rs : List (Text × ℕ))
    → IsRounded l.limit
    → l.by_ip ≡ []
    → Within from until rs
    → admitted l ip rs * token_units
      ≤ l.limit.burst + (until - from) * l.limit.rate + asked ip rs * slack l.limit
unfolding credit lookup
admitted-le l ip from until rs rounded fresh h =
    let sane : IsSane l from = record { at = λ j. rw (fresh, lookup) tt } in
    let bound = admitted-credit l ip from until rs rounded sane h in
    let none_yet : lookup ip l.by_ip ≡ none = rw (fresh, lookup) in
    subst
      (λ o.
        admitted l ip rs * token_units ≤ credit l.limit o from until + asked ip rs * slack l.limit)
      none_yet bound
