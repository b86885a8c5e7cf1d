-- ===== src/Upstream/Balance.antt =====
-- How the strategies share the load.
use flow_proxy.Prelude.{
  ℕ, zero, suc, ◌+◌, ◌-◌, ◌<◌, ◌≤◌, ◌≡◌, refl, sym, ◌⊎◌, inl, inr, ◌≢◌, Bool, true, false, List, [],
  ◌∷◌, ◌++◌, some, ltb, ◌==◌, if◌then◌else◌, get_elem?, replicate, arith, le→ltb, subst, All, min,
  lt→ltb,
}
use flow_proxy.Upstream.Target.{UpstreamTarget}
use flow_proxy.Upstream.Pool.{
  plan_from, unless_empty, build_weighted_plan, chosen, least_active, pick_least, total_weight,
  weighted_walk,
}

-- The entry of a list of healthy targets with an index, first of its kind.
abbrev pub Among : ℕ → UpstreamTarget → List (ℕ × UpstreamTarget) → Type 0
Among i t [] = ⊥
Among i t ((j, u) ∷ es) = ((i ≡ j) × (t ≡ u)) ⊎ Among i t es

-- The loop ends with the index of a smallest value.
Least : ℕ → ℕ → ℕ → List (ℕ × UpstreamTarget) → Type 0
Least r best least es =
    (a : ℕ) × (a ≤ least)
    × All (λ e. a ≤ e.1.active) es
    × (((r ≡ best) × (a ≡ least)) ⊎ ((t : UpstreamTarget) × Among r t es × (t.active ≡ a)))

Least-step :
    (best least i : ℕ) (t : UpstreamTarget) (es : List (ℕ × UpstreamTarget)) (r : ℕ) (b : Bool)
    → ltb t.active least ≡ b
    → Least r (if b then i else best) (if b then t.active else least) es
    → Least r best least ((i, t) ∷ es)
unfolding Least
Least-step best least i t es r true c (a, below, rest, here) = (
  a,
  ground arith,
  (below, rest),
  elim here [ inl (e, f) ↦ inr (t, inl (e, refl), sym f) | inr (u, m, f) ↦ inr (u, inr m, f) ],
)
Least-step best least i t es r false c (a, below, rest, here) = (
  a,
  below,
  (ground arith, rest),
  elim here [ inl (e, f) ↦ inl (e, f) | inr (u, m, f) ↦ inr (u, inr m, f) ],
)

least_active-Least :
    (best least : ℕ) (es : List (ℕ × UpstreamTarget))
    → Least (least_active best least es) best least es
unfolding least_active
least_active-Least best least [] = unfold Least in (least, omega arith, tt, inl (refl, refl))
least_active-Least best least ((i, t) ∷ es) =
    let b = ltb t.active least in
    Least-step best least i t es _ b refl
      (least_active-Least (if b then i else best) (if b then t.active else least) es)

-- The least_conn strategy picks a healthy target with the fewest active exchanges.
pub pick_least-minimal :
    (e : ℕ × UpstreamTarget) (es : List (ℕ × UpstreamTarget))
    → (i : ℕ) × (t : UpstreamTarget) × (pick_least (e ∷ es) ≡ chosen i)
      × Among i t (e ∷ es)
      × All (λ x. t.active ≤ x.1.active) (e ∷ es)
unfolding pick_least Least
pick_least-minimal (i, t) es =
    let (a, below, rest, here) = least_active-Least i t.active es in
    let r = least_active i t.active es in
    elim here [
      | inl (e, f) ↦ (
        r,
        t,
        refl,
        inl (e, refl),
        (omega arith, subst (λ n. All (λ x. n ≤ x.1.active) es) f rest),
      )
      | inr (u, m, f) ↦
          (r, u, refl, inr m, (omega arith, subst (λ n. All (λ x. n ≤ x.1.active) es) (sym f) rest))
    ]

-- Every drawn number in the window of its weight leads to a target; the windows follow one another
-- in the order of the targets, each as wide as the weight.
pub weighted_walk_window :
    (last : ℕ) (before : List (ℕ × UpstreamTarget)) (i : ℕ) (t : UpstreamTarget)
    (after : List (ℕ × UpstreamTarget)) (k : ℕ)
    → k < t.weight
    → weighted_walk last (total_weight before + k) (before ++ (i, t) ∷ after) ≡ i
unfolding weighted_walk total_weight
weighted_walk_window last [] i t after k lt = rw (lt→ltb (0 + k) t.weight (omega arith))
weighted_walk_window last ((j, u) ∷ before) i t after k lt =
    let e : u.weight + total_weight before + k - u.weight ≡ total_weight before + k = omega arith in
    rw (le→ltb (u.weight + total_weight before + k) u.weight (omega arith), e)
      (weighted_walk_window j before i t after k lt)

abbrev pub occurrences : ℕ → List ℕ → ℕ
occurrences i [] = 0
occurrences i (j ∷ js) = if i == j then suc (occurrences i js) else occurrences i js

occurrences-append :
    (i : ℕ) (xs ys : List ℕ) → occurrences i (xs ++ ys) ≡ occurrences i xs + occurrences i ys
occurrences-append i [] ys = omega arith
occurrences-append i (x ∷ xs) ys = ground (arith, occurrences-append i xs ys)

occurrences-replicate_self : (i n : ℕ) → occurrences i (replicate n i) ≡ n
occurrences-replicate_self i zero = refl
occurrences-replicate_self i (suc n) = ground (arith, occurrences-replicate_self i n)

occurrences-replicate_ne : (i j n : ℕ) → i ≢ j → occurrences i (replicate n j) ≡ 0
occurrences-replicate_ne i j zero h = refl
occurrences-replicate_ne i j (suc n) h = ground (arith, occurrences-replicate_ne i j n h)

plan_before : (i k : ℕ) (ts : List UpstreamTarget) → i < k → occurrences i (plan_from k ts) ≡ 0
unfolding plan_from
plan_before i k [] h = refl
plan_before i k (t ∷ ts) h =
    let n = if ltb 20 t.weight then 20 else t.weight in
    omega (
      arith,
      occurrences-append i (replicate n k) (plan_from (suc k) ts),
      occurrences-replicate_ne i k n (omega arith),
      plan_before i (suc k) ts (omega arith),
    )

plan_counts :
    (k j : ℕ) (ts : List UpstreamTarget) (t : UpstreamTarget)
    → get_elem? ts j ≡ some t
    → occurrences (k + j) (plan_from k ts) ≡ min t.weight 20
unfolding plan_from
plan_counts k j [] t h = cc
plan_counts k zero (u ∷ ts) t h =
    let n = if ltb 20 u.weight then 20 else u.weight in
    let e : k + 0 ≡ k = omega arith in
    let m : n ≡ min t.weight 20 = ground arith in
    rw e (
      omega (
        arith,
        occurrences-append k (replicate n k) (plan_from (suc k) ts),
        occurrences-replicate_self k n,
        plan_before k (suc k) ts (omega arith),
      ))
plan_counts k (suc j) (u ∷ ts) t h =
    let n = if ltb 20 u.weight then 20 else u.weight in
    let e : k + suc j ≡ suc k + j = omega arith in
    rw e (
      omega (
        arith,
        occurrences-append (suc k + j) (replicate n k) (plan_from (suc k) ts),
        occurrences-replicate_ne (suc k + j) k n (omega arith),
        plan_counts (suc k) j ts t h,
      ))

unless_empty_lem : (j : ℕ) (xs d : List ℕ) → 0 < occurrences j xs → unless_empty xs d ≡ xs
unless_empty_lem j [] d h = absurd (omega arith)
unless_empty_lem j (x ∷ xs) d h = refl

-- In the round of the weighted strategy each target with a positive weight stands as often as its
-- weight says, 20 times at most.
pub build_weighted_plan-occurrences :
    (ts : List UpstreamTarget) (j : ℕ) (t : UpstreamTarget)
    → get_elem? ts j ≡ some t
    → 0 < t.weight
    → occurrences j (build_weighted_plan ts) ≡ min t.weight 20
unfolding build_weighted_plan
build_weighted_plan-occurrences ts j t h pos =
    let counted = plan_counts 0 j ts t h in
    let e : 0 + j ≡ j = omega arith in
    let counts : occurrences j (plan_from 0 ts) ≡ min t.weight 20 =
      subst (λ i. occurrences i (plan_from 0 ts) ≡ min t.weight 20) e counted in
    rw (unless_empty_lem j (plan_from 0 ts) _ (omega arith)) counts
