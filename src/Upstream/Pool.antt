-- ===== src/Upstream/Pool.antt =====
-- The load balancer: `newUpstreamPool`'s plan, `healthyTargets`, `pick` and `weightedPick`. A
-- target is named by its index in the pool, since the source shares targets by pointer.
use flow_proxy.Prelude.{
  ℕ, suc, ◌+◌, ◌-◌, ◌%◌, ◌^◌, Bool, true, false, not, ◌&&◌, List, [], ◌∷◌, ◌++◌, Option, none, some,
  Text, text_eq, codes, fnv_from, ltb, ◌==◌, if◌then◌else◌, length, get_elem?, replicate, keep,
  every,
}
use flow_proxy.Upstream.Target.{UpstreamTarget, unavailable}
use flow_proxy.Upstream.Retry.{RetryPolicy}

pub data Strategy : Type 0 where
  random ip_hash least_conn weighted_round_robin round_robin : Strategy

-- The strategies that `pick` names; every other text takes the default case.
unfoldable pub strategy_of : Text → Strategy
strategy_of s =
    if text_eq s (codes "random")
    then random
    else if text_eq s (codes "ip_hash")
    then ip_hash
    else if text_eq s (codes "least_conn")
    then least_conn
    else if text_eq s (codes "weighted_round_robin")
    then weighted_round_robin
    else round_robin

pub record UpstreamPool : Type 0 where
  pub name : Text
  pub strategy : Strategy
  pub targets : List UpstreamTarget
  pub weighted_plan : List ℕ
  pub rr_counter : ℕ
  pub retry : RetryPolicy

-- The loop of `buildWeightedPlan` from target `i` on: each index as often as its weight, 20 at most.
unfoldable pub plan_from : ℕ → List UpstreamTarget → List ℕ
plan_from i [] = []
plan_from i (t ∷ ts) =
    replicate (if ltb 20 t.weight then 20 else t.weight) i ++ plan_from (suc i) ts

indices_from : ℕ → List UpstreamTarget → List ℕ
indices_from i [] = []
indices_from i (t ∷ ts) = i ∷ indices_from (suc i) ts

abbrev pub unless_empty : List ℕ → List ℕ → List ℕ
unless_empty [] fallback = fallback
unless_empty (i ∷ is) fallback = i ∷ is

unfoldable pub build_weighted_plan : List UpstreamTarget → List ℕ
unfolding indices_from
build_weighted_plan ts = unless_empty (plan_from 0 ts) (indices_from 0 ts)

abbrev pub indexed : ℕ → List UpstreamTarget → List (ℕ × UpstreamTarget)
indexed i [] = []
indexed i (t ∷ ts) = (i, t) ∷ indexed (suc i) ts

-- The fast path returns all targets, the slow path those that are available.
unfoldable pub healthy_targets : ℕ → List UpstreamTarget → List (ℕ × UpstreamTarget)
healthy_targets now ts =
    if every (λ t. not (unavailable now t)) ts
    then indexed 0 ts
    else keep (λ e. not (unavailable now e.1)) (indexed 0 ts)

-- What `pick` returns; `index_panic` is Go's panic for an index out of range.
pub data Choice : Type 0 where
  chosen : ℕ → Choice
  nobody : Choice
  index_panic : Choice

unfoldable pub at_index : List (ℕ × UpstreamTarget) → ℕ → Choice
at_index es i = elim (get_elem? es i) [ none ↦ index_panic | some e ↦ chosen e.0 ]

-- `int(idx-1) % len`: the counter, before its increment, read as an int64. From 2^63 on it is
-- negative, and so is a remainder that is not 0.
unfoldable pub rr_index : ℕ → ℕ → Option ℕ
rr_index counter len =
    if ltb counter (2 ^ 63)
    then some (counter % len)
    else if (2 ^ 64 - counter) % len == 0
    then some 0
    else none

-- The loop of the least_conn case.
unfoldable pub least_active : ℕ → ℕ → List (ℕ × UpstreamTarget) → ℕ
least_active best least [] = best
least_active best least ((i, t) ∷ es) =
    least_active (if ltb t.active least then i else best)
      (if ltb t.active least then t.active else least) es

unfoldable pub pick_least : List (ℕ × UpstreamTarget) → Choice
pick_least [] = index_panic
pick_least ((i, t) ∷ es) = chosen (least_active i t.active es)

unfoldable pub total_weight : List (ℕ × UpstreamTarget) → ℕ
total_weight [] = 0
total_weight ((i, t) ∷ es) = t.weight + total_weight es

-- The loop of `weightedPick`; `last` is the index of the last healthy target.
unfoldable pub weighted_walk : ℕ → ℕ → List (ℕ × UpstreamTarget) → ℕ
weighted_walk last n [] = last
weighted_walk last n ((i, t) ∷ es) = if ltb n t.weight then i else weighted_walk i (n - t.weight) es

-- `p.targets[i]`.
unfoldable pub target_at : UpstreamPool → ℕ → Choice
target_at p i = if ltb i (length p.targets) then chosen i else index_panic

-- The case of `weightedPick` in which every target is healthy.
unfoldable pub planned_pick : UpstreamPool → Choice
planned_pick p = elim (rr_index p.rr_counter (length p.weighted_plan)) [
  | none ↦ index_panic
  | some slot ↦ elim (get_elem? p.weighted_plan slot) [
    | none ↦ index_panic
    | some i ↦ target_at p i
  ]
]

-- `intn` is the generator of math/rand: `intn n` is the number that it draws below `n`.
unfoldable pub weighted_pick : (ℕ → ℕ) → List (ℕ × UpstreamTarget) → UpstreamPool → Choice
weighted_pick intn healthy p =
    if length healthy == length p.targets && ltb 0 (length p.weighted_plan)
    then planned_pick p
    else if total_weight healthy == 0
    then at_index healthy (intn (length healthy))
    else chosen (weighted_walk 0 (intn (total_weight healthy)) healthy)

unfoldable pub hash_text : Text → ℕ
unfolding fnv_from
hash_text s = fnv_from 14695981039346656037 s

unfoldable pub round_robin_pick : List (ℕ × UpstreamTarget) → ℕ → Choice
round_robin_pick healthy counter = elim (rr_index counter (length healthy)) [
  | none ↦ index_panic
  | some slot ↦ at_index healthy slot
]

unfoldable pub pick_among :
    Strategy → (ℕ → ℕ) → Text → List (ℕ × UpstreamTarget) → UpstreamPool → Choice
pick_among random intn ip healthy p = at_index healthy (intn (length healthy))
pick_among ip_hash intn ip healthy p = at_index healthy (hash_text ip % length healthy)
pick_among least_conn intn ip healthy p = pick_least healthy
pick_among weighted_round_robin intn ip healthy p = weighted_pick intn healthy p
pick_among round_robin intn ip healthy p = round_robin_pick healthy p.rr_counter

unfoldable pub pick : ℕ → (ℕ → ℕ) → Text → UpstreamPool → Choice
pick now intn ip p = elim (healthy_targets now p.targets) [
  | [] ↦ (if length p.targets == 1 then chosen 0 else nobody)
  | e ∷ es ↦ pick_among p.strategy intn ip (e ∷ es) p
]

-- The calls that take a number from the shared counter.
abbrev pub counts : Strategy → List (ℕ × UpstreamTarget) → UpstreamPool → Bool
counts round_robin healthy p = true
counts weighted_round_robin healthy p =
    length healthy == length p.targets && ltb 0 (length p.weighted_plan)
counts _ healthy p = false

-- The pool after a `pick`: a call with a healthy target may have advanced the counter.
unfoldable pub after_pick : ℕ → UpstreamPool → UpstreamPool
after_pick now p = elim (healthy_targets now p.targets) [
  | [] ↦ p
  | e ∷ es ↦
      (if counts p.strategy (e ∷ es) p
        then record p { rr_counter = (p.rr_counter + 1) % 2 ^ 64 }
        else p)
]
