-- ===== src/Upstream/Selection.antt =====
-- Which target the load balancer picks.
use flow_proxy.Prelude.{
  ℕ, suc, ◌-◌, ◌%◌, ◌^◌, ◌<◌, ◌≡◌, ◌≢◌, refl, sym, ap, subst, ◌∙◌, ◌⊎◌, inl, inr, true, not, ◌&&◌,
  List, [], ◌∷◌, some, Text, ltb, ◌==◌, length, every, arith, All, All-get_elem?,
  every_of_length-keep, get_elem?-of_lt, Bool-cases, lt→ltb,
}
use native.Mathlib.Nat.{mod-lt}
use flow_proxy.Upstream.Target.{UpstreamTarget, unavailable}
use flow_proxy.Upstream.Pool.{
  UpstreamPool, Strategy, random, ip_hash, least_conn, weighted_round_robin, round_robin, indexed,
  healthy_targets, Choice, chosen, nobody, index_panic, at_index, rr_index, least_active,
  pick_least, total_weight, weighted_walk, planned_pick, target_at, weighted_pick, round_robin_pick,
  pick_among, pick,
}
use flow_proxy.Upstream.Healthy.{healthy_targets-filter, Offered, healthy-Offered}

-- The parts of a pool that a pick relies on: the counter is below 2^63, and the plan names
-- targets of the pool.
pub record IsValid (p : UpstreamPool) : Type 0 where
  pub counter : p.rr_counter < 2 ^ 63
  pub plan : All (λ i. i < length p.targets) p.weighted_plan

rr_index_of_lt : (counter len : ℕ) → counter < 2 ^ 63 → rr_index counter len ≡ some (counter % len)
unfolding rr_index
rr_index_of_lt counter len small = rw (lt→ltb counter (2 ^ 63) small)

-- The choice is a target with the property.
abbrev Picks : (ℕ → Type 0) → Choice → Type 0
Picks P (chosen i) = P i
Picks P nobody = ⊥
Picks P index_panic = ⊥

module _ (P : ℕ → Type 0) where
  at_index-Picks :
      (es : List (ℕ × UpstreamTarget)) (i : ℕ)
      → All (λ e. P e.0) es
      → i < length es
      → Picks P (at_index es i)
  unfolding at_index
  at_index-Picks es i h lt =
      let (e, found) = get_elem?-of_lt es i lt in
      rw (found, at_index) (All-get_elem? _ es i e h found)

  least_active-Picks :
      (best least : ℕ) (es : List (ℕ × UpstreamTarget))
      → P best
      → All (λ e. P e.0) es
      → P (least_active best least es)
  unfolding least_active
  least_active-Picks best least [] b h = b
  least_active-Picks best least ((i, t) ∷ es) b h = elim (Bool-cases (ltb t.active least)) [
    | inl smaller ↦ rw smaller (least_active-Picks i t.active es h.0 h.1)
    | inr larger ↦ rw larger (least_active-Picks best least es b h.1)
  ]

  weighted_walk-Picks :
      (last n : ℕ) (es : List (ℕ × UpstreamTarget))
      → P last
      → All (λ e. P e.0) es
      → P (weighted_walk last n es)
  unfolding weighted_walk
  weighted_walk-Picks last n [] b h = b
  weighted_walk-Picks last n ((i, t) ∷ es) b h = elim (Bool-cases (ltb n t.weight)) [
    | inl here ↦ rw here h.0
    | inr further ↦ rw further (weighted_walk-Picks i (n - t.weight) es h.0 h.1)
  ]

  round_robin-Picks :
      (e : ℕ × UpstreamTarget) (es : List (ℕ × UpstreamTarget)) (counter : ℕ)
      → All (λ e. P e.0) (e ∷ es)
      → counter < 2 ^ 63
      → Picks P (round_robin_pick (e ∷ es) counter)
  unfolding round_robin_pick
  round_robin-Picks e es counter h small =
      rw (rr_index_of_lt counter (length (e ∷ es)) small, round_robin_pick)
        (at_index-Picks (e ∷ es) (counter % length (e ∷ es)) h (mod-lt counter (omega arith)))

  planned-Picks :
      (p : UpstreamPool)
      → IsValid p
      → 0 < length p.weighted_plan
      → ((i : ℕ) → i < length p.targets → P i)
      → Picks P (planned_pick p)
  unfolding planned_pick target_at
  planned-Picks p v some_slot f =
      let slot = p.rr_counter % length p.weighted_plan in
      let (i, found) = get_elem?-of_lt p.weighted_plan slot (mod-lt p.rr_counter some_slot) in
      let lt = All-get_elem? _ p.weighted_plan slot i v.plan found in
      rw
        (
          rr_index_of_lt p.rr_counter (length p.weighted_plan) v.counter,
          planned_pick,
          found,
          planned_pick,
          lt→ltb i (length p.targets) lt,
        )
        (f i lt)

abbrev pub IsDraw : (ℕ → ℕ) → Type 0
IsDraw intn = (n : ℕ) → 0 < n → intn n < n

module _ (now : ℕ) (intn : ℕ → ℕ) (p : UpstreamPool) (draws : IsDraw intn) (v : IsValid p) where
  -- With every target available each index below the number of targets is offered.
  all_Offered :
      length (healthy_targets now p.targets) ≡ length p.targets
      → (i : ℕ) → i < length p.targets
      → Offered now p.targets i
  all_Offered same i lt =
      let (t, found) = get_elem?-of_lt p.targets i lt in
      record {
        target = t;
        present = found;
        available = ground (arith, All-get_elem? _ p.targets i t all_up found);
      }
    where
      length-indexed : (k : ℕ) (ts : List UpstreamTarget) → length (indexed k ts) ≡ length ts
      length-indexed k [] = refl
      length-indexed k (t ∷ ts) = ap suc (length-indexed (suc k) ts)

      every_up :
          (k : ℕ) (ts : List UpstreamTarget)
          → every (λ e. not (unavailable now e.1)) (indexed k ts) ≡ true
          → All (λ t. not (unavailable now t) ≡ true) ts
      every_up k [] h = tt
      every_up k (t ∷ ts) h = (ground arith, every_up (suc k) ts (ground arith))

      all_up : All (λ t. not (unavailable now t) ≡ true) p.targets
      all_up = every_up 0 p.targets (
          every_of_length-keep _ (indexed 0 p.targets) (
            ap length (sym (healthy_targets-filter now p.targets))
            ∙ same
            ∙ sym (length-indexed 0 p.targets)))

  weighted-Picks :
      (e : ℕ × UpstreamTarget) (es : List (ℕ × UpstreamTarget))
      → healthy_targets now p.targets ≡ e ∷ es
      → All (λ x. Offered now p.targets x.0) (e ∷ es)
      → Picks (Offered now p.targets) (weighted_pick intn (e ∷ es) p)
  unfolding weighted_pick weighted_walk
  weighted-Picks e es same h =
      elim (Bool-cases (length (e ∷ es) == length p.targets && ltb 0 (length p.weighted_plan))) [
        | inl full ↦
            rw full
              (planned-Picks _ p v (ground arith) (all_Offered (ap length same ∙ ground arith)))
        | inr partial ↦ rw partial (elim (Bool-cases (total_weight (e ∷ es) == 0)) [
          | inl weightless ↦ rw weightless (at_index-Picks _ (e ∷ es) _ h (draws _ (omega arith)))
          | inr weighted ↦
              rw weighted (elim (Bool-cases (ltb (intn (total_weight (e ∷ es))) e.1.weight)) [
                | inl here ↦ rw here h.0
                | inr further ↦ rw further (weighted_walk-Picks _ _ _ es h.0 h.1)
              ])
        ])
      ]

  pick_among-Picks :
      (s : Strategy) (ip : Text) (e : ℕ × UpstreamTarget) (es : List (ℕ × UpstreamTarget))
      → healthy_targets now p.targets ≡ e ∷ es
      → All (λ x. Offered now p.targets x.0) (e ∷ es)
      → Picks (Offered now p.targets) (pick_among s intn ip (e ∷ es) p)
  unfolding pick_among pick_least
  pick_among-Picks random ip e es same h = at_index-Picks _ (e ∷ es) _ h (draws _ (omega arith))
  pick_among-Picks ip_hash ip e es same h = at_index-Picks _ (e ∷ es) _ h (mod-lt _ (omega arith))
  pick_among-Picks least_conn ip e es same h = least_active-Picks _ _ _ es h.0 h.1
  pick_among-Picks weighted_round_robin ip e es same h = weighted-Picks e es same h
  pick_among-Picks round_robin ip e es same h = round_robin-Picks _ e es _ h v.counter

-- What `pick` promises: it never panics; it hands out an available target, or the only target of
-- a pool of one even if that is unavailable; it hands out nothing only if no target is available
-- and the pool has not exactly one.
abbrev pub PickSound : ℕ → UpstreamPool → Choice → Type 0
PickSound now p (chosen i) =
    Offered now p.targets i
    ⊎ ((i ≡ 0) × (length p.targets ≡ 1) × (healthy_targets now p.targets ≡ []))
PickSound now p nobody = (healthy_targets now p.targets ≡ []) × (length p.targets ≢ 1)
PickSound now p index_panic = ⊥

PickSound-of_Picks :
    (now : ℕ) (p : UpstreamPool) (c : Choice) → Picks (Offered now p.targets) c → PickSound now p c
PickSound-of_Picks now p (chosen i) h = inl h
PickSound-of_Picks now p nobody h = absurd h
PickSound-of_Picks now p index_panic h = absurd h

pick_cases :
    (now : ℕ) (intn : ℕ → ℕ) (ip : Text) (p : UpstreamPool) (es : List (ℕ × UpstreamTarget))
    → IsDraw intn
    → IsValid p
    → healthy_targets now p.targets ≡ es
    → PickSound now p (pick now intn ip p)
unfolding pick
pick_cases now intn ip p [] draws v same = elim (Bool-cases (length p.targets == 1)) [
  | inl one ↦ rw (same, pick, one) (inr (refl, ground arith, same))
  | inr other ↦ rw (same, pick, other) (same, ground arith)
]
pick_cases now intn ip p (e ∷ es) draws v same =
    rw (same, pick)
      (PickSound-of_Picks now p _ (
        pick_among-Picks now intn p draws v p.strategy ip e es same
          (subst (All (λ x. Offered now p.targets x.0)) same (healthy-Offered now p.targets))))

-- Under every strategy, at any instant and for any numbers drawn below their bounds, as long as the
-- counter of the pool is below 2^63 and its plan names its targets: `pick` indexes in range, hands
-- out an available target, or the only target of a pool of one even if that is unavailable, and
-- hands out nothing only if no target is available and the pool has not exactly one.
pub pick-PickSound :
    (now : ℕ) (intn : ℕ → ℕ) (ip : Text) (p : UpstreamPool)
    → IsDraw intn
    → IsValid p
    → PickSound now p (pick now intn ip p)
pick-PickSound now intn ip p draws v = pick_cases now intn ip p _ draws v refl
