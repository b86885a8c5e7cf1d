-- ===== src/Upstream/Healthy.antt =====
-- Which targets the load balancer chooses among.
use flow_proxy.Prelude.{
  ℕ, suc, ◌+◌, ◌≡◌, refl, sym, subst, ◌∙◌, inl, inr, Bool, false, not, List, [], ◌∷◌, some,
  get_elem?, keep, every, arith, All, All-map, All-keep, All-of_keep, keep_of_every, Bool-cases,
}
use flow_proxy.Upstream.Target.{UpstreamTarget, unavailable}
use flow_proxy.Upstream.Pool.{indexed, healthy_targets}

-- The fast path of `healthyTargets` returns what the slow path would.
pub healthy_targets-filter :
    (now : ℕ) (ts : List UpstreamTarget)
    → healthy_targets now ts ≡ keep (λ e. not (unavailable now e.1)) (indexed 0 ts)
unfolding healthy_targets
healthy_targets-filter now ts = elim (Bool-cases (every (λ t. not (unavailable now t)) ts)) [
  | inl all ↦ rw all (sym (keep_of_every _ (indexed 0 ts) (every_indexed 0 ts ∙ all)))
  | inr some_down ↦ rw some_down
]
  where
    every_indexed :
        (k : ℕ) (us : List UpstreamTarget)
        → every (λ e. not (unavailable now e.1)) (indexed k us)
          ≡ every (λ t. not (unavailable now t)) us
    every_indexed k [] = refl
    every_indexed k (u ∷ us) = rw (every_indexed (suc k) us)

-- A target that the balancer may hand out at an instant.
pub record Offered (now : ℕ) (ts : List UpstreamTarget) (i : ℕ) : Type 0 where
  pub target : UpstreamTarget
  pub present : get_elem? ts i ≡ some target
  pub available : unavailable now target ≡ false

indexed-get_elem? :
    (k : ℕ) (ts : List UpstreamTarget)
    → All (λ e. (j : ℕ) × (e.0 ≡ k + j) × (get_elem? ts j ≡ some e.1)) (indexed k ts)
indexed-get_elem? k [] = tt
indexed-get_elem? k (t ∷ ts) = (
  (0, omega arith, refl),
  All-map (indexed (suc k) ts) (λ e h. (suc h.0, omega (arith, h.1), h.2))
      (indexed-get_elem? (suc k) ts),
)

pub All-both :
    {A : Type 0} (P Q : A → Type 0) (xs : List A) → All P xs → All Q xs → All (λ x. P x × Q x) xs
All-both P Q [] h k = tt
All-both P Q (x ∷ xs) h k = ((h.0, k.0), All-both P Q xs h.1 k.1)

pub healthy-Offered :
    (now : ℕ) (ts : List UpstreamTarget) → All (λ e. Offered now ts e.0) (healthy_targets now ts)
healthy-Offered now ts = rw healthy_targets-filter (
    All-map (keep up (indexed 0 ts))
      (λ e h. record {
        target = e.1;
        present = subst (λ i. get_elem? ts i ≡ some e.1) (sym (h.0.1 ∙ omega arith)) h.0.2;
        available = ground (arith, h.1);
      })
      (All-both _ _ (keep up (indexed 0 ts)) (All-keep _ up (indexed 0 ts) (indexed-get_elem? 0 ts))
        (All-of_keep _ up (indexed 0 ts) (λ e h. h))))
  where
    up : ℕ × UpstreamTarget → Bool
    up e = not (unavailable now e.1)
