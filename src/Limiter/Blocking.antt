-- ===== src/Limiter/Blocking.antt =====
-- The automatic block, and what a waiting address may rely on.
use flow_proxy.Prelude.{
  ℕ, suc, ◌+◌, ◌≤◌, ◌<◌, ◌≡◌, ◌≢◌, List, [], ◌∷◌, if◌then◌else◌, arith, All, length,
}
use flow_proxy.Limiter.State.{
  Limit, Bucket, Decision, token_units, time_sub, unblock, refill, spend, is_blocked, allow_bucket,
  register_violation,
}

-- Violations at the given instants, latest first.
unfoldable pub violate : Limit → List ℕ → Bucket → Bucket
violate l [] s = s
violate l (t ∷ ts) s = register_violation l t (violate l ts s)

-- The state of a window that began at `start` with `n` violations so far.
pub record Counting (start n : ℕ) (s t : Bucket) : Type 0 where
  pub start_at : t.violation_window_start ≡ start
  pub count : t.violation_count ≡ n
  pub blocked_until : t.blocked_until ≡ s.blocked_until

register_first :
    (l : Limit) (start : ℕ) (s : Bucket)
    → s.violation_window_start ≡ 0
    → 1 < l.auto_block.violation_threshold
    → Counting start 1 s (register_violation l start s)
unfolding register_violation
register_first l start s closed many = ground arith

register_next :
    (l : Limit) (start n now : ℕ) (s t : Bucket)
    → start ≢ 0
    → Counting start n s t
    → time_sub now start ≤ l.auto_block.violation_window
    → suc n < l.auto_block.violation_threshold
    → Counting start (suc n) s (register_violation l now t)
unfolding register_violation
register_next l start n now s t set c near few = ground arith

register_last :
    (l : Limit) (start n now : ℕ) (s t : Bucket)
    → start ≢ 0
    → Counting start n s t
    → time_sub now start ≤ l.auto_block.violation_window
    → suc n ≡ l.auto_block.violation_threshold
    → (register_violation l now t).blocked_until ≡ now + l.auto_block.block_duration
unfolding register_violation
register_last l start n now s t set c near full = ground arith

violate-Counting :
    (l : Limit) (start : ℕ) (ts : List ℕ) (s : Bucket)
    → start ≢ 0
    → s.violation_window_start ≡ 0
    → All (λ t. time_sub t start ≤ l.auto_block.violation_window) ts
    → suc (length ts) < l.auto_block.violation_threshold
    → Counting start (suc (length ts)) s (violate l ts (register_violation l start s))
unfolding violate
violate-Counting l start [] s set closed near few = register_first l start s closed (omega arith)
violate-Counting l start (t ∷ ts) s set closed near few =
    register_next l start (suc (length ts)) t s _ set
      (violate-Counting l start ts s set closed near.1 (omega arith)) near.0 (omega arith)

-- If no window is open, and `start` is not the zero time, then violations at `start`, at the instants of `ts` and at `now`, all of
-- them within the window that `start` opens and together as many as the threshold of at least two
-- says, block the address until the block duration after `now`; with `now` left out they do not
-- touch the block.
pub violate_blocks :
    (l : Limit) (start now : ℕ) (ts : List ℕ) (s : Bucket)
    → start ≢ 0
    → s.violation_window_start ≡ 0
    → All (λ t. time_sub t start ≤ l.auto_block.violation_window) (now ∷ ts)
    → length ts + 2 ≡ l.auto_block.violation_threshold
    → ((violate l (now ∷ ts) (register_violation l start s)).blocked_until
        ≡ now + l.auto_block.block_duration)
      × ((violate l ts (register_violation l start s)).blocked_until ≡ s.blocked_until)
unfolding violate
violate_blocks l start now ts s set closed near full =
    let c = violate-Counting l start ts s set closed near.1 (omega arith) in
    (register_last l start (suc (length ts)) now s _ set c near.0 (omega arith), c.blocked_until)

spend_allowed :
    (l : Limit) (now : ℕ) (s : Bucket)
    → token_units ≤ s.tokens
    → (spend l now s).0 ≡ Decision.allowed
unfolding spend
spend_allowed l now s h = ground arith

-- The request of an address whose bucket and earnings come to a token, of a burst of at least one
-- token, is let through unless a block is running, and is refused as blocked for the rest of the
-- block while one runs.
pub allow_bucket_cases :
    (l : Limit) (now : ℕ) (s : Bucket)
    → token_units ≤ l.burst
    → token_units ≤ l.sum s.tokens (time_sub now s.last)
    → (allow_bucket l now s).0 ≡ (
        if is_blocked l now s
        then Decision.blocked (time_sub s.blocked_until now)
        else Decision.allowed)
unfolding allow_bucket
allow_bucket_cases l now s burst earned =
    ground (arith, spend_allowed l now (refill l now (unblock l s)), refilled)
  where
    refilled : token_units ≤ (refill l now (unblock l s)).tokens
    refilled = unfold refill unblock in ground arith
