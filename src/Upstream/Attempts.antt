-- ===== src/Upstream/Attempts.antt =====
-- The loop of attempts of `Router.ServeHTTP`, internal/proxy/proxy.go, as one request sees it. What
-- the world answers is a parameter: the clock, the random draws, the status of each exchange,
-- whether the body can be had again, and whether the request is cancelled during a wait. The count
-- of active exchanges goes up and down again within an attempt.
use flow_proxy.Prelude.{
  ℕ, zero, suc, Bool, true, false, not, ◌&&◌, List, [], ◌∷◌, Option, none, some, Text, leb, ◌==◌,
  if◌then◌else◌, pos, is_positive, modify,
}
use flow_proxy.Http.{Request, Body}
use flow_proxy.Upstream.Target.{mark_failure, mark_success}
use flow_proxy.Upstream.Retry.{RetryPolicy, should_retry, backoff_delay}
use flow_proxy.Upstream.Pool.{UpstreamPool, chosen, nobody, index_panic, pick, after_pick}

-- What the world answers to attempt `k`.
pub record World : Type 0 where
  pub picked_at : ℕ → ℕ
  pub ended_at : ℕ → ℕ
  pub draws : ℕ → ℕ → ℕ
  pub shift : ℕ → ℕ → ℕ
  pub exchange : ℕ → ℕ → ℕ
  pub body_again : ℕ → Bool
  pub cancelled : ℕ → Bool

-- How the loop ended: the status and target of the last exchange, and all exchanges, the latest
-- first, with the target and the status of each.
pub record Served : Type 0 where
  pub status : ℕ
  pub upstream : Option ℕ
  pub timed_out : Bool
  pub exchanges : List (ℕ × ℕ)
  pub pool : UpstreamPool

-- Before the first exchange the status is 502.
unfoldable pub unserved : UpstreamPool → Served
unserved p = record { status = 502; upstream = none; timed_out = false; exchanges = []; pool = p }

-- The body of an attempt after the first.
unfoldable pub can_resend : World → Request → ℕ → Bool
can_resend w req k =
    if k == 0
    then true
    else if req.has_get_body
    then w.body_again k
    else elim req.body [ Body.stream ↦ req.content_length == 0 | _ ↦ true ]

-- An exchange with target `i`: its mark and the result so far.
unfoldable pub exchanged : World → ℕ → ℕ → Served → Served
exchanged w k i r =
    let status = w.exchange k i in
    record r {
      status = status;
      upstream = some i;
      exchanges = (i, status) ∷ r.exchanges;
      pool = record r.pool {
        targets =
            modify i
              (λ t. (if leb 500 status then mark_failure (w.ended_at k) t else mark_success t))
              r.pool.targets;
      };
    }

-- Whether the wait after attempt `k` is cut short.
unfoldable pub cut_short : World → RetryPolicy → ℕ → Bool
cut_short w policy k = is_positive (backoff_delay policy (w.shift k) (pos k)) && w.cancelled k

unfoldable pub timeout : Served → Served
timeout r = record r { status = 504; timed_out = true }

-- What follows the choice of target `i` for attempt `k`: `q` is the result before the exchange, `t`
-- the one after it, and `rest` the one of all attempts after this.
unfoldable pub settle :
    World → Request → RetryPolicy → ℕ → ℕ → ℕ → Served → Served → Served → Served
unfolding can_resend cut_short timeout
settle w req policy left k i q t rest =
    if not (can_resend w req k)
    then q
    else if not (should_retry policy (w.exchange k i))
    then t
    else if left == 0
    then t
    else if cut_short w policy k
    then timeout t
    else rest

-- Attempt `k` and those after it, `left` at most. The pool's policy stays the same throughout.
unfoldable pub attempt_from : World → Request → Text → RetryPolicy → ℕ → ℕ → Served → Served
unfolding exchanged settle
attempt_from w req ip policy zero k r = r
attempt_from w req ip policy (suc left) k r =
    let q = record r { pool = after_pick (w.picked_at k) r.pool } in
    elim (pick (w.picked_at k) (w.draws k) ip r.pool) [
      | nobody ↦ q
      | index_panic ↦ q
      | chosen i ↦
          settle w req policy left k i q (exchanged w k i q)
            (attempt_from w req ip policy left (suc k) (exchanged w k i q))
    ]

unfoldable pub serve_attempts : World → Request → Text → ℕ → UpstreamPool → Served
unfolding attempt_from unserved
serve_attempts w req ip attempts pool = attempt_from w req ip pool.retry attempts 0 (unserved pool)
