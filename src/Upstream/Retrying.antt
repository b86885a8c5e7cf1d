-- ===== src/Upstream/Retrying.antt =====
-- What a run of the loop of attempts amounts to.
use flow_proxy.Prelude.{
  ◌-◌, ◌<◌, Bool, not, ◌&&◌, ◌||◌, pos, is_positive, sym, subst, ap, codes, text_eq, member,
  trim_space, to_lower, to_upper, contains, ℕ, zero, suc, ◌+◌, ◌≤◌, ◌≡◌, refl, true, false, List,
  [], ◌∷◌, Option, none, some, Text, ◌==◌, if◌then◌else◌, drop, length, arith, All, Bool-cases, inl,
  inr, ◌⊎◌,
}
use flow_proxy.Http.{Request, Body, nil, no_body, stream, header_get, method_of, is_upgrade_request}
use flow_proxy.Upstream.Retry.{
  RetryPolicy, should_retry, backoff_delay, effective_attempts, is_safe_method, is_one_shot,
}
use flow_proxy.Upstream.Pool.{UpstreamPool, Choice, chosen, nobody, index_panic, pick, after_pick}
use flow_proxy.Upstream.Attempts.{
  World, Served, unserved, can_resend, exchanged, cut_short, timeout, settle, attempt_from,
  serve_attempts,
}

-- The status and the target of the latest exchange; without one, 502 and no target.
abbrev pub last_status : List (ℕ × ℕ) → ℕ
last_status [] = 502
last_status ((i, s) ∷ es) = s

abbrev pub last_target : List (ℕ × ℕ) → Option ℕ
last_target [] = none
last_target ((i, s) ∷ es) = some i

-- The request was cancelled in the wait after attempt `k`, which is not empty.
abbrev pub interrupted : World → RetryPolicy → ℕ → Bool
interrupted w policy k = is_positive (backoff_delay policy (w.shift k) (pos k)) && w.cancelled k

-- The body can be had for attempt `k`: from GetBody, or because there is none.
abbrev pub has_body : World → Request → ℕ → Bool
has_body w req k =
    req.has_get_body && w.body_again k
    || not req.has_get_body
      && (elim req.body [ stream ↦ false | _ ↦ true ] || req.content_length == 0)

-- Before each exchange but the first the wait was waited out and the body could be had again.
abbrev pub Continued : World → Request → RetryPolicy → List (ℕ × ℕ) → Type 0
Continued w req policy [] = Unit {0}
Continued w req policy (e ∷ []) = Unit {0}
Continued w req policy (e ∷ f ∷ es) =
    (interrupted w policy (length es) ≡ false)
    × (has_body w req (suc (length es)) ≡ true)
    × Continued w req policy (f ∷ es)

-- There are at most `n` exchanges; each but the latest ended with a status that the policy retries,
-- and was followed by a wait that was not cut short; the result is the latest one's, or 504 where the
-- wait after it was cut short.
pub record IsFaithful (w : World) (req : Request) (policy : RetryPolicy) (n : ℕ) (r : Served)
    : Type 0 where
  pub bounded : length r.exchanges ≤ n
  pub status : r.status ≡ (if r.timed_out then 504 else last_status r.exchanges)
  pub upstream : r.upstream ≡ last_target r.exchanges
  pub retried : All (λ e. should_retry policy e.1 ≡ true) (drop 1 r.exchanges)
  pub continued : Continued w req policy r.exchanges
  pub cut : (r.timed_out && not (interrupted w policy (length r.exchanges - 1))) ≡ false

-- The number of the latest attempt, if there was one.
abbrev latest_attempt : List (ℕ × ℕ) → List ℕ
latest_attempt [] = []
latest_attempt (e ∷ es) = length es ∷ []

-- Before an attempt every exchange so far is one to retry.
record IsReady (w : World) (req : Request) (policy : RetryPolicy) (r : Served) : Type 0 where
  pub alive : r.timed_out ≡ false
  pub status : r.status ≡ last_status r.exchanges
  pub upstream : r.upstream ≡ last_target r.exchanges
  pub retried : All (λ e. should_retry policy e.1 ≡ true) r.exchanges
  pub continued : Continued w req policy r.exchanges
  pub waited : All (λ j. interrupted w policy j ≡ false) (latest_attempt r.exchanges)

All-drop : {A : Type 0} (P : A → Type 0) (xs : List A) → All P xs → All P (drop 1 xs)
All-drop P [] h = tt
All-drop P (x ∷ xs) h = h.1

IsFaithful-of_IsReady :
    (w : World) (req : Request) (policy : RetryPolicy) (n : ℕ) (r : Served)
    → length r.exchanges ≤ n
    → IsReady w req policy r
    → IsFaithful w req policy n r
IsFaithful-of_IsReady w req policy n r b i = record {
  bounded = b;
  status = rw i.alive i.status;
  upstream = i.upstream;
  retried = All-drop (λ e. should_retry policy e.1 ≡ true) r.exchanges i.retried;
  continued = i.continued;
  cut = ground (arith, i.alive);
}

later : (m : ℕ) → (suc m == 0) ≡ false
later m = ground arith

-- One more exchange, whose body could be had.
Continued-more :
    (w : World) (req : Request) (policy : RetryPolicy) (e : ℕ × ℕ) (es : List (ℕ × ℕ))
    → can_resend w req (length es) ≡ true
    → All (λ j. interrupted w policy j ≡ false) (latest_attempt es)
    → Continued w req policy es
    → Continued w req policy (e ∷ es)
unfolding can_resend
Continued-more w req policy e [] sent waited h = tt
Continued-more w req policy e (f ∷ es) sent waited h =
    (waited.0, body req.body (rw (later (length es)) at sent), h)
  where
    body :
        (b : Body)
        → (if req.has_get_body
            then w.body_again (suc (length es))
            else elim b [ stream ↦ req.content_length == 0 | _ ↦ true ])
          ≡ true
        → (req.has_get_body && w.body_again (suc (length es))
            || not req.has_get_body
              && (elim b [ stream ↦ false | _ ↦ true ] || req.content_length == 0))
          ≡ true
    body nil k = ground (arith, k)
    body no_body k = ground (arith, k)
    body stream k = ground (arith, k)

module _ (w : World) (req : Request) (policy : RetryPolicy) (n k i : ℕ) (r : Served)
    (ready : IsReady w req policy r) (here : length r.exchanges ≡ k)
    (sent : can_resend w req k ≡ true) where
  more : Continued w req policy ((i, w.exchange k i) ∷ r.exchanges)
  more =
      Continued-more w req policy (i, w.exchange k i) r.exchanges
        (subst (λ m. can_resend w req m ≡ true) (sym here) sent) ready.waited ready.continued

  exchanged-IsFaithful :
      suc (length r.exchanges) ≤ n → IsFaithful w req policy n (exchanged w k i r)
  unfolding exchanged
  exchanged-IsFaithful b = record {
    bounded = b;
    status = rw ready.alive;
    upstream = refl;
    retried = ready.retried;
    continued = more;
    cut = ground (arith, ready.alive);
  }

  timeout-IsFaithful :
      suc (length r.exchanges) ≤ n
      → interrupted w policy k ≡ true
      → IsFaithful w req policy n (timeout (exchanged w k i r))
  unfolding exchanged timeout
  timeout-IsFaithful b cut = record {
    bounded = b;
    status = refl;
    upstream = refl;
    retried = ready.retried;
    continued = more;
    cut =
        subst (λ m. not (interrupted w policy m) ≡ false)
          (let e : k ≡ suc (length r.exchanges) - 1 = omega (arith, here) in e) (rw cut refl);
  }

  exchanged-IsReady :
      should_retry policy (w.exchange k i) ≡ true
      → interrupted w policy k ≡ false
      → IsReady w req policy (exchanged w k i r)
  unfolding exchanged
  exchanged-IsReady s waited = record {
    alive = ready.alive;
    status = refl;
    upstream = refl;
    retried = (s, ready.retried);
    continued = more;
    waited = (subst (λ m. interrupted w policy m ≡ false) (sym here) waited, tt);
  }

Choice-cases : (c : Choice) → ((i : ℕ) × (c ≡ chosen i)) ⊎ ((c ≡ nobody) ⊎ (c ≡ index_panic))
Choice-cases (chosen i) = inl (i, refl)
Choice-cases nobody = inr (inl refl)
Choice-cases index_panic = inr (inr refl)

module _ (w : World) (req : Request) (ip : Text) (policy : RetryPolicy) where
  settle-IsFaithful :
      (left k i n : ℕ) (q t rest : Served)
      → IsFaithful w req policy n q
      → (can_resend w req k ≡ true → IsFaithful w req policy n t)
      → (can_resend w req k ≡ true
          → interrupted w policy k ≡ true
          → IsFaithful w req policy n (timeout t))
      → (can_resend w req k ≡ true
          → should_retry policy (w.exchange k i) ≡ true
          → interrupted w policy k ≡ false
          → IsFaithful w req policy n rest)
      → IsFaithful w req policy n (settle w req policy left k i q t rest)
  unfolding settle cut_short
  settle-IsFaithful left k i n q t rest fq ft fo fr = elim (Bool-cases (can_resend w req k)) [
    | inr stuck ↦ rw stuck fq
    | inl sent ↦ rw sent (elim (Bool-cases (should_retry policy (w.exchange k i))) [
      | inr done ↦ rw done (ft sent)
      | inl again ↦ rw again (elim (Bool-cases (left == 0)) [
        | inl last ↦ rw last (ft sent)
        | inr more ↦ rw more (elim (Bool-cases (interrupted w policy k)) [
          | inl cut ↦ rw cut (fo sent cut)
          | inr waited ↦ rw waited (fr sent again waited)
        ])
      ])
    ])
  ]

  attempt_from-IsFaithful :
      (left k n : ℕ) (r : Served)
      → IsReady w req policy r
      → length r.exchanges ≡ k
      → length r.exchanges + left ≤ n
      → IsFaithful w req policy n (attempt_from w req ip policy left k r)
  unfolding attempt_from
  attempt_from-IsFaithful zero k n r i here b =
      IsFaithful-of_IsReady w req policy n r (omega arith) i
  attempt_from-IsFaithful (suc left) k n r i here b =
      let q : Served = record r { pool = after_pick (w.picked_at k) r.pool } in
      let j : IsReady w req policy q = record {
        alive = i.alive;
        status = i.status;
        upstream = i.upstream;
        retried = i.retried;
        continued = i.continued;
        waited = i.waited;
      } in
      let stop : IsFaithful w req policy n q =
        IsFaithful-of_IsReady w req policy n q (omega arith) j in
      elim (Choice-cases (pick (w.picked_at k) (w.draws k) ip r.pool)) [
        | inr (inl e) ↦ rw (attempt_from, e) stop
        | inr (inr e) ↦ rw (attempt_from, e) stop
        | inl (target, e) ↦
            rw (attempt_from, e)
              (settle-IsFaithful left k target n q (exchanged w k target q) _ stop
                (λ sent. exchanged-IsFaithful w req policy n k target q j here sent (omega arith))
                (λ sent. timeout-IsFaithful w req policy n k target q j here sent (omega arith))
                (λ sent again waited.
                  attempt_from-IsFaithful left (suc k) n (exchanged w k target q)
                    (exchanged-IsReady w req policy n k target q j here sent again waited)
                    (unfold exchanged in ap suc here) (unfold exchanged in omega arith)))
      ]

-- Whatever the world answers, the loop of attempts exchanges at most as often as it may, repeats an
-- exchange only after a status that the policy retries, a wait in which the request was not cancelled,
-- and with a body that can be had again, and ends with the status and target of the latest exchange
-- (502 without one), or with 504, then after a wait in which the request was cancelled.
pub serve_attempts-IsFaithful :
    (w : World) (req : Request) (ip : Text) (attempts : ℕ) (pool : UpstreamPool)
    → IsFaithful w req pool.retry attempts (serve_attempts w req ip attempts pool)
unfolding serve_attempts unserved
serve_attempts-IsFaithful w req ip attempts pool =
    attempt_from-IsFaithful w req ip pool.retry attempts 0 attempts (unserved pool)
      (record {
        alive = refl;
        status = refl;
        upstream = refl;
        retried = tt;
        continued = tt;
        waited = tt;
      })
      refl (omega arith)

-- The request asks for another protocol, as a WebSocket does.
abbrev pub upgrades : Request → Bool
upgrades req =
    not (text_eq (trim_space (header_get req.header (codes "Upgrade"))) [])
    && contains (to_lower (trim_space (header_get req.header (codes "Connection"))))
        (codes "upgrade")

repeatable :
    (p : RetryPolicy) (req : Request)
    → 1 < effective_attempts p req
    → (member (to_upper (trim_space req.method)) (codes "GET" ∷ codes "HEAD" ∷ codes "OPTIONS" ∷ [])
        ≡ true)
      × (req.has_get_body || elim req.body [ stream ↦ false | _ ↦ true ] ≡ true)
      × (upgrades req ≡ false)
      × (p.enabled ≡ true)
unfolding effective_attempts is_safe_method is_one_shot is_upgrade_request method_of
repeatable p req h = ground (arith, h)

-- Where the loop makes as many attempts as the policy says for a request, the request is exchanged twice
-- only if retries are on, its method is GET, HEAD or OPTIONS, a body that is a stream can be had again
-- from GetBody, and no other protocol is asked for.
pub serve_attempts-repeats :
    (w : World) (req : Request) (ip : Text) (pool : UpstreamPool)
    → 1 < length (serve_attempts w req ip (effective_attempts pool.retry req) pool).exchanges
    → (member (to_upper (trim_space req.method)) (codes "GET" ∷ codes "HEAD" ∷ codes "OPTIONS" ∷ [])
        ≡ true)
      × (req.has_get_body || elim req.body [ stream ↦ false | _ ↦ true ] ≡ true)
      × (upgrades req ≡ false)
      × (pool.retry.enabled ≡ true)
serve_attempts-repeats w req ip pool h = repeatable pool.retry req (
    omega (
      arith,
      h,
      (serve_attempts-IsFaithful w req ip (effective_attempts pool.retry req) pool).bounded,
    ))
