-- ===== src/Upstream/Retry.antt =====
-- The retry policy: its resolution, which requests and statuses it retries, and the backoff.
use flow_proxy.Prelude.{
  ℕ, ◌+◌, ◌-◌, ◌*◌, ◌/◌, ◌^◌, Bool, true, false, not, ◌||◌, ◌&&◌, List, [], ◌∷◌, ◌++◌, Option, none,
  some, Text, text_eq, codes, trim_space, to_lower, ltb, leb, ◌==◌, if◌then◌else◌, ℤ, pos, negsuc,
  wrap64, scale, positive_or, is_positive, is_negative, nonneg, millisecond, any, is_empty,
}
use flow_proxy.Http.{Request, stream, is_upgrade_request, method_of}

-- site.RetryConfig; a list of statuses may be absent, which differs from an empty one.
pub record RetryConfig : Type 0 where
  pub enabled : Bool
  pub attempts : ℤ
  pub retry_on_statuses : Option (List ℤ)
  pub backoff_strategy : Text
  pub backoff_millis : ℤ
  pub max_backoff_millis : ℤ
  pub jitter_percent : ℤ
  pub retry_on_5xx : Bool
  pub retry_on_timeout : Bool
  pub retry_on_connection : Bool

pub record RetryPolicy : Type 0 where
  pub enabled : Bool
  pub attempts : ℕ
  pub statuses : List ℕ
  pub backoff : ℤ
  pub max_backoff : ℕ
  pub jitter_percent : ℕ
  pub backoff_strategy : Text
  pub retry_on_5xx : Bool
  pub retry_on_timeout : Bool
  pub retry_on_connection : Bool

abbrev pub has_code : ℕ → List ℕ → Bool
has_code c = any (λ d. d == c)

-- The loop of `NormalizeStatusCodes`: positive codes, each once, in order of appearance.
collect_codes : List ℕ → List ℤ → List ℕ
collect_codes out [] = out
collect_codes out (negsuc n ∷ items) = collect_codes out items
collect_codes out (pos c ∷ items) =
    collect_codes (if c == 0 || has_code c out then out else out ++ c ∷ []) items

insert_code : ℕ → List ℕ → List ℕ
insert_code c [] = c ∷ []
insert_code c (d ∷ ds) = if leb c d then c ∷ d ∷ ds else d ∷ insert_code c ds

sort_codes : List ℕ → List ℕ
unfolding insert_code
sort_codes [] = []
sort_codes (c ∷ cs) = insert_code c (sort_codes cs)

unfoldable pub normalize_status_codes : List ℤ → List ℕ
unfolding collect_codes sort_codes
normalize_status_codes items = sort_codes (collect_codes [] items)

abbrev default_statuses : List ℕ
default_statuses = 502 ∷ 503 ∷ 504 ∷ []

status_list : Option (List ℤ) → List ℕ
unfolding normalize_status_codes
status_list none = default_statuses
status_list (some items) = normalize_status_codes items

-- `durationFromMillis`.
unfoldable pub duration_from_millis : ℤ → ℤ
unfolding wrap64
duration_from_millis ms = if is_positive ms then wrap64 (scale millisecond ms) else pos 0

abbrev clamp_percent : ℤ → ℕ
clamp_percent (negsuc n) = 0
clamp_percent (pos n) = if ltb 100 n then 100 else n

unfoldable pub resolve_retry_policy : RetryConfig → RetryPolicy
unfolding status_list duration_from_millis positive_or trim_space to_lower
resolve_retry_policy cfg =
    let strategy = to_lower (trim_space cfg.backoff_strategy) in
    let any_condition = cfg.retry_on_5xx || cfg.retry_on_timeout || cfg.retry_on_connection in
    if cfg.enabled
    then record {
      enabled = true;
      attempts = positive_or 2 cfg.attempts;
      statuses = status_list cfg.retry_on_statuses;
      backoff = duration_from_millis cfg.backoff_millis;
      max_backoff = positive_or 5_000_000_000 (duration_from_millis cfg.max_backoff_millis);
      jitter_percent = clamp_percent cfg.jitter_percent;
      backoff_strategy = if text_eq strategy [] then codes "fixed" else strategy;
      retry_on_5xx = if any_condition then cfg.retry_on_5xx else true;
      retry_on_timeout = cfg.retry_on_timeout;
      retry_on_connection = cfg.retry_on_connection;
    }
    else record {
      enabled = false;
      attempts = 0;
      statuses = [];
      backoff = pos 0;
      max_backoff = 0;
      jitter_percent = 0;
      backoff_strategy = [];
      retry_on_5xx = false;
      retry_on_timeout = false;
      retry_on_connection = false;
    }

unfoldable pub is_safe_method : Text → Bool
is_safe_method m =
    text_eq m (codes "GET") || text_eq m (codes "HEAD") || text_eq m (codes "OPTIONS")

-- A body that cannot be sent twice.
unfoldable pub is_one_shot : Request → Bool
is_one_shot req = not req.has_get_body && elim req.body [ stream ↦ true | _ ↦ false ]

unfoldable pub effective_attempts : RetryPolicy → Request → ℕ
effective_attempts p req =
    if not p.enabled || leb p.attempts 1
    then 1
    else if not (is_safe_method (method_of req))
    then 1
    else if is_one_shot req
    then 1
    else if is_upgrade_request req.header
    then 1
    else p.attempts

unfoldable pub should_retry : RetryPolicy → ℕ → Bool
should_retry p status =
    if not p.enabled
    then false
    else if not (is_empty p.statuses)
    then has_code status p.statuses
    else if p.retry_on_timeout && status == 504
    then true
    else if p.retry_on_connection && status == 502
    then true
    else p.retry_on_5xx && leb 500 status

-- `1 << attempt` as an int, then the product with the base delay, both in 64 bits.
unfoldable pub base_delay : RetryPolicy → ℕ → ℤ
unfolding wrap64
base_delay p attempt =
    if text_eq p.backoff_strategy (codes "exponential")
    then wrap64 (scale (nonneg p.backoff) (wrap64 (pos (2 ^ attempt))))
    else p.backoff

abbrev pub capped : ℕ → ℤ → ℤ
capped limit (pos d) = if ltb 0 limit && ltb limit d then pos limit else pos d
capped limit (negsuc d) = negsuc d

-- `delay + shift`, where `shift` lies within `range` milliseconds on both sides.
unfoldable pub jittered : (ℕ → ℕ) → ℕ → ℕ → ℤ
unfolding wrap64
jittered int63n range d =
    pos (nonneg (wrap64 (pos (d + int63n (range * 2 + 1) * millisecond - range * millisecond))))

unfoldable pub with_jitter : (ℕ → ℕ) → ℕ → ℤ → ℤ
with_jitter int63n percent (negsuc d) = negsuc d
with_jitter int63n percent (pos d) =
    let range = d / millisecond * percent / 100 in
    if range == 0 then pos d else jittered int63n range d

-- `int63n` is the generator of math/rand: `int63n n` is the number that it draws below `n`.
unfoldable pub backoff_delay : RetryPolicy → (ℕ → ℕ) → ℤ → ℤ
backoff_delay p int63n attempt =
    if not p.enabled || is_negative attempt || not (is_positive p.backoff)
    then pos 0
    else let delay = capped p.max_backoff (base_delay p (nonneg attempt)) in
      if p.jitter_percent == 0 then delay else with_jitter int63n p.jitter_percent delay
