-- ===== src/Cache/Cacheable.antt =====
-- What may be cached: `isRequestCacheable` to `hasPublicCacheControl` of internal/proxy/proxy.go.
use flow_proxy.Prelude.{
  ℕ, ◌-◌, ◌^◌, ◌≡◌, Bool, true, false, not, ◌&&◌, ◌||◌, List, [], ◌∷◌, Option, none, some, Text,
  codes, text_eq, ltb, leb, ◌==◌, if◌then◌else◌, ℤ, pos, negsuc, is_positive, contains, trim_space,
  to_lower, split_at, digits_from, is_empty, any, every, reverse, arith,
}
use flow_proxy.Http.{Header, Request, header_values, header_get, is_upgrade_request, method_of}

unfoldable pub is_request_cacheable : Request → Bool
unfolding method_of is_upgrade_request header_get
is_request_cacheable req =
    if not (text_eq (method_of req) (codes "GET")) && not (text_eq (method_of req) (codes "HEAD"))
    then false
    else if is_upgrade_request req.header
    then false
    else if not (text_eq (header_get req.header (codes "Authorization")) [])
        || not (text_eq (header_get req.header (codes "Cookie")) [])
    then false
    else text_eq (header_get req.header (codes "Range")) []

-- strconv.Atoi, whose errors are none.
abbrev pub digits : Text → Option ℕ
digits [] = none
digits (c ∷ s) = digits_from 0 (c ∷ s)

abbrev pub positive_int : Option ℕ → Option ℤ
positive_int none = none
positive_int (some n) = if ltb n (2 ^ 63) then some (pos n) else none

abbrev pub negative_int : Option ℕ → Option ℤ
negative_int none = none
negative_int (some n) =
    if n == 0 then some (pos 0) else if leb n (2 ^ 63) then some (negsuc (n - 1)) else none

unfoldable pub atoi : Text → Option ℤ
atoi [] = none
atoi (c ∷ s) =
    if c == b'-'
    then negative_int (digits s)
    else if c == b'+'
    then positive_int (digits s)
    else positive_int (digits (c ∷ s))

-- The text before the first `=` and the text after it, where there is one.
abbrev pub before_equals : Text → Text
before_equals [] = []
before_equals (c ∷ s) = if c == b'=' then [] else c ∷ before_equals s

abbrev pub after_equals : Text → Text
after_equals [] = []
after_equals (c ∷ s) = if c == b'=' then s else after_equals s

-- strings.Trim(s, `"`).
abbrev pub trim_quotes_left : Text → Text
trim_quotes_left [] = []
trim_quotes_left (c ∷ s) = if c == 34 then trim_quotes_left s else c ∷ s

abbrev pub trim_quotes : Text → Text
trim_quotes s = reverse (trim_quotes_left (reverse (trim_quotes_left s)))

-- The loop of `parseCacheControlMaxAge`: the first max-age or s-maxage settles the result.
unfoldable pub max_age_of : List Text → Option ℤ
unfolding trim_space to_lower contains atoi
max_age_of [] = none
max_age_of (part ∷ parts) =
    let rest = max_age_of parts in
    let token = trim_space (to_lower part) in
    let key = trim_space (before_equals token) in
    if text_eq token []
    then rest
    else if not (contains token (codes "="))
    then rest
    else if not (text_eq key (codes "max-age")) && not (text_eq key (codes "s-maxage"))
    then rest
    else atoi (trim_quotes (trim_space (after_equals token)))

unfoldable pub parse_cache_control_max_age : Text → Option ℤ
unfolding max_age_of split_at
parse_cache_control_max_age cache_control =
    if text_eq cache_control [] then none else max_age_of (split_at b',' cache_control)

unfoldable pub has_public_cache_control : Text → Bool
unfolding trim_space to_lower split_at
has_public_cache_control cache_control =
    if text_eq cache_control []
    then false
    else any (λ part. text_eq (trim_space (to_lower part)) (codes "public"))
        (split_at b',' cache_control)

-- A field of Vary that the cache can serve under: an empty one, or accept-encoding.
unfoldable pub vary_allowed : Text → Bool
unfolding trim_space to_lower
vary_allowed item =
    let field = to_lower (trim_space item) in
    if text_eq field []
    then true
    else not (text_eq field (codes "*") || not (text_eq field (codes "accept-encoding")))

-- http.ParseTime is a parameter; instants are nanoseconds.
module _ (parse_time : Text → Option ℕ) where
  -- The tests that make a response cacheable without proactive caching.
  unfoldable pub is_fresh_response : ℕ → Text → Header → Bool
  unfolding parse_cache_control_max_age has_public_cache_control header_get trim_space
  is_fresh_response now cache_control headers =
      let expires = trim_space (header_get headers (codes "Expires")) in
      let fallback =
        has_public_cache_control cache_control
        || (if text_eq expires []
            then false
            else elim (parse_time expires) [ none ↦ false | some t ↦ ltb now t ]) in
      elim (parse_cache_control_max_age cache_control) [
        | none ↦ fallback
        | some max_age ↦ (if is_positive max_age then true else fallback)
      ]

  unfoldable pub is_response_cacheable : ℕ → ℕ → Header → Bool → Bool
  unfolding header_values header_get trim_space to_lower contains split_at vary_allowed
      is_fresh_response
  is_response_cacheable now status headers proactive =
      let cache_control = to_lower (trim_space (header_get headers (codes "Cache-Control"))) in
      let vary = trim_space (header_get headers (codes "Vary")) in
      if not (status == 200)
      then false
      else if not (is_empty (header_values headers (codes "Set-Cookie")))
      then false
      else if contains cache_control (codes "no-store") || contains cache_control (codes "private")
      then false
      else if not (text_eq vary []) && not (every vary_allowed (split_at b',' vary))
      then false
      else if proactive
      then true
      else is_fresh_response now cache_control headers

  -- A response that may be cached has status 200 and no Set-Cookie, its Cache-Control, in whatever
  -- case it is written, holds neither no-store nor private, its Vary is empty or has only fields
  -- that are empty or accept-encoding, and proactive caching takes it as well.
  pub is_response_cacheable-safe :
      (now status : ℕ) (headers : Header) (proactive : Bool)
      → is_response_cacheable now status headers proactive ≡ true
      → (status ≡ 200)
        × (is_empty (header_values headers (codes "Set-Cookie")) ≡ true)
        × (contains
              (to_lower (trim_space (header_get headers (codes "Cache-Control"))))
              (codes "no-store")
            ≡ false)
        × (contains
              (to_lower (trim_space (header_get headers (codes "Cache-Control"))))
              (codes "private")
            ≡ false)
        × ((text_eq (trim_space (header_get headers (codes "Vary"))) []
              || every vary_allowed
                  (split_at b',' (trim_space (header_get headers (codes "Vary")))))
            ≡ true)
        × (is_response_cacheable now status headers true ≡ true)
  unfolding is_response_cacheable
  is_response_cacheable-safe now status headers proactive h = ground (arith, h)
