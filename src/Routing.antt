-- ===== src/Routing.antt =====
-- Which site, route and pool serve a request: `lookupSite`, `matches`, `matchRoute`, `rewritePath`,
-- the canary rule and the choice of the pool, internal/proxy/proxy.go. Regular expressions are
-- functions, and a header name of a rule is canonical. A site is any type.
pub mod Choice
pub mod Load
pub mod Wildcards
pub mod Loaded
use flow_proxy.Prelude.{
  ℕ, ◌+◌, ◌%◌, ◌≤◌, Bool, true, false, not, ◌&&◌, ◌||◌, List, [], ◌∷◌, ◌++◌, Option, none, some,
  Text, codes, text_eq, ltb, leb, ◌==◌, if◌then◌else◌, is_empty, member, lookup, has_prefix,
  has_suffix, trim_space, to_lower, ℤ, nonneg, fnv_from,
}
use flow_proxy.Http.{Header, Request, header_get, method_of}
use flow_proxy.Upstream.Pool.{UpstreamPool, hash_text}

-- `idx := strings.Index(host, ":"); idx > 0`: the text before the first colon, which is not the
-- first character.
abbrev pub before_colon : Text → Text
before_colon [] = []
before_colon (c ∷ s) = if c == b':' then [] else c ∷ before_colon s

unfoldable pub normalize_request_host : Text → Text
unfolding trim_space to_lower
normalize_request_host host =
    let h = to_lower (trim_space host) in if is_empty (before_colon h) then h else before_colon h

-- The tables of the router that `lookupSite` reads.
pub record Hosts (Site : Type 0) : Type 0 where
  pub exact_hosts : List (Text × Site)
  pub wildcards : List (Text × Site)

module _ {Site : Type 0} where
  unfoldable pub lookup_wildcard : Text → List (Text × Site) → Option Site
  unfolding has_suffix
  lookup_wildcard host [] = none
  lookup_wildcard host (item ∷ items) =
      let rest = lookup_wildcard host items in if has_suffix host item.0 then some item.1 else rest

  unfoldable pub lookup_site : Hosts Site → Text → Option Site
  unfolding lookup lookup_wildcard
  lookup_site r host = elim (lookup host r.exact_hosts) [
    | none ↦ lookup_wildcard host r.wildcards
    | some s ↦ some s
  ]

pub data MatchType : Type 0 where
  match_exact match_regex match_prefix : MatchType

pub record CompiledRoute : Type 0 where
  pub match_type : MatchType
  pub path : Text
  pub path_regex : Option (Text → Bool)
  pub methods : List Text
  pub header : Text
  pub header_value : Text
  pub cookie : Text
  pub cookie_value : Text
  pub query : Text
  pub query_value : Text
  pub rewrite_regex : Option (Text → Text)
  pub pool : Option UpstreamPool

unfoldable pub matches_path : CompiledRoute → Text → Bool
unfolding has_prefix
matches_path r path = elim r.match_type [
  | match_exact ↦ text_eq path r.path
  | match_regex ↦ elim r.path_regex [ none ↦ false | some f ↦ f path ]
  | match_prefix ↦ has_prefix path r.path
]

-- A selector that is named asks for a value that is not blank, and for the given one, if any.
unfoldable pub selects : Text → Text → Text → Bool
selects name wanted value =
    if text_eq name []
    then true
    else if text_eq value []
    then false
    else text_eq wanted [] || text_eq value wanted

abbrev pub cookie_of : Request → Text → Text
unfolding trim_space lookup
cookie_of req name = elim (lookup name req.cookies) [ none ↦ [] | some v ↦ trim_space v ]

abbrev pub query_of : Request → Text → Text
unfolding trim_space header_get
query_of req name = trim_space (header_get req.query name)

unfoldable pub matches : CompiledRoute → Request → Bool
unfolding matches_path selects method_of header_get trim_space
matches r req =
    if not (matches_path r req.path)
    then false
    else if not (is_empty r.methods) && not (member (method_of req) r.methods)
    then false
    else if not (selects r.header r.header_value (trim_space (header_get req.header r.header)))
    then false
    else if not (selects r.cookie r.cookie_value (cookie_of req r.cookie))
    then false
    else selects r.query r.query_value (query_of req r.query)

-- The first route that matches; none is the zero route.
unfoldable pub match_route : List CompiledRoute → Request → Option CompiledRoute
unfolding matches
match_route [] req = none
match_route (r ∷ rs) req = let rest = match_route rs req in if matches r req then some r else rest

unfoldable pub rewrite_path : CompiledRoute → Text → Text
unfolding has_prefix
rewrite_path r path = elim r.rewrite_regex [
  | none ↦ path
  | some f ↦
      (if text_eq (f path) []
        then codes "/"
        else if has_prefix (f path) (codes "/")
        then f path
        else b'/' ∷ f path)
]

pub record CanaryRule : Type 0 where
  pub pool : Option UpstreamPool
  pub header : Text
  pub header_value : Text
  pub cookie : Text
  pub cookie_value : Text
  pub weight : ℕ

-- The cookie's own text is compared, and its trimmed text must not be empty.
unfoldable pub canary_cookie_fails : CanaryRule → Request → Bool
unfolding trim_space lookup
canary_cookie_fails r req = elim (lookup r.cookie req.cookies) [
  | none ↦ true
  | some v ↦
      text_eq (trim_space v) []
      || (not (text_eq r.cookie_value []) && not (text_eq v r.cookie_value))
]

unfoldable pub canary_match : CanaryRule → Request → Text → Bool
unfolding selects canary_cookie_fails trim_space header_get hash_text
canary_match r req client_ip =
    if not (selects r.header r.header_value (trim_space (header_get req.header r.header)))
    then false
    else if not (text_eq r.cookie []) && canary_cookie_fails r req
    then false
    else if not (text_eq r.header []) || not (text_eq r.cookie [])
    then true
    else if r.weight == 0
    then false
    else ltb (hash_text (client_ip ++ b'|' ∷ req.path) % 100) r.weight

-- The pool of the request: the canary's, else the route's, else the default.
unfoldable pub selected_pool :
    UpstreamPool → Option CanaryRule → List CompiledRoute → Request → Text → UpstreamPool
unfolding match_route canary_match
selected_pool default_pool canary routes req client_ip =
    let routed : UpstreamPool = elim (match_route routes req) [
      | none ↦ default_pool
      | some r ↦ elim r.pool [ none ↦ default_pool | some p ↦ p ]
    ] in
    elim canary [
      | none ↦ routed
      | some c ↦
          (if canary_match c req client_ip
            then elim c.pool [ none ↦ routed | some p ↦ p ]
            else routed)
    ]
