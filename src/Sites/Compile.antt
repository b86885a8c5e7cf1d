-- ===== src/Sites/Compile.antt =====
-- `compileSite` of internal/proxy/proxy.go. Its sort.Slice on the routes is given.
use flow_proxy.Prelude.{
  ℕ, Bool, not, ◌||◌, List, [], ◌∷◌, Option, none, some, Text, codes, text_eq, is_empty,
  if◌then◌else◌, trim_space, to_upper, ℤ, nonneg, member,
}
use flow_proxy.Access.{CompiledPolicy}
use flow_proxy.Cache.{ResponseCache}
use flow_proxy.Limiter.{RateLimiter, new_limiter}
use flow_proxy.Pipeline.Headers.{canonical_header_key}
use flow_proxy.Routing.{
  MatchType, match_exact, match_regex, match_prefix, CompiledRoute, CanaryRule,
}
use flow_proxy.Upstream.Pool.{UpstreamPool}
use flow_proxy.Waf.{RegexpLib, EngineConfig}
use flow_proxy.Waf.Engine.{Engine}
use flow_proxy.Sites.Config.{
  RouteRule, HeaderLine, CanaryConfig, RateLimitSettings, WafConfig, Site,
}
use flow_proxy.Sites.Normalize.{normalize_upstreams, normalize_http_methods}
use flow_proxy.Sites.Checks.{SiteLib, Regex}
use flow_proxy.Sites.Transport.{TransportLib}
use flow_proxy.Sites.Pools.{new_upstream_pool}
use flow_proxy.Sites.Tokens.{Validator, Provider}

pub record CompiledSite (Ip Cidr : Type 0) : Type 0 where
  pub cfg : Site
  pub default_pool : UpstreamPool
  pub canary : Option CanaryRule
  pub routes : List CompiledRoute
  pub cache : Option ResponseCache
  pub request_headers : List (Text × Text)
  pub response_headers : List (Text × Text)
  pub remove_request_headers : List Text
  pub remove_response_headers : List Text
  pub cache_ignore_query_set : List Text
  pub request_timeout : ℤ
  pub ip_policy : CompiledPolicy Ip Cidr
  pub limiter : Option RateLimiter
  pub allowed_methods : List Text
  pub blocked_user_agents : List (Text → Bool)
  pub jwt_validator : Option Validator
  pub oauth_provider : Option Provider
  pub waf_engine : Option Engine

-- What is given beyond the packages: the sort of the routes by priority and length, the files, the
-- packages of the firewall, the first fetch of a validator's keys, and the float64 arithmetic of the
-- rate limiter.
pub record CompileLib : Type 0 where
  pub sort_routes : List (ℤ × CompiledRoute) → List (ℤ × CompiledRoute)
  pub files : TransportLib
  pub patterns : RegexpLib
  pub fetches : Text → Bool
  pub float_sum : ℕ → ℕ → ℕ → ℕ

-- The fields of a match type that `matches` tells apart.
unfoldable pub match_type_of : Text → MatchType
match_type_of s =
    if text_eq s (codes "exact")
    then match_exact
    else if text_eq s (codes "regex")
    then match_regex
    else match_prefix

-- The loop of `methodSet`.
unfoldable pub method_set : List Text → List Text
unfolding to_upper trim_space
method_set [] = []
method_set (item ∷ items) =
    let value = to_upper (trim_space item) in
    let rest = method_set items in
    if is_empty value || member value rest then rest else value ∷ rest

abbrev pub pairs_of : List HeaderLine → List (Text × Text)
pairs_of [] = []
pairs_of (h ∷ headers) = (h.name, h.value) ∷ pairs_of headers

-- What is tried only where a part is in force: `some none` where it is not, none on an error.
abbrev pub when_enabled {ℓ} : {A : Type ℓ} → Bool → Option A → Option (Option A)
when_enabled enabled made =
    if enabled then elim made [ none ↦ none | some a ↦ some (some a) ] else some none

abbrev pub engine_config : WafConfig → EngineConfig
engine_config cfg = record {
  enabled = cfg.enabled;
  mode = cfg.mode;
  severity_threshold = cfg.severity_threshold;
  exclude_paths = cfg.exclude_paths;
  custom_rules = [];
  exclude_rules = [];
}

-- The limiter of a site; a rate that is not positive gives none of the parameters a meaning and is
-- read as 0.
unfoldable pub site_limiter : (ℕ → ℕ → ℕ → ℕ) → RateLimitSettings → Option RateLimiter
unfolding new_limiter
site_limiter float_sum cfg = new_limiter float_sum (record {
  enabled = cfg.enabled;
  requests_per_minute = nonneg cfg.requests_per_minute;
  burst = cfg.burst;
  auto_block = cfg.auto_block;
})

module _ {Ip Cidr : Type 0} (lib : SiteLib Ip Cidr) (given : CompileLib) where
  -- An optional regular expression: `some none` where it is not asked for, none where it is invalid.
  abbrev pub regexp_when : Bool → Text → Option (Option Regex)
  regexp_when asked pattern = when_enabled asked (lib.compile_regexp pattern)

  unfoldable pub route_of :
      RouteRule → UpstreamPool → Option Regex → Option Regex → ℤ × CompiledRoute
  unfolding match_type_of method_set normalize_http_methods canonical_header_key trim_space
  route_of cfg pool path_regex rewrite_regex = (
    cfg.priority,
    record {
      match_type = match_type_of cfg.match;
      path = cfg.path;
      path_regex = elim path_regex [ none ↦ none | some r ↦ some r.matches_text ];
      methods = method_set (normalize_http_methods cfg.methods);
      header = canonical_header_key (trim_space cfg.header);
      header_value = trim_space cfg.header_value;
      cookie = trim_space cfg.cookie;
      cookie_value = trim_space cfg.cookie_value;
      query = trim_space cfg.query;
      query_value = trim_space cfg.query_value;
      rewrite_regex = elim rewrite_regex [
        | none ↦ none
        | some r ↦ some (λ path. r.replace_all path cfg.rewrite_replacement)
      ];
      pool = some pool;
    },
  )

  -- The body of the loop over the routes.
  unfoldable pub compile_route : Site → RouteRule → Option (ℤ × CompiledRoute)
  unfolding normalize_upstreams new_upstream_pool route_of
  compile_route s cfg =
      let (upstream, upstreams) = normalize_upstreams cfg.upstream cfg.upstreams in
      let strategy =
        if is_empty cfg.load_balance_strategy
        then s.load_balance_strategy
        else cfg.load_balance_strategy in
      elim (new_upstream_pool lib given.files s cfg.path strategy upstream upstreams) [
        | none ↦ none
        | some (pool, transports) ↦
            elim (regexp_when (text_eq cfg.match (codes "regex")) cfg.path) [
              | none ↦ none
              | some path_regex ↦
                  elim (regexp_when (not (is_empty cfg.rewrite_pattern)) cfg.rewrite_pattern) [
                    | none ↦ none
                    | some rewrite_regex ↦ some (route_of cfg pool path_regex rewrite_regex)
                  ]
            ]
      ]

  unfoldable pub compile_routes : Site → List RouteRule → Option (List (ℤ × CompiledRoute))
  unfolding compile_route
  compile_routes s [] = some []
  compile_routes s (cfg ∷ routes) = elim (compile_route s cfg) [
    | none ↦ none
    | some r ↦ elim (compile_routes s routes) [ none ↦ none | some rs ↦ some (r ∷ rs) ]
  ]

  -- The loop over the patterns of user agents.
  unfoldable pub compile_agents : List Text → Option (List (Text → Bool))
  unfolding trim_space
  compile_agents [] = some []
  compile_agents (rule ∷ rules) =
      let rest = compile_agents rules in
      let pattern = trim_space rule in
      if is_empty pattern then rest else elim (lib.compile_regexp pattern) [
        | none ↦ none
        | some reg ↦ elim rest [ none ↦ none | some rs ↦ some (reg.matches_text ∷ rs) ]
      ]

  unfoldable pub compile_canary : Site → CanaryConfig → Option CanaryRule
  unfolding new_upstream_pool canonical_header_key trim_space
  compile_canary s c =
      let strategy =
        if is_empty c.load_balance_strategy
        then s.load_balance_strategy
        else c.load_balance_strategy in
      elim (new_upstream_pool lib given.files s (codes "canary") strategy c.upstream c.upstreams) [
        | none ↦ none
        | some (pool, transports) ↦ some (record {
          pool = some pool;
          header = canonical_header_key (trim_space c.header);
          header_value = trim_space c.header_value;
          cookie = trim_space c.cookie;
          cookie_value = trim_space c.cookie_value;
          weight = nonneg c.weight;
        })
      ]
