-- ===== src/Sites/Rules.antt =====
-- The checks of internal/site/site.go on upstreams, canaries and routes.
use flow_proxy.Prelude.{
  not, ◌||◌, ◌&&◌, List, [], ◌∷◌, none, Text, codes, text_eq, is_empty, if◌then◌else◌, trim_space,
  has_prefix, is_positive, is_negative,
}
use Prim.Native.String.{String}
use flow_proxy.Sites.Config.{RouteRule, CanaryConfig, Upstream}
use flow_proxy.Sites.Normalize.{normalize_upstreams}
use flow_proxy.Sites.Checks.{
  SiteLib, Check, reject, first_error, check_each, is_valid_load_balance, is_valid_header_name,
  validate_http_methods, is_regexp, validate_upstream_url, validate_upstream,
}
use flow_proxy.Sites.Limits.{exceeds}

-- The checks that a site, a route and a canary share: an upstream is there, and all are valid.
unfoldable pub validate_some_upstream : String → Text × List Upstream → Check
validate_some_upstream message (upstream, upstreams) =
    reject (is_empty upstream && is_empty upstreams) message

-- The match type of a route, with its default.
abbrev pub match_of : RouteRule → Text
unfolding trim_space
match_of route =
    if is_empty (trim_space route.match) then codes "prefix" else trim_space route.match

module _ {Ip Cidr : Type 0} (lib : SiteLib Ip Cidr) where
  unfoldable pub validate_upstreams : String → Text × List Upstream → Check
  unfolding first_error check_each validate_upstream_url validate_upstream
  validate_upstreams message (upstream, upstreams) = first_error (
      (if is_empty upstream then none else validate_upstream_url lib upstream)
      ∷ check_each (validate_upstream lib message) upstreams
      ∷ [])

  -- The checks of `validateCanary`, in order.
  unfoldable pub canary_checks : CanaryConfig → List Check
  unfolding normalize_upstreams validate_some_upstream validate_upstreams is_valid_load_balance
      trim_space
  canary_checks cfg =
      let ups = normalize_upstreams cfg.upstream cfg.upstreams in
      let strategy = cfg.load_balance_strategy in
      reject (is_negative cfg.weight || exceeds 100 cfg.weight) "canary weight must be within 0-100"
      ∷ validate_some_upstream "canary requires at least one upstream" ups
      ∷ validate_upstreams "canary upstream weight must be greater than 0" ups
      ∷ reject (not (is_empty strategy) && not (is_valid_load_balance strategy))
          "invalid canary load balance strategy: %s"
      ∷ reject
          (is_empty (trim_space cfg.header)
            && is_empty (trim_space cfg.cookie)
            && not (is_negative cfg.weight)
            && not (is_positive cfg.weight))
          "canary requires header/cookie match or weight > 0"
      ∷ []

  unfoldable pub validate_canary : CanaryConfig → Check
  unfolding first_error canary_checks
  validate_canary cfg = if not cfg.enabled then none else first_error (canary_checks cfg)

  -- The checks of a route's match type and path.
  unfoldable pub route_path_checks : RouteRule → List Check
  unfolding trim_space has_prefix
  route_path_checks route =
      let match = match_of route in
      let is_regex = text_eq match (codes "regex") in
      reject
        (not (text_eq match (codes "prefix"))
          && not (text_eq match (codes "exact"))
          && not is_regex)
        "route[%d] has invalid match type"
      ∷ reject (is_empty (trim_space route.path)) "route[%d] path is required"
      ∷ reject (not is_regex && not (has_prefix route.path (codes "/")))
          "route[%d] path must start with /"
      ∷ reject (is_regex && not (is_regexp lib route.path)) "route[%d] invalid regex path: %w"
      ∷ []

  unfoldable pub validate_route_path : RouteRule → Check
  unfolding first_error route_path_checks
  validate_route_path route = first_error (route_path_checks route)

  -- The checks of `validateRoute`, in order.
  unfoldable pub route_checks : RouteRule → List Check
  unfolding validate_route_path validate_http_methods is_valid_header_name trim_space
      normalize_upstreams validate_some_upstream validate_upstreams is_valid_load_balance
  route_checks route =
      let ups = normalize_upstreams route.upstream route.upstreams in
      let strategy = route.load_balance_strategy in
      validate_route_path route
      ∷ validate_http_methods route.methods
      ∷ reject (not (is_empty (trim_space route.header)) && not (is_valid_header_name route.header))
          "route[%d] header has invalid name"
      ∷ reject
          (is_empty (trim_space route.cookie) && not (is_empty (trim_space route.cookie_value)))
          "route[%d] cookieValue requires cookie"
      ∷ reject (is_empty (trim_space route.query) && not (is_empty (trim_space route.query_value)))
          "route[%d] queryValue requires query"
      ∷ validate_some_upstream "route[%d] requires upstream" ups
      ∷ validate_upstreams "route[%d] upstream weight must be greater than 0" ups
      ∷ reject (not (is_empty strategy) && not (is_valid_load_balance strategy))
          "route[%d] invalid load balance strategy"
      ∷ reject (not (is_empty route.rewrite_pattern) && not (is_regexp lib route.rewrite_pattern))
          "route[%d] invalid rewritePattern: %w"
      ∷ []

  unfoldable pub validate_route : RouteRule → Check
  unfolding first_error route_checks
  validate_route route = first_error (route_checks route)
