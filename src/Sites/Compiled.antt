-- ===== src/Sites/Compiled.antt =====
-- `compileSite` of internal/proxy/proxy.go: the parts of a site put together.
use flow_proxy.Prelude.{Bool, List, Option, none, some, Text, codes, map, ℤ}
use flow_proxy.Access.{CompiledPolicy, SiteAccess, compile_ip_access_policy}
use flow_proxy.Cache.{resolve_cache_policy, new_response_cache}
use flow_proxy.Domains.{normalize_domains}
use flow_proxy.Nodes.Sorting.{sort_texts}
use flow_proxy.Pipeline.Headers.{canonical_header_list, clone_headers}
use flow_proxy.Routing.{CompiledRoute, CanaryRule}
use flow_proxy.Upstream.Pool.{UpstreamPool}
use flow_proxy.Upstream.Retry.{duration_from_millis}
use flow_proxy.Waf.Engine.{Engine, new_engine}
use flow_proxy.Sites.Config.{Site}
use flow_proxy.Sites.Normalize.{normalize_upstreams, normalize_http_methods, normalize_query_keys}
use flow_proxy.Sites.Checks.{SiteLib}
use flow_proxy.Sites.Pools.{new_upstream_pool}
use flow_proxy.Sites.Tokens.{Validator, new_validator, Provider, new_provider}
use flow_proxy.Sites.Compile.{
  CompiledSite, CompileLib, pairs_of, when_enabled, engine_config, site_limiter, compile_routes,
  compile_agents, compile_canary,
}

-- The assignments at the head of the function.
unfoldable pub normalized_site : Site → Site
unfolding normalize_domains normalize_upstreams
normalized_site item =
    let (domain, extras) = normalize_domains sort_texts item.domain item.additional_domains in
    let (upstream, upstreams) = normalize_upstreams item.upstream item.upstreams in
    let ups = normalize_upstreams item.canary.upstream item.canary.upstreams in
    record item {
      domain = domain;
      additional_domains = extras;
      upstream = upstream;
      upstreams = upstreams;
      canary = record item.canary { upstream = ups.0; upstreams = ups.1 };
    }

abbrev pub access_of : Site → SiteAccess
access_of s = record {
  ip_access = s.ip_access;
  source_order = s.ip_access_policy.source_order;
  sources = s.ip_access_policy.sources;
}

module _ {Ip Cidr : Type 0} (lib : SiteLib Ip Cidr) (given : CompileLib) where
  -- The site of parts that could all be made.
  unfoldable pub assemble :
      Site
      → UpstreamPool
      → List (ℤ × CompiledRoute)
      → CompiledPolicy Ip Cidr
      → List (Text → Bool)
      → Option CanaryRule
      → Option Validator
      → Option Provider
      → Option Engine
      → CompiledSite Ip Cidr
  unfolding resolve_cache_policy new_response_cache canonical_header_list clone_headers
      duration_from_millis normalize_http_methods normalize_query_keys site_limiter
  assemble s pool routes policy agents canary jwt oauth waf = record {
    cfg = s;
    default_pool = pool;
    canary = canary;
    routes = map (λ (r : ℤ × CompiledRoute). r.1) (given.sort_routes routes);
    cache = new_response_cache (resolve_cache_policy s.cache);
    request_headers = clone_headers (pairs_of s.request_headers);
    response_headers = clone_headers (pairs_of s.response_headers);
    remove_request_headers = canonical_header_list s.remove_request_headers;
    remove_response_headers = canonical_header_list s.remove_response_headers;
    cache_ignore_query_set = normalize_query_keys s.cache.key_ignore_query_params;
    request_timeout = duration_from_millis s.timeouts.request_millis;
    ip_policy = policy;
    limiter = site_limiter given.float_sum s.rate_limit;
    allowed_methods = normalize_http_methods s.traffic_control.allowed_methods;
    blocked_user_agents = agents;
    jwt_validator = jwt;
    oauth_provider = oauth;
    waf_engine = waf;
  }

  -- The parts in the order of the source; none is an error.
  unfoldable pub compile_site : Site → Option (CompiledSite Ip Cidr)
  unfolding normalized_site new_upstream_pool compile_routes compile_ip_access_policy compile_agents
      compile_canary new_validator new_provider new_engine assemble
  compile_site item =
      let s = normalized_site item in
      elim (new_upstream_pool lib given.files s (codes "default") s.load_balance_strategy s.upstream
        s.upstreams) [
          | none ↦ none
          | some (pool, transports) ↦ elim (compile_routes lib given s s.routes) [
            | none ↦ none
            | some routes ↦ elim (compile_ip_access_policy lib.net (access_of s)) [
              | none ↦ none
              | some policy ↦ elim (compile_agents lib given s.security.block_user_agent_patterns) [
                | none ↦ none
                | some agents ↦
                    elim (when_enabled s.canary.enabled (compile_canary lib given s s.canary)) [
                      | none ↦ none
                      | some canary ↦
                          elim (when_enabled s.jwt.enabled (new_validator given.fetches s.jwt)) [
                            | none ↦ none
                            | some jwt ↦
                                elim (when_enabled s.oauth.enabled (new_provider s.oauth)) [
                                  | none ↦ none
                                  | some oauth ↦
                                      elim (when_enabled s.waf.enabled
                                        (new_engine given.patterns (engine_config s.waf))) [
                                          | none ↦ none
                                          | some waf ↦ some (
                                              assemble s pool routes policy agents canary jwt oauth
                                                waf)
                                        ]
                                ]
                          ]
                    ]
              ]
            ]
          ]
        ]
