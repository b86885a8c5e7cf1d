-- ===== src/Sites/Registration.antt =====
-- How internal/store/store.go normalises a site before it stores it: `normalizeSite` and its helpers.
-- A copy of a site is the site, since a value does not change here.
use flow_proxy.Prelude.{
  List, [], ◌∷◌, ◌++◌, map, Option, none, some, Text, codes, is_empty, if◌then◌else◌, trim_space,
  to_lower, upper_char, split_at, pos, ℤ,
}
use flow_proxy.Access.{IpAccessConfig}
use flow_proxy.Domains.{normalize_domains}
use flow_proxy.Nodes.Sorting.{sort_texts}
use flow_proxy.Nodes.Store.{normalize_id}
use flow_proxy.Upstream.Retry.{normalize_status_codes}
use flow_proxy.Sites.Config.{RouteRule, CanaryConfig, ResilienceConfig, Site}
use flow_proxy.Sites.Normalize.{normalize_upstreams, normalize_http_methods, fresh_values}
use flow_proxy.Sites.Checks.{SiteLib}
use flow_proxy.Sites.Validate.{validate}

-- strings.Join with a dash.
unfoldable pub join_dashed : List Text → Text
join_dashed [] = []
join_dashed (p ∷ []) = p
join_dashed (p ∷ q ∷ ps) = p ++ b'-' ∷ join_dashed (q ∷ ps)

abbrev pub capitalized : Text → Text
unfolding upper_char
capitalized [] = []
capitalized (c ∷ s) = upper_char c ∷ s

unfoldable pub http_header_canonical : Text → Text
unfolding join_dashed capitalized split_at to_lower trim_space
http_header_canonical name =
    join_dashed (map capitalized (split_at b'-' (to_lower (trim_space name))))

-- `normalizeStringList` of internal/store/store.go.
unfoldable pub trimmed_once : List Text → List Text
unfolding fresh_values trim_space
trimmed_once items = fresh_values trim_space [] items

unfoldable pub normalize_header_list : List Text → List Text
unfolding fresh_values trim_space http_header_canonical
normalize_header_list items = fresh_values (λ s. trim_space (http_header_canonical s)) [] items

unfoldable pub normalize_access : IpAccessConfig → IpAccessConfig
unfolding trimmed_once
normalize_access a = record {
  allow_cidrs = trimmed_once a.allow_cidrs;
  deny_cidrs = trimmed_once a.deny_cidrs;
  allow_asns = trimmed_once a.allow_asns;
  deny_asns = trimmed_once a.deny_asns;
  deny_reputation_cidrs = trimmed_once a.deny_reputation_cidrs;
}

-- `LoadBalanceRound` where no strategy is given.
abbrev pub strategy_or : Text → Text → Text
strategy_or default s = if is_empty s then default else s

unfoldable pub normalize_canary : CanaryConfig → CanaryConfig
unfolding http_header_canonical trim_space normalize_upstreams
normalize_canary c =
    let (upstream, upstreams) = normalize_upstreams c.upstream c.upstreams in
    record c {
      header = http_header_canonical c.header;
      header_value = trim_space c.header_value;
      cookie = trim_space c.cookie;
      cookie_value = trim_space c.cookie_value;
      upstream = upstream;
      upstreams = upstreams;
      load_balance_strategy = strategy_or (codes "round_robin") c.load_balance_strategy;
    }

-- The body of the loop over the routes; the site's strategy has its default by then.
unfoldable pub normalize_route : Text → RouteRule → RouteRule
unfolding trim_space normalize_upstreams
normalize_route strategy r =
    let (upstream, upstreams) = normalize_upstreams r.upstream r.upstreams in
    record r {
      path = trim_space r.path;
      match = trim_space r.match;
      rewrite_pattern = trim_space r.rewrite_pattern;
      rewrite_replacement = trim_space r.rewrite_replacement;
      upstream = upstream;
      upstreams = upstreams;
      load_balance_strategy = strategy_or strategy r.load_balance_strategy;
    }

-- The statuses to retry are a list that is there afterwards.
unfoldable pub normalize_resilience : ResilienceConfig → ResilienceConfig
unfolding trim_space normalize_status_codes
normalize_resilience r =
    let given : List ℤ = elim r.retry.retry_on_statuses [ none ↦ [] | some items ↦ items ] in
    record r {
      active_health_check = record r.active_health_check {
        path = trim_space r.active_health_check.path;
      };
      retry = record r.retry { retry_on_statuses = some (map pos (normalize_status_codes given)) };
    }

-- The assignments of `normalizeSite`, in order.
unfoldable pub cleaned_site : Site → Site
unfolding normalize_id normalize_domains normalize_upstreams trim_space normalize_header_list
    normalize_access normalize_http_methods trimmed_once normalize_resilience normalize_canary
    normalize_route
cleaned_site item =
    let (domain, extras) = normalize_domains sort_texts item.domain item.additional_domains in
    let (upstream, upstreams) = normalize_upstreams item.upstream item.upstreams in
    let strategy = strategy_or (codes "round_robin") item.load_balance_strategy in
    record item {
      node_id = normalize_id item.node_id;
      domain = domain;
      additional_domains = extras;
      upstream = upstream;
      upstreams = upstreams;
      certificate_id = trim_space item.certificate_id;
      load_balance_strategy = strategy;
      name = trim_space item.name;
      remove_request_headers = normalize_header_list item.remove_request_headers;
      remove_response_headers = normalize_header_list item.remove_response_headers;
      ip_rule_set_id = trim_space item.ip_rule_set_id;
      ip_access = normalize_access item.ip_access;
      traffic_control = record item.traffic_control {
        allowed_methods = normalize_http_methods item.traffic_control.allowed_methods;
      };
      security = record item.security {
        block_user_agent_patterns = trimmed_once item.security.block_user_agent_patterns;
      };
      upstream_tls = record item.upstream_tls {
        server_name = trim_space item.upstream_tls.server_name;
        root_ca_file = trim_space item.upstream_tls.root_ca_file;
        root_ca_pem = trim_space item.upstream_tls.root_ca_pem;
      };
      resilience = normalize_resilience item.resilience;
      canary = normalize_canary item.canary;
      routes = map (normalize_route strategy) item.routes;
    }

module _ {Ip Cidr : Type 0} (lib : SiteLib Ip Cidr) where
  -- `normalizeSite`; none where the site does not pass the validation.
  unfoldable pub normalize_site : Site → Option Site
  unfolding cleaned_site validate
  normalize_site item = elim (validate lib (cleaned_site item)) [
    | none ↦ some (cleaned_site item)
    | some e ↦ none
  ]
