-- ===== src/Sites/Validate.antt =====
-- `Validate` of internal/site/site.go with the checks on the domains and on the clients.
use flow_proxy.Prelude.{
  not, ◌||◌, ◌&&◌, List, [], ◌∷◌, some, codes, is_empty, if◌then◌else◌, trim_space, to_lower,
  is_positive, is_negative,
}
use flow_proxy.Domains.{normalize_domains, all_domains, is_l4_site}
use flow_proxy.Nodes.Sorting.{sort_texts}
use flow_proxy.Sites.Config.{Site}
use flow_proxy.Sites.Normalize.{normalize_upstreams}
use flow_proxy.Sites.Checks.{
  SiteLib, Check, reject, first_error, check_each, is_valid_load_balance, is_valid_domain_pattern,
  validate_http_methods, validate_asns, validate_headers, validate_header_names, validate_cidrs,
  validate_regex_list, validate_l4_upstream,
}
use flow_proxy.Sites.Limits.{
  exceeds, validate_upstream_tls, validate_resilience, validate_timeouts, validate_cache,
  validate_rate_limit,
}
use flow_proxy.Sites.Rules.{
  validate_some_upstream, validate_upstreams, validate_canary, validate_route,
}

module _ {Ip Cidr : Type 0} (lib : SiteLib Ip Cidr) where
  -- The checks on the protocol, the domains and the port.
  unfoldable pub listening_checks : Site → List Check
  unfolding check_each trim_space to_lower is_l4_site normalize_domains all_domains
      is_valid_domain_pattern
  listening_checks input =
      let protocol = to_lower (trim_space input.protocol) in
      let l4 = is_l4_site input.protocol in
      let domains = normalize_domains sort_texts input.domain input.additional_domains in
      reject (not l4 && not (is_empty protocol))
        "invalid protocol: %s (supported: tcp, udp, tls, or empty for HTTP)"
      ∷ reject (is_negative input.listen_port || exceeds 65535 input.listen_port)
          "listenPort must be within 1-65535 when set"
      ∷ (if l4
          then reject (not (is_positive input.listen_port))
              "listenPort is required for tcp/udp/tls protocol"
          else if is_empty domains.0 && not (is_positive input.listen_port)
          then some (codes "domain or listenPort is required")
          else check_each
              (λ domain. reject (not (is_valid_domain_pattern domain)) "invalid domain pattern: %s")
              (all_domains sort_texts domains.0 domains.1))
      ∷ []

  unfoldable pub validate_listening : Site → Check
  unfolding first_error listening_checks
  validate_listening input = first_error (listening_checks input)

  -- The checks on the headers, on who may connect and on what clients may do.
  unfoldable pub access_checks : Site → List Check
  unfolding validate_headers validate_header_names validate_rate_limit validate_http_methods
      validate_cidrs validate_asns validate_regex_list trim_space
  access_checks input =
      let auth = input.basic_auth in
      validate_headers input.request_headers
      ∷ validate_headers input.response_headers
      ∷ validate_header_names input.remove_request_headers
      ∷ validate_header_names input.remove_response_headers
      ∷ validate_rate_limit input.rate_limit
      ∷ reject (is_negative input.traffic_control.max_concurrent_requests)
          "traffic control maxConcurrentRequests cannot be negative"
      ∷ validate_http_methods input.traffic_control.allowed_methods
      ∷ validate_cidrs lib input.ip_access.allow_cidrs
      ∷ validate_cidrs lib input.ip_access.deny_cidrs
      ∷ validate_asns input.ip_access.allow_asns
      ∷ validate_asns input.ip_access.deny_asns
      ∷ validate_cidrs lib input.ip_access.deny_reputation_cidrs
      ∷ reject (auth.is_enabled && is_empty (trim_space auth.username))
          "basic auth username is required"
      ∷ reject
          (auth.is_enabled
            && is_empty (trim_space auth.password_hash)
            && is_empty (trim_space auth.password))
          "basic auth password is required"
      ∷ validate_regex_list lib input.security.block_user_agent_patterns
      ∷ []

  unfoldable pub validate_access : Site → Check
  unfolding first_error access_checks
  validate_access input = first_error (access_checks input)

  -- The checks of a site that is not one of ports only, behind those that all sites share.
  unfoldable pub http_checks : Site → List Check
  unfolding check_each normalize_upstreams validate_upstreams is_valid_load_balance
      validate_upstream_tls validate_route validate_access validate_resilience validate_timeouts
      validate_canary validate_cache
  http_checks input =
      let ups = normalize_upstreams input.upstream input.upstreams in
      let strategy = input.load_balance_strategy in
      validate_upstreams lib "upstream weight must be greater than 0" ups
      ∷ reject (not (is_empty strategy) && not (is_valid_load_balance strategy))
          "invalid load balance strategy: %s"
      ∷ validate_upstream_tls input.upstream_tls
      ∷ check_each (validate_route lib) input.routes
      ∷ validate_access input
      ∷ validate_resilience input.resilience
      ∷ validate_timeouts input.timeouts
      ∷ validate_canary lib input.canary
      ∷ validate_cache input.cache
      ∷ []

  unfoldable pub validate_http : Site → Check
  unfolding first_error http_checks
  validate_http input = first_error (http_checks input)

  -- The checks of `Validate`, in order.
  unfoldable pub site_checks : Site → List Check
  unfolding validate_listening normalize_upstreams validate_some_upstream is_l4_site
      validate_l4_upstream validate_http
  site_checks input =
      let ups = normalize_upstreams input.upstream input.upstreams in
      validate_listening input
      ∷ validate_some_upstream "at least one upstream is required" ups
      ∷ (if is_l4_site input.protocol
          then validate_l4_upstream lib ups.0 ups.1
          else validate_http input)
      ∷ []

  unfoldable pub validate : Site → Check
  unfolding first_error site_checks
  validate input = first_error (site_checks input)
