-- ===== src/Sites/Accepted.antt =====
-- A site that `Validate` passes is one that `compileSite` makes.
use flow_proxy.Prelude.{
  ◌≡◌, refl, sym, subst, Bool, true, false, not, List, [], ◌∷◌, none, some, Text, codes, text_eq,
  text_eq_sound, is_empty, if◌then◌else◌, trim_space, arith, All, Bool-cases, Option-cases, inl,
  inr,
}
use flow_proxy.Access.{
  IpAccessConfig, SiteAccess, compile_source, compile_legacy, compile_listed,
  compile_ip_access_policy,
}
use flow_proxy.Domains.{is_l4_site}
use flow_proxy.Waf.Engine.{new_engine}
use flow_proxy.Sites.Config.{RouteRule, CanaryConfig, Site}
use flow_proxy.Sites.Normalize.{normalize_upstreams}
use flow_proxy.Sites.Checks.{SiteLib, first_error-none, is_regexp, validate_asns, validate_cidrs}
use flow_proxy.Sites.Rules.{
  route_path_checks, route_checks, canary_checks, validate_some_upstream, validate_canary,
  validate_route_path, validate_route,
}
use flow_proxy.Sites.Validate.{
  access_checks, http_checks, site_checks, validate_access, validate_http, validate,
}
use flow_proxy.Sites.Tokens.{new_validator, new_provider}
use flow_proxy.Sites.Compile.{
  CompileLib, regexp_when, when_enabled, engine_config, route_of, compile_route, compile_routes,
  compile_canary,
}
use flow_proxy.Sites.Compiled.{normalized_site, access_of, assemble, compile_site}
use flow_proxy.Sites.Lists.{
  Made, check_each-All, parse_ip_rules-Made, parse_asn_rules-Made, compile_agents-Made,
}
use flow_proxy.Sites.Usable.{Loads, new_upstream_pool-Made}

match_of_regex :
    (t : Text)
    → text_eq t (codes "regex") ≡ true
    → text_eq (if is_empty (trim_space t) then codes "prefix" else trim_space t) (codes "regex")
      ≡ true
unfolding trim_space
match_of_regex t h =
    subst
      (λ t.
        text_eq (if is_empty (trim_space t) then codes "prefix" else trim_space t) (codes "regex")
        ≡ true)
      (sym (text_eq_sound t (codes "regex") h)) refl

module _ {Ip Cidr : Type 0} (lib : SiteLib Ip Cidr) (given : CompileLib) where
  regexp_when-Made :
      (asked : Bool) (pattern : Text)
      → (asked ≡ true → is_regexp lib pattern ≡ true)
      → Made (regexp_when lib given asked pattern)
  regexp_when-Made false pattern h = (none, refl)
  regexp_when-Made true pattern h = elim (Option-cases (lib.compile_regexp pattern)) [
    | inl bad ↦ absurd (ground (arith, h refl, bad))
    | inr (r, good) ↦ (some r, rw good refl)
  ]

  compile_route-Made :
      (s : Site) (r : RouteRule)
      → Loads given.files s.upstream_tls
      → validate_route lib r ≡ none
      → Made (compile_route lib given s r)
  unfolding validate_route validate_route_path compile_route route_checks route_path_checks
  compile_route-Made s r loads h =
      let hs : All (λ c. c ≡ none) (route_checks lib r) = first_error-none (route_checks lib r) h in
      let ps : All (λ c. c ≡ none) (route_path_checks lib r) =
        first_error-none (route_path_checks lib r) hs.0 in
      let (pool, made) =
        new_upstream_pool-Made lib given.files s "route[%d] requires upstream"
          "route[%d] upstream weight must be greater than 0" r.path
          (if is_empty r.load_balance_strategy
            then s.load_balance_strategy
            else r.load_balance_strategy)
          r.upstream r.upstreams loads hs.1.1.1.1.1.0 hs.1.1.1.1.1.1.0 in
      let (p, matched) =
        regexp_when-Made (text_eq r.match (codes "regex")) r.path
          (λ e. ground (arith, match_of_regex r.match e, ps.1.1.1.0)) in
      let (w, rewritten) =
        regexp_when-Made (not (is_empty r.rewrite_pattern)) r.rewrite_pattern
          (λ e. ground (arith, e, hs.1.1.1.1.1.1.1.1.0)) in
      (route_of lib given r pool.0 p w, rw (made, matched, rewritten, compile_route) refl)

  compile_routes-Made :
      (s : Site) (routes : List RouteRule)
      → Loads given.files s.upstream_tls
      → All (λ r. validate_route lib r ≡ none) routes
      → Made (compile_routes lib given s routes)
  unfolding compile_routes
  compile_routes-Made s [] loads h = ([], refl)
  compile_routes-Made s (r ∷ routes) loads h =
      let (t, made) = compile_route-Made s r loads h.0 in
      let (ts, rest) = compile_routes-Made s routes loads h.1 in
      (t ∷ ts, rw (made, rest, compile_routes) refl)

  -- The canary of the normalised site, where it is in force.
  compile_canary-Made :
      (s : Site) (c : CanaryConfig)
      → Loads given.files s.upstream_tls
      → validate_canary lib c ≡ none
      → (let ups = normalize_upstreams c.upstream c.upstreams in
          Made (
            when_enabled c.enabled
              (compile_canary lib given s (record c { upstream = ups.0; upstreams = ups.1 }))))
  unfolding validate_canary canary_checks compile_canary
  compile_canary-Made s c loads h = elim (Bool-cases c.enabled) [
    | inl on ↦
        (let hs : All (λ x. x ≡ none) (canary_checks lib c) =
            first_error-none (canary_checks lib c) (rw (on, validate_canary) at h) in
          let (pool, made) =
            new_upstream_pool-Made lib given.files s "canary requires at least one upstream"
              "canary upstream weight must be greater than 0" (codes "canary")
              (if is_empty c.load_balance_strategy
                then s.load_balance_strategy
                else c.load_balance_strategy)
              c.upstream c.upstreams loads hs.1.0 hs.1.1.0 in
          rw (on, made, compile_canary) (_, refl))
    | inr off ↦ rw off (none, refl)
  ]

  compile_source-Made :
      (name : Text) (first : Bool) (a : IpAccessConfig)
      → validate_cidrs lib a.allow_cidrs ≡ none
      → validate_cidrs lib a.deny_cidrs ≡ none
      → validate_asns a.allow_asns ≡ none
      → validate_asns a.deny_asns ≡ none
      → validate_cidrs lib a.deny_reputation_cidrs ≡ none
      → Made (compile_source lib.net name first a)
  unfolding compile_source
  compile_source-Made name first a h1 h2 h3 h4 h5 =
      let (r1, e1) = parse_ip_rules-Made lib a.allow_cidrs h1 in
      let (r2, e2) = parse_ip_rules-Made lib a.deny_cidrs h2 in
      let (r3, e3) = parse_asn_rules-Made a.allow_asns h3 in
      let (r4, e4) = parse_asn_rules-Made a.deny_asns h4 in
      let (r5, e5) = parse_ip_rules-Made lib a.deny_reputation_cidrs h5 in
      rw (e1, e2, e3, e4, e5, compile_source) (_, refl)

  -- The policy of a site to which no shared sources are attached.
  policy-Made :
      (a : SiteAccess)
      → is_empty a.source_order ≡ true
      → Made (compile_legacy lib.net a.ip_access)
      → Made (compile_ip_access_policy lib.net a)
  unfolding compile_ip_access_policy compile_listed
  policy-Made a h k = rw (h, compile_listed, compile_ip_access_policy) k

  compile_legacy-Made :
      (a : IpAccessConfig)
      → Made (compile_source lib.net (codes "legacy") false a)
      → Made (compile_legacy lib.net a)
  unfolding compile_legacy
  compile_legacy-Made a (c, made) = rw (made, compile_legacy) (_, refl)

  -- What `validate` says of a site that is not one of ports only.
  validate-http :
      (item : Site)
      → validate lib item ≡ none
      → is_l4_site item.protocol ≡ false
      → validate_some_upstream "at least one upstream is required"
            (normalize_upstreams item.upstream item.upstreams)
          ≡ none
        × All (λ c. c ≡ none) (http_checks lib item)
  unfolding validate site_checks validate_http
  validate-http item h http =
      let hs : All (λ c. c ≡ none) (site_checks lib item) =
        first_error-none (site_checks lib item) h in
      (hs.1.0, first_error-none (http_checks lib item) (rw http at hs.1.1.0))

  -- A site that is not for port forwarding only and that passes validation is compiled, if its
  -- certificates can be read, no shared rule sets are attached to it, and what it asks of tokens, sessions and the firewall can be made.
  pub validate-compiles :
      (item : Site)
      → validate lib item ≡ none
      → is_l4_site item.protocol ≡ false
      → Loads given.files item.upstream_tls
      → is_empty item.ip_access_policy.source_order ≡ true
      → Made (when_enabled item.jwt.enabled (new_validator given.fetches item.jwt))
      → Made (when_enabled item.oauth.enabled (new_provider item.oauth))
      → Made (when_enabled item.waf.enabled (new_engine given.patterns (engine_config item.waf)))
      → Made (compile_site lib given item)
  unfolding compile_site normalized_site http_checks validate_access access_checks
  validate-compiles item h http loads plain (jwt, e6) (oauth, e7) (waf, e8) =
      let s = normalized_site item in
      let (present, hs) = validate-http item h http in
      let xs : All (λ c. c ≡ none) (access_checks lib item) =
        first_error-none (access_checks lib item) hs.1.1.1.1.0 in
      let a = xs.1.1.1.1.1.1.1 in
      let (pool, e1) =
        new_upstream_pool-Made lib given.files s "at least one upstream is required"
          "upstream weight must be greater than 0" (codes "default") item.load_balance_strategy
          item.upstream item.upstreams loads present hs.0 in
      let (routes, e2) =
        compile_routes-Made s item.routes loads
          (check_each-All (validate_route lib) item.routes hs.1.1.1.0) in
      let (policy, e3) = policy-Made (access_of s) plain (
        compile_legacy-Made item.ip_access (
          compile_source-Made (codes "legacy") false item.ip_access a.0 a.1.0 a.1.1.0 a.1.1.1.0
            a.1.1.1.1.0)) in
      let (agents, e4) =
        compile_agents-Made lib given item.security.block_user_agent_patterns a.1.1.1.1.1.1.1.0 in
      let (canary, e5) = compile_canary-Made s item.canary loads hs.1.1.1.1.1.1.1.0 in
      (
        assemble lib given s pool.0 routes policy agents canary jwt oauth waf,
        rw (e1, e2, e3, e4, e5, e6, e7, e8, compile_site) refl,
      )
