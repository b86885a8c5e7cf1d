-- ===== src/Sites/Pools.antt =====
-- `newUpstreamPool` of internal/proxy/proxy.go.
use flow_proxy.Prelude.{
  ◌||◌, List, [], ◌∷◌, map, Option, none, some, Text, codes, text_eq, is_empty, member,
  if◌then◌else◌, trim_space, pos, positive_or,
}
use flow_proxy.Upstream.Target.{
  UpstreamTarget, resolve_circuit_breaker_policy, resolve_active_health_policy,
}
use flow_proxy.Upstream.Retry.{resolve_retry_policy}
use flow_proxy.Upstream.Pool.{UpstreamPool, strategy_of, build_weighted_plan}
use flow_proxy.Sites.Config.{Upstream, Site}
use flow_proxy.Sites.Checks.{SiteLib}
use flow_proxy.Sites.Transport.{Transport, TransportLib, new_upstream_transport}

-- The loop over the upstreams with the addresses that were seen.
unfoldable pub fresh_upstreams : List Text → List Upstream → List Upstream
unfolding trim_space
fresh_upstreams seen [] = []
fresh_upstreams seen (up ∷ upstreams) =
    let key = trim_space up.url in
    let kept = fresh_upstreams (key ∷ seen) upstreams in
    let rest = fresh_upstreams seen upstreams in
    if is_empty key || member key seen then rest else up ∷ kept

-- `raw`: the one upstream with weight 1, and the others, each address once.
unfoldable pub raw_upstreams : Text → List Upstream → List Upstream
unfolding fresh_upstreams trim_space
raw_upstreams fallback upstreams =
    let first = trim_space fallback in
    if is_empty first
    then fresh_upstreams [] upstreams
    else record { url = first; weight = pos 1 } ∷ fresh_upstreams (first ∷ []) upstreams

-- The target of an upstream.
unfoldable pub target_of : Site → Upstream → UpstreamTarget
unfolding resolve_active_health_policy resolve_circuit_breaker_policy
target_of s item = record {
  key = item.url;
  weight = positive_or 1 item.weight;
  active = 0;
  failures = 0;
  unhealthy_until = 0;
  health = resolve_active_health_policy s.resilience.active_health_check;
  circuit = resolve_circuit_breaker_policy s.resilience.circuit_breaker;
  cb_failures = 0;
  cb_open_until = 0;
}

-- The pool of its targets; none where there are none.
unfoldable pub pool_of :
    Site → Text → Text → List (UpstreamTarget × Transport) → Option (UpstreamPool × List Transport)
unfolding strategy_of build_weighted_plan resolve_retry_policy
pool_of s route_key strategy [] = none
pool_of s route_key strategy (t ∷ ts) =
    let targets = map (λ (e : UpstreamTarget × Transport). e.0) (t ∷ ts) in
    some (
      record {
        name = route_key;
        strategy = strategy_of strategy;
        targets = targets;
        weighted_plan =
            if text_eq strategy (codes "weighted_round_robin")
            then build_weighted_plan targets
            else [];
        rr_counter = 0;
        retry = resolve_retry_policy s.resilience.retry;
      },
      map (λ (e : UpstreamTarget × Transport). e.1) (t ∷ ts),
    )

module _ {Ip Cidr : Type 0} (lib : SiteLib Ip Cidr) (files : TransportLib) where
  -- A target with the transport that it is reached by.
  unfoldable pub new_target : Site → Upstream → Option (UpstreamTarget × Transport)
  unfolding new_upstream_transport target_of
  new_target s item = elim (lib.parse_url item.url) [
    | none ↦ none
    | some u ↦ elim (new_upstream_transport files u s.upstream_tls s.timeouts s.grpc.h2c) [
      | none ↦ none
      | some transport ↦ some (target_of s item, transport)
    ]
  ]

  -- The loop that makes the targets; none where one of them cannot be made.
  unfoldable pub new_targets : Site → List Upstream → Option (List (UpstreamTarget × Transport))
  unfolding new_target trim_space
  new_targets s [] = some []
  new_targets s (item ∷ raw) =
      let rest = new_targets s raw in
      if is_empty (trim_space item.url) then rest else elim (new_target s item) [
        | none ↦ none
        | some t ↦ elim rest [ none ↦ none | some ts ↦ some (t ∷ ts) ]
      ]

  -- The pool, and the transports of its targets; none is an error. A blank strategy is round robin.
  unfoldable pub new_upstream_pool :
      Site → Text → Text → Text → List Upstream → Option (UpstreamPool × List Transport)
  unfolding raw_upstreams new_targets pool_of
  new_upstream_pool s route_key strategy fallback upstreams =
      elim (new_targets s (raw_upstreams fallback upstreams)) [
        | none ↦ none
        | some ts ↦
            pool_of s route_key (if is_empty strategy then codes "round_robin" else strategy) ts
      ]
