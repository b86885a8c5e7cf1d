-- ===== src/Sites/Store.antt =====
-- `Store` of internal/store/store.go. The mutex makes each operation one step, during which the clock
-- reads the same; whether the blob can be saved is given, and what it holds once it is parsed.
use flow_proxy.Prelude.{
  ℕ, ◌==◌, Bool, true, false, not, ◌||◌, ◌&&◌, List, [], ◌∷◌, ◌++◌, Option, none, some, Text,
  text_eq, any, keep, length, member, if◌then◌else◌, is_positive, nonneg,
}
use flow_proxy.Domains.{all_domains}
use flow_proxy.Nodes.Sorting.{sort_texts}
use flow_proxy.Sites.Config.{Site}
use flow_proxy.Sites.Checks.{SiteLib}
use flow_proxy.Sites.Registration.{normalize_site}

-- What an operation answers: the site it stored, which comes with an error where the blob could not
-- be saved, or an error and nothing stored.
pub data Outcome : Type 0 where
  stored unsaved : Site → Outcome
  refused missing : Outcome

-- What the blob holds: nothing, what cannot be read, or sites.
pub data Blob : Type 0 where
  absent unreadable : Blob
  holds : List Site → Blob

abbrev pub after_save : Bool → Site → Outcome
after_save saves s = if saves then stored s else unsaved s

unfoldable pub domains_of : Site → List Text
unfolding all_domains
domains_of s = all_domains sort_texts s.domain s.additional_domains

unfoldable pub shares_domain : Site → Site → Bool
unfolding domains_of
shares_domain item other = any (λ d. member d (domains_of item)) (domains_of other)

abbrev pub same_port : Site → Site → Bool
same_port item other =
    item.is_enabled
    && is_positive item.listen_port
    && other.is_enabled
    && is_positive other.listen_port
    && nonneg item.listen_port == nonneg other.listen_port

-- The sites that a check compares with: those of the node but the one with the given name.
abbrev pub is_compared : Site → Text → Site → Bool
is_compared item except other = not (text_eq other.id except) && text_eq other.node_id item.node_id

-- `ensureDomainUniquenessLocked` and `ensureListenPortUniquenessLocked`: false is an error.
unfoldable pub ensure_domain_uniqueness : List Site → Site → Text → Bool
unfolding shares_domain
ensure_domain_uniqueness sites item except =
    not (any (λ e. is_compared item except e && shares_domain item e) sites)

unfoldable pub ensure_listen_port_uniqueness : List Site → Site → Text → Bool
ensure_listen_port_uniqueness sites item except =
    not (any (λ e. is_compared item except e && same_port item e) sites)

-- The loop of `ensureExistingEnabledListenPortUniquenessLocked` with the ports that are claimed.
unfoldable pub ensure_existing_ports : List ℕ → List Site → Bool
ensure_existing_ports claimed [] = true
ensure_existing_ports claimed (s ∷ sites) =
    let port = nonneg s.listen_port in
    let rest = ensure_existing_ports claimed sites in
    let next = ensure_existing_ports (port ∷ claimed) sites in
    if not s.is_enabled || not (is_positive s.listen_port)
    then rest
    else if any (λ p. p == port) claimed
    then false
    else next

unfoldable pub get_site : Text → List Site → Option Site
get_site id [] = none
get_site id (s ∷ sites) = let rest = get_site id sites in if text_eq s.id id then some s else rest

-- `s.sites[i] = f(item)` at the first site of that name.
unfoldable pub replace_site : Text → (Site → Site) → List Site → List Site
replace_site id f [] = []
replace_site id f (s ∷ sites) =
    let rest = replace_site id f sites in if text_eq s.id id then f s ∷ sites else s ∷ rest

-- The assignments of `Update`.
unfoldable pub updated_site : ℕ → Site → Site → Site
updated_site now n item = record item {
  name = n.name;
  node_id = n.node_id;
  domain = n.domain;
  listen_port = n.listen_port;
  additional_domains = n.additional_domains;
  certificate_id = n.certificate_id;
  upstream = n.upstream;
  upstreams = n.upstreams;
  upstream_tls = n.upstream_tls;
  load_balance_strategy = n.load_balance_strategy;
  routes = n.routes;
  resilience = n.resilience;
  timeouts = n.timeouts;
  cache = n.cache;
  gzip = n.gzip;
  brotli = n.brotli;
  canary = n.canary;
  auto_request_headers = n.auto_request_headers;
  auto_response_headers = n.auto_response_headers;
  request_headers = n.request_headers;
  response_headers = n.response_headers;
  remove_request_headers = n.remove_request_headers;
  remove_response_headers = n.remove_response_headers;
  rate_limit = n.rate_limit;
  traffic_control = n.traffic_control;
  ip_rule_set_ids = n.ip_rule_set_ids;
  ip_rule_set_id = n.ip_rule_set_id;
  ip_access = n.ip_access;
  basic_auth = n.basic_auth;
  security = n.security;
  is_enabled = n.is_enabled;
  force_https = n.force_https;
  updated_at = now;
}

-- The assignments of `SetEnabled`.
abbrev pub switched_site : ℕ → Bool → Site → Site
switched_site now enabled item = record item { is_enabled = enabled; updated_at = now }

-- The two times that `load` sets where they are missing.
abbrev pub dated_site : ℕ → Site → Site
dated_site now s =
    let created = if s.created_at == 0 then now else s.created_at in
    record s {
      created_at = created;
      updated_at = if s.updated_at == 0 then created else s.updated_at;
    }

unfoldable pub is_unique : List Site → Site → Text → Bool
unfolding ensure_domain_uniqueness ensure_listen_port_uniqueness
is_unique sites n except =
    ensure_domain_uniqueness sites n except && ensure_listen_port_uniqueness sites n except

unfoldable pub set_enabled : ℕ → Bool → Text → Bool → List Site → Outcome × List Site
unfolding get_site replace_site ensure_listen_port_uniqueness
set_enabled now saves id enabled sites = elim (get_site id sites) [
  | none ↦ (missing, sites)
  | some item ↦
      (if enabled
          && not (ensure_listen_port_uniqueness sites (record item { is_enabled = true }) id)
        then (refused, sites)
        else (
          after_save saves (switched_site now enabled item),
          replace_site id (switched_site now enabled) sites,
        ))
]

-- `Delete`, with whether it returns no error.
unfoldable pub delete_site : Bool → Text → List Site → Bool × List Site
delete_site saves id sites =
    let rest = keep (λ s. not (text_eq s.id id)) sites in
    if length rest == length sites then (false, rest) else (saves, rest)

-- `ReplaceAll`, with whether it returns no error.
unfoldable pub replace_all : Bool → List Site → List Site → Bool × List Site
replace_all saves items sites = (saves, items)

module _ {Ip Cidr : Type 0} (lib : SiteLib Ip Cidr) where
  unfoldable pub create_site : ℕ → Bool → Site → List Site → Outcome × List Site
  unfolding normalize_site is_unique
  create_site now saves item sites = elim (normalize_site lib item) [
    | none ↦ (refused, sites)
    | some n ↦
        (let made : Site = record n { created_at = now; updated_at = now } in
          if not (is_unique sites n [])
          then (refused, sites)
          else (after_save saves made, sites ++ made ∷ []))
  ]

  unfoldable pub update_site : ℕ → Bool → Text → Site → List Site → Outcome × List Site
  unfolding normalize_site is_unique get_site replace_site updated_site
  update_site now saves id patch sites = elim (normalize_site lib patch) [
    | none ↦ (refused, sites)
    | some n ↦
        (if not (is_unique sites n id) then (refused, sites) else elim (get_site id sites) [
          | none ↦ (missing, sites)
          | some item ↦ (
            after_save saves (updated_site now n item),
            replace_site id (updated_site now n) sites,
          )
        ])
  ]

  -- The loop of `load`, which works on the sites in place and ends at the first that does not pass
  -- the validation.
  unfoldable pub load_all : ℕ → List Site → Bool × List Site
  unfolding normalize_site
  load_all now [] = (true, [])
  load_all now (s ∷ sites) =
      let rest = load_all now sites in
      elim (normalize_site lib s) [
        | none ↦ (false, s ∷ sites)
        | some n ↦ (rest.0, dated_site now n ∷ rest.1)
      ]

  -- `load` of a blob, with whether it returns no error.
  unfoldable pub load_blob : ℕ → Blob → List Site → Bool × List Site
  unfolding load_all ensure_existing_ports
  load_blob now absent sites = (true, sites)
  load_blob now unreadable sites = (false, sites)
  load_blob now (holds parsed) sites =
      let (valid, loaded) = load_all now parsed in
      (valid && ensure_existing_ports [] loaded, loaded)
