-- ===== src/Routing/Load.antt =====
-- The tables of the router and how they are made: `Router.Load` and `lookupSiteByPort` of
-- internal/proxy/proxy.go. A site is compiled by a function that is given, as are the two sorts of the library.
use flow_proxy.Prelude.{
  ℕ, Bool, not, ◌||◌, List, [], ◌∷◌, ◌++◌, Option, none, some, Text, codes, drop, has_prefix,
  if◌then◌else◌, lookup, ◌==◌, ltb, length,
}
use flow_proxy.Domains.{all_domains, is_l4_site}
use flow_proxy.Routing.{Hosts}

-- A site in what `Load` reads of it.
pub record SiteItem : Type 0 where
  pub id : Text
  pub is_enabled : Bool
  pub protocol : Text
  pub listen_port : ℕ
  pub domain : Text
  pub additional_domains : List Text

-- slices.Sort on texts, and sort.Slice with the order that it is given.
pub record Sorts (Site : Type 0) : Type 0 where
  pub sort_texts : List Text → List Text
  pub sort_slice : ((Text × Site) → (Text × Site) → Bool) → List (Text × Site) → List (Text × Site)

-- The tables while `Load` fills them.
pub record Tables (Site : Type 0) : Type 0 where
  pub exact : List (Text × Site)
  pub wildcards : List (Text × Site)
  pub port_sites : List (ℕ × Site)

module _ {Site : Type 0} where
  -- The order of the wildcards: the longer suffix first.
  abbrev pub longer : (Text × Site) → (Text × Site) → Bool
  longer v w = ltb (length w.0) (length v.0)

  unfoldable pub port_site : ℕ → List (ℕ × Site) → Option Site
  port_site port [] = none
  port_site port ((p, s) ∷ sites) = if p == port then some s else port_site port sites

  unfoldable pub lookup_site_by_port : ℕ → Tables Site → Option Site
  unfolding port_site
  lookup_site_by_port port t = if port == 0 then none else port_site port t.port_sites

  -- The loop over the domains of one site; none where a name is taken.
  unfoldable pub load_domain : Site → Text → Tables Site → Option (Tables Site)
  unfolding has_prefix lookup
  load_domain s domain t =
      if has_prefix domain (codes "*.")
      then some (record t { wildcards = t.wildcards ++ (drop 1 domain, s) ∷ [] })
      else elim (lookup domain t.exact) [
        | some taken ↦ none
        | none ↦ some (record t { exact = (domain, s) ∷ t.exact })
      ]

  unfoldable pub load_domains : Site → List Text → Tables Site → Option (Tables Site)
  unfolding load_domain
  load_domains s [] t = some t
  load_domains s (domain ∷ domains) t = elim (load_domain s domain t) [
    | none ↦ none
    | some u ↦ load_domains s domains u
  ]

  unfoldable pub load_port : Site → ℕ → Tables Site → Option (Tables Site)
  unfolding port_site
  load_port s port t = if port == 0 then some t else elim (port_site port t.port_sites) [
    | some taken ↦ none
    | none ↦ some (record t { port_sites = (port, s) ∷ t.port_sites })
  ]

  module _ (sorts : Sorts Site) (compile : SiteItem → Option Site) where
    unfoldable pub load_site : SiteItem → Tables Site → Option (Tables Site)
    unfolding is_l4_site load_port load_domains all_domains
    load_site item t =
        if not item.is_enabled || is_l4_site item.protocol then some t else elim (compile item) [
          | none ↦ none
          | some s ↦ elim (load_port s item.listen_port t) [
            | none ↦ none
            | some u ↦
                load_domains s (all_domains sorts.sort_texts item.domain item.additional_domains) u
          ]
        ]

    unfoldable pub load_sites : List SiteItem → Tables Site → Option (Tables Site)
    unfolding load_site
    load_sites [] t = some t
    load_sites (item ∷ items) t = elim (load_site item t) [
      | none ↦ none
      | some u ↦ load_sites items u
    ]

    -- The tables that `Load` puts in place of the old ones, which stay where it fails.
    unfoldable pub load : List SiteItem → Option (Tables Site)
    unfolding load_sites
    load items = elim (load_sites items (record { exact = []; wildcards = []; port_sites = [] })) [
      | none ↦ none
      | some t ↦ some (record t { wildcards = sorts.sort_slice longer t.wildcards })
    ]

  -- The tables as `lookupSite` reads them.
  abbrev pub hosts_of : Tables Site → Hosts Site
  hosts_of t = record { exact_hosts = t.exact; wildcards = t.wildcards }
