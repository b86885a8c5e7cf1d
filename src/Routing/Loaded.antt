-- ===== src/Routing/Loaded.antt =====
-- What the tables answer after a successful `Load`.
use flow_proxy.Prelude.{
  has_suffix, Bool, drop, ℕ, ◌≡◌, ◌≢◌, refl, sym, ap, ◌∙◌, true, false, not, ◌||◌, List, [], ◌∷◌,
  Option, none, some, some_inj, no_some, Text, codes, text_eq, text_eq_sound, text_eq_refl,
  has_prefix, lookup, ◌==◌, arith, All, All-map, Bool-cases, Option-cases, inl, inr, subst,
}
use flow_proxy.Domains.{all_domains, is_l4_site}
use flow_proxy.Routing.{lookup_site}
use flow_proxy.Routing.Load.{
  SiteItem, Sorts, port_site, Tables, lookup_site_by_port, load_domain, load_domains, load_port,
  load_site, load_sites, load, hosts_of, longer,
}
use flow_proxy.Routing.Wildcards.{
  In, In-append, In-last, IsOrdered, IsStrict, longer-IsStrict, Wins, lookup_site-Wins,
}

module _ {Site : Type 0} where
  -- Loading takes nothing away.
  abbrev Extends : Tables Site → Tables Site → Type 0
  Extends t u =
      ((d : Text) (s : Site) → lookup d t.exact ≡ some s → lookup d u.exact ≡ some s)
      × ((p : ℕ) (s : Site) → port_site p t.port_sites ≡ some s → port_site p u.port_sites ≡ some s)
      × ((w : Text × Site) → In w t.wildcards → In w u.wildcards)

  Extends-trans : (t u v : Tables Site) → Extends t u → Extends u v → Extends t v
  Extends-trans t u v g h =
      (λ d s e. h.0 d s (g.0 d s e), λ p s e. h.1 p s (g.1 p s e), λ w e. h.2 w (g.2 w e))

  -- What the tables have for a domain that was loaded: the exact name, or the wildcard's suffix.
  abbrev pub Found : Site → Text → Tables Site → Type 0
  Found s d u =
      (has_prefix d (codes "*.") ≡ false → lookup d u.exact ≡ some s)
      × (has_prefix d (codes "*.") ≡ true → In (drop 1 d, s) u.wildcards)

  Found-Extends :
      (s : Site) (d : Text) (t u : Tables Site) → Extends t u → Found s d t → Found s d u
  Found-Extends s d t u more h =
      (λ plain. more.0 d s (h.0 plain), λ wild. more.2 (drop 1 d, s) (h.1 wild))

  abbrev Gained : Site → Text → Tables Site → Tables Site → Type 0
  Gained s d t u = Extends t u × Found s d u

  insert-Gained :
      (s : Site) (d : Text) (t : Tables Site)
      → has_prefix d (codes "*.") ≡ false
      → lookup d t.exact ≡ none
      → Gained s d t (record t { exact = (d, s) ∷ t.exact })
  unfolding lookup
  insert-Gained s d t exact missing = (
    (
      λ e x k. elim (Bool-cases (text_eq d e)) [
        | inl same ↦
            absurd (no_some (sym missing ∙ ap (λ y. lookup y t.exact) (text_eq_sound d e same) ∙ k))
        | inr other ↦ rw other k
      ],
      λ p x k. k,
      λ w k. k,
    ),
    (λ plain. rw (text_eq_refl d) refl, λ wild. absurd (ground (arith, exact, wild))),
  )

  load_domain-Gained :
      (s : Site) (d : Text) (t u : Tables Site) → load_domain s d t ≡ some u → Gained s d t u
  unfolding load_domain
  load_domain-Gained s d t u h = elim (Bool-cases (has_prefix d (codes "*."))) [
    | inl wild ↦ subst (Gained s d t) (some_inj (rw wild at h)) (
      (λ e x k. k, λ p x k. k, λ w k. In-append w (drop 1 d, s) t.wildcards k),
      (λ plain. absurd (ground (arith, wild, plain)), λ _. In-last (drop 1 d, s) t.wildcards),
    )
    | inr plain ↦ elim (Option-cases (lookup d t.exact)) [
      | inr (x, taken) ↦ no_some (rw (plain, taken) at h)
      | inl missing ↦
          subst (Gained s d t) (some_inj (rw (plain, missing) at h))
            (insert-Gained s d t plain missing)
    ]
  ]

  load_domains-Gained :
      (s : Site) (ds : List Text) (t u : Tables Site)
      → load_domains s ds t ≡ some u
      → Extends t u × All (λ d. Found s d u) ds
  unfolding load_domains
  load_domains-Gained s [] t u h =
      subst (λ v. Extends t v × Unit {0}) (some_inj h) ((λ e x k. k, λ p x k. k, λ w k. k), tt)
  load_domains-Gained s (d ∷ ds) t u h = elim (Option-cases (load_domain s d t)) [
    | inl failed ↦ no_some (rw failed at h)
    | inr (v, loaded) ↦
        let first = load_domain-Gained s d t v loaded in
        let rest = load_domains-Gained s ds v u (rw loaded at h) in
        (Extends-trans t v u first.0 rest.0, (Found-Extends s d v u rest.0 first.1, rest.1))
  ]

  insert_port :
      (s : Site) (port : ℕ) (t : Tables Site)
      → port_site port t.port_sites ≡ none
      → Extends t (record t { port_sites = (port, s) ∷ t.port_sites })
        × (port ≢ 0 → port_site port ((port, s) ∷ t.port_sites) ≡ some s)
  unfolding port_site
  insert_port s port t missing = (
    (
      λ e x k. k,
      λ p x k. elim (Bool-cases (port == p)) [
        | inl same ↦
            absurd (
              no_some (sym missing ∙ ap (λ y. port_site y t.port_sites) (ground (arith, same)) ∙ k))
        | inr other ↦ rw other k
      ],
      λ w k. k,
    ),
    λ set. ground arith,
  )

  load_port-Gained :
      (s : Site) (port : ℕ) (t u : Tables Site)
      → load_port s port t ≡ some u
      → Extends t u × (port ≢ 0 → port_site port u.port_sites ≡ some s)
  unfolding load_port
  load_port-Gained s port t u h = elim (Bool-cases (port == 0)) [
    | inl unset ↦
        subst (λ v. Extends t v × (port ≢ 0 → port_site port v.port_sites ≡ some s))
          (some_inj (rw unset at h))
          ((λ e x k. k, λ p x k. k, λ w k. k), λ set. absurd (set (ground (arith, unset))))
    | inr set ↦ elim (Option-cases (port_site port t.port_sites)) [
      | inr (x, taken) ↦ no_some (rw (set, taken) at h)
      | inl missing ↦
          subst (λ v. Extends t v × (port ≢ 0 → port_site port v.port_sites ≡ some s))
            (some_inj (rw (set, missing) at h)) (insert_port s port t missing)
    ]
  ]

  module _ (sorts : Sorts Site) (compile : SiteItem → Option Site) where
    -- The site is in the tables for each of its domains and for its port.
    abbrev pub Answers : SiteItem → Site → Tables Site → Type 0
    Answers item s t =
        All (λ d. Found s d t) (all_domains sorts.sort_texts item.domain item.additional_domains)
        × (item.listen_port ≢ 0 → port_site item.listen_port t.port_sites ≡ some s)

    Answers-Extends :
        (item : SiteItem) (s : Site) (t u : Tables Site)
        → Extends t u
        → Answers item s t
        → Answers item s u
    Answers-Extends item s t u more h = (
      All-map (all_domains sorts.sort_texts item.domain item.additional_domains)
          (λ d k. Found-Extends s d t u more k) h.0,
      λ set. more.1 item.listen_port s (h.1 set),
    )

    -- An enabled site that is not a port forwarding only, with what it compiles to.
    abbrev pub Serves : SiteItem → Site → Type 0
    Serves item s =
        (item.is_enabled ≡ true) × (is_l4_site item.protocol ≡ false) × (compile item ≡ some s)

    load_site-Answers :
        (item : SiteItem) (t u : Tables Site)
        → load_site sorts compile item t ≡ some u
        → Extends t u × ((s : Site) → Serves item s → Answers item s u)
    unfolding load_site
    load_site-Answers item t u h =
        elim (Bool-cases (not item.is_enabled || is_l4_site item.protocol)) [
          | inl left_out ↦
              subst (λ v. Extends t v × ((s : Site) → Serves item s → Answers item s v))
                (some_inj (rw left_out at h))
                (
                  (λ e x k. k, λ p x k. k, λ w k. k),
                  λ s k. absurd (ground (arith, left_out, k.0, k.1)),
                )
          | inr taken ↦ elim (Option-cases (compile item)) [
            | inl failed ↦ no_some (rw (taken, failed) at h)
            | inr (s, compiled) ↦ elim (Option-cases (load_port s item.listen_port t)) [
              | inl failed ↦ no_some (rw (taken, compiled, failed) at h)
              | inr (v, loaded) ↦
                  let ports = load_port-Gained s item.listen_port t v loaded in
                  let names =
                    load_domains-Gained s
                      (all_domains sorts.sort_texts item.domain item.additional_domains) v u
                      (rw (taken, compiled, loaded) at h) in
                  (
                    Extends-trans t v u ports.0 names.0,
                    λ r k.
                        subst (λ x. Answers item x u) (some_inj (sym compiled ∙ k.2))
                          (names.1, λ set. names.0.1 item.listen_port s (ports.1 set)),
                  )
            ]
          ]
        ]

    load_sites-Answers :
        (items : List SiteItem) (t u : Tables Site)
        → load_sites sorts compile items t ≡ some u
        → Extends t u × All (λ item. (s : Site) → Serves item s → Answers item s u) items
    unfolding load_sites
    load_sites-Answers [] t u h =
        (subst (Extends t) (some_inj h) (λ e x k. k, λ p x k. k, λ w k. k), tt)
    load_sites-Answers (item ∷ items) t u h = elim (Option-cases (load_site sorts compile item t)) [
      | inl failed ↦ no_some (rw (failed, load_sites) at h)
      | inr (v, loaded) ↦
          let first = load_site-Answers item t v loaded in
          let rest = load_sites-Answers items v u (rw (loaded, load_sites) at h) in
          (
            Extends-trans t v u first.0 rest.0,
            (λ s k. Answers-Extends item s v u rest.0 (first.1 s k), rest.1),
          )
    ]

    -- What the tables answer before the wildcards are sorted.
    load-Answers :
        (items : List SiteItem) (t : Tables Site)
        → load sorts compile items ≡ some t
        → (u : Tables Site) × (t ≡ record u { wildcards = sorts.sort_slice longer u.wildcards })
          × All (λ item. (s : Site) → Serves item s → Answers item s u) items
    unfolding load
    load-Answers items t h =
        let start : Tables Site = record { exact = []; wildcards = []; port_sites = [] } in
        elim (Option-cases (load_sites sorts compile items start)) [
          | inl failed ↦ no_some (rw (failed, load) at h)
          | inr (u, loaded) ↦ (
            u,
            sym (some_inj (rw (loaded, load) at h)),
            (load_sites-Answers items start u loaded).1,
          )
        ]

    -- After a load that succeeds, every enabled site that is not for port forwarding only, and that
    -- compiles, is the one that is found for each of its domains that is not a wildcard, and for its
    -- port where it has one.
    pub load-answers :
        (items : List SiteItem) (t : Tables Site)
        → load sorts compile items ≡ some t
        → All
            (λ item.
              (s : Site)
              → Serves item s
              → All
                  (λ d. has_prefix d (codes "*.") ≡ false → lookup_site (hosts_of t) d ≡ some s)
                  (all_domains sorts.sort_texts item.domain item.additional_domains)
                × (item.listen_port ≢ 0 → lookup_site_by_port item.listen_port t ≡ some s))
            items
    unfolding lookup_site lookup_site_by_port
    load-answers items t h =
        let (u, e, answers) = load-Answers items t h in
        All-map items
          (λ item k s serves. (
            All-map (all_domains sorts.sort_texts item.domain item.additional_domains)
                (λ d found plain. rw (e, found.0 plain) refl) (k s serves).0,
            λ set. rw (e, (k s serves).1 set) (ground (arith, set)),
          ))
          answers

    -- Of an order that is strict and weak, sort.Slice puts no element behind one that the order puts
    -- after it, and it loses none.
    pub record SortsSlices : Type 0 where
      pub ordered :
          (less : (Text × Site) → (Text × Site) → Bool) (ws : List (Text × Site))
          → IsStrict less
          → IsOrdered less (sorts.sort_slice less ws)
      pub kept :
          (less : (Text × Site) → (Text × Site) → Bool) (w : Text × Site) (ws : List (Text × Site))
          → In w ws
          → In w (sorts.sort_slice less ws)

    -- After a load that succeeds, with a sort.Slice that sorts by any order that is strict and weak, a
    -- host that matches a wildcard of an enabled site that is not for port forwarding only, and that
    -- compiles, is answered for: by the site of its exact name where there is one, and else by the site of
    -- a wildcard that matches and is no shorter.
    pub load-Longest :
        (items : List SiteItem) (t : Tables Site) (host : Text)
        → SortsSlices
        → load sorts compile items ≡ some t
        → All
            (λ item.
              (s : Site)
              → Serves item s
              → All
                  (λ d.
                    has_prefix d (codes "*.") ≡ true
                    → has_suffix host (drop 1 d) ≡ true
                    → (x : Site) × (lookup_site (hosts_of t) host ≡ some x)
                      × Wins host (drop 1 d) (hosts_of t) x)
                  (all_domains sorts.sort_texts item.domain item.additional_domains))
            items
    load-Longest items t host sorting h =
        let (u, e, answers) = load-Answers items t h in
        All-map items
          (λ item k s serves.
            All-map (all_domains sorts.sort_texts item.domain item.additional_domains)
              (λ d found wild matching.
                subst
                  (λ v.
                    (x : Site) × (lookup_site (hosts_of v) host ≡ some x)
                    × Wins host (drop 1 d) (hosts_of v) x)
                  (sym e)
                  (lookup_site-Wins host (drop 1 d) s
                    (record {
                      exact_hosts = u.exact;
                      wildcards = sorts.sort_slice longer u.wildcards;
                    })
                    (sorting.ordered longer u.wildcards longer-IsStrict)
                    (sorting.kept longer (drop 1 d, s) u.wildcards (found.1 wild)) matching))
              (k s serves).0)
          answers
