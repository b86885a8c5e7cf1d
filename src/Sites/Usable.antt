-- ===== src/Sites/Usable.antt =====
-- Upstreams that `Validate` passes are upstreams that `newUpstreamPool` makes a pool of.
use flow_proxy.Prelude.{
  ◌≡◌, refl, sym, subst, Bool, true, false, ◌||◌, ◌&&◌, List, [], ◌∷◌, none, some, no_some, Text,
  codes, is_empty, member, if◌then◌else◌, trim_space, trim_space_idem, arith, All, All-map,
  All-both, pos, Bool-cases, Option-cases, inl, inr,
}
use Prim.Native.String.{String}
use flow_proxy.Upstream.Target.{UpstreamTarget}
use flow_proxy.Sites.Config.{Upstream, UpstreamTlsConfig, Site}
use flow_proxy.Sites.Normalize.{normalize_upstream_list, normalize_upstreams}
use flow_proxy.Sites.Checks.{
  SiteLib, ParsedUrl, first_error-none, check_each, validate_upstream_url, validate_upstream,
}
use flow_proxy.Sites.Rules.{validate_some_upstream, validate_upstreams}
use flow_proxy.Sites.Transport.{Transport, TransportLib, upstream_roots, new_upstream_transport}
use flow_proxy.Sites.Pools.{
  fresh_upstreams, raw_upstreams, new_target, target_of, new_targets, pool_of, new_upstream_pool,
}
use flow_proxy.Sites.Lists.{Made, check_each-All}

-- The certificates that the site names can be read, and are certificates.
abbrev pub Loads : TransportLib → UpstreamTlsConfig → Type 0
Loads files cfg = Made (upstream_roots files cfg)

abbrev IsClean : Upstream → Type 0
IsClean up = (trim_space up.url ≡ up.url) × (is_empty up.url ≡ false)

normalize_upstream_list-IsClean : (ups : List Upstream) → All IsClean (normalize_upstream_list ups)
unfolding normalize_upstream_list
normalize_upstream_list-IsClean [] = tt
normalize_upstream_list-IsClean (up ∷ ups) = elim (Bool-cases (is_empty (trim_space up.url))) [
  | inl blank ↦ rw blank (normalize_upstream_list-IsClean ups)
  | inr full ↦ rw full ((trim_space_idem up.url, full), normalize_upstream_list-IsClean ups)
]

fresh_upstreams-All :
    (P : Upstream → Type 0) (seen : List Text) (ups : List Upstream)
    → All P ups
    → All P (fresh_upstreams seen ups)
unfolding fresh_upstreams
fresh_upstreams-All P seen [] h = tt
fresh_upstreams-All P seen (up ∷ ups) h =
    let key = trim_space up.url in
    elim (Bool-cases (is_empty key || member key seen)) [
      | inl out ↦ rw out (fresh_upstreams-All P seen ups h.1)
      | inr kept ↦ rw kept (h.0, fresh_upstreams-All P (key ∷ seen) ups h.1)
    ]

module _ {Ip Cidr : Type 0} (lib : SiteLib Ip Cidr) (files : TransportLib) (s : Site) where
  abbrev CanParse : Upstream → Type 0
  CanParse up = Made (lib.parse_url up.url)

  parse_url-Made :
      (raw : Text) → validate_upstream_url lib raw ≡ none → Made (lib.parse_url (trim_space raw))
  unfolding validate_upstream_url
  parse_url-Made raw h = elim (Option-cases (lib.parse_url (trim_space raw))) [
    | inl bad ↦ no_some (sym (rw (bad, validate_upstream_url) at h))
    | inr good ↦ good
  ]

  validate_upstream-CanParse :
      (message : String) (up : Upstream)
      → validate_upstream lib message up ≡ none
      → IsClean up
      → CanParse up
  unfolding validate_upstream
  validate_upstream-CanParse message up h clean =
      elim (Option-cases (validate_upstream_url lib up.url)) [
        | inr (e, bad) ↦ no_some (sym (rw (bad, validate_upstream) at h))
        | inl good ↦ subst (λ t. Made (lib.parse_url t)) clean.0 (parse_url-Made up.url good)
      ]

  new_upstream_transport-Made :
      (u : ParsedUrl)
      → Loads files s.upstream_tls
      → Made (new_upstream_transport files u s.upstream_tls s.timeouts s.grpc.h2c)
  unfolding new_upstream_transport
  new_upstream_transport-Made u (roots, loads) = rw loads (made _ _ _)
    where
      made : {A : Type 0} (b : Bool) (x y : A) → Made (if b then some x else some y)
      made true x y = (x, refl)
      made false x y = (y, refl)

  new_target-Made :
      (up : Upstream) → Loads files s.upstream_tls → CanParse up → Made (new_target lib files s up)
  unfolding new_target
  new_target-Made up loads (u, parsed) =
      let (t, made) = new_upstream_transport-Made u loads in
      ((target_of s up, t), rw (parsed, made, new_target) refl)

  new_targets-Made :
      (ups : List Upstream)
      → Loads files s.upstream_tls
      → All CanParse ups
      → Made (new_targets lib files s ups)
  unfolding new_targets
  new_targets-Made [] loads h = ([], refl)
  new_targets-Made (up ∷ ups) loads h =
      let (ts, rest) = new_targets-Made ups loads h.1 in
      elim (Bool-cases (is_empty (trim_space up.url))) [
        | inl blank ↦ (ts, rw (blank, rest) refl)
        | inr full ↦
            (let (t, made) = new_target-Made up loads h.0 in (t ∷ ts, rw (full, made, rest) refl))
      ]

  -- A first upstream that is not blank gives a target.
  pool-Made :
      (key strategy : Text) (up : Upstream) (ups : List Upstream)
      → Loads files s.upstream_tls
      → All CanParse (up ∷ ups)
      → is_empty (trim_space up.url) ≡ false
      → (ts : List (UpstreamTarget × Transport)) × (new_targets lib files s (up ∷ ups) ≡ some ts)
        × Made (pool_of s key strategy ts)
  unfolding new_targets pool_of
  pool-Made key strategy up ups loads h full =
      let (t, made) = new_target-Made up loads h.0 in
      let (ts, rest) = new_targets-Made ups loads h.1 in
      (t ∷ ts, rw (full, made, rest) refl, (_, refl))

  raw_upstreams-Made :
      (key strategy upstream : Text) (ups : List Upstream)
      → Loads files s.upstream_tls
      → (is_empty upstream && is_empty (normalize_upstream_list ups)) ≡ false
      → (is_empty upstream ≡ false → Made (lib.parse_url upstream))
      → trim_space upstream ≡ upstream
      → All CanParse (normalize_upstream_list ups)
      → (ts : List (UpstreamTarget × Transport)) × (new_targets lib files s
            (raw_upstreams upstream (normalize_upstream_list ups))
          ≡ some ts)
        × Made (pool_of s key strategy ts)
  unfolding raw_upstreams
  raw_upstreams-Made key strategy upstream ups loads some_one one clean all =
      elim (Bool-cases (is_empty upstream)) [
        | inr full ↦
            rw (clean, full)
              (pool-Made key strategy (record { url = upstream; weight = pos 1 })
                (fresh_upstreams (upstream ∷ []) (normalize_upstream_list ups)) loads
                (
                  one full,
                  fresh_upstreams-All CanParse (upstream ∷ []) (normalize_upstream_list ups) all,
                )
                (rw clean full))
        | inl blank ↦
            rw (clean, blank)
              (go (normalize_upstream_list ups) (ground (arith, some_one, blank)) all
                (normalize_upstream_list-IsClean ups))
      ]
    where
      go :
          (vs : List Upstream)
          → is_empty vs ≡ false
          → All CanParse vs
          → All IsClean vs
          → (ts : List (UpstreamTarget × Transport)) × (new_targets lib files s
                (fresh_upstreams [] vs)
              ≡ some ts)
            × Made (pool_of s key strategy ts)
      go [] h all clean = cc
      go (v ∷ vs) h all clean =
          let full : is_empty (trim_space v.url) ≡ false = rw (clean.0.0) (clean.0.1) in
          rw (full, fresh_upstreams)
            (pool-Made key strategy v (fresh_upstreams (trim_space v.url ∷ []) vs) loads
              (all.0, fresh_upstreams-All CanParse (trim_space v.url ∷ []) vs all.1) full)

  pub new_upstream_pool-Made :
      (m n : String) (key strategy upstream : Text) (upstreams : List Upstream)
      → Loads files s.upstream_tls
      → validate_some_upstream m (normalize_upstreams upstream upstreams) ≡ none
      → validate_upstreams lib n (normalize_upstreams upstream upstreams) ≡ none
      → Made (
          new_upstream_pool lib files s key strategy
            (normalize_upstreams upstream upstreams).0
            (normalize_upstreams upstream upstreams).1)
  unfolding normalize_upstreams validate_some_upstream validate_upstreams new_upstream_pool
      check_each
  new_upstream_pool-Made m n key strategy upstream upstreams loads present valid =
      let t = trim_space upstream in
      let ups = normalize_upstream_list upstreams in
      let (one, rest) =
        first_error-none
          ((if is_empty t then none else validate_upstream_url lib t)
            ∷ check_each (validate_upstream lib n) ups
            ∷ [])
          valid in
      let both =
        All-both (λ up. validate_upstream lib n up ≡ none) IsClean ups
          (check_each-All (validate_upstream lib n) ups rest.0)
          (normalize_upstream_list-IsClean upstreams) in
      let (ts, made, pool) =
        raw_upstreams-Made key (if is_empty strategy then codes "round_robin" else strategy) t
          upstreams loads (ground (arith, present))
          (λ full.
            subst (λ x. Made (lib.parse_url x)) (trim_space_idem upstream)
              (parse_url-Made t (rw full at one)))
          (trim_space_idem upstream)
          (All-map ups (λ up h. validate_upstream-CanParse n up h.0 h.1) both) in
      rw (made, new_upstream_pool) pool
