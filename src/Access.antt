-- ===== src/Access.antt =====
-- The IP access policy of internal/proxy/proxy.go: how a site's rules are compiled, and which
-- clients they deny. The map of sources by name is an association list.
pub mod Rules
pub mod Denial
pub mod Client
use flow_proxy.Prelude.{
  ℕ, Bool, true, false, ◌&&◌, ◌||◌, not, List, [], ◌∷◌, ◌++◌, Option, none, some, Text, codes,
  text_eq, if◌then◌else◌, is_empty, any, lookup, store, trim_space, to_lower, arith,
}
use flow_proxy.Access.Rules.{
  NetLib, IpRule, parse_ip_rules, match_any_rule, parse_asn_rules, match_any_asn_rule,
  is_allow_first,
}

-- site.IPAccessConfig.
pub record IpAccessConfig : Type 0 where
  pub allow_cidrs : List Text
  pub deny_cidrs : List Text
  pub allow_asns : List Text
  pub deny_asns : List Text
  pub deny_reputation_cidrs : List Text

-- site.IPAccessSourceRules; `rules` holds its five lists.
pub record IpAccessSourceRules : Type 0 where
  pub source : Text
  pub conflict_policy : Text
  pub rules : IpAccessConfig

-- The fields of site.Site that the policy reads.
pub record SiteAccess : Type 0 where
  pub ip_access : IpAccessConfig
  pub source_order : List Text
  pub sources : List IpAccessSourceRules

pub record CompiledSource (Ip Cidr : Type 0) : Type 0 where
  pub source : Text
  pub allow_first : Bool
  pub allow : List (IpRule Ip Cidr)
  pub deny : List (IpRule Ip Cidr)
  pub allow_asns : List ℕ
  pub deny_asns : List ℕ
  pub deny_reputation : List (IpRule Ip Cidr)

pub record CompiledPolicy (Ip Cidr : Type 0) : Type 0 where
  pub sources : List (CompiledSource Ip Cidr)
  pub any_allow : Bool

-- The map of the sources by trimmed lower-case name; a later source replaces an earlier one.
unfoldable pub source_map :
    List IpAccessSourceRules → List (Text × IpAccessSourceRules) → List (Text × IpAccessSourceRules)
unfolding trim_space to_lower store
source_map [] m = m
source_map (s ∷ ss) m =
    let key = to_lower (trim_space s.source) in
    if text_eq key [] then source_map ss m else source_map ss (store key s m)

-- `len(allow) > 0 || len(allowASNs) > 0`.
abbrev pub has_allow : {Ip Cidr : Type 0} → CompiledSource Ip Cidr → Bool
has_allow s = not (is_empty s.allow) || not (is_empty s.allow_asns)

module _ {Ip Cidr : Type 0} (net : NetLib Ip Cidr) where
  -- The five lists of a source, in the order of the code; none where one does not parse.
  unfoldable pub compile_source : Text → Bool → IpAccessConfig → Option (CompiledSource Ip Cidr)
  unfolding parse_ip_rules parse_asn_rules
  compile_source name first cfg = elim (parse_ip_rules net cfg.allow_cidrs) [
    | none ↦ none
    | some allow ↦ elim (parse_ip_rules net cfg.deny_cidrs) [
      | none ↦ none
      | some deny ↦ elim (parse_asn_rules cfg.allow_asns) [
        | none ↦ none
        | some allow_asns ↦ elim (parse_asn_rules cfg.deny_asns) [
          | none ↦ none
          | some deny_asns ↦ elim (parse_ip_rules net cfg.deny_reputation_cidrs) [
            | none ↦ none
            | some deny_reputation ↦ some (record {
              source = name;
              allow_first = first;
              allow = allow;
              deny = deny;
              allow_asns = allow_asns;
              deny_asns = deny_asns;
              deny_reputation = deny_reputation;
            })
          ]
        ]
      ]
    ]
  ]

  -- The loop over the order of the sources.
  unfoldable pub compile_sources :
      List (Text × IpAccessSourceRules)
      → List Text
      → CompiledPolicy Ip Cidr
      → Option (CompiledPolicy Ip Cidr)
  unfolding trim_space to_lower lookup compile_source is_allow_first
  compile_sources m [] acc = some acc
  compile_sources m (name ∷ order) acc =
      let key = to_lower (trim_space name) in
      if text_eq key [] then compile_sources m order acc else elim (lookup key m) [
        | none ↦ compile_sources m order acc
        | some s ↦ elim (compile_source key (is_allow_first s.conflict_policy) s.rules) [
          | none ↦ none
          | some c ↦
              compile_sources m order (record {
                sources = acc.sources ++ c ∷ [];
                any_allow = has_allow c || acc.any_allow;
              })
        ]
      ]

  -- The rules of the site itself, where no source is compiled.
  unfoldable pub compile_legacy : IpAccessConfig → Option (CompiledPolicy Ip Cidr)
  unfolding compile_source
  compile_legacy cfg = elim (compile_source (codes "legacy") false cfg) [
    | none ↦ none
    | some c ↦ some (record { sources = c ∷ []; any_allow = has_allow c })
  ]

  -- The sources of the policy, where an order and sources are given.
  unfoldable pub compile_listed : SiteAccess → Option (CompiledPolicy Ip Cidr)
  unfolding compile_sources source_map
  compile_listed site =
      let nothing : CompiledPolicy Ip Cidr = record { sources = []; any_allow = false } in
      if not (is_empty site.source_order) && not (is_empty site.sources)
      then compile_sources (source_map site.sources []) site.source_order nothing
      else some nothing

  unfoldable pub compile_ip_access_policy : SiteAccess → Option (CompiledPolicy Ip Cidr)
  unfolding compile_listed compile_legacy
  compile_ip_access_policy site = elim (compile_listed site) [
    | none ↦ none
    | some policy ↦ (if is_empty policy.sources then compile_legacy site.ip_access else some policy)
  ]

  unfoldable pub allowed_by : CompiledSource Ip Cidr → Ip → ℕ → Bool
  unfolding match_any_rule match_any_asn_rule
  allowed_by s ip asn =
      (not (is_empty s.allow) && match_any_rule net s.allow ip)
      || match_any_asn_rule s.allow_asns asn

  unfoldable pub refused_by : CompiledSource Ip Cidr → Ip → ℕ → Bool
  unfolding match_any_rule match_any_asn_rule
  refused_by s ip asn =
      (not (is_empty s.deny) && match_any_rule net s.deny ip)
      || match_any_asn_rule s.deny_asns asn
      || (not (is_empty s.deny_reputation) && match_any_rule net s.deny_reputation ip)

  -- The loop of `deniedByPolicy`; the last argument is `policy.anyAllow`.
  unfoldable pub denied_by_sources : List (CompiledSource Ip Cidr) → Ip → ℕ → Bool → Bool
  unfolding allowed_by refused_by
  denied_by_sources [] ip asn any_allow = any_allow
  denied_by_sources (s ∷ ss) ip asn any_allow =
      let rest = denied_by_sources ss ip asn any_allow in
      if s.allow_first
      then (if allowed_by s ip asn then false else if refused_by s ip asn then true else rest)
      else (if refused_by s ip asn then true else if allowed_by s ip asn then false else rest)

  unfoldable pub denied_by_policy : CompiledPolicy Ip Cidr → Text → ℕ → Bool
  unfolding denied_by_sources
  denied_by_policy policy ip_text asn = elim (net.parse_ip ip_text) [
    | none ↦ policy.any_allow
    | some ip ↦ denied_by_sources policy.sources ip asn policy.any_allow
  ]
