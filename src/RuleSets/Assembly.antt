-- ===== src/RuleSets/Assembly.antt =====
-- The assembly of `ResolveSiteIPAccess`: the sources that have a rule, in order, and the merged
-- lists of them all.
use flow_proxy.Prelude.{
  Bool, ◌&&◌, List, [], ◌∷◌, ◌++◌, Option, none, some, Text, codes, text_eq, if◌then◌else◌,
  is_empty,
}
use flow_proxy.Access.{IpAccessConfig, IpAccessSourceRules}
use flow_proxy.Access.Rules.{cons_ok}
use flow_proxy.RuleSets.{
  merge_string_list, Settings, SiteRules, EffectiveRuleSet, normalize_rule_conflict_policy,
  normalize_selected_rule_set_ids, build_effective_rule_set_map, select_rule_sets, sort_by_priority,
  effective_ip_rule_source_order,
}

abbrev pub no_rules : IpAccessConfig
no_rules = record {
  allow_cidrs = [];
  deny_cidrs = [];
  allow_asns = [];
  deny_asns = [];
  deny_reputation_cidrs = [];
}

-- The variables that `appendPolicySource` changes.
pub record Assembly : Type 0 where
  pub order : List Text
  pub sources : List IpAccessSourceRules
  pub flat : IpAccessConfig

unfoldable pub clean_rules : IpAccessConfig → IpAccessConfig
unfolding merge_string_list
clean_rules rules = record {
  allow_cidrs = merge_string_list (rules.allow_cidrs ∷ []);
  deny_cidrs = merge_string_list (rules.deny_cidrs ∷ []);
  allow_asns = merge_string_list (rules.allow_asns ∷ []);
  deny_asns = merge_string_list (rules.deny_asns ∷ []);
  deny_reputation_cidrs = merge_string_list (rules.deny_reputation_cidrs ∷ []);
}

unfoldable pub is_blank : IpAccessConfig → Bool
is_blank rules =
    is_empty rules.allow_cidrs
    && is_empty rules.deny_cidrs
    && is_empty rules.allow_asns
    && is_empty rules.deny_asns
    && is_empty rules.deny_reputation_cidrs

unfoldable pub merge_rules : IpAccessConfig → IpAccessConfig → IpAccessConfig
unfolding merge_string_list
merge_rules flat clean = record {
  allow_cidrs = merge_string_list (flat.allow_cidrs ∷ clean.allow_cidrs ∷ []);
  deny_cidrs = merge_string_list (flat.deny_cidrs ∷ clean.deny_cidrs ∷ []);
  allow_asns = merge_string_list (flat.allow_asns ∷ clean.allow_asns ∷ []);
  deny_asns = merge_string_list (flat.deny_asns ∷ clean.deny_asns ∷ []);
  deny_reputation_cidrs =
      merge_string_list (flat.deny_reputation_cidrs ∷ clean.deny_reputation_cidrs ∷ []);
}

unfoldable pub append_policy_source : Text → Text → IpAccessConfig → Assembly → Assembly
unfolding clean_rules is_blank merge_rules normalize_rule_conflict_policy
append_policy_source source_id conflict_policy rules a =
    let clean = clean_rules rules in
    if is_blank clean then a else record {
      order = a.order ++ source_id ∷ [];
      sources =
          a.sources
          ++ record {
            source = source_id;
            conflict_policy = normalize_rule_conflict_policy conflict_policy;
            rules = clean;
          }
            ∷ [];
      flat = merge_rules a.flat clean;
    }

-- The two loops over the selected rule sets.
unfoldable pub append_custom : List EffectiveRuleSet → Assembly → Assembly
unfolding append_policy_source
append_custom [] a = a
append_custom (r ∷ rs) a =
    append_custom rs (append_policy_source (codes "custom:" ++ r.id) r.conflict_policy r.manual a)

unfoldable pub append_country : List EffectiveRuleSet → Assembly → Assembly
unfolding append_policy_source
append_country [] a = a
append_country (r ∷ rs) a = append_country rs (
    append_policy_source (codes "country:" ++ r.id) r.conflict_policy
      (record no_rules { allow_cidrs = r.country_allow_cidrs; deny_cidrs = r.country_deny_cidrs })
      a)

-- One turn of the loop over the source order, and the loop.
unfoldable pub append_source : IpAccessConfig → List EffectiveRuleSet → Text → Assembly → Assembly
unfolding append_policy_source append_custom append_country
append_source own sets source a =
    if text_eq source (codes "site")
    then append_policy_source (codes "site") (codes "deny_first") own a
    else if text_eq source (codes "custom")
    then append_custom sets a
    else if text_eq source (codes "country")
    then append_country sets a
    else a

unfoldable pub append_sources :
    IpAccessConfig → List EffectiveRuleSet → List Text → Assembly → Assembly
unfolding append_source
append_sources own sets [] a = a
append_sources own sets (source ∷ order) a =
    append_sources own sets order (append_source own sets source a)

abbrev pub first_or : Text → List Text → Text
first_or d [] = d
first_or d (id ∷ ids) = id

unfoldable pub resolve_site_ip_access : SiteRules → Settings → Option SiteRules
unfolding normalize_selected_rule_set_ids build_effective_rule_set_map select_rule_sets
    sort_by_priority effective_ip_rule_source_order append_sources
resolve_site_ip_access input st =
    let ids = normalize_selected_rule_set_ids input in
    elim (select_rule_sets (build_effective_rule_set_map st) ids) [
      | none ↦ none
      | some chosen ↦
          (let a =
              append_sources input.access.ip_access (sort_by_priority chosen)
                (effective_ip_rule_source_order st.ip_rule_source_order)
                (record { order = []; sources = []; flat = no_rules }) in
            some (record {
              access = record { ip_access = a.flat; source_order = a.order; sources = a.sources };
              ip_rule_set_ids = ids;
              ip_rule_set_id = first_or input.ip_rule_set_id ids;
            }))
    ]

unfoldable pub resolve_sites_for_runtime : List SiteRules → Settings → Option (List SiteRules)
unfolding resolve_site_ip_access
resolve_sites_for_runtime [] st = some []
resolve_sites_for_runtime (item ∷ items) st = elim (resolve_site_ip_access item st) [
  | none ↦ none
  | some resolved ↦ cons_ok resolved (resolve_sites_for_runtime items st)
]
