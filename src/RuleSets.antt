-- ===== src/RuleSets.antt =====
-- How a site's address rules are assembled from its own rules and the shared rule sets:
-- internal/iprules/resolve.go, with the order of the sources of internal/settings/store.go. The
-- map of the rule sets is an association list.
pub mod Merge
pub mod Assembly
pub mod Resolved
use flow_proxy.Prelude.{
  ℕ, Bool, true, false, not, ◌&&◌, ◌||◌, List, [], ◌∷◌, ◌++◌, Option, none, some, Text, codes,
  text_eq, if◌then◌else◌, is_empty, member, lookup, store, trim_space, to_lower, ltb, ℤ, pos,
  negsuc,
}
use flow_proxy.Access.{IpAccessConfig, IpAccessSourceRules, SiteAccess}
use flow_proxy.Access.Rules.{is_allow_first, cons_ok}

-- The loop of `mergeStringList` over one list; `out` holds what was seen, in order.
unfoldable pub merge_into : List Text → List Text → List Text
unfolding trim_space
merge_into out [] = out
merge_into out (item ∷ items) =
    merge_into
      (if text_eq (trim_space item) [] || member (trim_space item) out
        then out
        else out ++ trim_space item ∷ [])
      items

unfoldable pub merge_lists : List Text → List (List Text) → List Text
unfolding merge_into
merge_lists out [] = out
merge_lists out (list ∷ lists) = merge_lists (merge_into out list) lists

unfoldable pub merge_string_list : List (List Text) → List Text
unfolding merge_lists
merge_string_list lists = merge_lists [] lists

-- settings.IPRuleSet.
pub record IpRuleSet : Type 0 where
  pub id : Text
  pub name : Text
  pub priority : ℤ
  pub conflict_policy : Text
  pub rules : IpAccessConfig

-- The fields of settings.IPCountryAutoUpdate that are read.
pub record IpCountryAutoUpdate : Type 0 where
  pub enabled : Bool
  pub rule_set_id : Text
  pub target_list : Text
  pub cidrs : List Text

pub record Settings : Type 0 where
  pub ip_rule_source_order : List Text
  pub ip_rule_sets : List IpRuleSet
  pub ip_country_auto_updates : List IpCountryAutoUpdate

-- The fields of site.Site that are read and written.
pub record SiteRules : Type 0 where
  pub access : SiteAccess
  pub ip_rule_set_ids : List Text
  pub ip_rule_set_id : Text

pub record EffectiveRuleSet : Type 0 where
  pub id : Text
  pub name : Text
  pub priority : ℤ
  pub conflict_policy : Text
  pub manual : IpAccessConfig
  pub country_allow_cidrs : List Text
  pub country_deny_cidrs : List Text

unfoldable pub normalize_rule_conflict_policy : Text → Text
unfolding is_allow_first
normalize_rule_conflict_policy input =
    if is_allow_first input then codes "allow_first" else codes "deny_first"

unfoldable pub normalize_selected_rule_set_ids : SiteRules → List Text
unfolding merge_into
normalize_selected_rule_set_ids input =
    merge_into (merge_into [] input.ip_rule_set_ids) (input.ip_rule_set_id ∷ [])

abbrev pub EffectiveSets : Type 0
EffectiveSets = List (Text × EffectiveRuleSet)

-- The two loops of `buildEffectiveRuleSetMap`.
unfoldable pub add_rule_sets : List IpRuleSet → EffectiveSets → EffectiveSets
unfolding trim_space store normalize_rule_conflict_policy
add_rule_sets [] out = out
add_rule_sets (item ∷ items) out =
    let id = trim_space item.id in
    if text_eq id []
    then add_rule_sets items out
    else add_rule_sets items (
        store id
          (record {
            id = id;
            name = trim_space item.name;
            priority = item.priority;
            conflict_policy = normalize_rule_conflict_policy item.conflict_policy;
            manual = item.rules;
            country_allow_cidrs = [];
            country_deny_cidrs = [];
          })
          out)

unfoldable pub with_country : IpCountryAutoUpdate → EffectiveRuleSet → EffectiveRuleSet
unfolding trim_space to_lower merge_string_list
with_country task target =
    if text_eq (to_lower (trim_space task.target_list)) (codes "deny")
    then record target {
      country_deny_cidrs = merge_string_list (target.country_deny_cidrs ∷ task.cidrs ∷ []);
    }
    else record target {
      country_allow_cidrs = merge_string_list (target.country_allow_cidrs ∷ task.cidrs ∷ []);
    }

unfoldable pub add_countries : List IpCountryAutoUpdate → EffectiveSets → EffectiveSets
unfolding trim_space lookup store with_country
add_countries [] out = out
add_countries (task ∷ tasks) out =
    let id = trim_space task.rule_set_id in
    if not task.enabled || text_eq id [] then add_countries tasks out else elim (lookup id out) [
      | none ↦ add_countries tasks out
      | some target ↦
          (if is_empty task.cidrs
            then add_countries tasks out
            else add_countries tasks (store id (with_country task target) out))
    ]

unfoldable pub build_effective_rule_set_map : Settings → EffectiveSets
unfolding add_rule_sets add_countries
build_effective_rule_set_map st =
    add_countries st.ip_country_auto_updates (add_rule_sets st.ip_rule_sets [])

-- The selected rule sets in the order of their ids; none where an id is unknown.
unfoldable pub select_rule_sets : EffectiveSets → List Text → Option (List EffectiveRuleSet)
unfolding lookup
select_rule_sets m [] = some []
select_rule_sets m (id ∷ ids) = elim (lookup id m) [
  | none ↦ none
  | some matched ↦ cons_ok matched (select_rule_sets m ids)
]

abbrev pub below : ℤ → ℤ → Bool
below (pos a) (pos b) = ltb a b
below (pos a) (negsuc b) = false
below (negsuc a) (pos b) = true
below (negsuc a) (negsuc b) = ltb b a

-- The stable sort by falling priority: of equal ones the one selected first stays first.
unfoldable pub insert_by_priority : EffectiveRuleSet → List EffectiveRuleSet → List EffectiveRuleSet
insert_by_priority r [] = r ∷ []
insert_by_priority r (s ∷ ss) =
    let rest = insert_by_priority r ss in
    if below r.priority s.priority then s ∷ rest else r ∷ s ∷ ss

unfoldable pub sort_by_priority : List EffectiveRuleSet → List EffectiveRuleSet
unfolding insert_by_priority
sort_by_priority [] = []
sort_by_priority (r ∷ rs) = insert_by_priority r (sort_by_priority rs)

-- `normalizeIPRuleSource`, whose empty result is none.
unfoldable pub normalize_ip_rule_source : Text → Option Text
unfolding trim_space to_lower
normalize_ip_rule_source input =
    let v = to_lower (trim_space input) in
    if text_eq v (codes "site")
    then some (codes "site")
    else if member v (codes "custom" ∷ codes "manual" ∷ codes "ruleset" ∷ codes "rule_set" ∷ [])
    then some (codes "custom")
    else if member v (codes "country" ∷ codes "geo" ∷ [])
    then some (codes "country")
    else none

unfoldable pub collect_sources : List Text → List Text → Option (List Text)
unfolding normalize_ip_rule_source
collect_sources out [] = some out
collect_sources out (item ∷ items) = elim (normalize_ip_rule_source item) [
  | none ↦ none
  | some source ↦ collect_sources (if member source out then out else out ++ source ∷ []) items
]

abbrev pub default_source_order : List Text
default_source_order = codes "site" ∷ codes "custom" ∷ codes "country" ∷ []

abbrev pub add_missing : List Text → List Text → List Text
add_missing out [] = out
add_missing out (s ∷ ss) = add_missing (if member s out then out else out ++ s ∷ []) ss

unfoldable pub effective_ip_rule_source_order : List Text → List Text
unfolding collect_sources
effective_ip_rule_source_order [] = default_source_order
effective_ip_rule_source_order (item ∷ items) = elim (collect_sources [] (item ∷ items)) [
  | none ↦ default_source_order
  | some out ↦ add_missing out default_source_order
]
