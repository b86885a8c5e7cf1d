-- ===== src/RuleSets/Resolved.antt =====
-- What a resolved site holds.
use flow_proxy.Prelude.{
  Bool, true, false, List, [], ◌∷◌, ◌++◌, none, some, no_some, some_inj, Text, codes, any, Distinct,
  ◌≡◌, refl, ap, ◌∙◌, arith, map, All, All-append, lookup, Bool-cases, Option-cases, subst, inl,
  inr, ◌↔◌,
}
use flow_proxy.Access.{IpAccessConfig, IpAccessSourceRules}
use flow_proxy.RuleSets.{
  EffectiveSets, EffectiveRuleSet, SiteRules, Settings, select_rule_sets, sort_by_priority,
  normalize_rule_conflict_policy, normalize_selected_rule_set_ids, build_effective_rule_set_map,
  effective_ip_rule_source_order,
}
use flow_proxy.RuleSets.Merge.{merge_into-Distinct_twice, merge_string_list-union}
use flow_proxy.RuleSets.Assembly.{
  Assembly, no_rules, clean_rules, is_blank, merge_rules, append_policy_source, append_custom,
  append_country, append_source, append_sources, resolve_site_ip_access,
}

-- The five lists each hold a text at most once.
pub record HasDistinct (r : IpAccessConfig) : Type 0 where
  pub allow_cidrs : Distinct r.allow_cidrs
  pub deny_cidrs : Distinct r.deny_cidrs
  pub allow_asns : Distinct r.allow_asns
  pub deny_asns : Distinct r.deny_asns
  pub deny_reputation_cidrs : Distinct r.deny_reputation_cidrs

-- The order names the sources one by one, each source has a rule, and no list has a text twice.
pub record IsAligned (order : List Text) (sources : List IpAccessSourceRules)
    (flat : IpAccessConfig) : Type 0 where
  pub named : map (λ s. s.source) sources ≡ order
  pub filled : All (λ s. (is_blank s.rules ≡ false) × HasDistinct s.rules) sources
  pub merged : HasDistinct flat

abbrev Aligned : Assembly → Type 0
Aligned a = IsAligned a.order a.sources a.flat

clean_rules-HasDistinct : (r : IpAccessConfig) → HasDistinct (clean_rules r)
unfolding clean_rules
clean_rules-HasDistinct r = record {
  allow_cidrs = (merge_string_list-union (r.allow_cidrs ∷ [])).0;
  deny_cidrs = (merge_string_list-union (r.deny_cidrs ∷ [])).0;
  allow_asns = (merge_string_list-union (r.allow_asns ∷ [])).0;
  deny_asns = (merge_string_list-union (r.deny_asns ∷ [])).0;
  deny_reputation_cidrs = (merge_string_list-union (r.deny_reputation_cidrs ∷ [])).0;
}

merge_rules-HasDistinct : (flat r : IpAccessConfig) → HasDistinct (merge_rules flat r)
unfolding merge_rules
merge_rules-HasDistinct flat r = record {
  allow_cidrs = (merge_string_list-union (flat.allow_cidrs ∷ r.allow_cidrs ∷ [])).0;
  deny_cidrs = (merge_string_list-union (flat.deny_cidrs ∷ r.deny_cidrs ∷ [])).0;
  allow_asns = (merge_string_list-union (flat.allow_asns ∷ r.allow_asns ∷ [])).0;
  deny_asns = (merge_string_list-union (flat.deny_asns ∷ r.deny_asns ∷ [])).0;
  deny_reputation_cidrs =
      (merge_string_list-union (flat.deny_reputation_cidrs ∷ r.deny_reputation_cidrs ∷ [])).0;
}

map-snoc :
    {A B : Type 0} (f : A → B) (xs : List A) (x : A) → map f (xs ++ x ∷ []) ≡ map f xs ++ f x ∷ []
map-snoc f [] x = refl
map-snoc f (y ∷ xs) x = ap (λ r. f y ∷ r) (map-snoc f xs x)

append-Aligned :
    (id policy : Text) (rules : IpAccessConfig) (a : Assembly)
    → Aligned a
    → Aligned (append_policy_source id policy rules a)
unfolding append_policy_source
append-Aligned id policy rules a i =
    let new : IpAccessSourceRules = record {
      source = id;
      conflict_policy = normalize_rule_conflict_policy policy;
      rules = clean_rules rules;
    } in
    elim (Bool-cases (is_blank (clean_rules rules))) [
      | inl blank ↦ rw blank i
      | inr full ↦ rw full (record {
        named = map-snoc (λ s. s.source) a.sources new ∙ ap (λ o. o ++ id ∷ []) i.named;
        filled =
            All-append _ a.sources (new ∷ []) i.filled ((full, clean_rules-HasDistinct rules), tt);
        merged = merge_rules-HasDistinct a.flat (clean_rules rules);
      })
    ]

append_custom-Aligned :
    (rs : List EffectiveRuleSet) (a : Assembly) → Aligned a → Aligned (append_custom rs a)
unfolding append_custom
append_custom-Aligned [] a i = i
append_custom-Aligned (r ∷ rs) a i =
    append_custom-Aligned rs _
      (append-Aligned (codes "custom:" ++ r.id) r.conflict_policy r.manual a i)

append_country-Aligned :
    (rs : List EffectiveRuleSet) (a : Assembly) → Aligned a → Aligned (append_country rs a)
unfolding append_country
append_country-Aligned [] a i = i
append_country-Aligned (r ∷ rs) a i = append_country-Aligned rs _ (
    append-Aligned (codes "country:" ++ r.id) r.conflict_policy
      (record no_rules { allow_cidrs = r.country_allow_cidrs; deny_cidrs = r.country_deny_cidrs }) a
      i)

append_source-Aligned :
    (own : IpAccessConfig) (sets : List EffectiveRuleSet) (source : Text) (a : Assembly)
    → Aligned a
    → Aligned (append_source own sets source a)
unfolding append_source
append_source-Aligned own sets source a i = ground (
  arith,
  append-Aligned (codes "site") (codes "deny_first") own a i,
  append_custom-Aligned sets a i,
  append_country-Aligned sets a i,
)

append_sources-Aligned :
    (own : IpAccessConfig) (sets : List EffectiveRuleSet) (order : List Text) (a : Assembly)
    → Aligned a
    → Aligned (append_sources own sets order a)
unfolding append_sources
append_sources-Aligned own sets [] a i = i
append_sources-Aligned own sets (source ∷ order) a i =
    append_sources-Aligned own sets order _ (append_source-Aligned own sets source a i)

resolved :
    (ids : List Text) (input : SiteRules) (chosen : List EffectiveRuleSet) (order : List Text)
    → Aligned (
        append_sources input.access.ip_access
          (sort_by_priority chosen)
          order
          (record { order = []; sources = []; flat = no_rules }))
resolved ids input chosen order =
    append_sources-Aligned input.access.ip_access (sort_by_priority chosen) order _ (record {
      named = refl;
      filled = tt;
      merged = record {
        allow_cidrs = tt;
        deny_cidrs = tt;
        allow_asns = tt;
        deny_asns = tt;
        deny_reputation_cidrs = tt;
      };
    })

-- A site that resolves has a policy whose order names its sources one by one, every source with a
-- rule, no text twice in any of its lists, and its selected rule sets are distinct.
pub resolve_site_ip_access-IsAligned :
    (input out : SiteRules) (st : Settings)
    → resolve_site_ip_access input st ≡ some out
    → IsAligned out.access.source_order out.access.sources out.access.ip_access
      × Distinct out.ip_rule_set_ids
unfolding resolve_site_ip_access
resolve_site_ip_access-IsAligned input out st h =
    let ids = normalize_selected_rule_set_ids input in
    elim (Option-cases (select_rule_sets (build_effective_rule_set_map st) ids)) [
      | inl unknown ↦ no_some (rw (unknown, resolve_site_ip_access) at h)
      | inr (chosen, known) ↦
          subst
            (λ o.
              IsAligned o.access.source_order o.access.sources o.access.ip_access
              × Distinct o.ip_rule_set_ids)
            (some_inj (rw (known, resolve_site_ip_access) at h))
            (
              resolved ids input chosen (effective_ip_rule_source_order st.ip_rule_source_order),
              unfold normalize_selected_rule_set_ids in
                  merge_into-Distinct_twice input.ip_rule_set_ids (input.ip_rule_set_id ∷ []),
            )
    ]

-- Whether a rule set is not there.
abbrev pub is_unknown : EffectiveSets → Text → Bool
is_unknown m id = elim (lookup id m) [ none ↦ true | some r ↦ false ]

select-unknown :
    (m : EffectiveSets) (ids : List Text)
    → (select_rule_sets m ids ≡ none) ↔ (any (is_unknown m) ids ≡ true)
unfolding select_rule_sets
select-unknown m [] = ground arith
select-unknown m (id ∷ ids) = ground (arith, select-unknown m ids)

-- A site fails to resolve exactly if one of the rule sets that it selects is not there.
pub resolve_site_ip_access-unknown :
    (input : SiteRules) (st : Settings)
    → (resolve_site_ip_access input st ≡ none) ↔ (
        any (is_unknown (build_effective_rule_set_map st)) (normalize_selected_rule_set_ids input)
        ≡ true)
unfolding resolve_site_ip_access
resolve_site_ip_access-unknown input st = ground (
  arith,
  select-unknown (build_effective_rule_set_map st) (normalize_selected_rule_set_ids input),
)
