-- ===== src/Waf/Inspection.antt =====
-- What the engine answers, against a description of its own of when a rule fires.
use flow_proxy.Prelude.{
  ◌≡◌, refl, sym, ◌∙◌, subst, ◌≤◌, Bool, true, false, not, ◌&&◌, List, [], ◌∷◌, ◌++◌, map, Option,
  none, some, some_inj, no_some, Text, codes, text_eq, is_empty, member, any, keep, ltb, leb, arith,
  All, All-map, All-of_keep, Bool-cases, Option-cases, inl, inr, trim_space,
}
use flow_proxy.Waf.{
  Pattern, RegexpLib, Rule, Violation, EngineConfig, severity_order, lower_or, normalize_config,
  compile_custom,
}
use flow_proxy.Waf.Engine.{
  Engine, Inspected, engine_of, new_engine, is_excluded_path, path_of, target_text, match_compiled,
  match_rule, match_rules, inspect, with_report, builtin_rules, is_compiled, violation_of,
}

module _ (lib : RegexpLib) where
  abbrev hits : Option Pattern → Option Text → Bool
  hits none t = false
  hits (some p) none = false
  hits (some p) (some t) = p.matches_text t

  -- A rule that is severe enough has a pattern that matches the text of its target.
  abbrev pub fires : Engine → Inspected → Rule → Bool
  fires e req r =
      leb e.severity_level (severity_order r.severity)
      && hits r.compiled (target_text lib req r.target)

  match_compiled-hits :
      (r : Rule) (o : Option Pattern) (t : Option Text)
      → (hits o t ≡ false → match_compiled lib r o t ≡ none)
        × (hits o t ≡ true
            → (v : Violation) × (match_compiled lib r o t ≡ some v)
              × (v.severity ≡ r.severity)
              × (v.rule_id ≡ r.id))
  unfolding match_compiled violation_of
  match_compiled-hits r none t = (λ h. refl, λ h. cc)
  match_compiled-hits r (some p) none = (λ h. refl, λ h. cc)
  match_compiled-hits r (some p) (some t) = elim (Bool-cases (p.matches_text t)) [
    | inl hit ↦ (
      λ h. absurd (ground (arith, h, hit)),
      λ h. (violation_of lib r p t, rw hit refl, refl, refl),
    )
    | inr miss ↦ (λ h. rw miss refl, λ h. absurd (ground (arith, h, miss)))
  ]

  match_rule-silent :
      (e : Engine) (req : Inspected) (r : Rule)
      → fires e req r ≡ false
      → match_rule lib e req r ≡ none
  unfolding match_rule
  match_rule-silent e req r h =
      elim (Bool-cases (ltb (severity_order r.severity) e.severity_level)) [
        | inl mild ↦ rw mild refl
        | inr severe ↦ rw severe (
            (match_compiled-hits r r.compiled (target_text lib req r.target)).0
              (ground (arith, h, severe)))
      ]

  match_rule-fires :
      (e : Engine) (req : Inspected) (r : Rule)
      → fires e req r ≡ true
      → (v : Violation) × (match_rule lib e req r ≡ some v)
        × (v.severity ≡ r.severity)
        × (v.rule_id ≡ r.id)
  unfolding match_rule
  match_rule-fires e req r h =
      let severe : ltb (severity_order r.severity) e.severity_level ≡ false = ground (arith, h) in
      rw severe
        ((match_compiled-hits r r.compiled (target_text lib req r.target)).1 (ground (arith, h)))

  is_empty-match_rules :
      (e : Engine) (req : Inspected) (rs : List Rule)
      → is_empty (match_rules lib e req rs) ≡ not (any (fires e req) rs)
  unfolding match_rules
  is_empty-match_rules e req [] = refl
  is_empty-match_rules e req (r ∷ rs) = elim (Bool-cases (fires e req r)) [
    | inl hit ↦
        (let (v, found, severity, id) = match_rule-fires e req r hit in rw (found, hit) refl)
    | inr miss ↦ rw (match_rule-silent e req r miss, miss) (is_empty-match_rules e req rs)
  ]

  -- A request is blocked exactly if its path is not left out, the engine blocks, and one of its
  -- rules fires, where the sort keeps whether there are violations.
  pub inspect-blocks :
      (sort : List Violation → List Violation) (e : Engine) (req : Inspected)
      → ((vs : List Violation) → is_empty (sort vs) ≡ is_empty vs)
      → (inspect lib sort e req).0.blocked ≡ (
          not (is_excluded_path lib e (path_of lib req))
          && text_eq e.config.mode (codes "block")
          && any (fires e req) e.rules)
  unfolding inspect
  inspect-blocks sort e req keeps =
      ground (arith, keeps (match_rules lib e req e.rules), is_empty-match_rules e req e.rules)

  All-with_report :
      (P : Violation → Type 0) (o : Option Violation) (rest : List Violation)
      → ((v : Violation) → o ≡ some v → P v)
      → All P rest
      → All P (with_report o rest)
  All-with_report P none rest h k = k
  All-with_report P (some v) rest h k = (h v refl, k)

  match_rules-All :
      (P : Violation → Type 0) (e : Engine) (req : Inspected) (rs : List Rule)
      → All (λ r. (v : Violation) → match_rule lib e req r ≡ some v → P v) rs
      → All P (match_rules lib e req rs)
  unfolding match_rules
  match_rules-All P e req [] h = tt
  match_rules-All P e req (r ∷ rs) h =
      All-with_report P (match_rule lib e req r) (match_rules lib e req rs) h.0
        (match_rules-All P e req rs h.1)

  -- What a violation says of its rule.
  match_rule-tells :
      (e : Engine) (req : Inspected) (r : Rule) (v : Violation)
      → match_rule lib e req r ≡ some v
      → (e.severity_level ≤ severity_order v.severity) × (v.rule_id ≡ r.id)
  match_rule-tells e req r v h = elim (Bool-cases (fires e req r)) [
    | inr miss ↦ no_some (sym (match_rule-silent e req r miss) ∙ h)
    | inl hit ↦
        (let (w, found, severity, id) = match_rule-fires e req r hit in
          let same : w ≡ v = some_inj (sym found ∙ h) in
          subst (λ u. (e.severity_level ≤ severity_order u.severity) × (u.rule_id ≡ r.id)) same
            (rw severity (ground (arith, hit)), id))
  ]

  -- What a violation may be under a configuration: severe enough, and of a rule that is not left out.
  abbrev pub IsWithin : EngineConfig → Violation → Type 0
  IsWithin cfg v =
      (severity_order (lower_or (codes "low") cfg.severity_threshold) ≤ severity_order v.severity)
      × (member v.rule_id (map trim_space cfg.exclude_rules) ≡ false)

  normalize_config-level :
      (cfg c : EngineConfig)
      → cfg.enabled ≡ true
      → normalize_config lib cfg ≡ some c
      → (c.severity_threshold ≡ lower_or (codes "low") cfg.severity_threshold)
        × (c.exclude_rules ≡ cfg.exclude_rules)
  unfolding normalize_config
  normalize_config-level cfg c on h = elim (Option-cases (compile_custom lib cfg.custom_rules)) [
    | inl bad ↦ ground (arith, h, on, bad)
    | inr (rules, good) ↦ ground (arith, h, on, good)
  ]

  engine_of-level :
      (c : EngineConfig) → severity_order c.severity_threshold ≤ (engine_of lib c).severity_level
  unfolding engine_of
  engine_of-level c = ground arith

  engine_of-excludes :
      (c : EngineConfig)
      → All (λ r. member r.id (map trim_space c.exclude_rules) ≡ false) (engine_of lib c).rules
  unfolding engine_of
  engine_of-excludes c =
      All-of_keep (λ (r : Rule). member r.id (map trim_space c.exclude_rules) ≡ false)
        (λ r. not (member r.id (map trim_space c.exclude_rules)))
        (builtin_rules lib ++ keep is_compiled c.custom_rules) (λ r h. ground (arith, h))

  violation-IsWithin :
      (cfg c : EngineConfig) (req : Inspected) (r : Rule) (v : Violation)
      → (c.severity_threshold ≡ lower_or (codes "low") cfg.severity_threshold)
        × (c.exclude_rules ≡ cfg.exclude_rules)
      → member r.id (map trim_space c.exclude_rules) ≡ false
      → match_rule lib (engine_of lib c) req r ≡ some v
      → IsWithin cfg v
  violation-IsWithin cfg c req r v (level, excludes) kept h =
      let (severe, id) = match_rule-tells (engine_of lib c) req r v h in
      let least : severity_order c.severity_threshold ≤ severity_order v.severity =
        omega (arith, severe, engine_of-level c) in
      (
        subst (λ t. severity_order t ≤ severity_order v.severity) level least,
        subst (λ xs. member v.rule_id (map trim_space xs) ≡ false) excludes
            (subst (λ i. member i (map trim_space c.exclude_rules) ≡ false) (sym id) kept),
      )

  engine_of-IsWithin :
      (sort : List Violation → List Violation) (cfg c : EngineConfig) (req : Inspected)
      → ((P : Violation → Type 0) (vs : List Violation) → All P vs → All P (sort vs))
      → (c.severity_threshold ≡ lower_or (codes "low") cfg.severity_threshold)
        × (c.exclude_rules ≡ cfg.exclude_rules)
      → All (IsWithin cfg) (inspect lib sort (engine_of lib c) req).0.violations
  unfolding inspect
  engine_of-IsWithin sort cfg c req keeps same =
      let e = engine_of lib c in
      let found : All (IsWithin cfg) (sort (match_rules lib e req e.rules)) =
        keeps (IsWithin cfg) (match_rules lib e req e.rules) (
          match_rules-All (IsWithin cfg) e req e.rules (
            All-map e.rules (λ r kept v h. violation-IsWithin cfg c req r v same kept h)
              (engine_of-excludes c))) in
      elim (Bool-cases (is_excluded_path lib e (path_of lib req))) [
        | inl out ↦ rw out tt
        | inr inside ↦ rw inside found
      ]

  -- The engine that a configuration in force makes reports only violations that are as severe as its
  -- threshold, which is low where it is blank, and none of a rule that it leaves out, for every sort
  -- that brings in nothing of its own.
  pub new_engine-IsWithin :
      (sort : List Violation → List Violation) (cfg : EngineConfig) (e : Engine) (req : Inspected)
      → ((P : Violation → Type 0) (vs : List Violation) → All P vs → All P (sort vs))
      → cfg.enabled ≡ true
      → new_engine lib cfg ≡ some e
      → All (IsWithin cfg) (inspect lib sort e req).0.violations
  unfolding new_engine
  new_engine-IsWithin sort cfg e req keeps on h = elim (Option-cases (normalize_config lib cfg)) [
    | inl bad ↦ no_some (rw (bad, new_engine) at h)
    | inr (c, good) ↦
        subst (λ x. All (IsWithin cfg) (inspect lib sort x req).0.violations)
          (some_inj (rw (good, new_engine) at h))
          (engine_of-IsWithin sort cfg c req keeps (normalize_config-level cfg c on good))
  ]
