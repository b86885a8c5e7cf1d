-- ===== src/Waf.antt =====
-- The web application firewall of internal/waf: its rules and configuration (rules.go), and the
-- engine that inspects requests (engine.go). Package regexp is a parameter.
pub mod Builtin
pub mod Engine
pub mod Inspection
use Prim.Native.String.{String}
use flow_proxy.Prelude.{
  ℕ, Bool, not, ◌||◌, List, [], ◌∷◌, Option, none, some, Text, codes, text_eq, is_empty,
  if◌then◌else◌, trim_space, to_lower, ◌==◌,
}

-- A compiled regular expression: MatchString and FindString.
pub record Pattern : Type 0 where
  pub matches_text : Text → Bool
  pub find_text : Text → Text

-- What the code calls of packages regexp and url: regexp.Compile, regexp.QuoteMeta and
-- url.QueryUnescape.
pub record RegexpLib : Type 0 where
  pub compile : Text → Option Pattern
  pub quote_meta : Text → Text
  pub query_unescape : Text → Option Text

-- `Rule`; a category, a severity and a target are texts, as in the source.
pub record Rule : Type 0 where
  pub id : Text
  pub name : Text
  pub category : Text
  pub severity : Text
  pub target : Text
  pub pattern : Text
  pub compiled : Option Pattern

-- A rule before it is compiled.
pub record RuleText : Type 0 where
  pub id : Text
  pub name : Text
  pub category : Text
  pub severity : Text
  pub target : Text
  pub pattern : Text

abbrev pub uri_rule : String → String → String → String → String → RuleText
uri_rule id name category severity pattern = record {
  id = codes id;
  name = codes name;
  category = codes category;
  severity = codes severity;
  target = codes "uri";
  pattern = codes pattern;
}

pub record Violation : Type 0 where
  pub rule_id : Text
  pub rule_name : Text
  pub category : Text
  pub severity : Text
  pub target : Text
  pub matched : Text

pub record Verdict : Type 0 where
  pub blocked : Bool
  pub mode : Text
  pub violations : List Violation

-- `SeverityOrder`, with 0 for a severity that is not in the map.
unfoldable pub severity_order : Text → ℕ
severity_order s =
    if text_eq s (codes "critical")
    then 4
    else if text_eq s (codes "high")
    then 3
    else if text_eq s (codes "medium")
    then 2
    else if text_eq s (codes "low")
    then 1
    else 0

-- `Config` of the package.
pub record EngineConfig : Type 0 where
  pub enabled : Bool
  pub mode : Text
  pub severity_threshold : Text
  pub exclude_paths : List Text
  pub custom_rules : List Rule
  pub exclude_rules : List Text

-- The loop that drops the blank paths.
unfoldable pub clean_paths : List Text → List Text
unfolding trim_space
clean_paths [] = []
clean_paths (p ∷ paths) =
    let rest = clean_paths paths in if is_empty (trim_space p) then rest else trim_space p ∷ rest

-- A text that is lowered and trimmed, with what stands in for a blank one.
abbrev pub lower_or : Text → Text → Text
unfolding to_lower trim_space
lower_or default s = let t = to_lower (trim_space s) in if is_empty t then default else t

module _ (lib : RegexpLib) where
  -- The loop that compiles the custom rules; none where a pattern is invalid.
  unfoldable pub compile_custom : List Rule → Option (List Rule)
  unfolding trim_space
  compile_custom [] = some []
  compile_custom (rule ∷ rules) =
      let rest = compile_custom rules in
      let pattern = trim_space rule.pattern in
      let made : Option Rule = if is_empty pattern then some rule else elim (lib.compile pattern) [
        | none ↦ none
        | some reg ↦ some (record rule { compiled = some reg })
      ] in
      elim made [ none ↦ none | some r ↦ elim rest [ none ↦ none | some rs ↦ some (r ∷ rs) ] ]

  -- `Config.Normalize`; none is an error.
  unfoldable pub normalize_config : EngineConfig → Option EngineConfig
  unfolding to_lower trim_space severity_order clean_paths compile_custom
  normalize_config c =
      let mode = lower_or (codes "block") c.mode in
      let threshold = lower_or (codes "low") c.severity_threshold in
      if not c.enabled
      then some c
      else if not (text_eq mode (codes "block") || text_eq mode (codes "detect"))
      then none
      else if severity_order threshold == 0
      then none
      else elim (compile_custom c.custom_rules) [
        | none ↦ none
        | some rules ↦ some (record c {
          mode = mode;
          severity_threshold = threshold;
          exclude_paths = clean_paths c.exclude_paths;
          custom_rules = rules;
        })
      ]

  -- `compileRules`: a rule whose pattern is blank or invalid is kept without one.
  unfoldable pub compile_rule : RuleText → Rule
  unfolding trim_space
  compile_rule r =
      let pattern = trim_space r.pattern in
      record {
        id = r.id;
        name = r.name;
        category = r.category;
        severity = r.severity;
        target = r.target;
        pattern = r.pattern;
        compiled = if is_empty pattern then none else lib.compile pattern;
      }
