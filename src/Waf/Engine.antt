-- ===== src/Waf/Engine.antt =====
-- The engine of internal/waf/engine.go: how it is made, and `Inspect`. The body of a request is read
-- from the connection; the order in which Go ranges over the headers is that of the list.
use flow_proxy.Prelude.{
  ℕ, ◌^◌, Bool, true, false, not, ◌||◌, ◌&&◌, List, [], ◌∷◌, ◌++◌, map, Option, none, some, Text,
  codes, text_eq, is_empty, member, any, keep, take, length, ltb, leb, ◌==◌, if◌then◌else◌,
  trim_space, has_prefix,
}
use flow_proxy.Http.{Header, header_get}
use flow_proxy.Pipeline.Headers.{replace_from}
use flow_proxy.Waf.{
  Pattern, RegexpLib, Rule, Violation, Verdict, EngineConfig, severity_order, normalize_config,
  compile_rule,
}
use flow_proxy.Waf.Builtin.{sql_injection_rules, xss_rules}

pub record Engine : Type 0 where
  pub config : EngineConfig
  pub rules : List Rule
  pub exclude_compiled : List Pattern
  pub severity_level : ℕ

-- `maxBodyRead`.
abbrev pub max_body_read : ℕ
max_body_read = 2 ^ 20

-- The body of a request: none, one whose reading fails, or its bytes.
pub data RequestBody : Type 0 where
  no_content broken : RequestBody
  content : List ℕ → RequestBody

-- What `Inspect` reads of a request.
pub record Inspected : Type 0 where
  pub method : Text
  pub path : Text
  pub raw_query : Text
  pub header : Header
  pub body : RequestBody

abbrev pub is_compiled : Rule → Bool
is_compiled r = elim r.compiled [ none ↦ false | some p ↦ true ]

-- `readBody`: the bytes that are read, and the body that is handed on.
unfoldable pub read_body : RequestBody → List ℕ × RequestBody
read_body no_content = ([], no_content)
read_body broken = ([], broken)
read_body (content bytes) = (take max_body_read bytes, content (take max_body_read bytes))

-- One line of `headersAsString` for each value.
unfoldable pub header_lines : Text → List Text → Text
header_lines key [] = []
header_lines key (value ∷ values) = key ++ codes ": " ++ value ++ 10 ∷ header_lines key values

unfoldable pub headers_as_string : Header → Text
unfolding header_lines
headers_as_string [] = []
headers_as_string ((key, values) ∷ headers) = header_lines key values ++ headers_as_string headers

unfoldable pub truncate_string : Text → ℕ → Text
truncate_string s max_len = if leb (length s) max_len then s else take max_len s ++ codes "..."

-- Appends what a rule reports to what the later ones report.
abbrev pub with_report : Option Violation → List Violation → List Violation
with_report none rest = rest
with_report (some v) rest = v ∷ rest

module _ (lib : RegexpLib) where
  -- The pattern of a path that is left out.
  unfoldable pub exclude_pattern : Text → Text
  unfolding has_prefix replace_from
  exclude_pattern path =
      if has_prefix path (codes "^")
      then path
      else b'^' ∷ (replace_from (codes "\\*") (codes ".*") 0 (lib.quote_meta path) ++ codes "($|/)")

  unfoldable pub compile_excludes : List Text → List Pattern
  unfolding exclude_pattern
  compile_excludes [] = []
  compile_excludes (path ∷ paths) =
      let rest = compile_excludes paths in
      if is_empty path
      then rest
      else elim (lib.compile (exclude_pattern path)) [ none ↦ rest | some reg ↦ reg ∷ rest ]

  unfoldable pub builtin_rules : List Rule
  unfolding sql_injection_rules xss_rules compile_rule
  builtin_rules = map (compile_rule lib) (sql_injection_rules ++ xss_rules)

  -- The engine of a normalised configuration.
  unfoldable pub engine_of : EngineConfig → Engine
  unfolding builtin_rules compile_excludes severity_order trim_space
  engine_of cfg =
      let loaded = builtin_rules ++ keep is_compiled cfg.custom_rules in
      let level = severity_order cfg.severity_threshold in
      record {
        config = cfg;
        rules = keep (λ r. not (member r.id (map trim_space cfg.exclude_rules))) loaded;
        exclude_compiled = compile_excludes cfg.exclude_paths;
        severity_level = if level == 0 then 1 else level;
      }

  unfoldable pub new_engine : EngineConfig → Option Engine
  unfolding normalize_config engine_of
  new_engine cfg = elim (normalize_config lib cfg) [ none ↦ none | some c ↦ some (engine_of c) ]

  unfoldable pub is_excluded_path : Engine → Text → Bool
  is_excluded_path e path = any (λ p. p.matches_text path) e.exclude_compiled

  abbrev pub path_of : Inspected → Text
  path_of req = if is_empty req.path then codes "/" else req.path

  -- `uriTarget`.
  unfoldable pub uri_target : Inspected → Text
  uri_target req =
      if is_empty req.raw_query
      then path_of req
      else path_of req
        ++ b'?' ∷ elim (lib.query_unescape req.raw_query) [
          | none ↦ req.raw_query
          | some decoded ↦ decoded
        ]

  -- The text that a rule of a target is matched with; none for a target that is not known.
  unfoldable pub target_text : Inspected → Text → Option Text
  unfolding uri_target read_body headers_as_string header_get
  target_text req target =
      if text_eq target (codes "uri") || text_eq target (codes "args")
      then some (uri_target req)
      else if text_eq target (codes "body")
      then some (read_body req.body).0
      else if text_eq target (codes "headers")
      then some (headers_as_string req.header)
      else if text_eq target (codes "cookies")
      then some (header_get req.header (codes "Cookie"))
      else if text_eq target (codes "method")
      then some req.method
      else none

  -- What is shown of the match: the method as it is, of any other text what the pattern finds.
  abbrev pub matched_value : Rule → Pattern → Text → Text
  matched_value rule p t = if text_eq rule.target (codes "method") then t else p.find_text t

  -- What is recorded of a match.
  unfoldable pub violation_of : Rule → Pattern → Text → Violation
  unfolding truncate_string
  violation_of rule p t = record {
    rule_id = rule.id;
    rule_name = rule.name;
    category = rule.category;
    severity = rule.severity;
    target = rule.target;
    matched = truncate_string (matched_value rule p t) 80;
  }

  -- A rule's pattern on the text of its target.
  unfoldable pub match_compiled : Rule → Option Pattern → Option Text → Option Violation
  unfolding violation_of
  match_compiled rule none t = none
  match_compiled rule (some p) none = none
  match_compiled rule (some p) (some t) =
      if p.matches_text t then some (violation_of rule p t) else none

  -- The body of the loop over the rules.
  unfoldable pub match_rule : Engine → Inspected → Rule → Option Violation
  unfolding severity_order target_text match_compiled
  match_rule e req rule =
      if ltb (severity_order rule.severity) e.severity_level
      then none
      else match_compiled rule rule.compiled (target_text req rule.target)

  unfoldable pub match_rules : Engine → Inspected → List Rule → List Violation
  unfolding match_rule
  match_rules e req [] = []
  match_rules e req (rule ∷ rules) = with_report (match_rule e req rule) (match_rules e req rules)

  -- `Inspect` with the body that is handed on; its sort.Slice on the violations is given.
  unfoldable pub inspect :
      (List Violation → List Violation) → Engine → Inspected → Verdict × RequestBody
  unfolding is_excluded_path match_rules read_body
  inspect sort e req =
      let found = sort (match_rules e req e.rules) in
      if is_excluded_path e (path_of req)
      then (record { blocked = false; mode = []; violations = [] }, req.body)
      else (
        record {
          blocked = text_eq e.config.mode (codes "block") && not (is_empty found);
          mode = e.config.mode;
          violations = found;
        },
        (read_body req.body).1,
      )
