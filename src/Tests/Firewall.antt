-- ===== src/Tests/Firewall.antt =====
-- An engine whose patterns are the texts that they contain.
use flow_proxy.Prelude.{
  ◌≡◌, refl, true, not, ◌&&◌, List, [], ◌∷◌, Option, none, some, codes, text_eq, any, contains, All,
}
use flow_proxy.Waf.{RegexpLib, Violation, EngineConfig}
use flow_proxy.Waf.Engine.{
  Engine, Inspected, content, engine_of, new_engine, is_excluded_path, path_of, inspect,
}
use flow_proxy.Waf.Inspection.{fires, IsWithin, inspect-blocks, new_engine-IsWithin}

abbrev patterns : RegexpLib
patterns = record {
  compile = λ s. some (record { matches_text = λ t. contains t s; find_text = λ t. s });
  quote_meta = λ s. s;
  query_unescape = λ s. some s;
}

abbrev config : EngineConfig
config = record {
  enabled = true;
  mode = codes "block";
  severity_threshold = codes "high";
  exclude_paths = [];
  custom_rules =
      record {
        id = codes "mine";
        name = [];
        category = [];
        severity = codes "critical";
        target = codes "body";
        pattern = codes "x";
        compiled = none;
      }
      ∷ [];
  exclude_rules = codes "xss-001" ∷ [];
}

abbrev request : Inspected
request = record {
  method = codes "POST";
  path = codes "/";
  raw_query = [];
  header = [];
  body = content (codes "axb");
}

abbrev same : List Violation → List Violation
same vs = vs

inspect-blocks_example : (inspect patterns same (engine_of patterns config) request).0.blocked ≡ (
    not (is_excluded_path patterns (engine_of patterns config) (path_of patterns request))
    && text_eq (engine_of patterns config).config.mode (codes "block")
    && any (fires patterns (engine_of patterns config) request) (engine_of patterns config).rules)
inspect-blocks_example =
    inspect-blocks patterns same (engine_of patterns config) request (λ vs. refl)

abbrev normal : Option Engine
unfolding new_engine
normal = new_engine patterns config

normal_made : (e : Engine) × (normal ≡ some e)
unfolding normal new_engine
normal_made = (_, refl)

new_engine-IsWithin_example :
    All (IsWithin patterns config) (inspect patterns same normal_made.0 request).0.violations
unfolding normal
new_engine-IsWithin_example =
    new_engine-IsWithin patterns same config normal_made.0 request (λ P vs h. h) refl normal_made.1
