-- ===== src/Tests/Clients.antt =====
-- Address policies over addresses that are one code point each.
use flow_proxy.Prelude.{
  ℕ, ◌≡◌, ◌↔◌, refl, true, false, List, [], ◌∷◌, ◌++◌, Option, none, some, Text, codes, ◌==◌,
  Distinct, pos,
}
use flow_proxy.Http.{Header, header_get}
use flow_proxy.Access.{
  SiteAccess, CompiledSource, CompiledPolicy, compile_ip_access_policy, denied_by_policy,
}
use flow_proxy.Access.Rules.{NetLib, IpRule, address, parse_ip_rule, match_any_rule}
use flow_proxy.Access.Denial.{Verdict, denied_by_policy-Verdict}
use flow_proxy.Access.Client.{
  remote_ip_from_addr, parse_forwarded_for_ips, client_ip_from_request,
  client_ip_from_request-nearest,
}
use flow_proxy.RuleSets.{Settings, SiteRules}
use flow_proxy.RuleSets.Assembly.{no_rules, resolve_site_ip_access}
use flow_proxy.RuleSets.Resolved.{IsAligned, resolve_site_ip_access-IsAligned}

abbrev one_char : Text → Option ℕ
one_char (c ∷ []) = some c
one_char _ = none

abbrev pub net : NetLib ℕ ℕ
net = record {
  parse_ip = one_char;
  parse_cidr = one_char;
  holds = λ c ip. c == ip;
  equal = λ a b. a == b;
  split_host_port = λ t. none;
  show = λ ip. ip ∷ [];
}

abbrev source : CompiledSource ℕ ℕ
source = record {
  source = codes "site";
  allow_first = false;
  allow = address 7 ∷ [];
  deny = address 7 ∷ address 8 ∷ [];
  allow_asns = [];
  deny_asns = [];
  deny_reputation = [];
}

abbrev policy : CompiledPolicy ℕ ℕ
policy = record { sources = source ∷ []; any_allow = true }

denied_by_policy-Verdict_example :
    (denied_by_policy net policy (7 ∷ []) 0 ≡ true) ↔ Verdict net 7 0 true (source ∷ []) true
denied_by_policy-Verdict_example = denied_by_policy-Verdict net 7 0 policy (7 ∷ []) true refl

abbrev allow_list : SiteAccess
allow_list = record {
  ip_access = record no_rules { allow_cidrs = codes "a" ∷ [] };
  source_order = [];
  sources = [];
}

abbrev compiled : CompiledPolicy ℕ ℕ
compiled = record {
  sources =
      record {
        source = codes "legacy";
        allow_first = false;
        allow = address b'a' ∷ [];
        deny = [];
        allow_asns = [];
        deny_asns = [];
        deny_reputation = [];
      }
      ∷ [];
  any_allow = true;
}

compiles : compile_ip_access_policy net allow_list ≡ some compiled
unfolding compile_ip_access_policy parse_ip_rule
compiles = refl

abbrev forwarded : Header
forwarded = (codes "X-Forwarded-For", codes "x, c, p" ∷ []) ∷ []

abbrev proxies : List (IpRule ℕ ℕ)
proxies = address b'p' ∷ []

remote : remote_ip_from_addr net (codes "r") ≡ some b'r'
unfolding remote_ip_from_addr
remote = refl

chain :
    parse_forwarded_for_ips net (header_get forwarded (codes "X-Forwarded-For"))
    ≡ (b'x' ∷ []) ++ b'c' ∷ b'p' ∷ []
unfolding parse_forwarded_for_ips header_get
chain = refl

untrusted : match_any_rule net proxies b'c' ≡ false
unfolding match_any_rule
untrusted = refl

trusted : match_any_rule net proxies b'p' ≡ true
unfolding match_any_rule
trusted = refl

client_ip_from_request-nearest_example :
    client_ip_from_request net (codes "r") forwarded true proxies ≡ b'c' ∷ []
client_ip_from_request-nearest_example =
    client_ip_from_request-nearest net (codes "r") forwarded proxies b'r' b'c' (b'x' ∷ [])
      (b'p' ∷ []) remote chain untrusted (trusted, tt)

abbrev lists : List (List Text)
lists = (codes " a" ∷ codes "b" ∷ []) ∷ (codes "a" ∷ []) ∷ []

abbrev shop : SiteRules
shop = record { access = allow_list; ip_rule_set_ids = codes "office" ∷ []; ip_rule_set_id = [] }

abbrev settings : Settings
settings = record {
  ip_rule_source_order = [];
  ip_rule_sets =
      record {
        id = codes "office";
        name = [];
        priority = pos 1;
        conflict_policy = codes "deny-first";
        rules = record no_rules { deny_cidrs = codes "d" ∷ [] };
      }
      ∷ [];
  ip_country_auto_updates = [];
}

abbrev out : SiteRules
out = record {
  access = record {
    ip_access = record no_rules { allow_cidrs = codes "a" ∷ []; deny_cidrs = codes "d" ∷ [] };
    source_order = codes "site" ∷ codes "custom:office" ∷ [];
    sources =
        record {
          source = codes "site";
          conflict_policy = codes "deny_first";
          rules = record no_rules { allow_cidrs = codes "a" ∷ [] };
        }
        ∷ record {
          source = codes "custom:office";
          conflict_policy = codes "deny_first";
          rules = record no_rules { deny_cidrs = codes "d" ∷ [] };
        }
        ∷ [];
  };
  ip_rule_set_ids = codes "office" ∷ [];
  ip_rule_set_id = codes "office";
}

resolves : resolve_site_ip_access shop settings ≡ some out
unfolding resolve_site_ip_access
resolves = refl

resolve_site_ip_access-IsAligned_example :
    IsAligned out.access.source_order out.access.sources out.access.ip_access
    × Distinct out.ip_rule_set_ids
resolve_site_ip_access-IsAligned_example =
    resolve_site_ip_access-IsAligned shop out settings resolves
