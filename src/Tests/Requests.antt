-- ===== src/Tests/Requests.antt =====
-- A request at the guards of a site.
use flow_proxy.Prelude.{
  ℕ, ◌≡◌, Bool, true, false, [], ◌∷◌, some, Text, codes, lookup, text_eq, arith,
}
use flow_proxy.Http.{header_get}
use flow_proxy.Limiter.State.{allow_bucket, is_blocked, spend, refill, unblock}
use flow_proxy.Limiter.{bucket_from}
use flow_proxy.Pipeline.Guards.{
  GuardedSite, SiteState, Arrival, Inspection, OauthSession, allow_method, user_agent_blocked,
  limit_rate, turned_away, pass_guards,
}
use flow_proxy.Pipeline.Admission.{is_admitted, settled, pass_guards-admits, pass_guards-settled}
use flow_proxy.Tests.Clients.{net}
use flow_proxy.Tests.Limits.{limiter}

abbrev plain_compare : Text → Text → Bool
plain_compare hash password = text_eq hash password

abbrev guarded : GuardedSite ℕ ℕ
guarded = record {
  listen_port = 0;
  force_https = true;
  ip_policy = record { sources = []; any_allow = false };
  basic_auth = record {
    is_enabled = true;
    username = codes "u";
    password_hash = [];
    password = codes "p";
  };
  allowed_methods = codes "GET" ∷ [];
  blocked_user_agents = (λ agent. text_eq agent (codes "bot")) ∷ [];
  max_concurrent = 2;
  max_concurrent_per_ip = 1;
}

abbrev arrival : Arrival
arrival = record {
  method = codes "get";
  header = (codes "User-Agent", codes "cli" ∷ []) ∷ [];
  is_tls = true;
  local_port = 443;
  client_ip = 7 ∷ [];
  client_asn = 0;
  credentials = some (codes "u", codes "p");
  now = 1_000;
  inspection = Inspection.detected;
  session = OauthSession.no_oauth;
  has_valid_token = true;
}

abbrev idle : SiteState
idle = record { limiter = some limiter; active_requests = 1; per_ip_requests = (codes "x", 1) ∷ [] }

pass_guards-admits_example :
    is_admitted (pass_guards net plain_compare guarded arrival idle).0 ≡ true
unfolding turned_away limit_rate allow_method user_agent_blocked header_get lookup allow_bucket
    is_blocked bucket_from spend refill unblock
pass_guards-admits_example = pass_guards-admits net plain_compare guarded arrival idle

pass_guards-settled_example :
    let z =
      settled net plain_compare guarded
        (7 ∷ [])
        (pass_guards net plain_compare guarded arrival idle) in
    (z.active_requests ≡ 1) × (lookup (codes "x") z.per_ip_requests ≡ some 1)
unfolding lookup
pass_guards-settled_example =
    pass_guards-settled net plain_compare guarded arrival (codes "x") idle (λ h. ground (arith, h))
