-- ===== src/Tests/SiteRuns.antt =====
-- Sites with one upstream, in the checks, the compilation and the store.
use flow_proxy.Prelude.{
  ◌+◌, ◌*◌, ◌^◌, ℕ, ◌≡◌, refl, true, false, List, [], ◌∷◌, none, some, codes, has_prefix, pos,
}
use flow_proxy.Access.{IpAccessConfig}
use flow_proxy.Domains.{is_l4_site}
use flow_proxy.Nodes.Sorting.{sort_texts}
use flow_proxy.Sites.Config.{Site}
use flow_proxy.Sites.Checks.{SiteLib}
use flow_proxy.Sites.Validate.{validate}
use flow_proxy.Sites.Transport.{Transport, upstream_roots}
use flow_proxy.Sites.Compile.{CompileLib}
use flow_proxy.Sites.Store.{absent}
use flow_proxy.Sites.Compiled.{compile_site}
use flow_proxy.Sites.Lists.{Made}
use flow_proxy.Sites.Accepted.{validate-compiles}
use flow_proxy.Sites.Calls.{
  StoreCall, create_call, update_call, switch_call, delete_call, reload_call,
}
use flow_proxy.Tests.Clients.{net}

abbrev lib : SiteLib ℕ ℕ
lib = record {
  net = net;
  parse_url = λ s. some (record { scheme = codes "http"; host = s });
  compile_regexp = λ s. some (record { matches_text = has_prefix s; replace_all = λ a b. b });
}

abbrev transport : Transport
transport = record {
  dial_timeout = pos 0;
  dial_keep_alive = pos 0;
  response_header_timeout = pos 0;
  expect_continue_timeout = pos 0;
  idle_conn_timeout = pos 0;
  tls_handshake_timeout = pos 0;
  max_idle_conns_per_host = pos 0;
  max_conns_per_host = pos 0;
  max_idle_conns = 0;
  force_attempt_http2 = false;
  tls = none;
  is_h2c = false;
}

abbrev given : CompileLib
given = record {
  sort_routes = λ rs. rs;
  float_sum = λ rate tokens elapsed. tokens + elapsed * (rate * 2 ^ 1074);
  files = record {
    default_transport = transport;
    read_file = λ f. none;
    holds_certificate = λ t. false;
  };
  patterns = record { compile = λ s. none; quote_meta = λ s. s; query_unescape = λ s. some s };
  fetches = λ u. false;
}

abbrev no_access : IpAccessConfig
no_access = record {
  allow_cidrs = codes "a" ∷ [];
  deny_cidrs = [];
  allow_asns = codes "AS64500" ∷ [];
  deny_asns = [];
  deny_reputation_cidrs = [];
}

abbrev site : Site
site = record {
  id = codes "one";
  name = [];
  node_id = [];
  protocol = [];
  bind_interfaces = [];
  domain = codes "a.b";
  listen_port = pos 8080;
  additional_domains = [];
  certificate_id = [];
  upstream = codes "http://u";
  upstreams = record { url = codes "http://v"; weight = pos 2 } ∷ [];
  upstream_tls = record {
    insecure_skip_verify = false;
    server_name = [];
    root_ca_file = [];
    root_ca_pem = [];
  };
  load_balance_strategy = [];
  routes =
      record {
        path = codes "/api";
        match = [];
        methods = codes "get" ∷ [];
        header = [];
        header_value = [];
        cookie = [];
        cookie_value = [];
        query = [];
        query_value = [];
        upstream = codes "http://w";
        upstreams = [];
        load_balance_strategy = [];
        priority = pos 1;
        rewrite_pattern = [];
        rewrite_replacement = [];
      }
      ∷ [];
  resilience = record {
    active_health_check = record {
      enabled = false;
      interval_seconds = pos 0;
      timeout_seconds = pos 0;
      path = [];
      expected_status = pos 0;
    };
    retry = record {
      enabled = false;
      attempts = pos 0;
      retry_on_statuses = none;
      backoff_strategy = [];
      backoff_millis = pos 0;
      max_backoff_millis = pos 0;
      jitter_percent = pos 0;
      retry_on_5xx = false;
      retry_on_timeout = false;
      retry_on_connection = false;
    };
    circuit_breaker = record { enabled = false; failure_threshold = pos 0; open_seconds = pos 0 };
  };
  timeouts = record {
    connect_millis = pos 0;
    response_header_millis = pos 0;
    expect_continue_millis = pos 0;
    idle_conn_millis = pos 0;
    request_millis = pos 0;
    backend_keepalive_millis = pos 0;
    tls_handshake_millis = pos 0;
    max_idle_conns_per_host = pos 0;
    max_backend_connections = pos 0;
    backend_keepalive_disabled = false;
  };
  cache = record {
    enabled = false;
    ttl_seconds = pos 0;
    max_entries = pos 0;
    max_body_bytes = pos 0;
    proactive = false;
    key_ignore_query_params = [];
  };
  gzip = false;
  brotli = false;
  canary = record {
    enabled = true;
    header = [];
    header_value = [];
    cookie = [];
    cookie_value = [];
    weight = pos 5;
    upstream = codes "http://c";
    upstreams = [];
    load_balance_strategy = [];
  };
  auto_request_headers = false;
  auto_response_headers = false;
  request_headers = [];
  response_headers = [];
  remove_request_headers = [];
  remove_response_headers = [];
  rate_limit = record {
    enabled = false;
    requests_per_minute = pos 0;
    burst = pos 0;
    auto_block = record {
      enabled = false;
      violation_threshold = pos 0;
      violation_window_seconds = pos 0;
      block_seconds = pos 0;
    };
  };
  traffic_control = record {
    max_concurrent_requests = pos 0;
    max_concurrent_per_ip = pos 0;
    allowed_methods = [];
  };
  ip_rule_set_ids = [];
  ip_rule_set_id = [];
  ip_access = no_access;
  ip_access_policy = record { source_order = []; sources = [] };
  basic_auth = record { is_enabled = false; username = []; password_hash = []; password = [] };
  security = record { enable_security_headers = false; block_user_agent_patterns = [] };
  jwt = record {
    enabled = false;
    extract_from = [];
    extract_name = [];
    signing_algorithm = [];
    hmac_secret = [];
    jwks_url = [];
    jwks_refresh_sec = pos 0;
    issuer = [];
    audience = [];
    forward_token = false;
  };
  grpc = record { enabled = false; h2c = false; grpc_web = false };
  waf = record { enabled = false; mode = []; severity_threshold = []; exclude_paths = [] };
  oauth = record {
    enabled = false;
    provider = [];
    client_id = [];
    client_secret = [];
    scopes = [];
    allowed_domains = [];
    allowed_emails = [];
    callback_url = [];
  };
  is_enabled = true;
  force_https = false;
  created_at = 0;
  updated_at = 0;
}

is_valid : validate lib site ≡ none
unfolding validate sort_texts
is_valid = refl

validate-compiles_example : Made (compile_site lib given site)
unfolding is_l4_site upstream_roots
validate-compiles_example =
    validate-compiles lib given site is_valid refl (none, refl) refl (none, refl) (none, refl)
      (none, refl)

abbrev calls : List StoreCall
calls =
    create_call 1 true site
    ∷ create_call 2 true (record site { id = codes "two" })
    ∷ update_call 3 false (codes "one") (record site { listen_port = pos 0 })
    ∷ switch_call 4 true (codes "one") false
    ∷ delete_call true (codes "two")
    ∷ reload_call 5 absent
    ∷ []
