-- ===== src/Sites/Config.antt =====
-- The configuration of a site: the types of internal/site/site.go. An int is an integer, and an
-- instant is 0 where it is Go's zero time.
use flow_proxy.Prelude.{ℕ, Bool, List, Text, ℤ}
use flow_proxy.Access.{IpAccessConfig, IpAccessSourceRules}
use flow_proxy.Cache.{CacheConfig}
use flow_proxy.Limiter.State.{AutoBlockConfig}
use flow_proxy.Pipeline.Guards.{BasicAuthConfig}
use flow_proxy.Upstream.Retry.{RetryConfig}
use flow_proxy.Upstream.Target.{ActiveHealthCheckConfig, CircuitBreakerConfig}

pub record Upstream : Type 0 where
  pub url : Text
  pub weight : ℤ

pub record RouteRule : Type 0 where
  pub path : Text
  pub match : Text
  pub methods : List Text
  pub header : Text
  pub header_value : Text
  pub cookie : Text
  pub cookie_value : Text
  pub query : Text
  pub query_value : Text
  pub upstream : Text
  pub upstreams : List Upstream
  pub load_balance_strategy : Text
  pub priority : ℤ
  pub rewrite_pattern : Text
  pub rewrite_replacement : Text

-- `site.Header`.
pub record HeaderLine : Type 0 where
  pub name : Text
  pub value : Text

pub record UpstreamTlsConfig : Type 0 where
  pub insecure_skip_verify : Bool
  pub server_name : Text
  pub root_ca_file : Text
  pub root_ca_pem : Text

pub record ResilienceConfig : Type 0 where
  pub active_health_check : ActiveHealthCheckConfig
  pub retry : RetryConfig
  pub circuit_breaker : CircuitBreakerConfig

pub record CanaryConfig : Type 0 where
  pub enabled : Bool
  pub header : Text
  pub header_value : Text
  pub cookie : Text
  pub cookie_value : Text
  pub weight : ℤ
  pub upstream : Text
  pub upstreams : List Upstream
  pub load_balance_strategy : Text

-- `site.RateLimitConfig` as it is configured.
pub record RateLimitSettings : Type 0 where
  pub enabled : Bool
  pub requests_per_minute : ℤ
  pub burst : ℤ
  pub auto_block : AutoBlockConfig

pub record TrafficControlConfig : Type 0 where
  pub max_concurrent_requests : ℤ
  pub max_concurrent_per_ip : ℤ
  pub allowed_methods : List Text

pub record TimeoutConfig : Type 0 where
  pub connect_millis : ℤ
  pub response_header_millis : ℤ
  pub expect_continue_millis : ℤ
  pub idle_conn_millis : ℤ
  pub request_millis : ℤ
  pub backend_keepalive_millis : ℤ
  pub tls_handshake_millis : ℤ
  pub max_idle_conns_per_host : ℤ
  pub max_backend_connections : ℤ
  pub backend_keepalive_disabled : Bool

pub record SecurityConfig : Type 0 where
  pub enable_security_headers : Bool
  pub block_user_agent_patterns : List Text

pub record JwtConfig : Type 0 where
  pub enabled : Bool
  pub extract_from : Text
  pub extract_name : Text
  pub signing_algorithm : Text
  pub hmac_secret : Text
  pub jwks_url : Text
  pub jwks_refresh_sec : ℤ
  pub issuer : Text
  pub audience : Text
  pub forward_token : Bool

pub record GrpcConfig : Type 0 where
  pub enabled : Bool
  pub h2c : Bool
  pub grpc_web : Bool

pub record WafConfig : Type 0 where
  pub enabled : Bool
  pub mode : Text
  pub severity_threshold : Text
  pub exclude_paths : List Text

pub record OauthConfig : Type 0 where
  pub enabled : Bool
  pub provider : Text
  pub client_id : Text
  pub client_secret : Text
  pub scopes : List Text
  pub allowed_domains : List Text
  pub allowed_emails : List Text
  pub callback_url : Text

-- `site.IPAccessPolicy`, which the configuration does not hold.
pub record IpAccessPolicy : Type 0 where
  pub source_order : List Text
  pub sources : List IpAccessSourceRules

-- `site.Site`; `gzip` and `brotli` stand for the one field of their types.
pub record Site : Type 0 where
  pub id : Text
  pub name : Text
  pub node_id : Text
  pub protocol : Text
  pub bind_interfaces : List Text
  pub domain : Text
  pub listen_port : ℤ
  pub additional_domains : List Text
  pub certificate_id : Text
  pub upstream : Text
  pub upstreams : List Upstream
  pub upstream_tls : UpstreamTlsConfig
  pub load_balance_strategy : Text
  pub routes : List RouteRule
  pub resilience : ResilienceConfig
  pub timeouts : TimeoutConfig
  pub cache : CacheConfig
  pub gzip : Bool
  pub brotli : Bool
  pub canary : CanaryConfig
  pub auto_request_headers : Bool
  pub auto_response_headers : Bool
  pub request_headers : List HeaderLine
  pub response_headers : List HeaderLine
  pub remove_request_headers : List Text
  pub remove_response_headers : List Text
  pub rate_limit : RateLimitSettings
  pub traffic_control : TrafficControlConfig
  pub ip_rule_set_ids : List Text
  pub ip_rule_set_id : Text
  pub ip_access : IpAccessConfig
  pub ip_access_policy : IpAccessPolicy
  pub basic_auth : BasicAuthConfig
  pub security : SecurityConfig
  pub jwt : JwtConfig
  pub grpc : GrpcConfig
  pub waf : WafConfig
  pub oauth : OauthConfig
  pub is_enabled : Bool
  pub force_https : Bool
  pub created_at : ℕ
  pub updated_at : ℕ
