-- ===== src/Sites/Limits.antt =====
-- The checks of internal/site/site.go on the parts of a site that are numbers and short texts.
use flow_proxy.Prelude.{
  ℕ, Bool, false, not, ◌||◌, ◌&&◌, List, [], ◌∷◌, Option, none, some, Text, codes, text_eq,
  is_empty, if◌then◌else◌, trim_space, to_lower, ℤ, pos, negsuc, is_positive, is_negative, ltb,
}
use flow_proxy.Cache.{CacheConfig}
use flow_proxy.Upstream.Retry.{RetryConfig}
use flow_proxy.Upstream.Target.{ActiveHealthCheckConfig, CircuitBreakerConfig}
use flow_proxy.Sites.Config.{UpstreamTlsConfig, ResilienceConfig, RateLimitSettings, TimeoutConfig}
use flow_proxy.Sites.Checks.{Check, reject, first_error, check_each, contains_any}

-- `v > n`.
abbrev pub exceeds : ℕ → ℤ → Bool
exceeds n (pos m) = ltb n m
exceeds n (negsuc m) = false

unfoldable pub validate_upstream_tls : UpstreamTlsConfig → Check
unfolding trim_space
validate_upstream_tls cfg =
    let name = trim_space cfg.server_name in
    if is_empty name
      && is_empty (trim_space cfg.root_ca_file)
      && is_empty (trim_space cfg.root_ca_pem)
      && not cfg.insecure_skip_verify
    then none
    else reject (not (is_empty name) && contains_any name (codes " /"))
        "upstream tls serverName is invalid"

unfoldable pub validate_health_check : ActiveHealthCheckConfig → Check
unfolding first_error
validate_health_check hc = first_error (
    reject (is_negative hc.interval_seconds)
      "active health check intervalSeconds cannot be negative"
    ∷ reject (is_negative hc.timeout_seconds)
        "active health check timeoutSeconds cannot be negative"
    ∷ reject (is_negative hc.expected_status || exceeds 999 hc.expected_status)
        "active health check expectedStatus must be within 0-999"
    ∷ reject (hc.enabled && not (is_positive hc.interval_seconds))
        "active health check intervalSeconds must be greater than 0"
    ∷ reject (hc.enabled && not (is_positive hc.timeout_seconds))
        "active health check timeoutSeconds must be greater than 0"
    ∷ [])

abbrev pub statuses_of : Option (List ℤ) → List ℤ
statuses_of none = []
statuses_of (some items) = items

unfoldable pub validate_retry : RetryConfig → Check
unfolding first_error check_each trim_space to_lower
validate_retry retry =
    let strategy = to_lower (trim_space retry.backoff_strategy) in
    first_error (
      reject (is_negative retry.attempts) "retry attempts cannot be negative"
      ∷ check_each
          (λ code.
            reject (not (exceeds 99 code) || exceeds 599 code)
              "retry status code must be within 100-599: %d")
          (statuses_of retry.retry_on_statuses)
      ∷ reject (retry.enabled && not (is_positive retry.attempts))
          "retry attempts must be greater than 0 when retry is enabled"
      ∷ reject (is_negative retry.backoff_millis) "retry backoffMillis cannot be negative"
      ∷ reject (is_negative retry.max_backoff_millis) "retry maxBackoffMillis cannot be negative"
      ∷ reject (is_negative retry.jitter_percent || exceeds 100 retry.jitter_percent)
          "retry jitterPercent must be within 0-100"
      ∷ reject
          (not (is_empty strategy)
            && not (text_eq strategy (codes "fixed"))
            && not (text_eq strategy (codes "exponential")))
          "retry backoffStrategy must be fixed or exponential"
      ∷ [])

unfoldable pub validate_circuit_breaker : CircuitBreakerConfig → Check
unfolding first_error
validate_circuit_breaker cb = first_error (
    reject (is_negative cb.failure_threshold) "circuit breaker failureThreshold cannot be negative"
    ∷ reject (is_negative cb.open_seconds) "circuit breaker openSeconds cannot be negative"
    ∷ reject (cb.enabled && not (is_positive cb.failure_threshold))
        "circuit breaker failureThreshold must be greater than 0"
    ∷ reject (cb.enabled && not (is_positive cb.open_seconds))
        "circuit breaker openSeconds must be greater than 0"
    ∷ [])

unfoldable pub validate_resilience : ResilienceConfig → Check
unfolding first_error validate_health_check validate_retry validate_circuit_breaker
validate_resilience cfg = first_error (
    validate_health_check cfg.active_health_check
    ∷ validate_retry cfg.retry
    ∷ validate_circuit_breaker cfg.circuit_breaker
    ∷ [])

unfoldable pub validate_timeouts : TimeoutConfig → Check
unfolding first_error
validate_timeouts cfg = first_error (
    reject (is_negative cfg.connect_millis) "timeouts connectMillis cannot be negative"
    ∷ reject (is_negative cfg.response_header_millis)
        "timeouts responseHeaderMillis cannot be negative"
    ∷ reject (is_negative cfg.expect_continue_millis)
        "timeouts expectContinueMillis cannot be negative"
    ∷ reject (is_negative cfg.idle_conn_millis) "timeouts idleConnMillis cannot be negative"
    ∷ reject (is_negative cfg.request_millis) "timeouts requestMillis cannot be negative"
    ∷ reject (is_negative cfg.backend_keepalive_millis)
        "timeouts backendKeepaliveMillis cannot be negative"
    ∷ reject (is_negative cfg.tls_handshake_millis) "timeouts tlsHandshakeMillis cannot be negative"
    ∷ reject (is_negative cfg.max_idle_conns_per_host)
        "timeouts maxIdleConnsPerHost cannot be negative"
    ∷ reject (is_negative cfg.max_backend_connections)
        "timeouts maxBackendConnections cannot be negative"
    ∷ [])

-- An item of the loop of `validateCache`.
abbrev pub is_bad_key : Text → Bool
unfolding trim_space
is_bad_key key = not (is_empty (trim_space key)) && contains_any key (codes " &=")

unfoldable pub validate_cache : CacheConfig → Check
unfolding first_error check_each
validate_cache cfg = first_error (
    reject (is_negative cfg.ttl_seconds) "cache ttlSeconds cannot be negative"
    ∷ reject (is_negative cfg.max_entries) "cache maxEntries cannot be negative"
    ∷ reject (is_negative cfg.max_body_bytes) "cache maxBodyBytes cannot be negative"
    ∷ check_each (λ key. reject (is_bad_key key) "cache keyIgnoreQueryParams[%d] is invalid")
        cfg.key_ignore_query_params
    ∷ [])

unfoldable pub validate_rate_limit : RateLimitSettings → Check
unfolding first_error
validate_rate_limit cfg = first_error (
    reject (cfg.enabled && not (is_positive cfg.requests_per_minute))
      "rate limit requestsPerMinute must be greater than 0"
    ∷ reject (cfg.enabled && is_negative cfg.burst) "rate limit burst cannot be negative"
    ∷ reject (cfg.auto_block.enabled && not cfg.enabled)
        "rate limit autoBlock requires rate limit enabled"
    ∷ reject (is_negative cfg.auto_block.violation_threshold)
        "rate limit autoBlock violationThreshold cannot be negative"
    ∷ reject (is_negative cfg.auto_block.violation_window_seconds)
        "rate limit autoBlock violationWindowSeconds cannot be negative"
    ∷ reject (is_negative cfg.auto_block.block_seconds)
        "rate limit autoBlock blockSeconds cannot be negative"
    ∷ [])
