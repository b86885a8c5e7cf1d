-- ===== src/Sites/Transport.antt =====
-- The transport of an upstream: internal/proxy/upstream_tls.go. http.DefaultTransport, os.ReadFile
-- and CertPool.AppendCertsFromPEM are given. A duration of -1 is a keep-alive that is switched off,
-- and the dialer's fallback from `localhost` is left out.
use flow_proxy.Prelude.{
  ℕ, Bool, true, not, ◌&&◌, List, [], ◌∷◌, ◌++◌, Option, none, some, Text, codes, text_eq, is_empty,
  if◌then◌else◌, trim_space, to_lower, ℤ, pos, negsuc, is_positive,
}
use flow_proxy.Upstream.Retry.{duration_from_millis}
use flow_proxy.Sites.Config.{TimeoutConfig, UpstreamTlsConfig}
use flow_proxy.Sites.Checks.{ParsedUrl}

-- What is set of a `tls.Config`; the root certificates are those of the system and these.
pub record TlsSettings : Type 0 where
  pub insecure_skip_verify : Bool
  pub server_name : Text
  pub root_cas : Option (List Text)

-- What is set of an `http.Transport` and its dialer; `is_h2c` where it speaks cleartext HTTP/2.
pub record Transport : Type 0 where
  pub dial_timeout : ℤ
  pub dial_keep_alive : ℤ
  pub response_header_timeout : ℤ
  pub expect_continue_timeout : ℤ
  pub idle_conn_timeout : ℤ
  pub tls_handshake_timeout : ℤ
  pub max_idle_conns_per_host : ℤ
  pub max_conns_per_host : ℤ
  pub max_idle_conns : ℕ
  pub force_attempt_http2 : Bool
  pub tls : Option TlsSettings
  pub is_h2c : Bool

-- What is given: the default transport, the files, and the texts that hold a certificate.
pub record TransportLib : Type 0 where
  pub default_transport : Transport
  pub read_file : Text → Option Text
  pub holds_certificate : Text → Bool

-- `if d := durationFromMillis(ms); d > 0 { x = d } else { x = default }`.
unfoldable pub millis_or : ℤ → ℤ → ℤ
unfolding duration_from_millis
millis_or default ms = let d = duration_from_millis ms in if is_positive d then d else default

unfoldable pub apply_transport_timeouts : TimeoutConfig → Transport → Transport
unfolding duration_from_millis millis_or
apply_transport_timeouts cfg t = record t {
  dial_timeout = duration_from_millis cfg.connect_millis;
  dial_keep_alive =
      if cfg.backend_keepalive_disabled
      then negsuc 0
      else millis_or (pos 30_000_000_000) cfg.backend_keepalive_millis;
  response_header_timeout = millis_or (pos 30_000_000_000) cfg.response_header_millis;
  expect_continue_timeout = millis_or t.expect_continue_timeout cfg.expect_continue_millis;
  idle_conn_timeout = millis_or (pos 90_000_000_000) cfg.idle_conn_millis;
  tls_handshake_timeout = millis_or (pos 10_000_000_000) cfg.tls_handshake_millis;
  max_idle_conns_per_host =
      if is_positive cfg.max_idle_conns_per_host then cfg.max_idle_conns_per_host else pos 10;
  max_conns_per_host =
      if is_positive cfg.max_backend_connections then cfg.max_backend_connections else pos 0;
  max_idle_conns = 100;
  force_attempt_http2 = true;
}

module _ (lib : TransportLib) where
  -- The certificates of the file: none where it cannot be read or holds none.
  unfoldable pub file_roots : Text → Option (List Text)
  file_roots file = elim (lib.read_file file) [
    | none ↦ none
    | some data_read ↦ (if lib.holds_certificate data_read then some (data_read ∷ []) else none)
  ]

  -- The pool of root certificates; the outer `none` is an error, the inner one leaves the field nil.
  unfoldable pub upstream_roots : UpstreamTlsConfig → Option (Option (List Text))
  unfolding file_roots trim_space
  upstream_roots cfg =
      let file = trim_space cfg.root_ca_file in
      let pem = trim_space cfg.root_ca_pem in
      let from_file = if is_empty file then some [] else file_roots file in
      if is_empty file && is_empty pem then some none else elim from_file [
        | none ↦ none
        | some roots ↦
            (if is_empty pem
              then some (some roots)
              else if lib.holds_certificate pem
              then some (some (roots ++ pem ∷ []))
              else none)
      ]

  -- `ensureH2CTransport`.
  unfoldable pub ensure_h2c_transport : Transport → Transport
  ensure_h2c_transport t = elim t.tls [
    | some s ↦ record t { force_attempt_http2 = true }
    | none ↦ record t { is_h2c = true }
  ]

  unfoldable pub new_upstream_transport :
      ParsedUrl → UpstreamTlsConfig → TimeoutConfig → Bool → Option Transport
  unfolding apply_transport_timeouts upstream_roots ensure_h2c_transport trim_space to_lower
  new_upstream_transport target cfg timeouts h2c =
      let transport = apply_transport_timeouts timeouts lib.default_transport in
      if not (text_eq (to_lower (trim_space target.scheme)) (codes "https"))
      then some (if h2c then ensure_h2c_transport transport else transport)
      else elim (upstream_roots cfg) [
        | none ↦ none
        | some roots ↦
            (let secured : Transport = record transport {
              tls = some (record {
                insecure_skip_verify = cfg.insecure_skip_verify;
                server_name = trim_space cfg.server_name;
                root_cas = roots;
              });
            } in
              some (if h2c then ensure_h2c_transport secured else secured))
      ]
