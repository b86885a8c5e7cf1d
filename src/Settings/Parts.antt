-- ===== src/Settings/Parts.antt =====
-- The parts of the settings that are no lists: the languages, the backups, the cluster, the alerts and
-- the administration's own certificate. internal/settings/store.go.
use flow_proxy.Prelude.{
  ℕ, Bool, true, false, not, ◌||◌, ◌&&◌, [], ◌∷◌, Option, none, some, Text, codes, is_empty, member,
  if◌then◌else◌, ◌>>=◌, ◌>>◌, guard, trim_space, to_lower, ℤ, pos, is_positive, is_negative,
}
use flow_proxy.Sites.Limits.{exceeds}
use flow_proxy.Settings.{SettingsLib, BackupSettings, ClusterSyncSettings, AlertSettings, AdminTls}
use flow_proxy.Settings.Lists.{text_or, is_shorter}

-- `least <= v && v <= most`, for a least value of 1.
abbrev pub is_within : ℕ → ℤ → Bool
is_within most v = is_positive v && not (exceeds most v)

abbrev pub is_zero : ℤ → Bool
is_zero v = not (is_positive v) && not (is_negative v)

unfoldable pub normalize_language : Text → Option Text
unfolding to_lower trim_space
normalize_language input =
    let lang = text_or (codes "en") (to_lower (trim_space input)) in
    if member lang (codes "zh" ∷ codes "zh-tw" ∷ codes "en" ∷ []) then some lang else none

-- `normalizeClusterSync` once the settings of an earlier version have their defaults.
abbrev pub migrated : ClusterSyncSettings → ClusterSyncSettings
unfolding trim_space
migrated c =
    if not c.certificate_sync_enabled
      && not c.fail_close_enabled
      && is_zero c.fail_close_consecutive_failures
      && is_empty (trim_space c.fail_close_stale_after)
    then record c { certificate_sync_enabled = true; fail_close_enabled = true }
    else c

-- The certificate of the administration, where it is in force.
unfoldable pub enabled_admin_tls : AdminTls → Option AdminTls
unfolding trim_space
enabled_admin_tls input =
    let id = trim_space input.certificate_id in
    let cert = trim_space input.cert_file in
    let key = trim_space input.key_file in
    let port = if is_zero input.https_port then pos 9443 else input.https_port in
    let external = not (is_empty cert) && not (is_empty key) in
    do
      guard (is_within 65535 port)
      guard ((is_empty cert && is_empty key) || external)
      guard (not (external && not (is_empty id)))
      guard (external || not (is_empty id) || input.auto_self_signed)
      some (record {
        enabled = true;
        https_port = port;
        redirect_http = input.redirect_http;
        auto_self_signed = input.auto_self_signed;
        certificate_id = id;
        cert_file = cert;
        key_file = key;
      })

unfoldable pub normalize_admin_tls : AdminTls → Option AdminTls
unfolding enabled_admin_tls trim_space
normalize_admin_tls input =
    if input.enabled
    then enabled_admin_tls input
    else some (record {
      enabled = false;
      https_port = pos 9443;
      redirect_http = false;
      auto_self_signed = input.auto_self_signed;
      certificate_id = trim_space input.certificate_id;
      cert_file = trim_space input.cert_file;
      key_file = trim_space input.key_file;
    })

module _ {Ip Cidr : Type 0} (lib : SettingsLib Ip Cidr) where
  unfoldable pub normalize_backup : BackupSettings → Option BackupSettings
  unfolding trim_space
  normalize_backup input =
      let interval = text_or (codes "24h") (trim_space input.interval) in
      let keep_last = if is_zero input.keep_last then pos 30 else input.keep_last in
      do
        d ← lib.parse_duration interval
        guard (not (is_shorter d 60_000_000_000))
        guard (is_within 1000 keep_last)
        some (record { enabled = input.enabled; interval = interval; keep_last = keep_last })

  unfoldable pub normalize_cluster_sync : ClusterSyncSettings → Option ClusterSyncSettings
  unfolding migrated trim_space
  normalize_cluster_sync given =
      let input = migrated given in
      let n = input.fail_close_consecutive_failures in
      let failures = if is_positive n then n else pos 10 in
      let stale = text_or (codes "5m") (trim_space input.fail_close_stale_after) in
      do
        guard (not (exceeds 100000 failures))
        d ← lib.parse_duration stale
        guard (not (is_shorter d 30_000_000_000))
        some (record input {
          fail_close_consecutive_failures = failures;
          fail_close_stale_after = stale;
        })

  unfoldable pub normalize_alert : AlertSettings → Option AlertSettings
  unfolding trim_space
  normalize_alert input =
      let n = input.consecutive_5xx in
      let consecutive = if is_positive n then n else pos 10 in
      let cooldown = text_or (codes "5m") (trim_space input.cooldown) in
      do
        guard (not (exceeds 100000 consecutive))
        guard (not (is_negative input.latency_ms))
        d ← lib.parse_duration cooldown
        guard (is_positive d)
        some (record {
          webhook_url = trim_space input.webhook_url;
          consecutive_5xx = consecutive;
          latency_ms = input.latency_ms;
          cooldown = cooldown;
        })
