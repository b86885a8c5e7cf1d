-- ===== src/Settings/Bounds.antt =====
-- The bounds of the parts of the settings that are no lists.
use flow_proxy.Prelude.{
  negsuc, ◌||◌, Bool-cases, inl, inr, ℕ, ◌≡◌, refl, subst, Bool, true, false, not, ◌&&◌, some,
  some_inj, Text, codes, is_empty, if◌then◌else◌, bind-some, guard-some, trim_space, ℤ, pos,
  is_negative, is_positive, arith,
}
use flow_proxy.Settings.{SettingsLib, BackupSettings, ClusterSyncSettings, AlertSettings, AdminTls}
use flow_proxy.Settings.Lists.{text_or, is_shorter}
use flow_proxy.Settings.Parts.{
  is_within, is_zero, migrated, enabled_admin_tls, normalize_admin_tls, normalize_backup,
  normalize_cluster_sync, normalize_alert,
}
use flow_proxy.Sites.Limits.{exceeds}

pub not-true : (c : Bool) → not c ≡ true → c ≡ false
not-true true h = cc
not-true false h = refl

module _ {Ip Cidr : Type 0} (lib : SettingsLib Ip Cidr) where
  -- A duration that can be read and is long enough, in nanoseconds.
  abbrev pub Lasts : ℕ → Text → Type 0
  Lasts least t = (d : ℤ) × (lib.parse_duration t ≡ some d) × (is_shorter d least ≡ false)

  pub normalize_backup-kept :
      (input b : BackupSettings)
      → normalize_backup lib input ≡ some b
      → (is_within 1000 b.keep_last ≡ true) × Lasts 60_000_000_000 b.interval
  unfolding normalize_backup
  normalize_backup-kept input b h =
      let keep_last : ℤ = if is_zero input.keep_last then pos 30 else input.keep_last in
      let (d, parsed, h1) =
        bind-some (lib.parse_duration (text_or (codes "24h") (trim_space input.interval))) _ b h in
      let (long, h2) = guard-some (not (is_shorter d 60_000_000_000)) _ b h1 in
      let (within, made) = guard-some (is_within 1000 keep_last) _ b h2 in
      subst
        (λ (x : BackupSettings).
          (is_within 1000 x.keep_last ≡ true) × Lasts 60_000_000_000 x.interval)
        (some_inj made) (within, (d, parsed, not-true (is_shorter d 60_000_000_000) long))

  positive_within :
      (n : ℤ)
      → not (exceeds 100000 (if is_positive n then n else pos 10)) ≡ true
      → is_within 100000 (if is_positive n then n else pos 10) ≡ true
  positive_within (pos n) h = ground (arith, h)
  positive_within (negsuc n) h = refl

  pub normalize_cluster_sync-bounds :
      (given c : ClusterSyncSettings)
      → normalize_cluster_sync lib given ≡ some c
      → Lasts 30_000_000_000 c.fail_close_stale_after
        × (is_within 100000 c.fail_close_consecutive_failures ≡ true)
  unfolding normalize_cluster_sync
  normalize_cluster_sync-bounds given c h =
      let stale = text_or (codes "5m") (trim_space (migrated given).fail_close_stale_after) in
      let n = (migrated given).fail_close_consecutive_failures in
      let (few, h1) =
        guard-some (not (exceeds 100000 (if is_positive n then n else pos 10))) _ c h in
      let (d, parsed, h2) = bind-some (lib.parse_duration stale) _ c h1 in
      let (long, made) = guard-some (not (is_shorter d 30_000_000_000)) _ c h2 in
      subst
        (λ (x : ClusterSyncSettings).
          Lasts 30_000_000_000 x.fail_close_stale_after
          × (is_within 100000 x.fail_close_consecutive_failures ≡ true))
        (some_inj made)
        ((d, parsed, not-true (is_shorter d 30_000_000_000) long), positive_within n few)

  pub normalize_alert-bounds :
      (input a : AlertSettings)
      → normalize_alert lib input ≡ some a
      → (is_negative a.latency_ms ≡ false)
        × (is_within 100000 a.consecutive_5xx ≡ true)
        × ((d : ℤ) × (lib.parse_duration a.cooldown ≡ some d) × (is_positive d ≡ true))
  unfolding normalize_alert
  normalize_alert-bounds input a h =
      let n = input.consecutive_5xx in
      let (few, h1) =
        guard-some (not (exceeds 100000 (if is_positive n then n else pos 10))) _ a h in
      let (fast, h2) = guard-some (not (is_negative input.latency_ms)) _ a h1 in
      let (d, parsed, h3) =
        bind-some (lib.parse_duration (text_or (codes "5m") (trim_space input.cooldown))) _ a h2 in
      let (long, made) = guard-some (is_positive d) _ a h3 in
      subst
        (λ (x : AlertSettings).
          (is_negative x.latency_ms ≡ false)
          × (is_within 100000 x.consecutive_5xx ≡ true)
          × ((e : ℤ) × (lib.parse_duration x.cooldown ≡ some e) × (is_positive e ≡ true)))
        (some_inj made)
        (not-true (is_negative input.latency_ms) fast, positive_within n few, (d, parsed, long))

  pub normalize_admin_tls-https :
      (input t : AdminTls)
      → normalize_admin_tls input ≡ some t
      → is_within 65535 t.https_port ≡ true
  unfolding normalize_admin_tls enabled_admin_tls
  normalize_admin_tls-https input t h = elim (Bool-cases input.enabled) [
    | inr off ↦
        subst (λ (x : AdminTls). is_within 65535 x.https_port ≡ true) (some_inj (rw off at h)) refl
    | inl on ↦
        (let port : ℤ = if is_zero input.https_port then pos 9443 else input.https_port in
          let cert = trim_space input.cert_file in
          let key = trim_space input.key_file in
          let id = trim_space input.certificate_id in
          let external = not (is_empty cert) && not (is_empty key) in
          let (within, h1) = guard-some (is_within 65535 port) _ t (rw on at h) in
          let (_, h2) = guard-some ((is_empty cert && is_empty key) || external) _ t h1 in
          let (_, h3) = guard-some (not (external && not (is_empty id))) _ t h2 in
          let (_, made) =
            guard-some (external || not (is_empty id) || input.auto_self_signed) _ t h3 in
          subst (λ (x : AdminTls). is_within 65535 x.https_port ≡ true) (some_inj made) within)
  ]
