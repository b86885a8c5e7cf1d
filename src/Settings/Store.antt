-- ===== src/Settings/Store.antt =====
-- `Normalize` and the store of internal/settings/store.go. The mutex makes each call one step, during
-- which the clock reads the same; whether the blob can be saved is given, and what it holds once it is
-- parsed over the settings in force.
use flow_proxy.Prelude.{
  ℕ, ◌==◌, Bool, true, false, not, ◌&&◌, [], Option, none, some, if◌then◌else◌, ◌>>=◌, ◌>>◌, guard,
  nonneg,
}
use flow_proxy.Settings.{SettingsLib, StoredSettings}
use flow_proxy.Settings.Lists.{
  normalize_ip_rules, normalize_rule_sets, normalize_ip_rule_source_order, normalize_country_tasks,
  ids_of,
}
use flow_proxy.Settings.Parts.{
  is_within, normalize_language, normalize_admin_tls, normalize_backup, normalize_cluster_sync,
  normalize_alert,
}

-- What the blob holds: nothing, what cannot be read, or settings.
pub data SettingsBlob : Type 0 where
  no_settings broken_settings : SettingsBlob
  holds_settings : StoredSettings → SettingsBlob

module _ {Ip Cidr : Type 0} (lib : SettingsLib Ip Cidr) where
  -- `Normalize`; none is an error.
  unfoldable pub normalize : StoredSettings → Option StoredSettings
  unfolding normalize_language normalize_ip_rules normalize_rule_sets normalize_ip_rule_source_order
      normalize_country_tasks normalize_backup normalize_cluster_sync normalize_alert
      normalize_admin_tls
  normalize input = do
    lang ← normalize_language input.language
    guard (is_within 65535 input.web_port)
    allow ← normalize_ip_rules lib input.allow_cidrs
    deny ← normalize_ip_rules lib input.deny_cidrs
    rule_sets ← normalize_rule_sets lib [] input.ip_rule_sets
    order ← normalize_ip_rule_source_order input.ip_rule_source_order
    tasks ← normalize_country_tasks lib (ids_of rule_sets) [] input.ip_country_auto_updates
    backup ← normalize_backup lib input.backup
    cluster ← normalize_cluster_sync lib input.cluster_sync
    alert ← normalize_alert lib input.alert
    tls ← normalize_admin_tls input.admin_tls
    guard (not (tls.enabled && nonneg tls.https_port == nonneg input.web_port))
    some (record {
      language = lang;
      web_port = input.web_port;
      allow_cidrs = allow;
      deny_cidrs = deny;
      ip_rule_source_order = order;
      ip_rule_sets = rule_sets;
      ip_country_auto_updates = tasks;
      cluster_sync = cluster;
      backup = backup;
      alert = alert;
      admin_tls = tls;
      updated_at = input.updated_at;
    })

  -- `Update`, with whether it returns no error; the settings are in force also where the blob could not
  -- be saved.
  unfoldable pub update_settings :
      ℕ → Bool → StoredSettings → StoredSettings → Bool × StoredSettings
  unfolding normalize
  update_settings now saves next value = elim (normalize next) [
    | none ↦ (false, value)
    | some s ↦ (saves, record s { updated_at = now })
  ]

  -- `load`, with whether it returns no error.
  unfoldable pub load_settings : ℕ → SettingsBlob → StoredSettings → Bool × StoredSettings
  unfolding normalize
  load_settings now no_settings value = (true, value)
  load_settings now broken_settings value = (false, value)
  load_settings now (holds_settings current) value = elim (normalize current) [
    | none ↦ (false, value)
    | some s ↦ (
      true,
      record s { updated_at = if current.updated_at == 0 then now else current.updated_at },
    )
  ]

  -- `NewWithBlob`; none is an error.
  unfoldable pub new_settings_store : ℕ → SettingsBlob → StoredSettings → Option StoredSettings
  unfolding normalize load_settings
  new_settings_store now blob defaults = elim (normalize defaults) [
    | none ↦ none
    | some s ↦
        (let dated : StoredSettings = record s {
          updated_at = if s.updated_at == 0 then now else s.updated_at;
        } in
          let loaded = load_settings now blob dated in if loaded.0 then some loaded.1 else none)
  ]
