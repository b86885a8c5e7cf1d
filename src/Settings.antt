-- ===== src/Settings.antt =====
-- The settings of internal/settings/store.go: their types, their normalisation and their store.
pub mod Lists
pub mod Parts
pub mod Store
pub mod Bounds
pub mod Sound
pub mod Calls
use flow_proxy.Prelude.{ℕ, Bool, List, Option, Text, ℤ}
use flow_proxy.Access.Rules.{NetLib}
use flow_proxy.RuleSets.{IpRuleSet}

-- What the code calls of packages net and time: `NetLib`, IPNet.String and time.ParseDuration, whose
-- result is in nanoseconds.
pub record SettingsLib (Ip Cidr : Type 0) : Type 0 where
  pub net : NetLib Ip Cidr
  pub show_network : Cidr → Text
  pub parse_duration : Text → Option ℤ

-- settings.IPCountryAutoUpdate.
pub record CountryTask : Type 0 where
  pub id : Text
  pub enabled : Bool
  pub rule_set_id : Text
  pub target_list : Text
  pub countries : List Text
  pub include_ipv6 : Bool
  pub interval : Text
  pub source : Text
  pub cidrs : List Text
  pub last_attempt_at : ℕ
  pub last_sync_at : ℕ
  pub last_error : Text

pub record BackupSettings : Type 0 where
  pub enabled : Bool
  pub interval : Text
  pub keep_last : ℤ

pub record ClusterSyncSettings : Type 0 where
  pub certificate_sync_enabled : Bool
  pub fail_close_enabled : Bool
  pub fail_close_consecutive_failures : ℤ
  pub fail_close_stale_after : Text

pub record AlertSettings : Type 0 where
  pub webhook_url : Text
  pub consecutive_5xx : ℤ
  pub latency_ms : ℤ
  pub cooldown : Text

pub record AdminTls : Type 0 where
  pub enabled : Bool
  pub https_port : ℤ
  pub redirect_http : Bool
  pub auto_self_signed : Bool
  pub certificate_id : Text
  pub cert_file : Text
  pub key_file : Text

-- settings.Settings, with the two lists of `webAccess`.
pub record StoredSettings : Type 0 where
  pub language : Text
  pub web_port : ℤ
  pub allow_cidrs : List Text
  pub deny_cidrs : List Text
  pub ip_rule_source_order : List Text
  pub ip_rule_sets : List IpRuleSet
  pub ip_country_auto_updates : List CountryTask
  pub cluster_sync : ClusterSyncSettings
  pub backup : BackupSettings
  pub alert : AlertSettings
  pub admin_tls : AdminTls
  pub updated_at : ℕ
