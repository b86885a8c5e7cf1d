-- ===== src/Tests/SettingsRuns.antt =====
-- Settings with a rule set and a task that fills it.
use flow_proxy.Prelude.{ℕ, true, false, List, [], ◌∷◌, some, codes, pos}
use flow_proxy.RuleSets.Assembly.{no_rules}
use flow_proxy.Settings.{SettingsLib, StoredSettings}
use flow_proxy.Settings.Store.{no_settings}
use flow_proxy.Settings.Calls.{SettingsCall, update_call, reload_call}
use flow_proxy.Tests.Clients.{net}

abbrev lib : SettingsLib ℕ ℕ
lib = record {
  net = net;
  show_network = λ c. c ∷ [];
  parse_duration = λ t. some (pos 600_000_000_000);
}

abbrev defaults : StoredSettings
defaults = record {
  language = [];
  web_port = pos 8080;
  allow_cidrs = codes "a" ∷ [];
  deny_cidrs = [];
  ip_rule_source_order = [];
  ip_rule_sets =
      record {
        id = codes "office";
        name = [];
        priority = pos 0;
        conflict_policy = [];
        rules = no_rules;
      }
      ∷ [];
  ip_country_auto_updates =
      record {
        id = codes "t";
        enabled = true;
        rule_set_id = codes "office";
        target_list = [];
        countries = codes "de" ∷ [];
        include_ipv6 = false;
        interval = [];
        source = [];
        cidrs = [];
        last_attempt_at = 0;
        last_sync_at = 0;
        last_error = [];
      }
      ∷ [];
  cluster_sync = record {
    certificate_sync_enabled = false;
    fail_close_enabled = false;
    fail_close_consecutive_failures = pos 0;
    fail_close_stale_after = [];
  };
  backup = record { enabled = true; interval = []; keep_last = pos 0 };
  alert = record { webhook_url = []; consecutive_5xx = pos 0; latency_ms = pos 0; cooldown = [] };
  admin_tls = record {
    enabled = true;
    https_port = pos 0;
    redirect_http = false;
    auto_self_signed = true;
    certificate_id = [];
    cert_file = [];
    key_file = [];
  };
  updated_at = 0;
}

abbrev calls : List SettingsCall
calls =
    update_call 6 true (record defaults { web_port = pos 9443 })
    ∷ update_call 7 false (record defaults { web_port = pos 80 })
    ∷ reload_call 8 no_settings
    ∷ []
