-- ===== src/Settings/Calls.antt =====
-- Any sequence of calls on the store of internal/settings/store.go.
use flow_proxy.Prelude.{ℕ, Bool, List, [], ◌∷◌}
use flow_proxy.Settings.{SettingsLib, StoredSettings}
use flow_proxy.Settings.Store.{SettingsBlob, update_settings, load_settings}

-- A call with the time at which it runs, and what becomes of the blob or what it holds.
pub data SettingsCall : Type 0 where
  update_call : ℕ → Bool → StoredSettings → SettingsCall
  reload_call : ℕ → SettingsBlob → SettingsCall

module _ {Ip Cidr : Type 0} (lib : SettingsLib Ip Cidr) where
  unfoldable pub run_settings : List SettingsCall → StoredSettings → StoredSettings
  unfolding update_settings load_settings
  run_settings [] value = value
  run_settings (update_call now saves next ∷ calls) value =
      run_settings calls (update_settings lib now saves next value).1
  run_settings (reload_call now blob ∷ calls) value =
      run_settings calls (load_settings lib now blob value).1
