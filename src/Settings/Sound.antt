-- ===== src/Settings/Sound.antt =====
-- What holds of the settings in force, whatever is called on the store of internal/settings/store.go.
use flow_proxy.Prelude.{
  ◌≡◌, refl, subst, true, false, not, ◌&&◌, List, [], ◌∷◌, some, some_inj, Text, codes, text_eq_iff,
  is_empty, member, bind-some, guard-some, trim_space, to_lower, ℤ, nonneg, is_negative,
  is_positive, arith, All, Distinct, ◌==◌,
}
use flow_proxy.RuleSets.{IpRuleSet}
use flow_proxy.Settings.{SettingsLib, CountryTask, StoredSettings}
use flow_proxy.Settings.Lists.{
  text_or, is_shorter, ids_of, normalize_ip_rules, normalize_rules, normalize_rule_set,
  normalize_rule_sets, normalize_country_codes, normalize_country_task, normalize_country_tasks,
  normalize_ip_rule_source_order,
}
use flow_proxy.Settings.Parts.{
  is_within, normalize_language, normalize_admin_tls, normalize_backup, normalize_cluster_sync,
  normalize_alert,
}
use flow_proxy.Settings.Store.{normalize}
use flow_proxy.Settings.Bounds.{
  not-true, Lasts, normalize_backup-kept, normalize_cluster_sync-bounds, normalize_alert-bounds,
  normalize_admin_tls-https,
}

module _ {Ip Cidr : Type 0} (lib : SettingsLib Ip Cidr) where
  -- A task fills a rule set that is there, at an interval of five minutes at least.
  abbrev pub IsFilling : List Text → CountryTask → Type 0
  IsFilling known t = (member t.rule_set_id known ≡ true) × Lasts lib 300_000_000_000 t.interval

  pub record IsSound (s : StoredSettings) : Type 0 where
    pub port : is_within 65535 s.web_port ≡ true
    pub ids : Distinct (ids_of s.ip_rule_sets)
    pub tasks : All (IsFilling (ids_of s.ip_rule_sets)) s.ip_country_auto_updates
    pub kept : is_within 1000 s.backup.keep_last ≡ true
    pub backups : Lasts lib 60_000_000_000 s.backup.interval
    pub stale : Lasts lib 30_000_000_000 s.cluster_sync.fail_close_stale_after
    pub failures : is_within 100000 s.cluster_sync.fail_close_consecutive_failures ≡ true
    pub errors : is_within 100000 s.alert.consecutive_5xx ≡ true
    pub cooldown : (d : ℤ) × (lib.parse_duration s.alert.cooldown ≡ some d) × (is_positive d ≡ true)
    pub https : is_within 65535 s.admin_tls.https_port ≡ true
    pub latency : is_negative s.alert.latency_ms ≡ false
    pub apart : (s.admin_tls.enabled && nonneg s.admin_tls.https_port == nonneg s.web_port) ≡ false

  normalize_rule_set-id :
      (seen : List Text) (item r : IpRuleSet)
      → normalize_rule_set lib seen item ≡ some r
      → member r.id seen ≡ false
  unfolding normalize_rule_set
  normalize_rule_set-id seen item r h =
      let (_, h1) = guard-some (not (is_empty (trim_space item.id))) _ r h in
      let (new, h2) = guard-some (not (member (trim_space item.id) seen)) _ r h1 in
      let (rules, _, made) = bind-some (normalize_rules lib item.rules) _ r h2 in
      subst (λ (x : IpRuleSet). member x.id seen ≡ false) (some_inj made)
        (not-true (member (trim_space item.id) seen) new)

  -- The ids of a list are new.
  abbrev AreNew : List Text → List Text → Type 0
  AreNew seen [] = Unit {0}
  AreNew seen (k ∷ ks) = (member k seen ≡ false) × AreNew (k ∷ seen) ks

  new_apart :
      (seen ks : List Text) (j : Text) → AreNew seen ks → member j seen ≡ true → member j ks ≡ false
  new_apart seen [] j h m = refl
  new_apart seen (k ∷ ks) j h m =
      let later = new_apart (k ∷ seen) ks j h.1 (ground (arith, m)) in
      ground (arith, h.0, m, later, text_eq_iff j k)

  AreNew-Distinct : (seen ks : List Text) → AreNew seen ks → Distinct ks
  AreNew-Distinct seen [] h = tt
  AreNew-Distinct seen (k ∷ ks) h = (
    new_apart (k ∷ seen) ks k h.1 (ground (arith, text_eq_iff k k)),
    AreNew-Distinct (k ∷ seen) ks h.1,
  )

  normalize_rule_sets-AreNew :
      (seen : List Text) (items rs : List IpRuleSet)
      → normalize_rule_sets lib seen items ≡ some rs
      → AreNew seen (ids_of rs)
  unfolding normalize_rule_sets
  normalize_rule_sets-AreNew seen [] rs h = subst (λ xs. AreNew seen (ids_of xs)) (some_inj h) tt
  normalize_rule_sets-AreNew seen (item ∷ items) rs h =
      let (r, one, h1) = bind-some (normalize_rule_set lib seen item) _ rs h in
      let (more, rest, made) = bind-some (normalize_rule_sets lib (r.id ∷ seen) items) _ rs h1 in
      subst (λ xs. AreNew seen (ids_of xs)) (some_inj made)
        (
          normalize_rule_set-id seen item r one,
          normalize_rule_sets-AreNew (r.id ∷ seen) items more rest,
        )

  normalize_country_task-IsFilling :
      (known seen : List Text) (item t : CountryTask)
      → normalize_country_task lib known seen item ≡ some t
      → IsFilling known t
  unfolding normalize_country_task
  normalize_country_task-IsFilling known seen item t h =
      let (_, h1) = guard-some (not (is_empty (trim_space item.id))) _ t h in
      let (_, h2) = guard-some (not (member (to_lower (trim_space item.id)) seen)) _ t h1 in
      let (_, h3) = guard-some (not (is_empty (trim_space item.rule_set_id))) _ t h2 in
      let (filled, h4) = guard-some (member (trim_space item.rule_set_id) known) _ t h3 in
      let (_, h5) =
        guard-some
          (member (to_lower (trim_space item.target_list)) ([] ∷ codes "deny" ∷ codes "allow" ∷ []))
          _ t h4 in
      let (countries, _, h6) = bind-some (normalize_country_codes item.countries) _ t h5 in
      let (_, h7) = guard-some (not (is_empty countries)) _ t h6 in
      let (d, parsed, h8) =
        bind-some (lib.parse_duration (text_or (codes "24h") (trim_space item.interval))) _ t h7 in
      let (long, h9) = guard-some (not (is_shorter d 300_000_000_000)) _ t h8 in
      let (_, h10) =
        guard-some (member (to_lower (trim_space item.source)) ([] ∷ codes "ipdeny" ∷ [])) _ t h9 in
      let (cidrs, _, made) = bind-some (normalize_ip_rules lib item.cidrs) _ t h10 in
      subst (IsFilling known) (some_inj made)
        (filled, (d, parsed, not-true (is_shorter d 300_000_000_000) long))

  normalize_country_tasks-All :
      (known seen : List Text) (items ts : List CountryTask)
      → normalize_country_tasks lib known seen items ≡ some ts
      → All (IsFilling known) ts
  unfolding normalize_country_tasks
  normalize_country_tasks-All known seen [] ts h = subst (All (IsFilling known)) (some_inj h) tt
  normalize_country_tasks-All known seen (item ∷ items) ts h =
      let (t, one, h1) = bind-some (normalize_country_task lib known seen item) _ ts h in
      let (more, rest, made) =
        bind-some (normalize_country_tasks lib known (to_lower t.id ∷ seen) items) _ ts h1 in
      subst (All (IsFilling known)) (some_inj made) (
        normalize_country_task-IsFilling known seen item t one,
        normalize_country_tasks-All known (to_lower t.id ∷ seen) items more rest,
      )

  -- What `Normalize` returns.
  pub normalize-IsSound : (input s : StoredSettings) → normalize lib input ≡ some s → IsSound s
  unfolding normalize
  normalize-IsSound input s h =
      let (lang, _, h1) = bind-some (normalize_language input.language) _ s h in
      let (port, h2) = guard-some (is_within 65535 input.web_port) _ s h1 in
      let (allow, _, h3) = bind-some (normalize_ip_rules lib input.allow_cidrs) _ s h2 in
      let (deny, _, h4) = bind-some (normalize_ip_rules lib input.deny_cidrs) _ s h3 in
      let (rs, e5, h5) = bind-some (normalize_rule_sets lib [] input.ip_rule_sets) _ s h4 in
      let (order, _, h6) =
        bind-some (normalize_ip_rule_source_order input.ip_rule_source_order) _ s h5 in
      let (ts, e7, h7) =
        bind-some (normalize_country_tasks lib (ids_of rs) [] input.ip_country_auto_updates) _ s
          h6 in
      let (backup, e8, h8) = bind-some (normalize_backup lib input.backup) _ s h7 in
      let (cluster, e9, h9) = bind-some (normalize_cluster_sync lib input.cluster_sync) _ s h8 in
      let (alert, e10, h10) = bind-some (normalize_alert lib input.alert) _ s h9 in
      let (tls, e11, h11) = bind-some (normalize_admin_tls input.admin_tls) _ s h10 in
      let clash = tls.enabled && nonneg tls.https_port == nonneg input.web_port in
      let (other, made) = guard-some (not clash) _ s h11 in
      subst IsSound (some_inj made) (record {
        port = port;
        ids =
            AreNew-Distinct [] (ids_of rs) (normalize_rule_sets-AreNew [] input.ip_rule_sets rs e5);
        tasks = normalize_country_tasks-All (ids_of rs) [] input.ip_country_auto_updates ts e7;
        kept = (normalize_backup-kept lib input.backup backup e8).0;
        backups = (normalize_backup-kept lib input.backup backup e8).1;
        stale = (normalize_cluster_sync-bounds lib input.cluster_sync cluster e9).0;
        failures = (normalize_cluster_sync-bounds lib input.cluster_sync cluster e9).1;
        errors = (normalize_alert-bounds lib input.alert alert e10).1;
        cooldown = (normalize_alert-bounds lib input.alert alert e10).2;
        https = normalize_admin_tls-https lib input.admin_tls tls e11;
        latency = (normalize_alert-bounds lib input.alert alert e10).0;
        apart = not-true clash other;
      })
