-- ===== src/Settings/Lists.antt =====
-- The lists of the settings: addresses, systems, countries, rule sets and the tasks that fill them.
-- internal/settings/store.go.
use flow_proxy.Prelude.{
  ℕ, Bool, true, not, ◌&&◌, List, [], ◌∷◌, ◌++◌, Option, none, some, Text, codes, is_empty, member,
  every, length, ltb, leb, ◌==◌, if◌then◌else◌, ◌>>=◌, ◌>>◌, guard, trim_space, to_lower, to_upper,
  has_prefix, contains, drop, ℤ, pos,
}
use flow_proxy.Access.{IpAccessConfig}
use flow_proxy.Access.Rules.{parse_uint32}
use flow_proxy.RuleSets.{IpRuleSet, collect_sources, add_missing, default_source_order}
use flow_proxy.Settings.{SettingsLib, CountryTask}

-- What one item of a list becomes: nothing, an error, or a canonical text.
pub data Item : Type 0 where
  skipped invalid_item : Item
  canonical : Text → Item

-- The loop that the lists share: canonical texts, each once; none on an error.
unfoldable pub collect_items : (Text → Item) → List Text → List Text → Option (List Text)
collect_items f out [] = some out
collect_items f out (item ∷ items) =
    let same = collect_items f out items in
    elim (f item) [
      | skipped ↦ same
      | invalid_item ↦ none
      | canonical t ↦ collect_items f (if member t out then out else out ++ t ∷ []) items
    ]

-- `%d` of the number that these digits stand for, which is not 0.
abbrev pub without_zeros : Text → Text
without_zeros [] = []
without_zeros (c ∷ s) = if c == b'0' then without_zeros s else c ∷ s

-- The digits of `normalizeASNRules`.
unfoldable pub asn_digits : Text → Item
unfolding parse_uint32
asn_digits digits =
    if is_empty digits
    then invalid_item
    else if not (every (λ ch. leb b'0' ch && leb ch b'9') digits)
    then invalid_item
    else elim (parse_uint32 digits) [
      | none ↦ invalid_item
      | some value ↦
          (if value == 0 then invalid_item else canonical (codes "AS" ++ without_zeros digits))
    ]

unfoldable pub asn_item : Text → Item
unfolding to_upper trim_space has_prefix asn_digits
asn_item item =
    let candidate = to_upper (trim_space item) in
    if is_empty candidate
    then skipped
    else asn_digits (if has_prefix candidate (codes "AS") then drop 2 candidate else candidate)

unfoldable pub normalize_asn_rules : List Text → Option (List Text)
unfolding collect_items asn_item
normalize_asn_rules items = collect_items asn_item [] items

unfoldable pub country_item : Text → Item
unfolding to_upper trim_space
country_item item =
    let candidate = to_upper (trim_space item) in
    if is_empty candidate
    then skipped
    else if not (length candidate == 2)
    then invalid_item
    else if not (every (λ ch. leb b'A' ch && leb ch b'Z') candidate)
    then invalid_item
    else canonical candidate

unfoldable pub normalize_country_codes : List Text → Option (List Text)
unfolding collect_items country_item
normalize_country_codes items = collect_items country_item [] items

-- `normalizeIPRuleSourceOrder`.
unfoldable pub normalize_ip_rule_source_order : List Text → Option (List Text)
unfolding collect_sources
normalize_ip_rule_source_order [] = some default_source_order
normalize_ip_rule_source_order (item ∷ items) = elim (collect_sources [] (item ∷ items)) [
  | none ↦ none
  | some out ↦ some (add_missing out default_source_order)
]

unfoldable pub normalize_ip_rule_conflict_policy : Text → Text
unfolding to_lower trim_space
normalize_ip_rule_conflict_policy input =
    if member (to_lower (trim_space input))
      (codes "deny_first" ∷ codes "denyfirst" ∷ codes "deny-first" ∷ [])
    then codes "deny_first"
    else codes "allow_first"

abbrev pub ids_of : List IpRuleSet → List Text
ids_of [] = []
ids_of (r ∷ rs) = r.id ∷ ids_of rs

-- A text that is lowered and trimmed, with what stands in for a blank one.
abbrev pub text_or : Text → Text → Text
text_or default s = if is_empty s then default else s

-- `d < least`, in nanoseconds.
abbrev pub is_shorter : ℤ → ℕ → Bool
is_shorter (pos d) least = ltb d least
is_shorter (ℤ.negsuc d) least = true

module _ {Ip Cidr : Type 0} (lib : SettingsLib Ip Cidr) where
  unfoldable pub ip_item : Text → Item
  unfolding trim_space contains
  ip_item item =
      let candidate = trim_space item in
      if is_empty candidate
      then skipped
      else if contains candidate (codes "/")
      then elim (lib.net.parse_cidr candidate) [
        | none ↦ invalid_item
        | some network ↦ canonical (lib.show_network network)
      ]
      else elim (lib.net.parse_ip candidate) [
        | none ↦ invalid_item
        | some ip ↦ canonical (lib.net.show ip)
      ]

  unfoldable pub normalize_ip_rules : List Text → Option (List Text)
  unfolding collect_items ip_item
  normalize_ip_rules items = collect_items ip_item [] items

  -- The five lists of a rule set.
  unfoldable pub normalize_rules : IpAccessConfig → Option IpAccessConfig
  unfolding normalize_ip_rules normalize_asn_rules
  normalize_rules a = do
    allow ← normalize_ip_rules a.allow_cidrs
    deny ← normalize_ip_rules a.deny_cidrs
    allow_asns ← normalize_asn_rules a.allow_asns
    deny_asns ← normalize_asn_rules a.deny_asns
    reputation ← normalize_ip_rules a.deny_reputation_cidrs
    some (record {
      allow_cidrs = allow;
      deny_cidrs = deny;
      allow_asns = allow_asns;
      deny_asns = deny_asns;
      deny_reputation_cidrs = reputation;
    })

  -- One rule set, whose id is trimmed and new.
  unfoldable pub normalize_rule_set : List Text → IpRuleSet → Option IpRuleSet
  unfolding trim_space normalize_rules normalize_ip_rule_conflict_policy
  normalize_rule_set seen item = do
    guard (not (is_empty (trim_space item.id)))
    guard (not (member (trim_space item.id) seen))
    rules ← normalize_rules item.rules
    some (record {
      id = trim_space item.id;
      name = trim_space item.name;
      priority = item.priority;
      conflict_policy = normalize_ip_rule_conflict_policy item.conflict_policy;
      rules = rules;
    })

  -- The loop of `normalizeIPRuleSets`, with the ids that were seen.
  unfoldable pub normalize_rule_sets : List Text → List IpRuleSet → Option (List IpRuleSet)
  unfolding normalize_rule_set
  normalize_rule_sets seen [] = some []
  normalize_rule_sets seen (item ∷ items) = do
    r ← normalize_rule_set seen item
    rs ← normalize_rule_sets (r.id ∷ seen) items
    some (r ∷ rs)

  -- The body of the loop of `normalizeIPCountryAutoUpdates`; its list must be that of allowed clients,
  -- and `deny` is read as this list.
  unfoldable pub normalize_country_task : List Text → List Text → CountryTask → Option CountryTask
  unfolding trim_space to_lower normalize_country_codes normalize_ip_rules
  normalize_country_task known seen item = do
    guard (not (is_empty (trim_space item.id)))
    guard (not (member (to_lower (trim_space item.id)) seen))
    guard (not (is_empty (trim_space item.rule_set_id)))
    guard (member (trim_space item.rule_set_id) known)
    guard (member (to_lower (trim_space item.target_list)) ([] ∷ codes "deny" ∷ codes "allow" ∷ []))
    countries ← normalize_country_codes item.countries
    guard (not (is_empty countries))
    d ← lib.parse_duration (text_or (codes "24h") (trim_space item.interval))
    guard (not (is_shorter d 300_000_000_000))
    guard (member (to_lower (trim_space item.source)) ([] ∷ codes "ipdeny" ∷ []))
    cidrs ← normalize_ip_rules item.cidrs
    some (record {
      id = trim_space item.id;
      enabled = item.enabled;
      rule_set_id = trim_space item.rule_set_id;
      target_list = codes "allow";
      countries = countries;
      include_ipv6 = item.include_ipv6;
      interval = text_or (codes "24h") (trim_space item.interval);
      source = codes "ipdeny";
      cidrs = cidrs;
      last_attempt_at = item.last_attempt_at;
      last_sync_at = item.last_sync_at;
      last_error = trim_space item.last_error;
    })

  unfoldable pub normalize_country_tasks :
      List Text → List Text → List CountryTask → Option (List CountryTask)
  unfolding normalize_country_task to_lower
  normalize_country_tasks known seen [] = some []
  normalize_country_tasks known seen (item ∷ items) = do
    t ← normalize_country_task known seen item
    ts ← normalize_country_tasks known (to_lower t.id ∷ seen) items
    some (t ∷ ts)
