-- ===== src/Tests/Endpoints.antt =====
-- Two endpoints, the first of which does not answer.
use flow_proxy.Prelude.{
  ◌≡◌, refl, true, if◌then◌else◌, List, [], ◌∷◌, none, some, some_inj, no_some, subst, Text, codes,
  text_eq, trim_space, Bool-cases, inl, inr, arith,
}
use flow_proxy.Sync.Client.{Client, SyncError, message, should_failover, Calling, with_failover}
use flow_proxy.Sync.Failover.{IsSettled, Answers, with_failover-reaches}

abbrev calling : Calling
calling url logged =
    if text_eq url (codes "b") then (none, logged) else (some (message (codes "timeout")), logged)

calling-Answers : Answers calling (codes "b") 100
unfolding should_failover
calling-Answers = (λ logged. refl, leads_on)
  where
    leads_on :
        (u : Text) (logged : List Text) (e : SyncError)
        → (calling u logged).0 ≡ some e
        → should_failover e ≡ true
    leads_on u logged e h = elim (Bool-cases (text_eq u (codes "b"))) [
      | inl same ↦ no_some (rw same at h)
      | inr other ↦ subst (λ x. should_failover x ≡ true) (some_inj (rw other at h)) refl
    ]

abbrev client : Client
client = record {
  base_urls = codes "a" ∷ codes "b" ∷ [];
  logged_in = [];
  active_index = 0;
  failures_by_url = [];
  cooldown_until = (codes "b", 500) ∷ [];
}

with_failover-reaches_example :
    ((with_failover calling 100 client).0 ≡ none) × IsSettled (with_failover calling 100 client).1
unfolding trim_space
with_failover-reaches_example =
    with_failover-reaches calling (codes "b") 100 client calling-Answers
      (λ h. ground (arith, h), (λ h. ground (arith, h), tt)) refl
