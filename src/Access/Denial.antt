-- ===== src/Access/Denial.antt =====
-- Which clients a compiled policy denies, and when a policy is an allow list.
use flow_proxy.Prelude.{
  ℕ, Bool, true, false, ◌&&◌, ◌||◌, not, List, [], ◌∷◌, ◌++◌, some, Text, if◌then◌else◌, is_empty,
  any, arith, lookup, ◌≡◌, refl, ◌↔◌, inl, inr, Bool-cases, Option-cases, no_some, subst, text_eq,
  codes, trim_space, to_lower,
}
use flow_proxy.Access.Rules.{NetLib, is_allow_first}
use flow_proxy.Access.{
  CompiledSource, CompiledPolicy, IpAccessSourceRules, SiteAccess, IpAccessConfig, has_allow,
  compile_source, compile_sources, compile_legacy, compile_listed, compile_ip_access_policy,
  source_map, allowed_by, refused_by, denied_by_sources, denied_by_policy,
}

if_same : (b c : Bool) → (if b then c else c) ≡ c
if_same true c = refl
if_same false c = refl

module _ {Ip Cidr : Type 0} (net : NetLib Ip Cidr) (ip : Ip) (asn : ℕ) where
  -- No rule of the source speaks of the client.
  pub record Indifferent (s : CompiledSource Ip Cidr) : Type 0 where
    pub not_allowed : allowed_by net s ip asn ≡ false
    pub not_refused : refused_by net s ip asn ≡ false

  -- The source settles that the client is denied (true) or let through (false): a rule of the
  -- kind speaks of it, and where rules of both kinds do, the source's conflict policy chooses.
  pub data Settles (s : CompiledSource Ip Cidr) : Bool → Type 0 where
    only_refused : refused_by net s ip asn ≡ true → allowed_by net s ip asn ≡ false → Settles s true
    only_allowed :
        allowed_by net s ip asn ≡ true → refused_by net s ip asn ≡ false → Settles s false
    conflict :
        allowed_by net s ip asn ≡ true
        → refused_by net s ip asn ≡ true
        → Settles s (not s.allow_first)

  -- What the first source that settles the client says, or the default where none does.
  pub data Verdict (otherwise : Bool) : List (CompiledSource Ip Cidr) → Bool → Type 0 where
    by_default : Verdict otherwise [] otherwise
    settled :
        {s : CompiledSource Ip Cidr} {ss : List (CompiledSource Ip Cidr)} {b : Bool}
        → Settles s b
        → Verdict otherwise (s ∷ ss) b
    passed :
        {s : CompiledSource Ip Cidr} {ss : List (CompiledSource Ip Cidr)} {b : Bool}
        → Indifferent s
        → Verdict otherwise ss b
        → Verdict otherwise (s ∷ ss) b

  Verdict-of :
      (ss : List (CompiledSource Ip Cidr)) (d : Bool)
      → Verdict d ss (denied_by_sources net ss ip asn d)
  unfolding denied_by_sources
  Verdict-of [] d = by_default
  Verdict-of (s ∷ ss) d = elim (Bool-cases (allowed_by net s ip asn)) [
    | inl a ↦ elim (Bool-cases (refused_by net s ip asn)) [
      | inl r ↦
          rw (a, r) (subst (λ b. Verdict d (s ∷ ss) b) (ground arith) (settled (conflict a r)))
      | inr r ↦ rw (a, r, if_same) (settled (only_allowed a r))
    ]
    | inr a ↦ elim (Bool-cases (refused_by net s ip asn)) [
      | inl r ↦ rw (a, r, if_same) (settled (only_refused r a))
      | inr r ↦
          rw (a, r, if_same)
            (passed (record { not_allowed = a; not_refused = r }) (Verdict-of ss d))
    ]
  ]

  Verdict-unique :
      (d b : Bool) (ss : List (CompiledSource Ip Cidr))
      → Verdict d ss b
      → denied_by_sources net ss ip asn d ≡ b
  unfolding denied_by_sources
  Verdict-unique d b ss by_default = refl
  Verdict-unique d b ss (settled (only_refused r a)) = ground arith
  Verdict-unique d b ss (settled (only_allowed a r)) = ground arith
  Verdict-unique d b ss (settled (conflict a r)) = ground arith
  Verdict-unique d b ss (passed i v) =
      ground (arith, i.not_allowed, i.not_refused, Verdict-unique d b _ v)

  -- A client whose text is an address is denied exactly when the verdict on it is a denial: the
  -- first source with a rule that speaks of it settles it, by its conflict policy where rules of
  -- both kinds do, and where no source has one the policy's flag decides.
  pub denied_by_policy-Verdict :
      (policy : CompiledPolicy Ip Cidr) (text : Text) (b : Bool)
      → net.parse_ip text ≡ some ip
      → (denied_by_policy net policy text asn ≡ b) ↔ Verdict policy.any_allow policy.sources b
  unfolding denied_by_policy
  denied_by_policy-Verdict policy text b h =
      rw (h, denied_by_policy)
        (
          (λ e.
              subst (λ d. Verdict policy.any_allow policy.sources d) e
                (Verdict-of policy.sources policy.any_allow)),
          (λ v. Verdict-unique policy.any_allow b policy.sources v),
        )

-- A policy knows whether one of its sources has an allow rule.
pub record IsConsistent {Ip Cidr : Type 0} (p : CompiledPolicy Ip Cidr) : Type 0 where
  pub flag : p.any_allow ≡ any has_allow p.sources

any-append :
    {A : Type 0} (f : A → Bool) (xs ys : List A) → any f (xs ++ ys) ≡ (any f xs || any f ys)
any-append f [] ys = refl
any-append f (x ∷ xs) ys = ground (arith, any-append f xs ys)

added :
    {Ip Cidr : Type 0} (acc : CompiledPolicy Ip Cidr) (c : CompiledSource Ip Cidr)
    → IsConsistent acc
    → IsConsistent
        (record { sources = acc.sources ++ c ∷ []; any_allow = has_allow c || acc.any_allow })
added acc c i = record { flag = ground (arith, i.flag, any-append has_allow acc.sources (c ∷ [])) }

module _ {Ip Cidr : Type 0} (net : NetLib Ip Cidr) where
  compile_sources-IsConsistent :
      (m : List (Text × IpAccessSourceRules)) (order : List Text) (acc p : CompiledPolicy Ip Cidr)
      → IsConsistent acc
      → compile_sources net m order acc ≡ some p
      → IsConsistent p
  unfolding compile_sources
  compile_sources-IsConsistent m [] acc p i h = record { flag = ground (arith, i.flag) }
  compile_sources-IsConsistent m (name ∷ order) acc p i h =
      elim (Bool-cases (text_eq (to_lower (trim_space name)) [])) [
        | inl e ↦ compile_sources-IsConsistent m order acc p i (rw e at h)
        | inr e ↦ elim (Option-cases (lookup (to_lower (trim_space name)) m)) [
          | inl none_there ↦ compile_sources-IsConsistent m order acc p i (rw (e, none_there) at h)
          | inr (s, found) ↦
              elim (Option-cases (
                compile_source net (to_lower (trim_space name)) (is_allow_first s.conflict_policy)
                  s.rules)) [
                    | inl bad ↦ no_some (rw (e, found, bad) at h)
                    | inr (c, good) ↦
                        compile_sources-IsConsistent m order _ p (added acc c i)
                          (rw (e, found, good) at h)
                  ]
        ]
      ]

  compile_legacy-IsConsistent :
      (cfg : IpAccessConfig) (p : CompiledPolicy Ip Cidr)
      → compile_legacy net cfg ≡ some p
      → IsConsistent p
  unfolding compile_legacy
  compile_legacy-IsConsistent cfg p h =
      elim (Option-cases (compile_source net (codes "legacy") false cfg)) [
        | inl bad ↦ no_some (rw (bad, compile_legacy) at h)
        | inr (c, good) ↦ record { flag = ground (arith, rw (good, compile_legacy) at h) }
      ]

  listed :
      (site : SiteAccess) (q : CompiledPolicy Ip Cidr)
      → compile_listed net site ≡ some q
      → IsConsistent q
  unfolding compile_listed
  listed site q h =
      let i : IsConsistent (record { sources = []; any_allow = false }) = record { flag = refl } in
      elim (Bool-cases (not (is_empty site.source_order) && not (is_empty site.sources))) [
        | inl e ↦
            compile_sources-IsConsistent (source_map site.sources []) site.source_order _ q i
              (rw e at h)
        | inr e ↦ subst IsConsistent (ground (arith, rw e at h)) i
      ]

  -- The flag of a site's policy, where its rules compile, says whether some compiled source has an
  -- allow rule.
  pub compile_ip_access_policy-IsConsistent :
      (site : SiteAccess) (p : CompiledPolicy Ip Cidr)
      → compile_ip_access_policy net site ≡ some p
      → IsConsistent p
  unfolding compile_ip_access_policy
  compile_ip_access_policy-IsConsistent site p h = elim (Option-cases (compile_listed net site)) [
    | inl bad ↦ no_some (rw (bad, compile_ip_access_policy) at h)
    | inr (q, good) ↦ elim (Bool-cases (is_empty q.sources)) [
      | inl e ↦
          compile_legacy-IsConsistent site.ip_access p (rw (good, e, compile_ip_access_policy) at h)
      | inr e ↦
          subst IsConsistent (ground (arith, rw (good, e, compile_ip_access_policy) at h))
            (listed site q good)
    ]
  ]
