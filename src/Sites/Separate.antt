-- ===== src/Sites/Separate.antt =====
-- Whatever is called on a store, its sites keep out of each other's way.
use flow_proxy.Prelude.{
  ℕ, ◌≡◌, ◌⊎◌, refl, sym, ◌∙◌, subst, Bool, true, false, not, ◌||◌, ◌&&◌, List, [], ◌∷◌, Text,
  text_eq, text_eq_refl, text_eq_iff, is_empty, any, member, arith, Bool-cases, inl, inr,
}
use flow_proxy.Sites.Config.{Site}
use flow_proxy.Sites.Stored.{In, any-In}
use flow_proxy.Sites.Store.{
  domains_of, shares_domain, same_port, is_compared, ensure_domain_uniqueness,
  ensure_listen_port_uniqueness, switched_site, is_unique,
}

-- Two sites of different names on one node that share a domain, or a port that both listen on.
unfoldable pub clashes : Site → Site → Bool
clashes a b =
    not (text_eq a.id b.id) && text_eq a.node_id b.node_id && (shares_domain a b || same_port a b)

-- No two sites clash, and each has a name.
pub record IsSeparate (sites : List Site) : Type 0 where
  pub apart : (a b : Site) → In a sites → In b sites → clashes a b ≡ false
  pub named : (a : Site) → In a sites → is_empty a.id ≡ false

any_none :
    (xs ys : List Text)
    → ((d : Text) → member d xs ≡ true → member d ys ≡ false)
    → any (λ d. member d ys) xs ≡ false
any_none [] ys h = refl
any_none (x ∷ xs) ys h =
    ground
      (arith, h x (ground (arith, text_eq_refl x)), any_none xs ys (λ d k. h d (ground (arith, k))))

none_any :
    (xs ys : List Text) (d : Text)
    → any (λ e. member e xs) ys ≡ false
    → member d xs ≡ true
    → member d ys ≡ false
none_any xs [] d h k = refl
none_any xs (y ∷ ys) d h k =
    ground (arith, none_any xs ys d (ground (arith, h)) k, text_eq_iff d y, h, k)

shares_domain-sym : (a b : Site) → shares_domain a b ≡ false → shares_domain b a ≡ false
unfolding shares_domain
shares_domain-sym a b h =
    any_none (domains_of a) (domains_of b) (λ d k. none_any (domains_of a) (domains_of b) d h k)

shares_domain_comm : (a b : Site) → shares_domain a b ≡ shares_domain b a
shares_domain_comm a b = elim (Bool-cases (shares_domain a b)) [
  | inr none_shared ↦ none_shared ∙ sym (shares_domain-sym a b none_shared)
  | inl shared ↦ elim (Bool-cases (shares_domain b a)) [
    | inl back ↦ shared ∙ sym back
    | inr none_back ↦ absurd (ground (arith, shared, shares_domain-sym b a none_back))
  ]
]

pub text_eq_comm : (s t : Text) → text_eq s t ≡ text_eq t s
text_eq_comm s t = ground (arith, text_eq_iff s t, text_eq_iff t s)

same_port_comm : (a b : Site) → same_port a b ≡ same_port b a
same_port_comm a b = ground arith

clashes-sym : (a b : Site) → clashes a b ≡ false → clashes b a ≡ false
unfolding clashes
clashes-sym a b h =
    rw
      (
        text_eq_comm b.id a.id,
        text_eq_comm b.node_id a.node_id,
        shares_domain_comm b a,
        same_port_comm b a,
      )
      h

-- A site that clashes with none of the stored ones may stand in the place of one, or beside them.
pub IsSeparate-add :
    (ss ts : List Site) (n : Site)
    → IsSeparate ss
    → is_empty n.id ≡ false
    → ((b : Site) → In b ss → clashes n b ≡ false)
    → ((x : Site) → In x ts → (x ≡ n) ⊎ In x ss)
    → IsSeparate ts
unfolding clashes
IsSeparate-add ss ts n h full free from = record {
  apart = λ a b ha hb. elim (from a ha) [
    | inl is_a ↦ elim (from b hb) [
      | inl is_b ↦ rw (is_a, is_b) (ground (arith, text_eq_refl n.id))
      | inr old_b ↦ subst (λ x. clashes x b ≡ false) (sym is_a) (free b old_b)
    ]
    | inr old_a ↦ elim (from b hb) [
      | inl is_b ↦ subst (λ x. clashes a x ≡ false) (sym is_b) (clashes-sym n a (free a old_a))
      | inr old_b ↦ h.apart a b old_a old_b
    ]
  ];
  named = λ a ha. elim (from a ha) [
    | inl is_a ↦ subst (λ x. is_empty x.id ≡ false) (sym is_a) full
    | inr old_a ↦ h.named a old_a
  ];
}

not-not : (c : Bool) → (true && not (not c)) ≡ false → c ≡ false
not-not true h = cc
not-not false h = refl

neither :
    (t s p : Bool) → (true && t && s) ≡ false → (true && t && p) ≡ false → (t && (s || p)) ≡ false
neither true false false h k = refl
neither true true p h k = cc
neither true false true h k = cc
neither false s p h k = refl

-- What the checks say of each site that they compare with.
is_unique-free :
    (ss : List Site) (n b : Site) (except : Text)
    → is_unique ss n except ≡ true
    → In b ss
    → text_eq b.id except ≡ false
    → (text_eq n.node_id b.node_id && (shares_domain n b || same_port n b)) ≡ false
unfolding is_unique ensure_domain_uniqueness ensure_listen_port_uniqueness
is_unique-free ss n b except h stored other =
    let domain =
      any-In (λ e. is_compared n except e && shares_domain n e) ss b (ground (arith, h)) stored in
    let port =
      any-In (λ e. is_compared n except e && same_port n e) ss b (ground (arith, h)) stored in
    rw (text_eq_comm n.node_id b.node_id) (
      neither (text_eq b.node_id n.node_id) (shares_domain n b) (same_port n b) (rw other at domain)
        (rw other at port))

-- A site that is like a checked one in what is compared clashes with none.
pub placed-free :
    (ss : List Site) (n m b : Site) (except : Text)
    → is_unique ss n except ≡ true
    → In b ss
    → (text_eq m.id b.id ≡ false → text_eq b.id except ≡ false)
    → (text_eq m.node_id b.node_id && (shares_domain m b || same_port m b))
      ≡ (text_eq n.node_id b.node_id && (shares_domain n b || same_port n b))
    → clashes m b ≡ false
unfolding clashes
placed-free ss n m b except h stored named same = elim (Bool-cases (text_eq m.id b.id)) [
  | inl own ↦ rw own refl
  | inr other ↦ rw other (same ∙ is_unique-free ss n b except h stored (named other))
]

either :
    (i n s p : Bool)
    → (i && n && s) ≡ false
    → ((i && n) && p) ≡ false
    → (i && n && (s || p)) ≡ false
either i n s p h k = ground (arith, h, k)

first_of : (i n s p : Bool) → (i && n && (s || p)) ≡ false → (i && n && s) ≡ false
first_of i n s p h = ground (arith, h)

and_false : (c : Bool) → (c && false) ≡ false
and_false true = refl
and_false false = refl

-- A stored site that is switched on or off clashes with none, if no other has its port.
pub switched-free :
    (ss : List Site) (now : ℕ) (enabled : Bool) (item b : Site)
    → IsSeparate ss
    → In item ss
    → (enabled
        && not (ensure_listen_port_uniqueness ss (record item { is_enabled = true }) item.id))
      ≡ false
    → In b ss
    → clashes (switched_site now enabled item) b ≡ false
unfolding clashes ensure_listen_port_uniqueness shares_domain
switched-free ss now enabled item b sound here h stored =
    either (not (text_eq item.id b.id)) (text_eq item.node_id b.node_id) (shares_domain item b)
      (same_port (switched_site now enabled item) b)
      (first_of (not (text_eq item.id b.id)) (text_eq item.node_id b.node_id) (shares_domain item b)
        (same_port item b) (sound.apart item b here stored))
      (port enabled h)
  where
    port :
        (e : Bool)
        → (e && not (ensure_listen_port_uniqueness ss (record item { is_enabled = true }) item.id))
          ≡ false
        → ((not (text_eq item.id b.id) && text_eq item.node_id b.node_id)
            && same_port (switched_site now e item) b)
          ≡ false
    port false k = and_false _
    port true k =
        let test : Site = record item { is_enabled = true } in
        rw (text_eq_comm item.id b.id, text_eq_comm item.node_id b.node_id)
          (any-In (λ e. is_compared test item.id e && same_port test e) ss b (not-not _ k) stored)
