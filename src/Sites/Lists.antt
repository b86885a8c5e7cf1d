-- ===== src/Sites/Lists.antt =====
-- Lists that `Validate` passes are lists that `compileSite` can read: the address rules, the systems
-- and the patterns.
use flow_proxy.Prelude.{
  ℕ, ◌≡◌, ◌≢◌, refl, sym, Bool, true, false, not, ◌||◌, ◌&&◌, List, [], ◌∷◌, Option, none, some,
  no_some, Text, codes, text_eq, is_empty, every, ltb, ◌==◌, if◌then◌else◌, trim_space,
  trim_space_idem, to_upper, has_prefix, contains, arith, All, Bool-cases, Option-cases, inl, inr,
}
use flow_proxy.Access.Rules.{
  AsnText, absent, invalid, asn_is, address, network, cons_ok, parse_ip_rule, parse_ip_rules,
  parse_uint32, first_field, trim_as, parse_asn_text, parse_asn_rules,
}
use flow_proxy.Sites.Checks.{
  SiteLib, Check, reject, check_each, is_cidr, is_ip, is_bad_asn, validate_asns, validate_cidr,
  validate_cidrs, validate_regex_item, validate_regex_list,
}
use flow_proxy.Sites.Compile.{CompileLib, compile_agents}

-- A result is there.
abbrev pub Made {ℓ} : {A : Type ℓ} → Option A → Type ℓ
Made {A = A} o = (a : A) × (o ≡ some a)

pub check_each-All {ℓ} :
    {A : Type ℓ} (f : A → Check) (xs : List A) → check_each f xs ≡ none → All (λ x. f x ≡ none) xs
unfolding check_each
check_each-All f [] h = tt
check_each-All f (x ∷ xs) h = elim (Option-cases (f x)) [
  | inl fine ↦ (fine, check_each-All f xs (rw (fine, check_each) at h))
  | inr (e, bad) ↦ no_some (sym (rw (bad, check_each) at h))
]

cons_ok-Made {ℓ} : {A : Type ℓ} (a : A) (rest : Option (List A)) → Made rest → Made (cons_ok a rest)
cons_ok-Made a none (xs, e) = no_some e
cons_ok-Made a (some ys) (xs, e) = (a ∷ ys, refl)

module _ {Ip Cidr : Type 0} (lib : SiteLib Ip Cidr) where
  parse_ip_rule-Made :
      (t : Text)
      → (contains t (codes "/") ≡ true → is_cidr lib t ≡ true)
      → (contains t (codes "/") ≡ false → is_ip lib t ≡ true)
      → Made (parse_ip_rule lib.net t)
  unfolding parse_ip_rule
  parse_ip_rule-Made t cidr ip = elim (Bool-cases (contains t (codes "/"))) [
    | inl slash ↦ elim (Option-cases (lib.net.parse_cidr t)) [
      | inl bad ↦ absurd (ground (arith, cidr slash, bad))
      | inr (c, good) ↦ (network c, rw (slash, good) refl)
    ]
    | inr plain ↦ elim (Option-cases (lib.net.parse_ip t)) [
      | inl bad ↦ absurd (ground (arith, ip plain, bad))
      | inr (a, good) ↦ (address a, rw (plain, good) refl)
    ]
  ]

  -- What `validateCIDRs` passes is what `parseIPRules` reads.
  pub parse_ip_rules-Made :
      (items : List Text) → validate_cidrs lib items ≡ none → Made (parse_ip_rules lib.net items)
  unfolding validate_cidrs parse_ip_rules validate_cidr
  parse_ip_rules-Made items h = go items (check_each-All (validate_cidr lib) items h)
    where
      go :
          (xs : List Text)
          → All (λ x. validate_cidr lib x ≡ none) xs
          → Made (parse_ip_rules lib.net xs)
      go [] h = ([], refl)
      go (x ∷ xs) h = elim (Bool-cases (text_eq (trim_space x) [])) [
        | inl blank ↦ rw blank (go xs h.1)
        | inr full ↦
            (let (r, good) =
                parse_ip_rule-Made (trim_space x) (λ s. ground (arith, h.0, full, s))
                  (λ s. ground (arith, h.0, full, s)) in
              rw (full, good) (cons_ok-Made r (parse_ip_rules lib.net xs) (go xs h.1)))
      ]

  -- What `validateRegexList` passes compiles.
  pub compile_agents-Made :
      (given : CompileLib) (items : List Text)
      → validate_regex_list lib items ≡ none
      → Made (compile_agents lib given items)
  unfolding validate_regex_list validate_regex_item compile_agents
  compile_agents-Made given items h = go items (check_each-All (validate_regex_item lib) items h)
    where
      go :
          (xs : List Text)
          → All (λ x. validate_regex_item lib x ≡ none) xs
          → Made (compile_agents lib given xs)
      go [] h = ([], refl)
      go (x ∷ xs) h = elim (Bool-cases (is_empty (trim_space x))) [
        | inl blank ↦ rw blank (go xs h.1)
        | inr full ↦ elim (Option-cases (lib.compile_regexp (trim_space x))) [
          | inl bad ↦ absurd (ground (arith, h.0, full, bad))
          | inr (r, good) ↦
              (let (rs, e) = go xs h.1 in (r.matches_text ∷ rs, rw (full, good, e) refl))
        ]
      ]

-- A code point that does not end a field of `parseASNText`.
abbrev Inside : ℕ → Type 0
Inside c = (c ≢ b',') × (c ≢ b';') × (c ≢ b' ')

first_field-Inside : (s : Text) → All Inside (to_upper s) → first_field s ≡ s
unfolding to_upper
first_field-Inside [] h = refl
first_field-Inside (c ∷ s) h = ground (arith, h.0, first_field-Inside s h.1)

digits-Inside : (s : Text) → every (λ ch. not (ltb ch b'0' || ltb b'9' ch)) s ≡ true → All Inside s
digits-Inside [] h = tt
digits-Inside (c ∷ s) h = (ground (arith, h), digits-Inside s (ground (arith, h)))

trim_as-Inside :
    (s : Text) → every (λ ch. not (ltb ch b'0' || ltb b'9' ch)) (trim_as s) ≡ true → All Inside s
unfolding has_prefix
trim_as-Inside [] h = tt
trim_as-Inside (a ∷ []) h = digits-Inside (a ∷ []) (ground (arith, h))
trim_as-Inside (a ∷ b ∷ s) h = elim (Bool-cases (a == b'A' && b == b'S')) [
  | inl named ↦
      (ground (arith, named), (ground (arith, named), digits-Inside s (ground (arith, h, named))))
  | inr bare ↦ digits-Inside (a ∷ b ∷ s) (ground (arith, h, bare))
]

every_of_empty :
    (u : Text) → is_empty u ≡ true → every (λ ch. not (ltb ch b'0' || ltb b'9' ch)) u ≡ true
every_of_empty [] h = refl
every_of_empty (c ∷ u) h = cc

asn-Inside : (item : Text) → is_bad_asn item ≡ false → All Inside (to_upper (trim_space item))
unfolding is_bad_asn
asn-Inside item h =
    let u = trim_as (to_upper (trim_space item)) in
    trim_as-Inside (to_upper (trim_space item)) (elim (Bool-cases (is_empty u)) [
      | inl blank ↦ every_of_empty u blank
      | inr full ↦ ground (arith, h, full)
    ])

abbrev is_read : AsnText → Bool
is_read invalid = false
is_read absent = true
is_read (asn_is n) = true

-- The last tests of `parseASNText`, on the digits.
parse_digits-read :
    (u : Text)
    → (if is_empty u
        then false
        else if not (every (λ ch. not (ltb ch b'0' || ltb b'9' ch)) u)
        then true
        else elim (parse_uint32 u) [ none ↦ true | some value ↦ value == 0 ])
      ≡ false
    → is_read (
        if text_eq u [] then absent else elim (parse_uint32 u) [
          | none ↦ invalid
          | some n ↦ (if n == 0 then invalid else asn_is n)
        ])
      ≡ true
parse_digits-read [] h = refl
parse_digits-read (c ∷ u) h = elim (Option-cases (parse_uint32 (c ∷ u))) [
  | inl bad ↦ absurd (ground (arith, h, bad))
  | inr (n, good) ↦ elim (Bool-cases (n == 0)) [
    | inl null ↦ absurd (ground (arith, h, good, null))
    | inr other ↦ rw (good, other) refl
  ]
]

parse_asn_text-read : (item : Text) → is_bad_asn item ≡ false → is_read (parse_asn_text item) ≡ true
unfolding parse_asn_text is_bad_asn
parse_asn_text-read item h = elim (Bool-cases (text_eq (trim_space item) [])) [
  | inl blank ↦ rw blank refl
  | inr full ↦
      rw (full, first_field-Inside (trim_space item) (asn-Inside item h), trim_space_idem item)
        (parse_digits-read (trim_as (to_upper (trim_space item))) h)
]

-- What `validateASNs` passes is what `parseASNRules` reads.
pub parse_asn_rules-Made :
    (items : List Text) → validate_asns items ≡ none → Made (parse_asn_rules items)
unfolding validate_asns parse_asn_rules
parse_asn_rules-Made items h =
    go items (check_each-All (λ item. reject (is_bad_asn item) "%s asn[%d] is invalid") items h)
  where
    push :
        (t : AsnText) (rest : Option (List ℕ))
        → is_read t ≡ true
        → Made rest
        → Made (elim t as (λ x. Option (List ℕ)) [
          | absent ↦ rest
          | invalid ↦ none
          | asn_is n ↦ cons_ok n rest
        ])
    push absent rest h k = k
    push invalid rest h k = cc
    push (asn_is n) rest h k = cons_ok-Made n rest k

    go :
        (xs : List Text)
        → All (λ x. reject (is_bad_asn x) "%s asn[%d] is invalid" ≡ none) xs
        → Made (parse_asn_rules xs)
    go [] h = ([], refl)
    go (x ∷ xs) h =
        push (parse_asn_text x) (parse_asn_rules xs) (parse_asn_text-read x (ground (arith, h.0)))
          (go xs h.1)
