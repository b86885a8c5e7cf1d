-- ===== src/Access/Rules.antt =====
-- The address rules of internal/proxy/proxy.go and their parsers. Package net is a parameter.
use flow_proxy.Prelude.{
  ℕ, ◌^◌, Bool, false, ◌||◌, not, List, [], ◌∷◌, Option, none, some, Text, codes, text_eq, ltb,
  ◌==◌, if◌then◌else◌, any, is_empty, contains, trim_space, to_upper, to_lower, has_prefix, drop,
  digits_from,
}
use flow_proxy.Http.{Header, header_get}

-- What the code calls of package net: net.ParseIP, the network of net.ParseCIDR,
-- IPNet.Contains, IP.Equal, net.SplitHostPort and IP.String.
pub record NetLib (Ip Cidr : Type 0) : Type 0 where
  pub parse_ip : Text → Option Ip
  pub parse_cidr : Text → Option Cidr
  pub holds : Cidr → Ip → Bool
  pub equal : Ip → Ip → Bool
  pub split_host_port : Text → Option (Text × Text)
  pub show : Ip → Text

-- `ipRule`: exactly one of its two pointers is set.
pub data IpRule (Ip Cidr : Type 0) : Type 0 where
  address : Ip → IpRule Ip Cidr
  network : Cidr → IpRule Ip Cidr

-- Puts a value in front of what the rest of a loop collects, if that does not fail.
abbrev pub cons_ok {ℓ} : {A : Type ℓ} → A → Option (List A) → Option (List A)
cons_ok a none = none
cons_ok a (some rest) = some (a ∷ rest)

module _ {Ip Cidr : Type 0} (net : NetLib Ip Cidr) where
  -- One candidate of `parseIPRules`, trimmed and not empty.
  unfoldable pub parse_ip_rule : Text → Option (IpRule Ip Cidr)
  unfolding contains
  parse_ip_rule candidate =
      if contains candidate (codes "/")
      then elim (net.parse_cidr candidate) [ none ↦ none | some c ↦ some (network c) ]
      else elim (net.parse_ip candidate) [ none ↦ none | some ip ↦ some (address ip) ]

  unfoldable pub parse_ip_rules : List Text → Option (List (IpRule Ip Cidr))
  unfolding trim_space
  parse_ip_rules [] = some []
  parse_ip_rules (item ∷ raw) =
      let rest = parse_ip_rules raw in
      if text_eq (trim_space item) []
      then rest
      else elim (parse_ip_rule (trim_space item)) [ none ↦ none | some rule ↦ cons_ok rule rest ]

  abbrev pub matches_rule : Ip → IpRule Ip Cidr → Bool
  matches_rule ip (address a) = net.equal a ip
  matches_rule ip (network c) = net.holds c ip

  unfoldable pub match_any_rule : List (IpRule Ip Cidr) → Ip → Bool
  match_any_rule rules ip = any (matches_rule ip) rules

-- strconv.ParseUint(s, 10, 32).
unfoldable pub parse_uint32 : Text → Option ℕ
parse_uint32 [] = none
parse_uint32 (c ∷ s) = elim (digits_from 0 (c ∷ s)) [
  | none ↦ none
  | some n ↦ (if ltb n (2 ^ 32) then some n else none)
]

-- The text before the first of `,`, `;` and a space.
abbrev pub first_field : Text → Text
first_field [] = []
first_field (c ∷ s) = if c == b',' || c == b';' || c == b' ' then [] else c ∷ first_field s

-- The three results of `parseASNText`.
pub data AsnText : Type 0 where
  absent : AsnText
  invalid : AsnText
  asn_is : ℕ → AsnText

-- `strings.TrimPrefix(first, "AS")`.
abbrev pub trim_as : Text → Text
unfolding has_prefix
trim_as s = if has_prefix s (codes "AS") then drop 2 s else s

unfoldable pub parse_asn_text : Text → AsnText
unfolding trim_space to_upper parse_uint32
parse_asn_text raw =
    let first = trim_as (to_upper (trim_space (first_field (trim_space raw)))) in
    if text_eq (trim_space raw) []
    then absent
    else if text_eq first []
    then absent
    else elim (parse_uint32 first) [
      | none ↦ invalid
      | some n ↦ (if n == 0 then invalid else asn_is n)
    ]

-- The set of systems is a list, here in the order of the texts.
unfoldable pub parse_asn_rules : List Text → Option (List ℕ)
unfolding parse_asn_text
parse_asn_rules [] = some []
parse_asn_rules (item ∷ raw) =
    let rest = parse_asn_rules raw in
    elim (parse_asn_text item) [ absent ↦ rest | invalid ↦ none | asn_is n ↦ cons_ok n rest ]

unfoldable pub match_any_asn_rule : List ℕ → ℕ → Bool
match_any_asn_rule rules asn =
    if is_empty rules || asn == 0 then false else any (λ r. r == asn) rules

-- The loop of `clientASNFromRequest` over the header names.
unfoldable pub client_asn_from : Header → List Text → ℕ
unfolding header_get trim_space parse_asn_text
client_asn_from h [] = 0
client_asn_from h (name ∷ names) =
    let rest = client_asn_from h names in
    elim (parse_asn_text (trim_space (header_get h name))) [ asn_is n ↦ n | _ ↦ rest ]

unfoldable pub client_asn_from_request : Header → ℕ
unfolding client_asn_from
client_asn_from_request h =
    client_asn_from h
      (codes "X-Client-Asn" ∷ codes "X-Asn" ∷ codes "Cf-Asn" ∷ codes "True-Client-Asn" ∷ [])

-- `normalizeRuntimeConflictPolicy`, as the test whether an allow rule is tried first.
unfoldable pub is_allow_first : Text → Bool
unfolding trim_space to_lower
is_allow_first input =
    let v = to_lower (trim_space input) in
    not (
      text_eq v (codes "deny_first")
      || text_eq v (codes "deny-first")
      || text_eq v (codes "denyfirst"))
