-- ===== src/Sites/Checks.antt =====
-- The checks of internal/site/site.go on names, domains, addresses and upstreams. An error is the
-- format of its text; what is formatted into it is left out, and an error that wraps another is the
-- inner one. Packages net, url and regexp are
-- parameters.
use flow_proxy.Prelude.{
  ℕ, ◌≡◌, refl, Bool, true, false, not, ◌||◌, ◌&&◌, List, [], ◌∷◌, Option, none, some, Text, codes,
  text_eq, is_empty, member, every, any, length, if◌then◌else◌, trim_space, to_upper, has_prefix,
  has_suffix, contains, split_at, leb, ltb, ◌==◌, All, is_positive,
}
use Prim.Native.String.{String}
use flow_proxy.Access.Rules.{NetLib, parse_uint32}
use flow_proxy.Domains.{trim_prefix}
use flow_proxy.Pipeline.Headers.{is_token_char}
use flow_proxy.Sites.Config.{Upstream, HeaderLine}

-- The scheme and the host of a `url.URL`.
pub record ParsedUrl : Type 0 where
  pub scheme : Text
  pub host : Text

-- A `regexp.Regexp`: MatchString and ReplaceAllString.
pub record Regex : Type 0 where
  pub matches_text : Text → Bool
  pub replace_all : Text → Text → Text

-- What the code calls of packages net, url and regexp: `NetLib`, url.Parse and regexp.Compile.
pub record SiteLib (Ip Cidr : Type 0) : Type 0 where
  pub net : NetLib Ip Cidr
  pub parse_url : Text → Option ParsedUrl
  pub compile_regexp : Text → Option Regex

-- An error, or nil.
abbrev pub Check : Type 0
Check = Option Text

abbrev pub reject : Bool → String → Check
reject b message = if b then some (codes message) else none

-- Checks one after the other: the first error ends them.
unfoldable pub first_error : List Check → Check
first_error [] = none
first_error (none ∷ checks) = first_error checks
first_error (some e ∷ checks) = some e

-- A loop of one check.
unfoldable pub check_each {ℓ} : {A : Type ℓ} → (A → Check) → List A → Check
check_each f [] = none
check_each f (x ∷ xs) = let rest = check_each f xs in elim (f x) [ none ↦ rest | some e ↦ some e ]

pub first_error-none : (cs : List Check) → first_error cs ≡ none → All (λ c. c ≡ none) cs
unfolding first_error
first_error-none [] h = tt
first_error-none (none ∷ cs) h = (refl, first_error-none cs h)
first_error-none (some e ∷ cs) h = cc

-- `strings.ContainsAny`.
abbrev pub contains_any : Text → Text → Bool
contains_any s chars = any (λ c. any (λ d. c == d) chars) s

unfoldable pub is_valid_load_balance : Text → Bool
is_valid_load_balance strategy = member strategy (
    codes "round_robin"
    ∷ codes "weighted_round_robin"
    ∷ codes "random"
    ∷ codes "ip_hash"
    ∷ codes "least_conn"
    ∷ [])

-- A character that the loop of `isValidHeaderName` passes.
abbrev pub is_name_char : ℕ → Bool
is_name_char ch =
    leb b'a' ch && leb ch b'z'
    || leb b'A' ch && leb ch b'Z'
    || leb b'0' ch && leb ch b'9'
    || ch == b'-'
    || ch == b'_'

unfoldable pub is_valid_header_name : Text → Bool
unfolding trim_space
is_valid_header_name raw =
    let name = trim_space raw in if is_empty name then false else every is_name_char name

-- `hostLabelRegexp`: 1 to 63 characters of [a-z0-9-].
abbrev pub is_host_label : Text → Bool
is_host_label part =
    leb 1 (length part)
    && leb (length part) 63
    && every (λ c. leb b'a' c && leb c b'z' || leb b'0' c && leb c b'9' || c == b'-') part

unfoldable pub is_valid_domain_pattern : Text → Bool
unfolding has_prefix has_suffix split_at
is_valid_domain_pattern domain =
    let parts = split_at b'.' (trim_prefix domain (codes "*.")) in
    if is_empty domain
    then false
    else if ltb (length parts) 2
    then false
    else every
        (λ part.
          is_host_label part
          && not (has_prefix part (codes "-"))
          && not (has_suffix part (codes "-")))
        parts

-- The body of the loop of `validateHTTPMethods`, with `httpMethodRegexp`.
unfoldable pub validate_http_method : Text → Check
unfolding to_upper trim_space
validate_http_method method =
    let value = to_upper (trim_space method) in
    reject (not (is_empty value) && not (every is_token_char value))
      "traffic control allowedMethods[%d] is invalid"

unfoldable pub validate_http_methods : List Text → Check
unfolding validate_http_method check_each
validate_http_methods = check_each validate_http_method

-- The test on an item of `validateASNs`.
unfoldable pub is_bad_asn : Text → Bool
unfolding to_upper trim_space has_prefix parse_uint32
is_bad_asn item =
    let candidate = trim_prefix (to_upper (trim_space item)) (codes "AS") in
    if is_empty candidate
    then false
    else if not (every (λ ch. not (ltb ch b'0' || ltb b'9' ch)) candidate)
    then true
    else elim (parse_uint32 candidate) [ none ↦ true | some value ↦ value == 0 ]

unfoldable pub validate_asns : List Text → Check
unfolding is_bad_asn check_each
validate_asns = check_each (λ item. reject (is_bad_asn item) "%s asn[%d] is invalid")

unfoldable pub validate_header : HeaderLine → Check
unfolding is_valid_header_name trim_space
validate_header header =
    if is_empty (trim_space header.name)
    then some (codes "%s header[%d] name is required")
    else reject (not (is_valid_header_name header.name)) "%s header[%d] has invalid name"

unfoldable pub validate_headers : List HeaderLine → Check
unfolding validate_header check_each
validate_headers = check_each validate_header

unfoldable pub validate_header_names : List Text → Check
unfolding is_valid_header_name check_each
validate_header_names =
    check_each (λ name. reject (not (is_valid_header_name name)) "%s header[%d] has invalid name")

module _ {Ip Cidr : Type 0} (lib : SiteLib Ip Cidr) where
  abbrev pub is_cidr : Text → Bool
  is_cidr s = elim (lib.net.parse_cidr s) [ none ↦ false | some c ↦ true ]

  abbrev pub is_ip : Text → Bool
  is_ip s = elim (lib.net.parse_ip s) [ none ↦ false | some c ↦ true ]

  abbrev pub is_regexp : Text → Bool
  is_regexp s = elim (lib.compile_regexp s) [ none ↦ false | some r ↦ true ]

  -- The body of the loop of `validateCIDRs`.
  unfoldable pub validate_cidr : Text → Check
  unfolding trim_space contains
  validate_cidr item =
      let candidate = trim_space item in
      if is_empty candidate
      then none
      else if contains candidate (codes "/")
      then reject (not (is_cidr candidate)) "%s cidr[%d] is invalid"
      else reject (not (is_ip candidate)) "%s ip[%d] is invalid"

  unfoldable pub validate_cidrs : List Text → Check
  unfolding validate_cidr check_each
  validate_cidrs = check_each validate_cidr

  unfoldable pub validate_regex_item : Text → Check
  unfolding trim_space
  validate_regex_item item =
      let value = trim_space item in
      if is_empty value then none else reject (not (is_regexp value)) "%s[%d] is invalid"

  unfoldable pub validate_regex_list : List Text → Check
  unfolding validate_regex_item check_each
  validate_regex_list = check_each validate_regex_item

  unfoldable pub validate_upstream_url : Text → Check
  unfolding trim_space
  validate_upstream_url raw = elim (lib.parse_url (trim_space raw)) [
    | none ↦ some (codes "invalid upstream URL")
    | some u ↦
        (if not (text_eq u.scheme (codes "http")) && not (text_eq u.scheme (codes "https"))
          then some (codes "upstream must start with http:// or https://")
          else reject (is_empty u.host) "upstream host is required")
  ]

  -- The loops over the upstreams of a site, a route and a canary.
  unfoldable pub validate_upstream : String → Upstream → Check
  unfolding validate_upstream_url
  validate_upstream message up = elim (validate_upstream_url up.url) [
    | some e ↦ some e
    | none ↦ reject (not (is_positive up.weight)) message
  ]

  unfoldable pub validate_l4_target : Text → Check
  unfolding trim_space contains
  validate_l4_target raw =
      let target = trim_space raw in
      if is_empty target
      then none
      else if contains target (codes "://")
      then elim (lib.parse_url target) [
        | none ↦ some (codes "invalid L4 upstream URL %q: %w")
        | some u ↦ reject (is_empty u.host) "L4 upstream %q has no host"
      ]
      else elim (lib.net.split_host_port target) [
        | none ↦ some (codes "L4 upstream %q must be host:port or scheme://host:port format")
        | some parts ↦ none
      ]

  abbrev pub urls_of : List Upstream → List Text
  urls_of [] = []
  urls_of (up ∷ ups) = up.url ∷ urls_of ups

  unfoldable pub validate_l4_upstream : Text → List Upstream → Check
  unfolding validate_l4_target check_each
  validate_l4_upstream upstream upstreams =
      check_each validate_l4_target
        (if is_empty upstream then urls_of upstreams else upstream ∷ urls_of upstreams)
