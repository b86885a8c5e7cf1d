-- ===== src/Domains.antt =====
-- The domains of a site: `NormalizeHost`, `NormalizeDomains` and `AllDomains` of
-- internal/site/site.go, and whether a site forwards ports only, of internal/proxy/portproxy.go.
use flow_proxy.Prelude.{
  Bool, true, false, ◌||◌, List, [], ◌∷◌, Option, none, some, Text, codes, text_eq, length, drop,
  has_prefix, is_empty, member, if◌then◌else◌, trim_space, to_lower,
}
use flow_proxy.Routing.{before_colon}

-- strings.TrimPrefix.
abbrev pub trim_prefix : Text → Text → Text
unfolding has_prefix
trim_prefix s prefix = if has_prefix s prefix then drop (length prefix) s else s

unfoldable pub normalize_host : Text → Text
unfolding to_lower trim_space
normalize_host raw =
    let host =
      trim_prefix (trim_prefix (to_lower (trim_space raw)) (codes "http://")) (codes "https://") in
    if is_empty (before_colon host) then host else before_colon host

-- The loop over the further domains, with those that were seen.
unfoldable pub fresh_domains : List Text → List Text → List Text
unfolding normalize_host
fresh_domains seen [] = []
fresh_domains seen (domain ∷ domains) =
    let d = normalize_host domain in
    let rest = fresh_domains (d ∷ seen) domains in
    let skipped = fresh_domains seen domains in
    if is_empty d || member d seen then skipped else d ∷ rest

-- Its order is that of slices.Sort, which is given.
unfoldable pub normalize_domains : (List Text → List Text) → Text → List Text → Text × List Text
unfolding normalize_host fresh_domains
normalize_domains sort primary extras =
    let p = normalize_host primary in
    (p, sort (fresh_domains (if is_empty p then [] else p ∷ []) extras))

unfoldable pub all_domains : (List Text → List Text) → Text → List Text → List Text
unfolding normalize_domains
all_domains sort primary extras =
    let (domain, rest) = normalize_domains sort primary extras in
    if is_empty domain then rest else domain ∷ rest

pub data PortProtocol : Type 0 where
  tcp udp tls : PortProtocol

unfoldable pub parse_port_protocol : Text → Option PortProtocol
unfolding to_lower trim_space
parse_port_protocol s =
    let t = to_lower (trim_space s) in
    if text_eq t (codes "tcp")
    then some tcp
    else if text_eq t (codes "udp")
    then some udp
    else if text_eq t (codes "tls")
    then some tls
    else none

unfoldable pub is_l4_site : Text → Bool
unfolding parse_port_protocol
is_l4_site protocol = elim (parse_port_protocol protocol) [ none ↦ false | some p ↦ true ]
