-- ===== src/Access/Client.antt =====
-- The client's address: `clientIPFromRequest` and `isForwardedHeadersTrusted` of
-- internal/proxy/proxy.go.
use flow_proxy.Prelude.{
  Bool, true, false, List, [], ◌∷◌, ◌++◌, Option, none, some, Text, codes, if◌then◌else◌, is_empty,
  arith, trim_space, split_at, ◌≡◌, refl, All, no_some,
}
use flow_proxy.Http.{Header, header_get}
use flow_proxy.Access.Rules.{NetLib, IpRule, match_any_rule}

module _ {Ip Cidr : Type 0} (net : NetLib Ip Cidr) where
  unfoldable pub remote_ip_from_addr : Text → Option Ip
  unfolding trim_space
  remote_ip_from_addr raw = elim (net.split_host_port raw) [
    | none ↦ net.parse_ip (trim_space raw)
    | some (host, port) ↦ net.parse_ip host
  ]

  unfoldable pub parse_ips : List Text → List Ip
  unfolding trim_space
  parse_ips [] = []
  parse_ips (item ∷ parts) =
      let rest = parse_ips parts in
      elim (net.parse_ip (trim_space item)) [ none ↦ rest | some ip ↦ ip ∷ rest ]

  unfoldable pub parse_forwarded_for_ips : Text → List Ip
  unfolding parse_ips split_at
  parse_forwarded_for_ips raw = parse_ips (split_at b',' raw)

  unfoldable pub is_forwarded_headers_trusted : Text → List (IpRule Ip Cidr) → Bool
  unfolding match_any_rule remote_ip_from_addr
  is_forwarded_headers_trusted remote_addr trusted =
      if is_empty trusted then false else elim (remote_ip_from_addr remote_addr) [
        | none ↦ false
        | some ip ↦ match_any_rule net trusted ip
      ]

  -- The loop over the forwarded addresses, which starts at the last: the last one that no trusted
  -- proxy has.
  unfoldable pub last_untrusted : List (IpRule Ip Cidr) → List Ip → Option Ip
  unfolding match_any_rule
  last_untrusted trusted [] = none
  last_untrusted trusted (ip ∷ ips) = elim (last_untrusted trusted ips) [
    | none ↦ (if match_any_rule net trusted ip then none else some ip)
    | some found ↦ some found
  ]

  -- The address that a non-empty chain of forwarded addresses names.
  unfoldable pub forwarded_client : List (IpRule Ip Cidr) → Ip → List Ip → Ip
  unfolding last_untrusted
  forwarded_client trusted first more = elim (last_untrusted trusted (first ∷ more)) [
    | none ↦ first
    | some ip ↦ ip
  ]

  -- The chain's client, or the remote address where the chain is empty.
  unfoldable pub forwarded_text : List (IpRule Ip Cidr) → Ip → List Ip → Text
  unfolding forwarded_client
  forwarded_text trusted remote [] = net.show remote
  forwarded_text trusted remote (first ∷ more) = net.show (forwarded_client trusted first more)

  unfoldable pub client_ip_from_request : Text → Header → Bool → List (IpRule Ip Cidr) → Text
  unfolding remote_ip_from_addr parse_forwarded_for_ips header_get forwarded_text
  client_ip_from_request remote_addr header trust trusted = elim (remote_ip_from_addr remote_addr) [
    | none ↦ remote_addr
    | some remote ↦
        (if trust
          then forwarded_text trusted remote
              (parse_forwarded_for_ips (header_get header (codes "X-Forwarded-For")))
          else net.show remote)
  ]

  last_untrusted-none :
      (trusted : List (IpRule Ip Cidr)) (ips : List Ip)
      → All (λ ip. match_any_rule net trusted ip ≡ true) ips
      → last_untrusted trusted ips ≡ none
  unfolding last_untrusted
  last_untrusted-none trusted [] t = refl
  last_untrusted-none trusted (ip ∷ ips) t =
      ground (arith, t.0, last_untrusted-none trusted ips t.1)

  last_untrusted-some :
      (trusted : List (IpRule Ip Cidr)) (client : Ip) (claimed proxies : List Ip)
      → match_any_rule net trusted client ≡ false
      → All (λ ip. match_any_rule net trusted ip ≡ true) proxies
      → last_untrusted trusted (claimed ++ client ∷ proxies) ≡ some client
  unfolding last_untrusted
  last_untrusted-some trusted client [] proxies u t =
      ground (arith, last_untrusted-none trusted proxies t)
  last_untrusted-some trusted client (ip ∷ claimed) proxies u t =
      ground (arith, last_untrusted-some trusted client claimed proxies u t)

  forwarded_text-nearest :
      (trusted : List (IpRule Ip Cidr)) (remote client : Ip) (ips : List Ip)
      → last_untrusted trusted ips ≡ some client
      → forwarded_text trusted remote ips ≡ net.show client
  unfolding forwarded_text last_untrusted
  forwarded_text-nearest trusted remote client [] h = no_some h
  forwarded_text-nearest trusted remote client (first ∷ more) h =
      rw (forwarded_text, forwarded_client, h) refl

  -- With trusted forwarding headers and a remote address, the forwarded address that stands before
  -- trusted proxies only, and has no trusted proxy's address itself, is the client's, whatever is
  -- claimed before it in the header.
  pub client_ip_from_request-nearest :
      (remote_addr : Text) (header : Header) (trusted : List (IpRule Ip Cidr)) (remote client : Ip)
      (claimed proxies : List Ip)
      → remote_ip_from_addr remote_addr ≡ some remote
      → parse_forwarded_for_ips (header_get header (codes "X-Forwarded-For"))
        ≡ claimed ++ client ∷ proxies
      → match_any_rule net trusted client ≡ false
      → All (λ ip. match_any_rule net trusted ip ≡ true) proxies
      → client_ip_from_request remote_addr header true trusted ≡ net.show client
  unfolding client_ip_from_request
  client_ip_from_request-nearest remote_addr header trusted remote client claimed proxies r x u t =
      rw (r, client_ip_from_request, x)
        (forwarded_text-nearest trusted remote client _
          (last_untrusted-some trusted client claimed proxies u t))
