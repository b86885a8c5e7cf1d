-- ===== src/Tests/HeaderRuns.antt =====
-- Headers of a site that removes the identifier of the request.
use flow_proxy.Prelude.{
  ◌≡◌, refl, true, false, [], ◌∷◌, none, some, codes, lookup, trim_space, arith,
}
use flow_proxy.Http.{Header}
use flow_proxy.Pipeline.Headers.{
  HeaderRules, RequestFacts, apply_request_headers, apply_response_headers, canonical_header_key,
  canonical_header_list,
}
use flow_proxy.Pipeline.Forwarded.{
  forwarded_for, apply_request_headers-drops, apply_response_headers-keeps,
}

abbrev rules : HeaderRules
rules = record {
  request_headers = (codes "X-Tenant", codes "$host") ∷ [];
  response_headers = [];
  remove_request_headers = [];
  remove_response_headers = codes "X-Request-Id" ∷ [];
  auto_request_headers = true;
  auto_response_headers = true;
  enable_security_headers = true;
}

-- The list is the one that the code makes of the configured name.
removed : canonical_header_list (codes " x-request-ID" ∷ []) ≡ rules.remove_response_headers
unfolding canonical_header_list
removed = refl

abbrev facts : RequestFacts
facts = record {
  host = codes "a.org";
  client_ip = codes "c";
  request_id = codes "7f";
  scheme = codes "http";
  forwarded_port = codes "80";
  is_forwarded_trusted = false;
}

abbrev spoofed : Header
spoofed = (forwarded_for, codes "10.0.0.1" ∷ []) ∷ []

apply_request_headers-drops_example :
    lookup forwarded_for (apply_request_headers rules facts spoofed) ≡ none
unfolding canonical_header_key
apply_request_headers-drops_example =
    apply_request_headers-drops rules facts spoofed refl refl (refl, tt)

apply_response_headers-keeps_example :
    lookup (codes "X-Request-Id") (apply_response_headers rules true (codes "7f") [])
    ≡ some (codes "7f" ∷ [])
unfolding canonical_header_key trim_space
apply_response_headers-keeps_example =
    apply_response_headers-keeps rules true (codes "7f") [] refl (refl, tt) refl tt
      (λ h. ground (arith, h))
