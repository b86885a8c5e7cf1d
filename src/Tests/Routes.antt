-- ===== src/Tests/Routes.antt =====
-- Hosts and routes.
use flow_proxy.Prelude.{
  ℕ, ◌≡◌, refl, true, false, [], ◌∷◌, none, some, Text, codes, has_prefix, has_suffix,
}
use flow_proxy.Http.{Request, Body}
use flow_proxy.Routing.{Hosts, lookup_site, CompiledRoute, match_prefix, matches}

abbrev hosts : Hosts ℕ
hosts = record {
  exact_hosts = (codes "a.org", 1) ∷ [];
  wildcards = (codes ".b.org", 2) ∷ (codes ".org", 3) ∷ [];
}

found : lookup_site hosts (codes "x.b.org") ≡ some 2
unfolding lookup_site has_suffix
found = refl

abbrev route : Text → CompiledRoute
route path = record {
  match_type = match_prefix;
  path = path;
  path_regex = none;
  methods = [];
  header = [];
  header_value = [];
  cookie = [];
  cookie_value = [];
  query = [];
  query_value = [];
  rewrite_regex = some (λ p. codes "v2");
  pool = none;
}

abbrev request : Request
request = record {
  method = codes "GET";
  path = codes "/api/x";
  header = [];
  cookies = [];
  query = [];
  body = Body.nil;
  has_get_body = false;
  content_length = 0;
}

passed_over : matches (route (codes "/img")) request ≡ false
unfolding matches
passed_over = refl

taken : matches (route (codes "/api")) request ≡ true
unfolding matches
taken = refl

absolute : has_prefix request.path (codes "/") ≡ true
unfolding has_prefix
absolute = refl
