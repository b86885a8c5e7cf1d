-- ===== src/Pipeline/Headers.antt =====
-- The headers that `ServeHTTP` sets and removes: `applyRequestHeaders`, `applyResponseHeaders` and
-- their helpers in internal/proxy/proxy.go, with http.Header over canonical names.
use flow_proxy.Prelude.{
  ℕ, zero, suc, ◌-◌, Bool, true, not, ◌||◌, ◌&&◌, List, [], ◌∷◌, ◌++◌, Text, codes, text_eq,
  is_empty, member, every, if◌then◌else◌, store, delete, length, leb, ◌==◌, has_prefix, trim_space,
  to_lower, split_at, lower_char, upper_char,
}
use flow_proxy.Http.{Header, header_get}
use flow_proxy.Routing.{normalize_request_host}

-- A byte of a header's name.
abbrev pub is_token_char : ℕ → Bool
is_token_char c =
    leb b'0' c && leb c b'9'
    || leb b'A' c && leb c b'Z'
    || leb b'a' c && leb c b'z'
    || member (c ∷ []) (
        codes "!"
        ∷ codes "#"
        ∷ codes "$"
        ∷ codes "%"
        ∷ codes "&"
        ∷ codes "'"
        ∷ codes "*"
        ∷ codes "+"
        ∷ codes "-"
        ∷ codes "."
        ∷ codes "^"
        ∷ codes "_"
        ∷ codes "`"
        ∷ codes "|"
        ∷ codes "~"
        ∷ [])

unfoldable pub canonical_from : Bool → Text → Text
unfolding lower_char upper_char
canonical_from up [] = []
canonical_from up (c ∷ s) =
    (if up then upper_char c else lower_char c) ∷ canonical_from (c == b'-') s

-- http.CanonicalHeaderKey.
unfoldable pub canonical_header_key : Text → Text
unfolding canonical_from
canonical_header_key s = if every is_token_char s then canonical_from true s else s

-- http.Header.Set, Del and Get.
unfoldable pub set_header : Text → Text → Header → Header
unfolding canonical_header_key store
set_header key value h = store (canonical_header_key key) (value ∷ []) h

unfoldable pub del_header : Text → Header → Header
unfolding canonical_header_key delete
del_header key h = delete (canonical_header_key key) h

unfoldable pub get_header : Text → Header → Text
unfolding canonical_header_key header_get
get_header key h = header_get h (canonical_header_key key)

-- The loop of `canonicalHeaderList` with the names that were seen.
unfoldable pub fresh_names : List Text → List Text → List Text
unfolding canonical_header_key trim_space
fresh_names seen [] = []
fresh_names seen (item ∷ items) =
    let name = canonical_header_key (trim_space item) in
    let kept = fresh_names (name ∷ seen) items in
    let rest = fresh_names seen items in
    if is_empty name || member name seen then rest else name ∷ kept

unfoldable pub canonical_header_list : List Text → List Text
unfolding fresh_names
canonical_header_list items = fresh_names [] items

-- `cloneHeaders`; a header is a name with a value.
unfoldable pub clone_headers : List (Text × Text) → List (Text × Text)
unfolding canonical_header_key trim_space
clone_headers [] = []
clone_headers ((name, value) ∷ headers) =
    let key = canonical_header_key (trim_space name) in
    let rest = clone_headers headers in
    if is_empty key then rest else (key, trim_space value) ∷ rest

-- `setRequestHeaderIfAllowed`, and `setHeaderIfAllowed`, which leaves a header that is set.
unfoldable pub set_request_header_if_allowed : List Text → Text → Text → Header → Header
unfolding trim_space set_header
set_request_header_if_allowed removed key value h =
    if is_empty (trim_space value) || member key removed then h else set_header key value h

unfoldable pub set_header_if_allowed : List Text → Text → Text → Header → Header
unfolding trim_space get_header set_header
set_header_if_allowed removed key value h =
    if is_empty (trim_space value) || member key removed || not (is_empty (get_header key h))
    then h
    else set_header key value h

-- The loops that delete names, and that set headers to values.
unfoldable pub del_headers : List Text → Header → Header
unfolding del_header
del_headers [] h = h
del_headers (key ∷ keys) h = del_headers keys (del_header key h)

unfoldable pub set_headers : List (Text × Text) → Header → Header
unfolding set_header
set_headers [] h = h
set_headers ((name, value) ∷ headers) h = set_headers headers (set_header name value h)

-- strings.ReplaceAll, for a pattern that is not empty; `skip` characters still belong to a match.
unfoldable pub replace_from : Text → Text → ℕ → Text → Text
unfolding has_prefix
replace_from pattern by skip [] = []
replace_from pattern by zero (c ∷ s) =
    let matched = replace_from pattern by (length pattern - 1) s in
    let rest = replace_from pattern by zero s in
    if has_prefix (c ∷ s) pattern then by ++ matched else c ∷ rest
replace_from pattern by (suc skip) (c ∷ s) = replace_from pattern by skip s

-- What a template of a header's value may name of the request.
pub record RequestFacts : Type 0 where
  pub host : Text
  pub client_ip : Text
  pub request_id : Text
  pub scheme : Text
  pub forwarded_port : Text
  pub is_forwarded_trusted : Bool

unfoldable pub expand_header_value : RequestFacts → Text → Text
unfolding replace_from normalize_request_host
expand_header_value r template =
    let out = replace_from (codes "$remote_addr") r.client_ip 0 template in
    let out = replace_from (codes "$remote_port") [] 0 out in
    let out = replace_from (codes "$host") (normalize_request_host r.host) 0 out in
    let out = replace_from (codes "$scheme") r.scheme 0 out in
    replace_from (codes "$request_id") r.request_id 0 out

unfoldable pub normalize_forwarded_proto : Text → Text
unfolding split_at to_lower trim_space
normalize_forwarded_proto raw = elim (split_at b',' raw) [
  | [] ↦ []
  | part ∷ parts ↦
      (let value = to_lower (trim_space part) in
        if text_eq value (codes "http") || text_eq value (codes "https") then value else [])
]

unfoldable pub scheme_from_request : Bool → Bool → Header → Text
unfolding normalize_forwarded_proto get_header
scheme_from_request is_tls trusted h =
    let proto = normalize_forwarded_proto (get_header (codes "X-Forwarded-Proto") h) in
    if is_tls
    then codes "https"
    else if trusted && not (is_empty proto)
    then proto
    else codes "http"

-- What the two functions read of a `compiledSite`.
pub record HeaderRules : Type 0 where
  pub request_headers : List (Text × Text)
  pub response_headers : List (Text × Text)
  pub remove_request_headers : List Text
  pub remove_response_headers : List Text
  pub auto_request_headers : Bool
  pub auto_response_headers : Bool
  pub enable_security_headers : Bool

abbrev pub expanded : RequestFacts → List (Text × Text) → List (Text × Text)
expanded r [] = []
expanded r ((name, template) ∷ headers) =
    (name, expand_header_value r template) ∷ expanded r headers

unfoldable pub apply_auto_headers : HeaderRules → RequestFacts → Header → Header
unfolding del_header set_request_header_if_allowed
apply_auto_headers c r h =
    let removed = c.remove_request_headers in
    let own =
      if not r.is_forwarded_trusted && not (member (codes "X-Forwarded-For") removed)
      then del_header (codes "X-Forwarded-For") h
      else h in
    set_request_header_if_allowed removed (codes "X-Request-ID") r.request_id (
      set_request_header_if_allowed removed (codes "X-Forwarded-Port") r.forwarded_port
        (set_request_header_if_allowed removed (codes "X-Real-IP") r.client_ip own))

unfoldable pub apply_request_headers : HeaderRules → RequestFacts → Header → Header
unfolding apply_auto_headers del_headers set_headers expand_header_value
apply_request_headers c r h = set_headers (expanded r c.request_headers) (
    del_headers c.remove_request_headers
      (if c.auto_request_headers then apply_auto_headers c r h else h))

-- The names and values that `EnableSecurityHeaders` adds.
abbrev pub security_headers : Bool → List (Text × Text)
security_headers is_tls =
    (codes "X-Content-Type-Options", codes "nosniff")
    ∷ (codes "X-Frame-Options", codes "SAMEORIGIN")
    ∷ (codes "Referrer-Policy", codes "strict-origin-when-cross-origin")
    ∷ (codes "X-XSS-Protection", codes "1; mode=block")
    ∷ (codes "Permissions-Policy", codes "geolocation=(), microphone=(), camera=()")
    ∷ (
      codes "Content-Security-Policy",
      codes "default-src 'self'; object-src 'none'; frame-ancestors 'self'",
    )
    ∷ (if is_tls
        then (codes "Strict-Transport-Security", codes "max-age=31536000; includeSubDomains") ∷ []
        else [])

unfoldable pub add_allowed : List Text → List (Text × Text) → Header → Header
unfolding set_header_if_allowed
add_allowed removed [] h = h
add_allowed removed ((name, value) ∷ headers) h =
    add_allowed removed headers (set_header_if_allowed removed name value h)

unfoldable pub apply_response_headers : HeaderRules → Bool → Text → Header → Header
unfolding set_header del_headers set_header_if_allowed add_allowed set_headers
apply_response_headers c is_tls request_id h =
    let removed = c.remove_response_headers in
    let left = del_headers removed (set_header (codes "X-Proxy-By") (codes "FlowProxy") h) in
    let named =
      if c.auto_response_headers
      then set_header_if_allowed removed (codes "X-Request-ID") request_id left
      else left in
    set_headers c.response_headers (
      if c.enable_security_headers
      then add_allowed removed (security_headers is_tls) named
      else named)
