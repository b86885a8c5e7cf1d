-- ===== src/Pipeline/Forwarded.antt =====
-- Which headers reach the upstream and the client, whatever the request and the response carry.
use flow_proxy.Prelude.{
  ◌≡◌, ◌≢◌, refl, sym, ap, ◌∙◌, Bool, true, false, List, [], ◌∷◌, none, some, Text, codes, text_eq,
  text_eq_sound, text_eq_refl, is_empty, member, if◌then◌else◌, lookup, lookup-store, lookup-delete,
  trim_space, arith, All, Bool-cases, inl, inr, subst,
}
use flow_proxy.Http.{Header, header_get, header_values}
use flow_proxy.Pipeline.Headers.{
  canonical_header_key, canonical_from, set_header, del_header, get_header,
  set_request_header_if_allowed, set_header_if_allowed, del_headers, set_headers, RequestFacts,
  HeaderRules, expanded, apply_auto_headers, apply_request_headers, security_headers, add_allowed,
  apply_response_headers,
}

-- The name is as net/http writes it.
abbrev pub IsCanonical : Text → Type 0
IsCanonical key = canonical_header_key key ≡ key

-- No configured header has the name.
abbrev pub NotNamed : Text → List (Text × Text) → Type 0
NotNamed key headers = All (λ h. text_eq (canonical_header_key h.0) key ≡ false) headers

lookup-set_headers :
    (key : Text) (headers : List (Text × Text)) (h : Header)
    → NotNamed key headers
    → lookup key (set_headers headers h) ≡ lookup key h
unfolding set_headers set_header
lookup-set_headers key [] h others = refl
lookup-set_headers key ((name, value) ∷ headers) h others =
    lookup-set_headers key headers (set_header name value h) others.1
    ∙ lookup-store (canonical_header_key name) key (value ∷ []) h
    ∙ rw others.0 refl

del_headers-none :
    (key : Text) (keys : List Text) (h : Header)
    → lookup key h ≡ none
    → lookup key (del_headers keys h) ≡ none
unfolding del_headers del_header
del_headers-none key [] h gone = gone
del_headers-none key (k ∷ keys) h gone =
    del_headers-none key keys (del_header k h)
      (lookup-delete (canonical_header_key k) key h ∙ ground (arith, gone))

-- A canonical name among those that are removed is removed.
del_headers-member :
    (key : Text) (keys : List Text) (h : Header)
    → IsCanonical key
    → member key keys ≡ true
    → lookup key (del_headers keys h) ≡ none
unfolding del_headers del_header
del_headers-member key [] h canonical listed = absurd (ground (arith, listed))
del_headers-member key (k ∷ keys) h canonical listed = elim (Bool-cases (text_eq key k)) [
  | inl same ↦ del_headers-none key keys (del_header k h) (
      lookup-delete (canonical_header_key k) key h
      ∙ ap (λ t. if text_eq t key then none else lookup key h)
          (ap canonical_header_key (sym (text_eq_sound key k same)) ∙ canonical)
      ∙ rw (text_eq_refl key) refl)
  | inr other ↦
      del_headers-member key keys (del_header k h) canonical (ground (arith, listed, other))
]

set_request-other :
    (key name value : Text) (removed : List Text) (h : Header)
    → text_eq (canonical_header_key name) key ≡ false
    → lookup key (set_request_header_if_allowed removed name value h) ≡ lookup key h
unfolding set_request_header_if_allowed set_header
set_request-other key name value removed h other =
    ground (arith, other, lookup-store (canonical_header_key name) key (value ∷ []) h)

expanded-NotNamed :
    (key : Text) (r : RequestFacts) (headers : List (Text × Text))
    → NotNamed key headers
    → NotNamed key (expanded r headers)
expanded-NotNamed key r [] h = tt
expanded-NotNamed key r ((name, template) ∷ headers) h = (h.0, expanded-NotNamed key r headers h.1)

abbrev pub forwarded_for : Text
forwarded_for = codes "X-Forwarded-For"

auto_headers-drops :
    (c : HeaderRules) (r : RequestFacts) (h : Header)
    → r.is_forwarded_trusted ≡ false
    → member forwarded_for c.remove_request_headers ≡ false
    → lookup forwarded_for (apply_auto_headers c r h) ≡ none
unfolding apply_auto_headers canonical_header_key canonical_from del_header
auto_headers-drops c r h untrusted kept =
    let removed = c.remove_request_headers in
    rw (untrusted, kept)
      (set_request-other forwarded_for (codes "X-Request-ID") r.request_id removed _ refl
        ∙ set_request-other forwarded_for (codes "X-Forwarded-Port") r.forwarded_port removed _ refl
        ∙ set_request-other forwarded_for (codes "X-Real-IP") r.client_ip removed _ refl
        ∙ lookup-delete forwarded_for forwarded_for h)

-- Where the automatic headers are on, an X-Forwarded-For of a client that is not a trusted proxy does
-- not reach the upstream, unless the site sets that header itself.
pub apply_request_headers-drops :
    (c : HeaderRules) (r : RequestFacts) (h : Header)
    → c.auto_request_headers ≡ true
    → r.is_forwarded_trusted ≡ false
    → NotNamed forwarded_for c.request_headers
    → lookup forwarded_for (apply_request_headers c r h) ≡ none
unfolding apply_request_headers canonical_header_key canonical_from
apply_request_headers-drops c r h auto untrusted others =
    lookup-set_headers forwarded_for (expanded r c.request_headers) _
      (expanded-NotNamed forwarded_for r c.request_headers others)
    ∙ elim (Bool-cases (member forwarded_for c.remove_request_headers)) [
      | inl listed ↦ del_headers-member forwarded_for c.remove_request_headers _ refl listed
      | inr kept ↦ rw auto (
          del_headers-none forwarded_for c.remove_request_headers _
            (auto_headers-drops c r h untrusted kept))
    ]

set_header-other :
    (key name value : Text) (removed : List Text) (h : Header)
    → text_eq (canonical_header_key name) key ≡ false
    → lookup key (set_header_if_allowed removed name value h) ≡ lookup key h
unfolding set_header_if_allowed set_header
set_header-other key name value removed h other =
    ground (arith, other, lookup-store (canonical_header_key name) key (value ∷ []) h)

lookup-add_allowed :
    (key : Text) (removed : List Text) (headers : List (Text × Text)) (h : Header)
    → NotNamed key headers
    → lookup key (add_allowed removed headers h) ≡ lookup key h
unfolding add_allowed
lookup-add_allowed key removed [] h others = refl
lookup-add_allowed key removed ((name, value) ∷ headers) h others =
    lookup-add_allowed key removed headers (set_header_if_allowed removed name value h) others.1
    ∙ set_header-other key name value removed h others.0

-- A name that is not canonical is not among canonical ones.
member-canonical :
    (key : Text) (keys : List Text)
    → text_eq (canonical_header_key key) key ≡ false
    → All IsCanonical keys
    → member key keys ≡ false
member-canonical key [] odd h = refl
member-canonical key (k ∷ keys) odd h = elim (Bool-cases (text_eq key k)) [
  | inl same ↦ absurd (
      ground (
        arith,
        odd,
        text_eq_refl key,
        subst (λ t. canonical_header_key t ≡ t) (sym (text_eq_sound key k same)) h.0,
      ))
  | inr other ↦ rw other (member-canonical key keys odd h.1)
]

get_header-none :
    (h : Header) → lookup (codes "X-Request-Id") h ≡ none → get_header (codes "X-Request-ID") h ≡ []
unfolding get_header header_get header_values canonical_header_key canonical_from
get_header-none h gone = rw (get_header, header_get, header_values, gone) refl

set_header-sets :
    (value : Text) (removed : List Text) (h : Header)
    → member (codes "X-Request-ID") removed ≡ false
    → trim_space value ≢ []
    → lookup (codes "X-Request-Id") h ≡ none
    → lookup (codes "X-Request-Id") (set_header_if_allowed removed (codes "X-Request-ID") value h)
      ≡ some (value ∷ [])
unfolding set_header_if_allowed set_header canonical_header_key canonical_from
set_header-sets value removed h allowed named gone =
    let given : is_empty (trim_space value) ≡ false = ground (arith, named) in
    rw (given, allowed, get_header-none h gone)
      (lookup-store (codes "X-Request-Id") (codes "X-Request-Id") (value ∷ []) h)

-- Where the automatic headers are on and the site's own headers do not name it, a response carries
-- X-Request-Id with the identifier of the request also if the site removes that header.
pub apply_response_headers-keeps :
    (c : HeaderRules) (is_tls : Bool) (request_id : Text) (h : Header)
    → c.auto_response_headers ≡ true
    → All IsCanonical c.remove_response_headers
    → member (codes "X-Request-Id") c.remove_response_headers ≡ true
    → NotNamed (codes "X-Request-Id") c.response_headers
    → trim_space request_id ≢ []
    → lookup (codes "X-Request-Id") (apply_response_headers c is_tls request_id h)
      ≡ some (request_id ∷ [])
unfolding apply_response_headers canonical_header_key canonical_from
apply_response_headers-keeps c is_tls request_id h auto canonical listed others named =
    let removed = c.remove_response_headers in
    let left = del_headers removed (set_header (codes "X-Proxy-By") (codes "FlowProxy") h) in
    let set =
      set_header-sets request_id removed left
        (member-canonical (codes "X-Request-ID") removed refl canonical) named
        (del_headers-member (codes "X-Request-Id") removed
          (set_header (codes "X-Proxy-By") (codes "FlowProxy") h) refl listed) in
    lookup-set_headers (codes "X-Request-Id") c.response_headers _ others
    ∙ elim (Bool-cases c.enable_security_headers) [
      | inl secure ↦
          rw (secure, auto)
            (lookup-add_allowed (codes "X-Request-Id") removed (security_headers is_tls)
                (set_header_if_allowed removed (codes "X-Request-ID") request_id left)
                (security is_tls)
              ∙ set)
      | inr plain ↦ rw (plain, auto) set
    ]
  where
    security : (b : Bool) → NotNamed (codes "X-Request-Id") (security_headers b)
    security true = (refl, (refl, (refl, (refl, (refl, (refl, (refl, tt)))))))
    security false = (refl, (refl, (refl, (refl, (refl, (refl, tt))))))
