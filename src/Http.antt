-- ===== src/Http.antt =====
-- The part of an HTTP request and of a header map that internal/proxy reads. A header map holds
-- canonical names; `path` is the decoded path of the URL.
use flow_proxy.Prelude.{
  ℕ, Bool, false, List, [], ◌∷◌, none, some, Text, text_eq, codes, trim_space, to_lower, to_upper,
  contains, lookup, if◌then◌else◌,
}

abbrev pub Header : Type 0
Header = List (Text × List Text)

-- http.Header.Values and http.Header.Get, at a canonical name.
unfoldable pub header_values : Header → Text → List Text
unfolding lookup
header_values h name = elim (lookup name h) [ none ↦ [] | some values ↦ values ]

abbrev first_or_empty : List Text → Text
first_or_empty [] = []
first_or_empty (v ∷ vs) = v

unfoldable pub header_get : Header → Text → Text
unfolding header_values
header_get h name = first_or_empty (header_values h name)

-- `req.Body`: nil, http.NoBody, or a stream.
pub data Body : Type 0 where
  nil no_body stream : Body

pub record Request : Type 0 where
  pub method : Text
  pub path : Text
  pub header : Header
  pub cookies : List (Text × Text)
  pub query : List (Text × List Text)
  pub body : Body
  pub has_get_body : Bool
  pub content_length : ℕ

-- `isUpgradeRequest` of retry_buffer.go.
unfoldable pub is_upgrade_request : Header → Bool
unfolding header_get trim_space to_lower contains
is_upgrade_request h =
    if text_eq (trim_space (header_get h (codes "Upgrade"))) []
    then false
    else contains (to_lower (trim_space (header_get h (codes "Connection")))) (codes "upgrade")

-- The method as the code compares it.
unfoldable pub method_of : Request → Text
method_of req = to_upper (trim_space req.method)
