-- ===== src/Pipeline/Compression.antt =====
-- The choice of a response's compression, and the key of a cached response: internal/proxy/proxy.go.
-- A quality, float64 in the code, is NaN or a whole number of a unit of which `one` make 1, and
-- strconv.ParseFloat is given (an infinity may be any number beyond `one`, or below 0); the escaped path of a URL and its parsed query are part of the request.
use flow_proxy.Prelude.{
  ℕ, Bool, true, false, not, ◌||◌, ◌&&◌, List, [], ◌∷◌, ◌++◌, Option, none, some, Text, codes,
  text_eq, is_empty, any, ltb, leb, ◌==◌, if◌then◌else◌, lookup, store, trim_space, to_lower,
  has_prefix, contains, split_at, ℤ, pos, nonneg,
}
use flow_proxy.Http.{Header, header_get, header_values}
use flow_proxy.Pipeline.Headers.{set_header, del_header}

pub data Float : Type 0 where
  nan : Float
  number : ℤ → Float

-- A quality within 0 and 1, or NaN.
pub data Weight : Type 0 where
  nan_weight : Weight
  weight : ℕ → Weight

-- strconv.ParseFloat in units, and the number of units in 1.
pub record Qualities : Type 0 where
  pub parse_float : Text → Option Float
  pub one : ℕ

pub record CompressionPolicy : Type 0 where
  pub gzip_enabled : Bool
  pub brotli_enabled : Bool

pub data Algorithm : Type 0 where
  uncompressed gzip brotli : Algorithm

-- `acceptEncodingWeights`; the quality of the wildcard is there where `hasWildcard` holds.
pub record AcceptEncodingWeights : Type 0 where
  pub has_header : Bool
  pub wildcard : Option Weight
  pub explicit : List (Text × Weight)

-- The two parts of strings.SplitN with 2 at one code point, where it occurs.
unfoldable pub cut_at : ℕ → Text → Option (Text × Text)
cut_at d [] = none
cut_at d (c ∷ s) =
    if c == d
    then some ([], s)
    else elim (cut_at d s) [ none ↦ none | some (a, b) ↦ some (c ∷ a, b) ]

-- `a > b` and `a >= b`, which are false where one is NaN.
abbrev pub is_above : Weight → Weight → Bool
is_above (weight a) (weight b) = ltb b a
is_above (weight a) nan_weight = false
is_above nan_weight b = false

abbrev pub is_at_least : Weight → Weight → Bool
is_at_least (weight a) (weight b) = leb b a
is_at_least (weight a) nan_weight = false
is_at_least nan_weight b = false

-- The larger of a quality that may be there and another.
abbrev pub raised : Option Weight → Weight → Weight
raised none q = q
raised (some c) q = if is_above q c then q else c

unfoldable pub add_weight : Text → Weight → AcceptEncodingWeights → AcceptEncodingWeights
unfolding lookup store
add_weight name q w =
    if text_eq name (codes "*")
    then record w { wildcard = some (raised w.wildcard q) }
    else record w { explicit = store name (raised (lookup name w.explicit) q) w.explicit }

-- `weights.quality(name)`, for a name in lower case.
unfoldable pub quality : AcceptEncodingWeights → Text → Weight
unfolding lookup
quality w name = elim (lookup name w.explicit) [
  | some q ↦ q
  | none ↦ elim w.wildcard [ none ↦ weight 0 | some q ↦ q ]
]

module _ (floats : Qualities) where
  abbrev clamp : Float → Weight
  clamp nan = nan_weight
  clamp (number q) = weight (if ltb floats.one (nonneg q) then floats.one else nonneg q)

  -- The loop over the parameters of an item; the last quality that parses counts.
  unfoldable pub item_quality : Float → List Text → Float
  unfolding cut_at trim_space to_lower
  item_quality q [] = q
  item_quality q (segment ∷ segments) = elim (cut_at b'=' (trim_space segment)) [
    | none ↦ item_quality q segments
    | some (key, value) ↦
        (if not (text_eq (to_lower (trim_space key)) (codes "q"))
          then item_quality q segments
          else elim (floats.parse_float (trim_space value)) [
            | none ↦ item_quality q segments
            | some v ↦ item_quality v segments
          ])
  ]

  -- The name and the quality of an item split at its semicolons; none where the name is blank.
  unfoldable pub named_quality : List Text → Option (Text × Weight)
  unfolding item_quality trim_space to_lower
  named_quality [] = none
  named_quality (head ∷ segments) =
      let name = to_lower (trim_space head) in
      if is_empty name
      then none
      else some (name, clamp (item_quality (number (pos floats.one)) segments))

  unfoldable pub parse_item : Text → Option (Text × Weight)
  unfolding named_quality split_at trim_space
  parse_item item =
      if is_empty (trim_space item) then none else named_quality (split_at b';' (trim_space item))

  unfoldable pub parse_items : AcceptEncodingWeights → List Text → AcceptEncodingWeights
  unfolding parse_item add_weight
  parse_items w [] = w
  parse_items w (item ∷ items) = elim (parse_item item) [
    | none ↦ parse_items w items
    | some (name, q) ↦ parse_items (add_weight name q w) items
  ]

  unfoldable pub parse_accept_encoding_weights : Text → AcceptEncodingWeights
  unfolding parse_items split_at trim_space
  parse_accept_encoding_weights raw =
      if is_empty (trim_space raw)
      then record { has_header = false; wildcard = none; explicit = [] }
      else parse_items (record { has_header = true; wildcard = none; explicit = [] })
          (split_at b',' raw)

  -- `negotiateResponseCompression` of the request's Accept-Encoding.
  unfoldable pub negotiate : CompressionPolicy → Text → Algorithm
  unfolding parse_accept_encoding_weights quality
  negotiate policy raw =
      let w = parse_accept_encoding_weights raw in
      let g = if policy.gzip_enabled then quality w (codes "gzip") else weight 0 in
      let b = if policy.brotli_enabled then quality w (codes "br") else weight 0 in
      if not policy.gzip_enabled && not policy.brotli_enabled
      then uncompressed
      else if not w.has_header
      then uncompressed
      else if is_at_least (weight 0) b && is_at_least (weight 0) g
      then uncompressed
      else if is_at_least b g && is_above b (weight 0)
      then brotli
      else if is_above g (weight 0)
      then gzip
      else uncompressed

unfoldable pub should_compress_response : ℕ → Header → Bool
unfolding header_get trim_space to_lower has_prefix contains
should_compress_response status h =
    let kind = to_lower (trim_space (header_get h (codes "Content-Type"))) in
    if ltb status 200 || status == 204 || status == 304
    then false
    else if not (is_empty (trim_space (header_get h (codes "Content-Encoding"))))
    then false
    else if not (is_empty (trim_space (header_get h (codes "Content-Range"))))
    then false
    else is_empty kind
      || has_prefix kind (codes "text/")
      || contains kind (codes "json")
      || contains kind (codes "javascript")
      || contains kind (codes "xml")
      || contains kind (codes "svg")

-- strings.Join with a comma.
unfoldable pub join_commas : List Text → Text
join_commas [] = []
join_commas (p ∷ []) = p
join_commas (p ∷ q ∷ ps) = p ++ b',' ∷ join_commas (q ∷ ps)

-- `appendVaryHeader`, for a field that is not blank.
unfoldable pub append_vary_header : Text → Header → Header
unfolding header_values join_commas split_at set_header trim_space to_lower
append_vary_header value h =
    let current = header_values h (codes "Vary") in
    let parts = split_at b',' (join_commas current) in
    if is_empty current
    then set_header (codes "Vary") value h
    else if any (λ item. text_eq (to_lower (trim_space item)) (to_lower value)) parts
    then h
    else set_header (codes "Vary") (join_commas (parts ++ value ∷ [])) h

-- The headers with which `writeBufferedProxyResponse` answers a request that is not HEAD, and how the
-- body is compressed.
unfoldable pub compressed_headers : Algorithm → ℕ → Header → Algorithm × Header
unfolding should_compress_response append_vary_header set_header del_header
compressed_headers uncompressed status h = (uncompressed, h)
compressed_headers gzip status h =
    if should_compress_response status h
    then (
      gzip,
      del_header (codes "Content-Length") (
          set_header (codes "Content-Encoding") (codes "gzip")
            (append_vary_header (codes "Accept-Encoding") h)),
    )
    else (uncompressed, h)
compressed_headers brotli status h =
    if should_compress_response status h
    then (
      brotli,
      del_header (codes "Content-Length") (
          set_header (codes "Content-Encoding") (codes "br")
            (append_vary_header (codes "Accept-Encoding") h)),
    )
    else (uncompressed, h)
