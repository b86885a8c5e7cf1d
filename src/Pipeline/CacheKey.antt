-- ===== src/Pipeline/CacheKey.antt =====
-- The key under which a response is cached: `buildCacheKey`, internal/proxy/proxy.go. url.ParseQuery
-- and Values.Encode are given.
use flow_proxy.Prelude.{
  not, ◌||◌, List, [], ◌∷◌, ◌++◌, Option, none, some, Text, codes, is_empty, member, keep,
  if◌then◌else◌, trim_space, to_lower, to_upper, split_at, ◌==◌,
}
use flow_proxy.Nodes.Sorting.{sort_texts}
use flow_proxy.Pipeline.Compression.{join_commas}

-- What the code calls of package url: url.ParseQuery and Values.Encode.
pub record QueryLib : Type 0 where
  pub parse_query : Text → Option (List (Text × List Text))
  pub encode : List (Text × List Text) → Text

-- The part of an item in front of its first semicolon.
abbrev pub before_semicolon : Text → Text
before_semicolon [] = []
before_semicolon (c ∷ s) = if c == b';' then [] else c ∷ before_semicolon s

-- The loop over the items, with the tokens that were seen.
unfoldable pub fresh_tokens : List Text → List Text → List Text
unfolding trim_space to_lower
fresh_tokens seen [] = []
fresh_tokens seen (item ∷ items) =
    let token = to_lower (trim_space (before_semicolon item)) in
    let kept = fresh_tokens (token ∷ seen) items in
    let rest = fresh_tokens seen items in
    if is_empty token || member token seen then rest else token ∷ kept

unfoldable pub normalize_accept_encoding : Text → Text
unfolding fresh_tokens split_at sort_texts join_commas
normalize_accept_encoding raw = join_commas (sort_texts (fresh_tokens [] (split_at b',' raw)))

module _ (lib : QueryLib) where
  -- `buildCacheURI` of an escaped path and a raw query.
  unfoldable pub build_cache_uri : Text → Text → List Text → Text
  unfolding trim_space to_lower
  build_cache_uri escaped raw ignored =
      let path = if is_empty escaped then codes "/" else escaped in
      let query = trim_space raw in
      if is_empty query
      then path
      else if is_empty ignored
      then path ++ b'?' ∷ query
      else elim (lib.parse_query query) [
        | none ↦ path ++ b'?' ∷ query
        | some values ↦
            (let kept =
                keep (λ (e : Text × List Text). not (member (to_lower (trim_space e.0)) ignored))
                  values in
              let encoded = lib.encode kept in
              if is_empty encoded then path else path ++ b'?' ∷ encoded)
      ]

  -- `buildCacheKey` of the method, the host, the URL, the keys to ignore and Accept-Encoding.
  unfoldable pub build_cache_key : Text → Text → Text → Text → List Text → Text → Text
  unfolding build_cache_uri normalize_accept_encoding trim_space to_lower to_upper
  build_cache_key method host escaped raw ignored accept =
      to_upper (trim_space method)
      ++ (b'|'
          ∷ (to_lower (trim_space host)
              ++ (b'|'
                  ∷ (build_cache_uri escaped raw ignored
                      ++ (codes "|ae=" ++ normalize_accept_encoding accept)))))
