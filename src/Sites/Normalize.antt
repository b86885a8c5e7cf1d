-- ===== src/Sites/Normalize.antt =====
-- `NormalizeUpstreams`, `NormalizeHTTPMethods` and `NormalizeQueryKeys` of internal/site/site.go.
use flow_proxy.Prelude.{
  ◌||◌, List, [], ◌∷◌, Text, is_empty, member, if◌then◌else◌, trim_space, to_upper, to_lower, pos,
  is_positive,
}
use flow_proxy.Nodes.Sorting.{sort_texts}
use flow_proxy.Sites.Config.{Upstream}

-- The loop of `NormalizeUpstreams`.
unfoldable pub normalize_upstream_list : List Upstream → List Upstream
unfolding trim_space
normalize_upstream_list [] = []
normalize_upstream_list (up ∷ upstreams) =
    let rest = normalize_upstream_list upstreams in
    let weight = if is_positive up.weight then up.weight else pos 1 in
    if is_empty (trim_space up.url)
    then rest
    else record { url = trim_space up.url; weight = weight } ∷ rest

unfoldable pub normalize_upstreams : Text → List Upstream → Text × List Upstream
unfolding normalize_upstream_list trim_space
normalize_upstreams upstream upstreams = (trim_space upstream, normalize_upstream_list upstreams)

-- The loop that the two functions below share, over the values that the first argument makes.
unfoldable pub fresh_values : (Text → Text) → List Text → List Text → List Text
fresh_values f seen [] = []
fresh_values f seen (item ∷ items) =
    let kept = fresh_values f (f item ∷ seen) items in
    let rest = fresh_values f seen items in
    if is_empty (f item) || member (f item) seen then rest else f item ∷ kept

unfoldable pub normalize_http_methods : List Text → List Text
unfolding fresh_values to_upper trim_space sort_texts
normalize_http_methods methods = sort_texts (fresh_values (λ m. to_upper (trim_space m)) [] methods)

unfoldable pub normalize_query_keys : List Text → List Text
unfolding fresh_values to_lower trim_space sort_texts
normalize_query_keys items = sort_texts (fresh_values (λ m. to_lower (trim_space m)) [] items)
