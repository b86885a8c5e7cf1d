-- ===== src/Routing/Choice.antt =====
-- Which route and which path a request gets.
use flow_proxy.Prelude.{
  ◌≡◌, inl, inr, true, false, List, [], ◌∷◌, ◌++◌, some, Text, codes, has_prefix, All, arith,
  Option-cases,
}
use flow_proxy.Http.{Request}
use flow_proxy.Routing.{CompiledRoute, matches, match_route, rewrite_path}

-- Whatever a route's rewrite makes of it, an absolute path stays absolute.
pub rewrite_path-absolute :
    (r : CompiledRoute) (path : Text)
    → has_prefix path (codes "/") ≡ true
    → has_prefix (rewrite_path r path) (codes "/") ≡ true
unfolding rewrite_path has_prefix
rewrite_path-absolute r path h = elim (Option-cases r.rewrite_regex) [
  | inl plain ↦ rw (plain, rewrite_path) h
  | inr (f, given) ↦ rw (given, rewrite_path) (ground arith)
]

-- A request gets the first route, in the order of the site, that matches it.
pub match_route-first :
    (before : List CompiledRoute) (r : CompiledRoute) (behind : List CompiledRoute) (req : Request)
    → All (λ x. matches x req ≡ false) before
    → matches r req ≡ true
    → match_route (before ++ r ∷ behind) req ≡ some r
unfolding match_route
match_route-first [] r behind req h m = rw m
match_route-first (x ∷ before) r behind req h m =
    rw h.0 (match_route-first before r behind req h.1 m)
