-- ===== src/Admin/Guard.antt =====
-- The middleware in front of the administration: `Middleware`, `validateSameOriginRequest` and
-- `sameOriginHost` of internal/adminauth/auth.go. Packages net and net/url are parameters.
use flow_proxy.Prelude.{
  ℕ, Bool, true, false, not, ◌&&◌, ◌||◌, [], ◌∷◌, Option, none, some, Text, codes, text_eq, ◌==◌,
  if◌then◌else◌, reverse, has_prefix, has_suffix, member, trim_space, to_upper, to_lower,
}
use flow_proxy.Http.{Header, header_get}
use flow_proxy.Upstream.Retry.{is_safe_method}
use flow_proxy.Admin.Sessions.{Sessions, current_username}

-- url.Parse(s).Host, none on an error; net.SplitHostPort.
pub record UrlLib : Type 0 where
  pub host_of : Text → Option Text
  pub split_host_port : Text → Option (Text × Text)

unfoldable pub is_public_path : Text → Bool
is_public_path path = member path (
    codes "/login"
    ∷ codes "/login/"
    ∷ codes "/login.html"
    ∷ codes "/auth/login"
    ∷ codes "/auth/session"
    ∷ [])

-- strings.Trim(s, "[]").
abbrev pub trim_brackets_left : Text → Text
trim_brackets_left [] = []
trim_brackets_left (c ∷ s) = if c == b'[' || c == b']' then trim_brackets_left s else c ∷ s

abbrev pub trim_brackets : Text → Text
trim_brackets s = reverse (trim_brackets_left (reverse (trim_brackets_left s)))

unfoldable pub split_host_port_loose : UrlLib → Text → Text × Text
unfolding trim_space to_lower has_prefix has_suffix
split_host_port_loose lib value =
    let trimmed = trim_space value in
    if text_eq trimmed [] then ([], []) else elim (lib.split_host_port trimmed) [
      | some (host, port) ↦ (to_lower host, port)
      | none ↦
          (if has_prefix trimmed (codes "[") && has_suffix trimmed (codes "]")
            then (to_lower (trim_brackets trimmed), [])
            else (to_lower trimmed, []))
    ]

unfoldable pub same_host : Text × Text → Text × Text → Bool
unfolding to_lower
same_host (left_host, left_port) (right_host, right_port) =
    if text_eq left_host [] || text_eq right_host []
    then false
    else if not (text_eq (to_lower left_host) (to_lower right_host))
    then false
    else text_eq left_port right_port

unfoldable pub same_origin_host : UrlLib → Text → Text → Bool
unfolding split_host_port_loose same_host
same_origin_host lib raw_url request_host = elim (lib.host_of raw_url) [
  | none ↦ false
  | some host ↦
      (if text_eq host []
        then false
        else same_host (split_host_port_loose lib host) (split_host_port_loose lib request_host))
]

-- `validateSameOriginRequest`: whether the request is let through.
unfoldable pub is_same_origin_request : UrlLib → Text → Header → Text → Bool
unfolding header_get trim_space to_lower to_upper is_safe_method same_origin_host
is_same_origin_request lib method header host =
    let origin = trim_space (header_get header (codes "Origin")) in
    let referer = trim_space (header_get header (codes "Referer")) in
    if is_safe_method (to_upper (trim_space method))
    then true
    else if text_eq (to_lower (trim_space (header_get header (codes "Sec-Fetch-Site"))))
        (codes "cross-site")
    then false
    else if not (text_eq origin [])
    then same_origin_host lib origin host
    else text_eq referer [] || same_origin_host lib referer host

-- What the middleware does with a request: hand it on, send it to the given path, or refuse it.
pub data Passage : Type 0 where
  handed_on : Passage
  redirected : Text → Passage
  turned_down : ℕ → Passage

abbrev is_some : Option Text → Bool
is_some none = false
is_some (some u) = true

unfoldable pub middleware :
    UrlLib → Text → Text → Header → Text → ℕ → Option Text → Sessions → Passage × Sessions
unfolding is_public_path current_username is_same_origin_request has_prefix
middleware lib method path header host now cookie m =
    let (user, kept) = current_username now cookie m in
    let login = member path (codes "/login" ∷ codes "/login/" ∷ codes "/login.html" ∷ []) in
    if is_public_path path
    then (if login
        then (if is_some user then (redirected (codes "/"), kept) else (handed_on, kept))
        else (handed_on, m))
    else if is_some user
    then (if is_same_origin_request lib method header host
        then (handed_on, kept)
        else (turned_down 403, kept))
    else if has_prefix path (codes "/api/") || has_prefix path (codes "/auth/")
    then (turned_down 401, kept)
    else (redirected (codes "/login"), kept)
