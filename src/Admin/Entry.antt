-- ===== src/Admin/Entry.antt =====
-- Whom the middleware lets through to the administration.
use flow_proxy.Prelude.{
  ℕ, ◌≤◌, ◌≡◌, refl, true, false, Option, none, some, Text, lookup, arith, Option-cases, inl, inr,
}
use flow_proxy.Http.{Header}
use flow_proxy.Admin.Sessions.{Session, Sessions, current_username, renew}
use flow_proxy.Admin.Guard.{UrlLib, is_public_path, is_same_origin_request, handed_on, middleware}

-- A cookie that names a stored session whose time is not over.
abbrev pub Live : ℕ → Option Text → Sessions → Type 0
Live now cookie m =
    (token : Text) × (s : Session) × (cookie ≡ some token)
    × (lookup token m ≡ some s)
    × (now ≤ s.expires_at)

current_username-Live :
    (now : ℕ) (cookie : Option Text) (m : Sessions) (u : Text)
    → (current_username now cookie m).0 ≡ some u
    → Live now cookie m
unfolding current_username renew
current_username-Live now none m u h = ground (arith, h)
current_username-Live now (some token) m u h = elim (Option-cases (lookup token m)) [
  | inl missing ↦ ground (arith, h, missing)
  | inr (s, found) ↦ (token, s, refl, found, ground (arith, h, found))
]

-- A request that is handed on although its path is not public carries the cookie of a stored session
-- that has not expired, and it passed the check of its origin.
pub middleware-guards :
    (lib : UrlLib) (method path : Text) (header : Header) (host : Text) (now : ℕ)
    (cookie : Option Text) (m : Sessions)
    → is_public_path path ≡ false
    → (middleware lib method path header host now cookie m).0 ≡ handed_on
    → Live now cookie m × (is_same_origin_request lib method header host ≡ true)
unfolding middleware
middleware-guards lib method path header host now cookie m private h =
    elim (Option-cases (current_username now cookie m).0) [
      | inl e ↦ ground (arith, private, h, e)
      | inr (u, e) ↦ (current_username-Live now cookie m u e, ground (arith, private, h, e))
    ]
