-- ===== src/Pipeline/Guards.antt =====
-- The guards of `ServeHTTP`, in order, up to the choice of the route, and the releases that it defers:
-- internal/proxy/proxy.go. What the firewall, the OAuth session, bcrypt and the token validator answer
-- for the request is given.
use flow_proxy.Prelude.{
  ℕ, suc, ◌-◌, Bool, true, false, not, ◌&&◌, ◌||◌, List, Option, none, some, Text, codes, text_eq,
  is_empty, any, member, if◌then◌else◌, ltb, leb, ◌==◌, contains, to_lower, to_upper, trim_space,
}
use flow_proxy.Http.{Header, header_get}
use flow_proxy.Access.{CompiledPolicy, denied_by_policy}
use flow_proxy.Access.Rules.{NetLib}
use flow_proxy.Limiter.{RateLimiter, allow}
use flow_proxy.Limiter.State.{Decision, allowed, limited, blocked}
use flow_proxy.Slots.PerIp.{Counters, try_acquire_per_ip_slot, release_per_ip_slot}

-- `site.BasicAuthConfig`.
pub record BasicAuthConfig : Type 0 where
  pub is_enabled : Bool
  pub username : Text
  pub password_hash : Text
  pub password : Text

-- What the guards read of a `compiledSite`.
pub record GuardedSite (Ip Cidr : Type 0) : Type 0 where
  pub listen_port : ℕ
  pub force_https : Bool
  pub ip_policy : CompiledPolicy Ip Cidr
  pub basic_auth : BasicAuthConfig
  pub allowed_methods : List Text
  pub blocked_user_agents : List (Text → Bool)
  pub max_concurrent : ℕ
  pub max_concurrent_per_ip : ℕ

-- What the guards change of it.
pub record SiteState : Type 0 where
  pub limiter : Option RateLimiter
  pub active_requests : ℕ
  pub per_ip_requests : Counters

-- What the firewall finds, where the site has one.
pub data Inspection : Type 0 where
  clean detected firewalled : Inspection

-- The OAuth check, where it is configured and enabled.
pub data OauthSession : Type 0 where
  no_oauth authorized unauthorized : OauthSession

-- A request as the guards see it.
pub record Arrival : Type 0 where
  pub method : Text
  pub header : Header
  pub is_tls : Bool
  pub local_port : ℕ
  pub client_ip : Text
  pub client_asn : ℕ
  pub credentials : Option (Text × Text)
  pub now : ℕ
  pub inspection : Inspection
  pub session : OauthSession
  pub has_valid_token : Bool

unfoldable pub allow_method : List Text → Text → Bool
unfolding to_upper trim_space
allow_method methods method = is_empty methods || member (to_upper (trim_space method)) methods

unfoldable pub user_agent_blocked : List (Text → Bool) → Text → Bool
user_agent_blocked patterns agent = any (λ p. p agent) patterns

-- `authenticate`, with bcrypt.CompareHashAndPassword.
unfoldable pub authenticate : (Text → Text → Bool) → BasicAuthConfig → Option (Text × Text) → Bool
authenticate compare auth none = false
authenticate compare auth (some (user, pass)) =
    if not (text_eq user auth.username)
    then false
    else if not (is_empty auth.password_hash)
    then compare auth.password_hash pass
    else if not (is_empty auth.password)
    then text_eq pass auth.password
    else false

-- `isAPI`: whether a client that is not logged in gets a status in place of a redirect.
unfoldable pub is_api_client : Header → Bool
unfolding header_get contains to_lower
is_api_client h =
    contains (header_get h (codes "Accept")) (codes "application/json")
    || text_eq (to_lower (header_get h (codes "X-Requested-With"))) (codes "xmlhttprequest")

-- `tryAcquireRequestSlot` and `releaseRequestSlot` where no other request comes in between.
unfoldable pub acquire_request_slot : ℕ → ℕ → Bool × ℕ
acquire_request_slot limit n =
    if limit == 0 then (true, n) else if leb limit n then (false, n) else (true, suc n)

unfoldable pub release_request_slot : ℕ → ℕ → ℕ
release_request_slot limit n = if limit == 0 then n else n - 1

-- What becomes of a request at the guards: it is answered with a status, or goes on to the routes.
pub data Passing : Type 0 where
  answered : (status : ℕ) → Passing
  admitted : Passing

-- The decision of the limiter of the site, if it has one.
unfoldable pub limit_rate : Text → ℕ → SiteState → Decision × SiteState
unfolding allow
limit_rate ip now s = elim s.limiter [
  | none ↦ (allowed, s)
  | some l ↦ (let (decision, used) = allow l ip now in (decision, record s { limiter = some used }))
]

module _ {Ip Cidr : Type 0} (net : NetLib Ip Cidr) (compare : Text → Text → Bool) where
  -- The last guards: the slots of the address and of the site, in this order.
  unfoldable pub take_slots : GuardedSite Ip Cidr → Text → SiteState → Passing × SiteState
  unfolding try_acquire_per_ip_slot release_per_ip_slot acquire_request_slot
  take_slots c ip s =
      let (own, counters) = try_acquire_per_ip_slot c.max_concurrent_per_ip ip s.per_ip_requests in
      let (free, active) = acquire_request_slot c.max_concurrent s.active_requests in
      if not own
      then (answered 429, record s { per_ip_requests = counters })
      else if not free
      then (
        answered 429,
        record s { per_ip_requests = release_per_ip_slot c.max_concurrent_per_ip ip counters },
      )
      else (admitted, record s { per_ip_requests = counters; active_requests = active })

  unfoldable pub after_limit :
      GuardedSite Ip Cidr → Arrival → Decision × SiteState → Passing × SiteState
  unfolding allow_method user_agent_blocked take_slots header_get
  after_limit c r (limited, s) = (answered 429, s)
  after_limit c r (blocked left, s) = (answered 403, s)
  after_limit c r (allowed, s) =
      if not (allow_method c.allowed_methods r.method)
      then (answered 405, s)
      else if user_agent_blocked c.blocked_user_agents (header_get r.header (codes "User-Agent"))
      then (answered 403, s)
      else take_slots c r.client_ip s

  -- The status of the first guard in front of the limiter that answers.
  unfoldable pub turned_away : GuardedSite Ip Cidr → Arrival → Option ℕ
  unfolding denied_by_policy is_api_client authenticate
  turned_away c r =
      if c.force_https && not r.is_tls && not (ltb 0 c.listen_port && c.listen_port == r.local_port)
      then some 301
      else if denied_by_policy net c.ip_policy r.client_ip r.client_asn
      then some 403
      else elim r.inspection [
        | firewalled ↦ some 403
        | _ ↦ elim r.session [
          | unauthorized ↦ some (if is_api_client r.header then 401 else 307)
          | _ ↦
              (if c.basic_auth.is_enabled && not (authenticate compare c.basic_auth r.credentials)
                then some 401
                else if not r.has_valid_token
                then some 401
                else none)
        ]
      ]

  unfoldable pub pass_guards : GuardedSite Ip Cidr → Arrival → SiteState → Passing × SiteState
  unfolding turned_away limit_rate after_limit
  pass_guards c r s = elim (turned_away c r) [
    | some status ↦ (answered status, s)
    | none ↦ after_limit c r (limit_rate r.client_ip r.now s)
  ]

  -- The deferred releases, at the end of a request that was admitted.
  unfoldable pub leave : GuardedSite Ip Cidr → Text → SiteState → SiteState
  unfolding release_per_ip_slot release_request_slot
  leave c ip s = record s {
    active_requests = release_request_slot c.max_concurrent s.active_requests;
    per_ip_requests = release_per_ip_slot c.max_concurrent_per_ip ip s.per_ip_requests;
  }
