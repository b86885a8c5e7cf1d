-- ===== src/Pipeline/Admission.antt =====
-- Which requests the guards admit, and what they leave of the slots.
use flow_proxy.Prelude.{
  ℕ, suc, ◌≡◌, ◌≢◌, refl, sym, ap, ◌∙◌, Bool, true, false, not, ◌&&◌, ◌||◌, Option, none, some,
  Text, codes, text_eq, text_eq_iff, text_eq_refl, if◌then◌else◌, ltb, ◌==◌, lookup, store,
  lookup-store, lookup-delete, arith, Bool-cases, Option-cases, inl, inr,
}
use flow_proxy.Http.{header_get}
use flow_proxy.Access.{denied_by_policy}
use flow_proxy.Access.Rules.{NetLib}
use flow_proxy.Limiter.State.{Decision, allowed, limited, blocked}
use flow_proxy.Slots.PerIp.{Counters, counter_or_zero, try_acquire_per_ip_slot, release_per_ip_slot}
use flow_proxy.Pipeline.Guards.{
  GuardedSite, SiteState, Arrival, Passing, answered, admitted, allow_method, user_agent_blocked,
  acquire_request_slot, release_request_slot, limit_rate, take_slots, after_limit, turned_away,
  authenticate, firewalled, unauthorized, pass_guards, leave,
}

abbrev pub is_admitted : Passing → Bool
is_admitted admitted = true
is_admitted (answered status) = false

abbrev pub is_allowed : Decision → Bool
is_allowed allowed = true
is_allowed _ = false

abbrev pub is_unanswered : Option ℕ → Bool
is_unanswered none = true
is_unanswered (some status) = false

-- The limiter does not touch the slots.
limit_rate-active :
    (ip : Text) (now : ℕ) (s : SiteState)
    → (limit_rate ip now s).1.active_requests ≡ s.active_requests
unfolding limit_rate
limit_rate-active ip now s = ground arith

limit_rate-per_ip :
    (ip : Text) (now : ℕ) (s : SiteState)
    → (limit_rate ip now s).1.per_ip_requests ≡ s.per_ip_requests
unfolding limit_rate
limit_rate-per_ip ip now s = ground arith

-- A limit of 0 is none.
abbrev pub has_room : ℕ → ℕ → Bool
has_room limit n = limit == 0 || ltb n limit

acquired-own :
    (limit : ℕ) (ip : Text) (m : Counters)
    → (try_acquire_per_ip_slot limit ip m).0 ≡ has_room limit (counter_or_zero (lookup ip m))
unfolding try_acquire_per_ip_slot
acquired-own limit ip m = ground arith

-- A slot that was not given leaves the counters.
refused_own :
    (limit : ℕ) (ip j : Text) (m : Counters)
    → (try_acquire_per_ip_slot limit ip m).0 ≡ false
    → lookup j (try_acquire_per_ip_slot limit ip m).1 ≡ lookup j m
unfolding try_acquire_per_ip_slot
refused_own limit ip j m h = elim (Option-cases (lookup ip m)) [
  | inl none_yet ↦ ground (arith, h, none_yet)
  | inr (n, found) ↦ ground (arith, h, found, lookup-store ip j n m, text_eq_iff ip j)
]

-- What a release makes of a counter.
released :
    (limit n : ℕ) (ip j : Text) (m : Counters)
    → limit == 0 ≡ false
    → lookup j (release_per_ip_slot limit ip (store ip (suc n) m))
      ≡ (if text_eq ip j then (if n == 0 then none else some n) else lookup j m)
unfolding release_per_ip_slot
released limit n ip j m bound =
    let top : lookup ip (store ip (suc n) m) ≡ some (suc n) =
      lookup-store ip ip (suc n) m ∙ ground (arith, text_eq_refl ip) in
    rw (bound, top)
      (ground (
        arith,
        lookup-store ip j n (store ip (suc n) m),
        lookup-delete ip j (store ip (suc n) m),
        lookup-store ip j (suc n) m,
      ))

counted_again :
    (ip j : Text) (m : Counters)
    → lookup ip m ≢ some 0
    → (if text_eq ip j
        then (if counter_or_zero (lookup ip m) == 0
            then none
            else some (counter_or_zero (lookup ip m)))
        else lookup j m)
      ≡ lookup j m
counted_again ip j m counted = elim (Option-cases (lookup ip m)) [
  | inl absent ↦ ground (arith, absent, text_eq_iff ip j)
  | inr (n, found) ↦ ground (arith, counted, found, text_eq_iff ip j)
]

-- What a slot that was given makes of the counters.
given :
    (limit : ℕ) (ip : Text) (m : Counters)
    → limit == 0 ≡ false
    → (try_acquire_per_ip_slot limit ip m).0 ≡ true
    → (try_acquire_per_ip_slot limit ip m).1 ≡ store ip (suc (counter_or_zero (lookup ip m))) m
unfolding try_acquire_per_ip_slot
given limit ip m bound h = ground (arith, bound, h)

-- A slot that was given and taken back leaves the counters.
returned_own :
    (limit : ℕ) (ip j : Text) (m : Counters)
    → lookup ip m ≢ some 0
    → (try_acquire_per_ip_slot limit ip m).0 ≡ true
    → lookup j (release_per_ip_slot limit ip (try_acquire_per_ip_slot limit ip m).1) ≡ lookup j m
unfolding try_acquire_per_ip_slot release_per_ip_slot
returned_own limit ip j m counted h = elim (Bool-cases (limit == 0)) [
  | inl unlimited ↦ rw unlimited refl
  | inr bound ↦
      ap (λ x. lookup j (release_per_ip_slot limit ip x)) (given limit ip m bound h)
      ∙ released limit (counter_or_zero (lookup ip m)) ip j m bound
      ∙ counted_again ip j m counted
]

module _ {Ip Cidr : Type 0} (net : NetLib Ip Cidr) (compare : Text → Text → Bool)
    (c : GuardedSite Ip Cidr) where
  take_slots-admits :
      (ip : Text) (s : SiteState)
      → is_admitted (take_slots net compare c ip s).0
        ≡ has_room c.max_concurrent_per_ip (counter_or_zero (lookup ip s.per_ip_requests))
          && has_room c.max_concurrent s.active_requests
  unfolding take_slots acquire_request_slot
  take_slots-admits ip s = ground (arith, acquired-own c.max_concurrent_per_ip ip s.per_ip_requests)

  after_limit-admits :
      (r : Arrival) (d : Decision × SiteState)
      → is_admitted (after_limit net compare c r d).0
        ≡ is_allowed d.0
          && allow_method c.allowed_methods r.method
          && not
              (user_agent_blocked c.blocked_user_agents (header_get r.header (codes "User-Agent")))
          && has_room c.max_concurrent_per_ip
              (counter_or_zero (lookup r.client_ip d.1.per_ip_requests))
          && has_room c.max_concurrent d.1.active_requests
  unfolding after_limit
  after_limit-admits r (limited, s) = refl
  after_limit-admits r (blocked left, s) = refl
  after_limit-admits r (allowed, s) = ground (arith, take_slots-admits r.client_ip s)

  -- None of the guards in front of the limiter answers: no redirection to TLS is due, the client is
  -- not denied, the firewall has not blocked the request, there is a session where one is needed, the
  -- credentials fit where basic authentication is on, and the token is valid.
  abbrev pub passes_checks : Arrival → Bool
  passes_checks r =
      (not c.force_https || r.is_tls || not (c.listen_port == 0) && c.listen_port == r.local_port)
      && not (denied_by_policy net c.ip_policy r.client_ip r.client_asn)
      && elim r.inspection [ firewalled ↦ false | _ ↦ true ]
      && elim r.session [ unauthorized ↦ false | _ ↦ true ]
      && (not c.basic_auth.is_enabled || authenticate compare c.basic_auth r.credentials)
      && r.has_valid_token

  turned_away-checks : (r : Arrival) → is_unanswered (turned_away net compare c r) ≡ passes_checks r
  unfolding turned_away
  turned_away-checks r = ground arith

  -- A request is admitted exactly if no redirection to TLS is due, its client is not denied, the
  -- firewall has not blocked it, it has the session, the credentials and the token that are asked for,
  -- the limiter allows it, its method is allowed, its user agent is not blocked, and its address and
  -- the site have room for one more.
  pub pass_guards-admits :
      (r : Arrival) (s : SiteState)
      → is_admitted (pass_guards net compare c r s).0
        ≡ passes_checks r
          && is_allowed (limit_rate r.client_ip r.now s).0
          && allow_method c.allowed_methods r.method
          && not
              (user_agent_blocked c.blocked_user_agents (header_get r.header (codes "User-Agent")))
          && has_room c.max_concurrent_per_ip
              (counter_or_zero (lookup r.client_ip s.per_ip_requests))
          && has_room c.max_concurrent s.active_requests
  unfolding pass_guards after_limit
  pass_guards-admits r s = elim (Option-cases (turned_away net compare c r)) [
    | inr (status, e) ↦ rw (e, pass_guards, sym (turned_away-checks r) ∙ ap is_unanswered e) refl
    | inl e ↦
        rw (e, pass_guards, sym (turned_away-checks r) ∙ ap is_unanswered e)
          (after_limit-admits r (limit_rate r.client_ip r.now s)
            ∙ rw (limit_rate-active r.client_ip r.now s, limit_rate-per_ip r.client_ip r.now s)
                refl)
  ]

  -- What is left of the slots once an admitted request has left.
  abbrev pub settled : Text → Passing × SiteState → SiteState
  settled ip (admitted, s) = leave net compare c ip s
  settled ip (answered status, s) = s

  take_slots-settled :
      (ip j : Text) (s : SiteState)
      → lookup ip s.per_ip_requests ≢ some 0
      → let z = settled ip (take_slots net compare c ip s) in
        (z.active_requests ≡ s.active_requests)
        × (lookup j z.per_ip_requests ≡ lookup j s.per_ip_requests)
  unfolding take_slots leave acquire_request_slot release_request_slot
  take_slots-settled ip j s counted =
      elim (Bool-cases (try_acquire_per_ip_slot c.max_concurrent_per_ip ip s.per_ip_requests).0) [
        | inr refused ↦
            rw refused (refl, refused_own c.max_concurrent_per_ip ip j s.per_ip_requests refused)
        | inl own ↦
            let back = returned_own c.max_concurrent_per_ip ip j s.per_ip_requests counted own in
            elim (Bool-cases (has_room c.max_concurrent s.active_requests)) [
              | inl room ↦ ground (arith, own, back, room)
              | inr full ↦ ground (arith, own, back, full)
            ]
      ]

  after_limit-settled :
      (r : Arrival) (j : Text) (d : Decision × SiteState)
      → lookup r.client_ip d.1.per_ip_requests ≢ some 0
      → let z = settled r.client_ip (after_limit net compare c r d) in
        (z.active_requests ≡ d.1.active_requests)
        × (lookup j z.per_ip_requests ≡ lookup j d.1.per_ip_requests)
  unfolding after_limit
  after_limit-settled r j (limited, s) counted = (refl, refl)
  after_limit-settled r j (blocked left, s) counted = (refl, refl)
  after_limit-settled r j (allowed, s) counted =
      elim (Bool-cases (allow_method c.allowed_methods r.method)) [
        | inr refused ↦ rw (refused, after_limit) (refl, refl)
        | inl fine ↦
            elim (Bool-cases (
              user_agent_blocked c.blocked_user_agents
                (header_get r.header (codes "User-Agent")))) [
                  | inl banned ↦ rw (fine, banned, after_limit) (refl, refl)
                  | inr welcome ↦
                      rw (fine, welcome, after_limit) (take_slots-settled r.client_ip j s counted)
                ]
      ]

  -- Where no counter of an address stands at 0, a request leaves the slots as it found them, whatever
  -- guard answers it, and also where it is admitted and has left again: the counter of the site is the
  -- same, and so is the counter of every address.
  pub pass_guards-settled :
      (r : Arrival) (j : Text) (s : SiteState)
      → lookup r.client_ip s.per_ip_requests ≢ some 0
      → let z = settled r.client_ip (pass_guards net compare c r s) in
        (z.active_requests ≡ s.active_requests)
        × (lookup j z.per_ip_requests ≡ lookup j s.per_ip_requests)
  unfolding pass_guards
  pass_guards-settled r j s counted = elim (Option-cases (turned_away net compare c r)) [
    | inr (status, e) ↦ rw (e, pass_guards) (refl, refl)
    | inl e ↦
        let same = limit_rate-per_ip r.client_ip r.now s in
        let rest =
          after_limit-settled r j (limit_rate r.client_ip r.now s)
            (λ h. counted (ap (lookup r.client_ip) (sym same) ∙ h)) in
        rw (e, pass_guards)
          (rest.0 ∙ limit_rate-active r.client_ip r.now s, rest.1 ∙ ap (lookup j) same)
  ]
