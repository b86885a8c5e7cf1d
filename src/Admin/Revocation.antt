-- ===== src/Admin/Revocation.antt =====
-- Sessions that end at once: by a logout, and by a change of the password.
use flow_proxy.Prelude.{
  ℕ, ◌≡◌, ◌≢◌, refl, ap, ◌∙◌, true, List, [], ◌∷◌, Option, none, some, Text, codes, text_eq,
  text_eq_iff, text_eq_refl, if◌then◌else◌, lookup, lookup-store, lookup-delete, trim_space, arith,
  Bool-cases, Option-cases, inl, inr, All,
}
use flow_proxy.Admin.Account.{Account, Machine, Outcome, ok, refused, update_credentials}
use flow_proxy.Admin.Sessions.{
  Sessions, default_session_ttl, current_username, new_session, delete_session,
  invalidate_all_sessions, AdminRequest, Admin, LoginInput, PasswordInput, handle_login,
  handle_logout, handle_me, handle_session, handle_change_password, after_update,
}
use flow_proxy.Admin.Lifetime.{lookup-current_username, username-current_username}
use flow_proxy.Admin.Calls.{
  Call, login, logout, me, session, change_password, call, calls, NotDrawn, Gone, status_of-200,
  no_200,
}

module _ (token : Text) (named : trim_space token ≢ []) where
  current_username-Gone :
      (now : ℕ) (cookie : Option Text) (m : Sessions)
      → Gone token m
      → Gone token (current_username now cookie m).1
  current_username-Gone now cookie m gone =
      lookup-current_username token named now cookie m ∙ ground (arith, gone)

  new_session-Gone :
      (now : ℕ) (drawn username : Text) (ttl : ℕ) (m : Sessions)
      → drawn ≢ token
      → Gone token m
      → Gone token (new_session now drawn username ttl m)
  unfolding new_session
  new_session-Gone now drawn username ttl m other gone =
      lookup-store drawn token _ m ∙ ground (arith, text_eq_iff drawn token)

  delete_session-Gone : (j : Text) (m : Sessions) → Gone token m → Gone token (delete_session j m)
  unfolding delete_session
  delete_session-Gone j m gone = lookup-delete j token m ∙ ground (arith, gone)

  handle_login-Gone :
      (m : Machine) (req : AdminRequest) (body : Option LoginInput) (a : Admin)
      → req.drawn ≢ some token
      → Gone token a.sessions
      → Gone token (handle_login m req body a).1.sessions
  unfolding handle_login
  handle_login-Gone m req none a other gone = ground (arith, gone)
  handle_login-Gone m req (some input) a other gone = elim (Option-cases req.drawn) [
    | inl undrawn ↦ ground (arith, gone, undrawn)
    | inr (drawn, e) ↦
        let kept = λ (ttl : ℕ).
          new_session-Gone req.now drawn (trim_space input.username) ttl a.sessions
            (λ h. other (rw h at e)) gone in
        ground (
          arith,
          gone,
          e,
          kept (if input.remember_me then 2_592_000_000_000_000 else 86_400_000_000_000),
        )
  ]

  lookup-none : Gone token []
  unfolding lookup
  lookup-none = refl

  -- An update that succeeds ends every session before it stores the new one.
  after_update-ok :
      (req : AdminRequest) (code : Text) (account : Account) (m : Sessions)
      → req.drawn ≢ some token
      → Gone token (after_update req (ok code, account) m).1.sessions
  unfolding after_update invalidate_all_sessions
  after_update-ok req code account m other = elim (Option-cases req.drawn) [
    | inl undrawn ↦ rw undrawn lookup-none
    | inr (drawn, e) ↦ rw e (
        new_session-Gone req.now drawn account.username default_session_ttl []
          (λ h. other (rw h at e)) lookup-none)
  ]

  after_update-Gone :
      (req : AdminRequest) (r : Outcome × Account) (m : Sessions)
      → req.drawn ≢ some token
      → Gone token m
      → Gone token (after_update req r m).1.sessions
  unfolding after_update
  after_update-Gone req (refused e, account) m other gone = gone
  after_update-Gone req (ok code, account) m other gone = after_update-ok req code account m other

  handle_change_password-Gone :
      (m : Machine) (req : AdminRequest) (body : Option PasswordInput) (a : Admin)
      → req.drawn ≢ some token
      → Gone token a.sessions
      → Gone token (handle_change_password m req body a).1.sessions
  unfolding handle_change_password
  handle_change_password-Gone m req none a other gone =
      let read = current_username-Gone req.now req.cookie a.sessions gone in
      elim (Bool-cases (text_eq req.method (codes "POST"))) [
        | inl e ↦ elim (Option-cases (current_username req.now req.cookie a.sessions).0) [
          | inl f ↦ rw (e, f) read
          | inr (u, f) ↦ rw (e, f) read
        ]
        | inr e ↦ rw e gone
      ]
  handle_change_password-Gone m req (some input) a other gone =
      let read = current_username-Gone req.now req.cookie a.sessions gone in
      let r =
        update_credentials m input.current_password input.new_username input.new_password
          a.account in
      elim (Bool-cases (text_eq req.method (codes "POST"))) [
        | inl e ↦ elim (Option-cases (current_username req.now req.cookie a.sessions).0) [
          | inl f ↦ rw (e, f) read
          | inr (u, f) ↦
              rw (e, f)
                (after_update-Gone req r (current_username req.now req.cookie a.sessions).1 other
                  read)
        ]
        | inr e ↦ rw e gone
      ]

  after_update-ends :
      (req : AdminRequest) (r : Outcome × Account) (m : Sessions)
      → (after_update req r m).0.status ≡ 200
      → req.drawn ≢ some token
      → Gone token (after_update req r m).1.sessions
  unfolding after_update
  after_update-ends req (refused e, account) m answered other = absurd (status_of-200 e answered)
  after_update-ends req (ok code, account) m answered other =
      after_update-ok req code account m other

  handle_change_password-Gone_after :
      (m : Machine) (req : AdminRequest) (body : Option PasswordInput) (a : Admin)
      → (handle_change_password m req body a).0.status ≡ 200
      → req.drawn ≢ some token
      → Gone token (handle_change_password m req body a).1.sessions
  unfolding handle_change_password
  handle_change_password-Gone_after m req none a answered other =
      elim (Bool-cases (text_eq req.method (codes "POST"))) [
        | inl e ↦ elim (Option-cases (current_username req.now req.cookie a.sessions).0) [
          | inl f ↦ absurd (no_200 (rw (e, f) at answered) refl)
          | inr (u, f) ↦ absurd (no_200 (rw (e, f) at answered) refl)
        ]
        | inr e ↦ absurd (no_200 (rw e at answered) refl)
      ]
  handle_change_password-Gone_after m req (some input) a answered other =
      let r =
        update_credentials m input.current_password input.new_username input.new_password
          a.account in
      elim (Bool-cases (text_eq req.method (codes "POST"))) [
        | inl e ↦ elim (Option-cases (current_username req.now req.cookie a.sessions).0) [
          | inl f ↦ absurd (no_200 (rw (e, f) at answered) refl)
          | inr (u, f) ↦
              rw (e, f)
                (after_update-ends req r (current_username req.now req.cookie a.sessions).1
                  (rw (e, f) at answered) other)
        ]
        | inr e ↦ absurd (no_200 (rw e at answered) refl)
      ]

  handle_logout-Gone :
      (req : AdminRequest) (a : Admin)
      → Gone token a.sessions
      → Gone token (handle_logout req a).1.sessions
  unfolding handle_logout
  handle_logout-Gone req a gone = elim (Bool-cases (text_eq req.method (codes "POST"))) [
    | inl e ↦ elim (Option-cases req.cookie) [
      | inl f ↦ rw (e, f) gone
      | inr (j, f) ↦ rw (e, f) (delete_session-Gone j a.sessions gone)
    ]
    | inr e ↦ rw e gone
  ]

  handle_me-Gone :
      (req : AdminRequest) (a : Admin)
      → Gone token a.sessions
      → Gone token (handle_me req a).1.sessions
  unfolding handle_me
  handle_me-Gone req a gone =
      let read = current_username-Gone req.now req.cookie a.sessions gone in
      elim (Bool-cases (text_eq req.method (codes "GET"))) [
        | inl e ↦ elim (Option-cases (current_username req.now req.cookie a.sessions).0) [
          | inl f ↦ rw (e, f) read
          | inr (u, f) ↦ rw (e, f) read
        ]
        | inr e ↦ rw e gone
      ]

  handle_session-Gone :
      (req : AdminRequest) (a : Admin)
      → Gone token a.sessions
      → Gone token (handle_session req a).1.sessions
  unfolding handle_session
  handle_session-Gone req a gone =
      let read = current_username-Gone req.now req.cookie a.sessions gone in
      elim (Bool-cases (text_eq req.method (codes "GET"))) [ inl e ↦ rw e read | inr e ↦ rw e gone ]

  call-Gone :
      (c : Call) (a : Admin)
      → NotDrawn token c
      → Gone token a.sessions
      → Gone token (call c a).sessions
  unfolding call
  call-Gone (login m req body) a other gone = handle_login-Gone m req body a other gone
  call-Gone (logout req) a other gone = handle_logout-Gone req a gone
  call-Gone (me req) a other gone = handle_me-Gone req a gone
  call-Gone (session req) a other gone = handle_session-Gone req a gone
  call-Gone (change_password m req body) a other gone =
      handle_change_password-Gone m req body a other gone

  calls-Gone :
      (cs : List Call) (a : Admin)
      → All (NotDrawn token) cs
      → Gone token a.sessions
      → Gone token (calls cs a).sessions
  unfolding calls
  calls-Gone [] a others gone = gone
  calls-Gone (c ∷ cs) a (other, others) gone =
      calls-Gone cs (call c a) others (call-Gone c a other gone)

  username_of-Gone :
      (now : ℕ) (m : Sessions) → Gone token m → (current_username now (some token) m).0 ≡ none
  username_of-Gone now m gone = username-current_username token named now m ∙ ground (arith, gone)

  handle_logout-deletes :
      (req : AdminRequest) (a : Admin)
      → req.method ≡ codes "POST"
      → req.cookie ≡ some token
      → Gone token (handle_logout req a).1.sessions
  unfolding handle_logout delete_session
  handle_logout-deletes req a post sent =
      let e : text_eq req.method (codes "POST") ≡ true =
        ap (λ t. text_eq t (codes "POST")) post ∙ text_eq_refl (codes "POST") in
      rw (e, sent) (lookup-delete token token a.sessions ∙ ground (arith, text_eq_refl token))

  -- A token that a POST request logs out belongs to no one after any later calls of the handlers that
  -- do not draw it for a new session, at any instant.
  pub handle_logout-ends :
      (req : AdminRequest) (a : Admin) (cs : List Call) (now : ℕ)
      → req.method ≡ codes "POST"
      → req.cookie ≡ some token
      → All (NotDrawn token) cs
      → (current_username now (some token) (calls cs (call (logout req) a)).sessions).0 ≡ none
  unfolding call calls
  handle_logout-ends req a cs now post sent others =
      let gone = handle_logout-deletes req a post sent in
      username_of-Gone now (calls cs (call (logout req) a)).sessions
        (calls-Gone cs (call (logout req) a) others gone)

  -- A change of the password that is answered with 200 ends every session but the new one: the token
  -- belongs to no one after any later calls that do not draw it, unless the change itself drew it.
  pub handle_change_password-ends :
      (m : Machine) (req : AdminRequest) (body : Option PasswordInput) (a : Admin) (cs : List Call)
      (now : ℕ)
      → (handle_change_password m req body a).0.status ≡ 200
      → All (NotDrawn token) (change_password m req body ∷ cs)
      → (current_username now (some token) (calls (change_password m req body ∷ cs) a).sessions).0
        ≡ none
  unfolding call calls
  handle_change_password-ends m req body a cs now answered others =
      username_of-Gone now (calls cs (call (change_password m req body) a)).sessions (
        calls-Gone cs (call (change_password m req body) a) others.1
          (handle_change_password-Gone_after m req body a answered others.0))
