-- ===== src/Admin/Sessions.antt =====
-- The sessions of the administration: `Manager` of internal/adminauth/auth.go. The mutex makes each
-- use of the map one step; a new token is drawn by the machine. Times are nanoseconds.
use flow_proxy.Prelude.{
  ℕ, ◌+◌, Bool, not, List, [], Option, none, some, Text, codes, text_eq, ltb, ◌==◌, if◌then◌else◌,
  lookup, store, delete, trim_space,
}
use flow_proxy.Admin.Account.{
  Account, Machine, Outcome, ok, refused, AccountError, invalid_credentials, verify_credentials,
  update_credentials,
}

pub record Session : Type 0 where
  pub username : Text
  pub expires_at : ℕ
  pub ttl : ℕ

abbrev pub Sessions : Type 0
Sessions = List (Text × Session)

-- 24 hours and 30 days.
abbrev pub default_session_ttl : ℕ
default_session_ttl = 86_400_000_000_000

abbrev pub default_remember_session_ttl : ℕ
default_remember_session_ttl = 2_592_000_000_000_000

-- `if ttl <= 0 { ttl = m.ttl }`.
abbrev pub ttl_or_default : ℕ → ℕ
ttl_or_default ttl = if ttl == 0 then default_session_ttl else ttl

-- `currentUsername` at a cookie's value; a live session is renewed, an expired one dropped.
unfoldable pub renew : ℕ → Text → Session → Sessions → Option Text × Sessions
unfolding store delete
renew now token s m =
    if ltb s.expires_at now
    then (none, delete token m)
    else (some s.username, store token (record s { expires_at = now + ttl_or_default s.ttl }) m)

unfoldable pub current_username : ℕ → Option Text → Sessions → Option Text × Sessions
unfolding trim_space lookup renew
current_username now none m = (none, m)
current_username now (some token) m =
    if text_eq (trim_space token) []
    then (none, m)
    else elim (lookup token m) [ none ↦ (none, m) | some s ↦ renew now token s m ]

-- `newSession` with the token that was drawn.
unfoldable pub new_session : ℕ → Text → Text → ℕ → Sessions → Sessions
unfolding store
new_session now token username ttl m =
    store token
      (record {
        username = username;
        expires_at = now + ttl_or_default ttl;
        ttl = ttl_or_default ttl;
      })
      m

unfoldable pub delete_session : Text → Sessions → Sessions
unfolding delete
delete_session token m = delete token m

unfoldable pub invalidate_all_sessions : Sessions → Sessions
invalidate_all_sessions m = []

-- What the handlers read of a request, and what they keep.
pub record AdminRequest : Type 0 where
  pub method : Text
  pub path : Text
  pub cookie : Option Text
  pub now : ℕ
  pub drawn : Option Text

pub record Admin : Type 0 where
  pub account : Account
  pub sessions : Sessions

-- The status of a response, and the session token that it sets (an empty one clears the cookie).
pub record Reply : Type 0 where
  pub status : ℕ
  pub cookie : Option Text

abbrev pub reply : ℕ → Reply
reply status = record { status = status; cookie = none }

-- `handleLogin`; the body is none where it does not decode.
pub record LoginInput : Type 0 where
  pub username : Text
  pub password : Text
  pub remember_me : Bool

unfoldable pub handle_login : Machine → AdminRequest → Option LoginInput → Admin → Reply × Admin
unfolding verify_credentials new_session trim_space
handle_login m req body a =
    if not (text_eq req.method (codes "POST")) then (reply 405, a) else elim body [
      | none ↦ (reply 400, a)
      | some input ↦
          (if not (verify_credentials m.bcrypt input.username input.password a.account)
            then (reply 401, a)
            else elim req.drawn [
              | none ↦ (reply 500, a)
              | some token ↦ (
                record { status = 200; cookie = some token },
                record a {
                  sessions =
                      new_session req.now token (trim_space input.username)
                        (if input.remember_me
                          then default_remember_session_ttl
                          else default_session_ttl)
                        a.sessions;
                },
              )
            ])
    ]

unfoldable pub handle_logout : AdminRequest → Admin → Reply × Admin
unfolding delete_session
handle_logout req a = if not (text_eq req.method (codes "POST")) then (reply 405, a) else (
  record { status = 200; cookie = some [] },
  elim req.cookie [
    | none ↦ a
    | some token ↦ record a { sessions = delete_session token a.sessions }
  ],
)

-- `handleMe`, and `handleSession`, which answers 200 also where no one is logged in.
unfoldable pub handle_me : AdminRequest → Admin → Reply × Admin
unfolding current_username
handle_me req a =
    let (user, m) = current_username req.now req.cookie a.sessions in
    if not (text_eq req.method (codes "GET")) then (reply 405, a) else elim user [
      | none ↦ (reply 401, record a { sessions = m })
      | some u ↦ (reply 200, record a { sessions = m })
    ]

unfoldable pub handle_session : AdminRequest → Admin → Reply × Admin
unfolding current_username
handle_session req a =
    let (user, m) = current_username req.now req.cookie a.sessions in
    if not (text_eq req.method (codes "GET"))
    then (reply 405, a)
    else (reply 200, record a { sessions = m })

pub record PasswordInput : Type 0 where
  pub current_password : Text
  pub new_username : Text
  pub new_password : Text

abbrev pub status_of : AccountError → ℕ
status_of invalid_credentials = 401
status_of _ = 400

-- The part of `handleChangePassword` behind the update of the account.
unfoldable pub after_update : AdminRequest → Outcome × Account → Sessions → Reply × Admin
unfolding invalidate_all_sessions new_session
after_update req (refused e, account) m =
    (reply (status_of e), record { account = account; sessions = m })
after_update req (ok code, account) m =
    let fresh = invalidate_all_sessions m in
    elim req.drawn [
      | none ↦ (reply 500, record { account = account; sessions = fresh })
      | some token ↦ (
        record { status = 200; cookie = some token },
        record {
          account = account;
          sessions = new_session req.now token account.username default_session_ttl fresh;
        },
      )
    ]

unfoldable pub handle_change_password :
    Machine → AdminRequest → Option PasswordInput → Admin → Reply × Admin
unfolding current_username update_credentials after_update
handle_change_password m req body a =
    let (user, kept) = current_username req.now req.cookie a.sessions in
    if not (text_eq req.method (codes "POST")) then (reply 405, a) else elim user [
      | none ↦ (reply 401, record a { sessions = kept })
      | some u ↦ elim body [
        | none ↦ (reply 400, record a { sessions = kept })
        | some input ↦
            after_update req
              (update_credentials m input.current_password input.new_username input.new_password
                a.account)
              kept
      ]
    ]
