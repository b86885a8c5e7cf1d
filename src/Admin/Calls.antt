-- ===== src/Admin/Calls.antt =====
-- Calls of the handlers of the administration in sequence, and what a token is to them.
use flow_proxy.Prelude.{
  ℕ, ◌≡◌, ◌≢◌, true, List, [], ◌∷◌, Option, none, some, Text, ltb, ◌||◌, lookup, arith,
}
use flow_proxy.Admin.Account.{
  Machine, AccountError, invalid_credentials, invalid_recovery, weak_password, no_username,
  hash_failed, random_failed, save_failed,
}
use flow_proxy.Admin.Sessions.{
  Sessions, AdminRequest, Admin, LoginInput, PasswordInput, handle_login, handle_logout, handle_me,
  handle_session, handle_change_password, status_of,
}

-- A call of the handlers, with what the machine answers and the request carries.
pub data Call : Type 0 where
  login : Machine → AdminRequest → Option LoginInput → Call
  logout : AdminRequest → Call
  me : AdminRequest → Call
  session : AdminRequest → Call
  change_password : Machine → AdminRequest → Option PasswordInput → Call

unfoldable pub call : Call → Admin → Admin
call (login m req body) a = (handle_login m req body a).1
call (logout req) a = (handle_logout req a).1
call (me req) a = (handle_me req a).1
call (session req) a = (handle_session req a).1
call (change_password m req body) a = (handle_change_password m req body a).1

unfoldable pub calls : List Call → Admin → Admin
unfolding call
calls [] a = a
calls (c ∷ cs) a = calls cs (call c a)

-- The call does not draw the token for a new session.
abbrev pub NotDrawn : Text → Call → Type 0
NotDrawn token (login m req body) = req.drawn ≢ some token
NotDrawn token (change_password m req body) = req.drawn ≢ some token
NotDrawn token _ = Unit {0}

-- No session of the token is stored.
abbrev pub Gone : Text → Sessions → Type 0
Gone token m = lookup token m ≡ none

pub status_of-200 : (e : AccountError) → status_of e ≢ 200
status_of-200 invalid_credentials = λ h. omega (arith, h)
status_of-200 invalid_recovery = λ h. omega (arith, h)
status_of-200 weak_password = λ h. omega (arith, h)
status_of-200 no_username = λ h. omega (arith, h)
status_of-200 hash_failed = λ h. omega (arith, h)
status_of-200 random_failed = λ h. omega (arith, h)
status_of-200 save_failed = λ h. omega (arith, h)

pub no_200 : {n : ℕ} → n ≡ 200 → ltb n 200 || ltb 200 n ≡ true → ⊥
no_200 h k = ground (arith)
