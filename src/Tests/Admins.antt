-- ===== src/Tests/Admins.antt =====
-- An administrator whose passwords are hashed by a mark in front.
use flow_proxy.Prelude.{
  ◌≡◌, ◌≢◌, refl, true, false, if◌then◌else◌, [], ◌∷◌, none, some, Text, codes, text_eq,
  text_eq_refl, length, trim_space, to_upper, arith, some_inj, subst, lookup,
}
use flow_proxy.Admin.Recovery.{
  Digest, generate_recovery_secret, normalize_recovery_code, matches_recovery_hash,
}
use flow_proxy.Admin.Codes.{IsLawful, generate_recovery_secret-accepted}
use flow_proxy.Admin.Account.{
  Account, Bcrypt, Machine, is_weak, refused, save_failed, weak_password, update_credentials,
  verify_credentials,
}
use flow_proxy.Admin.Credentials.{
  IsHashing, update, change, change_refused, update_credentials-live,
}
use flow_proxy.Admin.Sessions.{
  Sessions, AdminRequest, Admin, PasswordInput, current_username, handle_change_password,
}
use flow_proxy.Admin.Lifetime.{uses, current_username-uses}
use flow_proxy.Admin.Calls.{me, calls, change_password}
use flow_proxy.Admin.Revocation.{handle_change_password-ends}
use flow_proxy.Admin.Guard.{UrlLib, is_public_path, is_same_origin_request, handed_on, middleware}
use flow_proxy.Admin.Entry.{Live, middleware-guards}

-- A sum that only tells the empty text from the others.
abbrev digest : Digest
digest = record {
  sum256 = λ t.
      if text_eq t []
      then codes "BBBBBBBBBBBBBBBBBBBBBBBBBBBBBBBB"
      else codes "AAAAAAAAAAAAAAAAAAAAAAAAAAAAAAAA";
  encode = λ t. t;
  decode = λ t. some t;
}

digest-IsLawful : IsLawful digest
unfolding trim_space
digest-IsLawful = record { decodes = decodes; sums = sums }
  where
    decodes :
        (t : Text)
        → digest.decode (trim_space (digest.encode (digest.sum256 t))) ≡ some (digest.sum256 t)
    decodes [] = refl
    decodes (c ∷ t) = refl

    sums : (t : Text) → length (digest.sum256 t) ≡ 32
    sums [] = refl
    sums (c ∷ t) = refl

abbrev raw : Text
raw = codes "0a1b2c"

generate_recovery_secret-accepted_example :
    (normalize_recovery_code (codes "0A1B-2C") ≡ to_upper raw)
    × (matches_recovery_hash digest (digest.sum256 (codes "0A1B2C")) (codes " 0a1b 2c") ≡ true)
unfolding generate_recovery_secret normalize_recovery_code to_upper
generate_recovery_secret-accepted_example =
    generate_recovery_secret-accepted digest raw (codes " 0a1b 2c")
      (record {
        code = codes "0A1B-2C";
        hint = codes "ends with 1B2C";
        hash = digest.sum256 (codes "0A1B2C");
      })
      digest-IsLawful (refl, (refl, (refl, (refl, (refl, (refl, tt)))))) (λ h. ground (arith, h))
      made typed
  where
    made :
        generate_recovery_secret digest (some raw)
        ≡ some (record {
          code = codes "0A1B-2C";
          hint = codes "ends with 1B2C";
          hash = digest.sum256 (codes "0A1B2C");
        })
    made = refl

    typed : normalize_recovery_code (codes " 0a1b 2c") ≡ to_upper raw
    typed = refl

abbrev marking : Bcrypt
marking = record { generate = λ p. some (b'#' ∷ p); compare = λ h p. text_eq h (b'#' ∷ p) }

marking-IsHashing : IsHashing marking
marking-IsHashing p h made =
    subst (λ t. text_eq t (b'#' ∷ p) ≡ true) (some_inj made) (text_eq_refl (b'#' ∷ p))

abbrev machine : Machine
machine = record { bcrypt = marking; digest = digest; random = some raw; clock = 9; saves = false }

abbrev account : Account
account = record {
  username = codes "root";
  password_hash = codes "#old";
  recovery_code_hash = [];
  recovery_hint = [];
  updated_at = 1;
}

change_refused_example :
    (change machine (update (codes "old") (codes "me") (codes "short")) account).1 ≡ account
unfolding change update_credentials
change_refused_example =
    change_refused machine (update (codes "old") (codes "me") (codes "short")) account weak_password
      weak (λ h. ground (arith, h))
  where
    weak :
        (change machine (update (codes "old") (codes "me") (codes "short")) account).0
        ≡ refused weak_password
    weak = refl

update_credentials-live_example :
    ((update_credentials machine (codes "old") (codes "me") (codes "long enough") account).0
      ≡ refused save_failed)
    × (verify_credentials marking
          (codes "me")
          (codes "long enough")
          (update_credentials machine (codes "old") (codes "me") (codes "long enough") account).1
        ≡ true)
unfolding is_weak
update_credentials-live_example =
    update_credentials-live machine (codes "old") (codes "me") (codes "long enough")
      (codes "#long enough") account marking-IsHashing refl (λ h. ground (arith, h)) strong refl
  where
    strong : is_weak (codes "long enough") ≡ false
    strong = refl

named : trim_space (codes "t") ≢ []
unfolding trim_space
named h = ground (arith, h)

abbrev held : Sessions
held = (codes "t", record { username = codes "root"; expires_at = 15; ttl = 10 }) ∷ []

current_username-uses_example :
    (current_username 20
      (some (codes "t"))
      (uses ((12, some (codes "t")) ∷ (13, none) ∷ []) held)).0
    ≡ some (codes "root")
unfolding lookup
current_username-uses_example =
    current_username-uses (codes "t") (codes "root") 10 5 20
      ((12, some (codes "t")) ∷ (13, none) ∷ []) held named (omega arith) found
  where
    found :
        lookup (codes "t") held
        ≡ some (record { username = codes "root"; expires_at = 15; ttl = 10 })
    found = refl

abbrev request : AdminRequest
request = record {
  method = codes "POST";
  path = codes "/auth/password";
  cookie = some (codes "t");
  now = 12;
  drawn = some (codes "u");
}

abbrev written : Machine
written = record machine { saves = true }

abbrev admin : Admin
admin = record { account = account; sessions = held }

abbrev wanted : PasswordInput
wanted = record {
  current_password = codes "old";
  new_username = [];
  new_password = codes "long enough";
}

handle_change_password-ends_example :
    (current_username 14
      (some (codes "t"))
      (calls (change_password written request (some wanted) ∷ me request ∷ []) admin).sessions).0
    ≡ none
unfolding handle_change_password
handle_change_password-ends_example =
    handle_change_password-ends (codes "t") named written request (some wanted) admin
      (me request ∷ []) 14 answered (λ h. ground (arith, h), (tt, tt))
  where
    answered : (handle_change_password written request (some wanted) admin).0.status ≡ 200
    answered = refl

abbrev url_lib : UrlLib
url_lib = record { host_of = λ t. some t; split_host_port = λ t. none }

middleware-guards_example :
    Live 12 (some (codes "t")) held
    × (is_same_origin_request url_lib (codes "GET") [] (codes "h") ≡ true)
unfolding is_public_path middleware
middleware-guards_example =
    middleware-guards url_lib (codes "GET") (codes "/api/x") [] (codes "h") 12 (some (codes "t"))
      held private passed
  where
    private : is_public_path (codes "/api/x") ≡ false
    private = refl

    passed :
        (middleware url_lib
          (codes "GET")
          (codes "/api/x")
          []
          (codes "h")
          12
          (some (codes "t"))
          held).0
        ≡ handed_on
    passed = refl
