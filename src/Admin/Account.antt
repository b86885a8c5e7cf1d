-- ===== src/Admin/Account.antt =====
-- The administrator's account: `Store` of internal/adminauth/auth.go. Package bcrypt and the random
-- numbers are parameters, and so is whether the file can be written, which an operation ends with.
use flow_proxy.Prelude.{
  ℕ, Bool, true, false, not, ◌&&◌, ◌||◌, [], Option, none, some, Text, codes, text_eq, ltb, ◌==◌,
  if◌then◌else◌, length, trim_space,
}
use flow_proxy.Admin.Recovery.{Digest, generate_recovery_secret, matches_recovery_hash}

-- `persistedAccount`.
pub record Account : Type 0 where
  pub username : Text
  pub password_hash : Text
  pub recovery_code_hash : Text
  pub recovery_hint : Text
  pub updated_at : ℕ

-- bcrypt.GenerateFromPassword, for the salt of one call, and bcrypt.CompareHashAndPassword.
pub record Bcrypt : Type 0 where
  pub generate : Text → Option Text
  pub compare : Text → Text → Bool

pub data AccountError : Type 0 where
  invalid_credentials invalid_recovery weak_password no_username hash_failed random_failed
        save_failed :
      AccountError

-- What an operation returns; the recovery code is empty where none is returned.
pub data Outcome : Type 0 where
  ok : (recovery_code : Text) → Outcome
  refused : AccountError → Outcome

-- What the machine answers during a call: the clock, the random bytes, and the write.
pub record Machine : Type 0 where
  pub bcrypt : Bcrypt
  pub digest : Digest
  pub random : Option Text
  pub clock : ℕ
  pub saves : Bool

unfoldable pub is_weak : Text → Bool
unfolding trim_space
is_weak password = ltb (length (trim_space password)) 10

unfoldable pub verify_credentials : Bcrypt → Text → Text → Account → Bool
unfolding trim_space
verify_credentials b username password a =
    text_eq (trim_space username) a.username && b.compare a.password_hash password

-- `saveLocked` at the end of an operation, which has changed the account by then.
unfoldable pub saved : Machine → Text → Account → Outcome × Account
saved m code a = if m.saves then (ok code, a) else (refused save_failed, a)

unfoldable pub update_credentials : Machine → Text → Text → Text → Account → Outcome × Account
unfolding trim_space is_weak saved
update_credentials m current new_username new_password a =
    let next =
      if text_eq (trim_space new_username) [] then a.username else trim_space new_username in
    if not (m.bcrypt.compare a.password_hash current)
    then (refused invalid_credentials, a)
    else if is_weak new_password
    then (refused weak_password, a)
    else elim (m.bcrypt.generate new_password) [
      | none ↦ (refused hash_failed, a)
      | some hash ↦
          saved m [] (record a { username = next; password_hash = hash; updated_at = m.clock })
    ]

-- The part that the next two operations share.
unfoldable pub replace_credentials : Machine → Text → Text → Account → Outcome × Account
unfolding trim_space is_weak saved generate_recovery_secret
replace_credentials m new_username new_password a =
    if text_eq (trim_space new_username) []
    then (refused no_username, a)
    else if is_weak new_password
    then (refused weak_password, a)
    else elim (m.bcrypt.generate new_password) [
      | none ↦ (refused hash_failed, a)
      | some hash ↦ elim (generate_recovery_secret m.digest m.random) [
        | none ↦ (refused random_failed, a)
        | some secret ↦ saved m secret.code (record {
          username = trim_space new_username;
          password_hash = hash;
          recovery_code_hash = secret.hash;
          recovery_hint = secret.hint;
          updated_at = m.clock;
        })
      ]
    ]

unfoldable pub reset_credentials_by_cli : Machine → Text → Text → Account → Outcome × Account
unfolding replace_credentials
reset_credentials_by_cli m new_username new_password a =
    replace_credentials m new_username new_password a

unfoldable pub recover_credentials : Machine → Text → Text → Text → Account → Outcome × Account
unfolding replace_credentials matches_recovery_hash
recover_credentials m recovery_code new_username new_password a =
    if not (matches_recovery_hash m.digest a.recovery_code_hash recovery_code)
    then (refused invalid_recovery, a)
    else replace_credentials m new_username new_password a

unfoldable pub rotate_recovery_code : Machine → Account → Outcome × Account
unfolding saved generate_recovery_secret
rotate_recovery_code m a = elim (generate_recovery_secret m.digest m.random) [
  | none ↦ (refused random_failed, a)
  | some secret ↦ saved m secret.code (record a {
    recovery_code_hash = secret.hash;
    recovery_hint = secret.hint;
    updated_at = m.clock;
  })
]

-- What `load` makes of the account in the file.
unfoldable pub loaded : Account → Account
unfolding trim_space
loaded a = record a {
  username = trim_space a.username;
  password_hash = trim_space a.password_hash;
  recovery_code_hash = trim_space a.recovery_code_hash;
  recovery_hint = trim_space a.recovery_hint;
}

-- A configured text, or the default.
abbrev pub configured_or : Text → Text → Text
unfolding trim_space
configured_or d t = if text_eq (trim_space t) [] then d else trim_space t

-- The steps of `NewStore` on the account that was loaded, in order; none where one fails. The
-- Boolean says whether the account has changed, the text is a new recovery code.
unfoldable pub bootstrap_password : Bcrypt → Text → Account → Option (Account × Bool)
unfolding trim_space
bootstrap_password b pass a =
    if text_eq (trim_space a.password_hash) []
    then elim (b.generate (configured_or (codes "admin") pass)) [
      | none ↦ none
      | some hash ↦ some (record a { password_hash = hash }, true)
    ]
    else some (a, false)

unfoldable pub bootstrap_recovery : Machine → Account → Option (Text × Account × Bool)
unfolding trim_space generate_recovery_secret
bootstrap_recovery m a =
    if text_eq (trim_space a.recovery_code_hash) []
    then elim (generate_recovery_secret m.digest m.random) [
      | none ↦ none
      | some secret ↦ some (
        secret.code,
        record a { recovery_hint = secret.hint; recovery_code_hash = secret.hash },
        true,
      )
    ]
    else some ([], a, false)

unfoldable pub new_store : Machine → Text → Text → Account → Option (Account × Text)
unfolding trim_space bootstrap_password bootstrap_recovery
new_store m username password a =
    let unnamed = text_eq (trim_space a.username) [] in
    let named : Account =
      if unnamed then record a { username = configured_or (codes "admin") username } else a in
    elim (bootstrap_password m.bcrypt password named) [
      | none ↦ none
      | some (b, hashed) ↦ elim (bootstrap_recovery m b) [
        | none ↦ none
        | some (code, c, coded) ↦
            (let undated = c.updated_at == 0 in
              let d : Account = if undated then record c { updated_at = m.clock } else c in
              if (unnamed || hashed || coded || undated) && not m.saves
              then none
              else some (d, code))
      ]
    ]
