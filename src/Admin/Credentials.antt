-- ===== src/Admin/Credentials.antt =====
-- What becomes of the administrator's account when an operation changes it or refuses to.
use flow_proxy.Prelude.{
  ◌≡◌, ◌≢◌, true, false, [], some, Text, text_eq_iff, text_eq_refl, if◌then◌else◌, trim_space,
  arith,
}
use flow_proxy.Admin.Account.{
  Account, Bcrypt, Machine, Outcome, ok, refused, AccountError, save_failed, is_weak,
  verify_credentials, saved, update_credentials, replace_credentials, recover_credentials,
  rotate_recovery_code, reset_credentials_by_cli,
}

-- A hash matches the password that it was generated from.
abbrev pub IsHashing : Bcrypt → Type 0
IsHashing b = (p h : Text) → b.generate p ≡ some h → b.compare h p ≡ true

-- The calls that change the account.
pub data Change : Type 0 where
  update : (current new_username new_password : Text) → Change
  reset : (new_username new_password : Text) → Change
  recover : (recovery_code new_username new_password : Text) → Change
  rotate : Change

unfoldable pub change : Machine → Change → Account → Outcome × Account
change m (update current name pass) a = update_credentials m current name pass a
change m (reset name pass) a = reset_credentials_by_cli m name pass a
change m (recover code name pass) a = recover_credentials m code name pass a
change m rotate a = rotate_recovery_code m a

-- A refusal that is not a failed write leaves the account.
abbrev pub Atomic : Account → Outcome × Account → Type 0
Atomic a (outcome, b) = (e : AccountError) → outcome ≡ refused e → e ≢ save_failed → b ≡ a

saved-Atomic : (m : Machine) (code : Text) (a b : Account) → Atomic a (saved m code b)
unfolding saved
saved-Atomic m code a b e h other = ground (arith, h, other)

update_credentials-Atomic :
    (m : Machine) (current name pass : Text) (a : Account)
    → Atomic a (update_credentials m current name pass a)
unfolding update_credentials saved
update_credentials-Atomic m current name pass a e h other = ground (arith, h, other)

replace_credentials-Atomic :
    (m : Machine) (name pass : Text) (a : Account) → Atomic a (replace_credentials m name pass a)
unfolding replace_credentials saved
replace_credentials-Atomic m name pass a e h other = ground (arith, h, other)

recover_credentials-Atomic :
    (m : Machine) (code name pass : Text) (a : Account)
    → Atomic a (recover_credentials m code name pass a)
unfolding recover_credentials
recover_credentials-Atomic m code name pass a e h other =
    ground (arith, h, other, replace_credentials-Atomic m name pass a e)

rotate_recovery_code-Atomic : (m : Machine) (a : Account) → Atomic a (rotate_recovery_code m a)
unfolding rotate_recovery_code saved
rotate_recovery_code-Atomic m a e h other = ground (arith, h, other)

-- A change of the account that is refused, for whatever reason but a failed write of the file, leaves
-- the account as it was.
pub change_refused :
    (m : Machine) (c : Change) (a : Account) (e : AccountError)
    → (change m c a).0 ≡ refused e
    → e ≢ save_failed
    → (change m c a).1 ≡ a
unfolding change reset_credentials_by_cli
change_refused m (update current name pass) a = update_credentials-Atomic m current name pass a
change_refused m (reset name pass) a = replace_credentials-Atomic m name pass a
change_refused m (recover code name pass) a = recover_credentials-Atomic m code name pass a
change_refused m rotate a = rotate_recovery_code-Atomic m a

-- An update with the right password, a name that is not blank and a new password that is long enough
-- and can be hashed returns without an error exactly when the file can be written; written or not, the
-- account in memory accepts the new name and password from then on.
pub update_credentials-live :
    (m : Machine) (current name pass hash : Text) (a : Account)
    → IsHashing m.bcrypt
    → m.bcrypt.compare a.password_hash current ≡ true
    → trim_space name ≢ []
    → is_weak pass ≡ false
    → m.bcrypt.generate pass ≡ some hash
    → ((update_credentials m current name pass a).0
        ≡ (if m.saves then ok [] else refused save_failed))
      × (verify_credentials m.bcrypt name pass (update_credentials m current name pass a).1 ≡ true)
unfolding update_credentials saved verify_credentials
update_credentials-live m current name pass hash a hashing right named strong made =
    let accepted = hashing pass hash made in
    ground (
      arith,
      right,
      strong,
      made,
      accepted,
      text_eq_iff (trim_space name) [],
      text_eq_refl (trim_space name),
    )
