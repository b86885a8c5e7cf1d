-- ===== src/Admin/Recovery.antt =====
-- Recovery codes: `generateRecoverySecret` to `recoveryHintFromCode` of internal/adminauth/auth.go.
-- Packages crypto/sha256 and encoding/hex are parameters, with bytes as numbers.
use flow_proxy.Prelude.{
  ℕ, zero, suc, ◌-◌, Bool, false, not, [], ◌∷◌, ◌++◌, Option, none, some, Text, codes, text_eq, ltb,
  ◌==◌, if◌then◌else◌, keep, drop, length, trim_space, to_upper,
}

-- sha256.Sum256, hex.EncodeToString and hex.DecodeString.
pub record Digest : Type 0 where
  pub sum256 : Text → Text
  pub encode : Text → Text
  pub decode : Text → Option Text

-- strings.ReplaceAll(s, c, "").
unfoldable pub without : ℕ → Text → Text
without c s = keep (λ d. not (d == c)) s

unfoldable pub normalize_recovery_code : Text → Text
unfolding trim_space to_upper without
normalize_recovery_code code = without b' ' (without b'-' (to_upper (trim_space code)))

-- `strings.Join` of the pieces of four: `n` characters of the running piece are still to come.
unfoldable pub in_fours : ℕ → Text → Text
in_fours n [] = []
in_fours zero (c ∷ s) = b'-' ∷ c ∷ in_fours 3 s
in_fours (suc n) (c ∷ s) = c ∷ in_fours n s

unfoldable pub format_recovery_code : Text → Text
unfolding in_fours
format_recovery_code raw = in_fours 4 raw

unfoldable pub recovery_hint_from_code : Text → Text
unfolding normalize_recovery_code
recovery_hint_from_code code =
    let normalized = normalize_recovery_code code in
    if text_eq normalized []
    then codes "configured"
    else if ltb 4 (length normalized)
    then codes "ends with " ++ drop (length normalized - 4) normalized
    else codes "ends with " ++ normalized

-- The code, its hint and its hash, from ten random bytes in hex.
pub record Secret : Type 0 where
  pub code : Text
  pub hint : Text
  pub hash : Text

module _ (digest : Digest) where
  unfoldable pub generate_recovery_secret : Option Text → Option Secret
  unfolding format_recovery_code normalize_recovery_code recovery_hint_from_code to_upper
  generate_recovery_secret none = none
  generate_recovery_secret (some raw) =
      let code = format_recovery_code (to_upper raw) in
      some (record {
        code = code;
        hint = recovery_hint_from_code code;
        hash = digest.encode (digest.sum256 (normalize_recovery_code code));
      })

  unfoldable pub matches_recovery_hash : Text → Text → Bool
  unfolding normalize_recovery_code trim_space
  matches_recovery_hash stored_hash code = elim (digest.decode (trim_space stored_hash)) [
    | none ↦ false
    | some stored ↦
        (if not (length stored == 32)
          then false
          else if text_eq (normalize_recovery_code code) []
          then false
          else text_eq stored (digest.sum256 (normalize_recovery_code code)))
  ]
