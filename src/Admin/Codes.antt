-- ===== src/Admin/Codes.antt =====
-- A recovery code that was handed out is accepted again, however it is typed.
use flow_proxy.Prelude.{
  ℕ, zero, suc, ◌≤◌, ◌≡◌, ◌≢◌, refl, true, ◌&&◌, ◌||◌, List, [], ◌∷◌, some, some_inj, reverse, Text,
  text_eq_refl, text_eq_iff, leb, length, is_space, trim_left, trim_space, to_upper, arith, All,
  All-map, subst,
}
use mathlib.Core.List.{reverse_aux, reverse-reverse}
use flow_proxy.Admin.Recovery.{
  Digest, Secret, without, normalize_recovery_code, in_fours, format_recovery_code,
  generate_recovery_secret, matches_recovery_hash,
}

-- The characters of hex.EncodeToString, and of a formatted code.
abbrev pub IsHexDigit : ℕ → Type 0
IsHexDigit c = (leb b'0' c && leb c b'9' || leb b'a' c && leb c b'f') ≡ true

abbrev IsPlain : ℕ → Type 0
IsPlain c = (b'-' ≤ c) × (c ≤ b'Z')

trim_left_plain : (s : Text) → All IsPlain s → trim_left s ≡ s
unfolding trim_left is_space
trim_left_plain [] h = refl
trim_left_plain (c ∷ s) h = ground (arith, h.0)

All-reverse_aux :
    {A : Type 0} (P : A → Type 0) (xs acc : List A)
    → All P xs
    → All P acc
    → All P (reverse_aux xs acc)
All-reverse_aux P [] acc h k = k
All-reverse_aux P (x ∷ xs) acc h k = All-reverse_aux P xs (x ∷ acc) h.1 (h.0, k)

trim_space_plain : (s : Text) → All IsPlain s → trim_space s ≡ s
unfolding trim_space
trim_space_plain s h = rw (
  trim_left_plain s h,
  trim_left_plain (reverse s) (All-reverse_aux IsPlain s [] h tt),
  reverse-reverse s,
)

to_upper_plain : (s : Text) → All IsPlain s → to_upper s ≡ s
unfolding to_upper
to_upper_plain [] h = refl
to_upper_plain (c ∷ s) h = ground (arith, h.0, to_upper_plain s h.1)

-- An upper-case hex digit is neither a dash nor a space.
abbrev IsUpperHex : ℕ → Type 0
IsUpperHex c = (b'0' ≤ c) × (c ≤ b'Z')

without_absent : (d : ℕ) (s : Text) → All (λ c. c ≢ d) s → without d s ≡ s
unfolding without
without_absent d [] h = refl
without_absent d (c ∷ s) h = ground (arith, h.0, without_absent d s h.1)

in_fours-IsPlain : (n : ℕ) (s : Text) → All IsUpperHex s → All IsPlain (in_fours n s)
unfolding in_fours
in_fours-IsPlain n [] h = tt
in_fours-IsPlain zero (c ∷ s) h = ground (arith, h.0, in_fours-IsPlain 3 s h.1)
in_fours-IsPlain (suc n) (c ∷ s) h = ground (arith, h.0, in_fours-IsPlain n s h.1)

without-in_fours : (n : ℕ) (s : Text) → All IsUpperHex s → without b'-' (in_fours n s) ≡ s
unfolding in_fours without
without-in_fours n [] h = refl
without-in_fours zero (c ∷ s) h = ground (arith, h.0, without-in_fours 3 s h.1)
without-in_fours (suc n) (c ∷ s) h = ground (arith, h.0, without-in_fours n s h.1)

upper_hex : (raw : Text) → All IsHexDigit raw → All IsUpperHex (to_upper raw)
unfolding to_upper
upper_hex [] h = tt
upper_hex (c ∷ s) h = ground (arith, h.0, upper_hex s h.1)

normalize-format :
    (s : Text) → All IsUpperHex s → normalize_recovery_code (format_recovery_code s) ≡ s
unfolding normalize_recovery_code format_recovery_code
normalize-format s h =
    let plain = in_fours-IsPlain 4 s h in
    rw
      (
        trim_space_plain (in_fours 4 s) plain,
        to_upper_plain (in_fours 4 s) plain,
        without-in_fours 4 s h,
      )
      (without_absent b' ' s (All-map s (λ c k. ground (arith, k)) h))

-- The laws of the digest functions that the code relies on: a sum that was encoded is decoded, also
-- after the spaces around it are trimmed, and a sum has 32 bytes.
pub record IsLawful (digest : Digest) : Type 0 where
  pub decodes :
      (t : Text)
      → digest.decode (trim_space (digest.encode (digest.sum256 t))) ≡ some (digest.sum256 t)
  pub sums : (t : Text) → length (digest.sum256 t) ≡ 32

matches_of_normalized :
    (digest : Digest) (t typed : Text)
    → IsLawful digest
    → normalize_recovery_code typed ≡ t
    → t ≢ []
    → matches_recovery_hash digest (digest.encode (digest.sum256 t)) typed ≡ true
unfolding matches_recovery_hash
matches_of_normalized digest t typed laws same named =
    rw (matches_recovery_hash, laws.decodes t, same)
      (ground (arith, laws.sums t, text_eq_iff t [], text_eq_refl (digest.sum256 t)))

to_upper_nonempty : (s : Text) → s ≢ [] → to_upper s ≢ []
unfolding to_upper
to_upper_nonempty [] h = h
to_upper_nonempty (c ∷ s) h = λ e. cc

-- Of a secret made from random bytes in hex, at least one, the code reads as those digits once its
-- dashes are gone, and the hash accepts every text that reads so: the code itself, in any case of
-- letters, with dashes and spaces or without.
pub generate_recovery_secret-accepted :
    (digest : Digest) (raw typed : Text) (s : Secret)
    → IsLawful digest
    → All IsHexDigit raw
    → raw ≢ []
    → generate_recovery_secret digest (some raw) ≡ some s
    → normalize_recovery_code typed ≡ to_upper raw
    → (normalize_recovery_code s.code ≡ to_upper raw)
      × (matches_recovery_hash digest s.hash typed ≡ true)
unfolding generate_recovery_secret
generate_recovery_secret-accepted digest raw typed s laws hex named made same =
    let e = some_inj made in
    let n = normalize-format (to_upper raw) (upper_hex raw hex) in
    subst
      (λ t.
        (normalize_recovery_code t.code ≡ to_upper raw)
        × (matches_recovery_hash digest t.hash typed ≡ true))
      e
      (
        n,
        rw n (
            matches_of_normalized digest (to_upper raw) typed laws same
              (to_upper_nonempty raw named)),
      )
