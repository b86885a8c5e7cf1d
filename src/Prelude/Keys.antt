-- ===== src/Prelude/Keys.antt =====
-- Lists of distinct texts, and the keys of an association list.
use Prim.Native.Nat.{suc}
use mathlib.Core.Path.{◌≡◌, refl, ap}
use mathlib.Core.Bool.{true, false}
use mathlib.Core.List.{List, [], ◌∷◌}
use mathlib.Core.Option.{none, some}
use native.Mathlib.Omega.{arith}
use flow_proxy.Prelude.Tests.{if◌then◌else◌}
use flow_proxy.Prelude.Lists.{length}
use flow_proxy.Prelude.Texts.{Text, text_eq, text_eq_iff, member}
use flow_proxy.Prelude.Maps.{lookup, delete}

abbrev pub Distinct : List Text → Type 0
Distinct [] = Unit {0}
Distinct (k ∷ ks) = (member k ks ≡ false) × Distinct ks

unfoldable pub remove : Text → List Text → List Text
remove k [] = []
remove k (j ∷ ks) = if text_eq j k then remove k ks else j ∷ remove k ks

pub member-remove :
    (k j : Text) (ks : List Text)
    → member j (remove k ks) ≡ (if text_eq k j then false else member j ks)
unfolding remove
member-remove k j [] = ground arith
member-remove k j (i ∷ ks) =
    ground (arith, member-remove k j ks, text_eq_iff i k, text_eq_iff j i, text_eq_iff k j)

pub remove_absent : (k : Text) (ks : List Text) → member k ks ≡ false → remove k ks ≡ ks
unfolding remove
remove_absent k [] h = refl
remove_absent k (j ∷ ks) h = ground (arith, remove_absent k ks, text_eq_iff j k, text_eq_iff k j)

pub remove-Distinct : (k : Text) (ks : List Text) → Distinct ks → Distinct (remove k ks)
unfolding remove
remove-Distinct k [] h = tt
remove-Distinct k (j ∷ ks) h = ground (arith, remove-Distinct k ks h.1, member-remove k j ks)

pub length-remove :
    (k : Text) (ks : List Text)
    → Distinct ks
    → member k ks ≡ true
    → suc (length (remove k ks)) ≡ length ks
unfolding remove
length-remove k [] h m = cc
length-remove k (j ∷ ks) h m =
    ground (arith, length-remove k ks h.1, remove_absent k ks, text_eq_iff j k, text_eq_iff k j)

-- Distinct lists with the same members are equally long.
pub length_same :
    (xs ys : List Text)
    → Distinct xs
    → Distinct ys
    → ((k : Text) → member k xs ≡ member k ys)
    → length xs ≡ length ys
length_same [] [] h i same = refl
length_same [] (y ∷ ys) h i same = ground (arith, same y, text_eq_iff y y)
length_same (x ∷ xs) ys h i same =
    let here : member x ys ≡ true = ground (arith, same x, text_eq_iff x x) in
    let rest =
      length_same xs (remove x ys) h.1 (remove-Distinct x ys i) (λ k.
        ground (arith, same k, h.0, member-remove x k ys, text_eq_iff k x, text_eq_iff x k)) in
    omega (arith, rest, length-remove x ys i here)

module _ {ℓ} {V : Type ℓ} where
  abbrev pub keys : List (Text × V) → List Text
  keys [] = []
  keys ((k, v) ∷ m) = k ∷ keys m

  pub keys-delete : (k : Text) (m : List (Text × V)) → keys (delete k m) ≡ remove k (keys m)
  unfolding delete remove
  keys-delete k [] = refl
  keys-delete k ((j, v) ∷ m) = ground (arith, keys-delete k m)

  pub length-keys : (m : List (Text × V)) → length (keys m) ≡ length m
  length-keys [] = refl
  length-keys ((k, v) ∷ m) = ap suc (length-keys m)

  pub member-keys_of_lookup :
      (k : Text) (m : List (Text × V)) (v : V) → lookup k m ≡ some v → member k (keys m) ≡ true
  unfolding lookup
  member-keys_of_lookup k [] v h = cc
  member-keys_of_lookup k ((j, w) ∷ m) v h =
      ground (arith, member-keys_of_lookup k m v, text_eq_iff j k, text_eq_iff k j)

  pub member-keys_of_none :
      (k : Text) (m : List (Text × V)) → lookup k m ≡ none → member k (keys m) ≡ false
  unfolding lookup
  member-keys_of_none k [] h = refl
  member-keys_of_none k ((j, w) ∷ m) h =
      ground (arith, member-keys_of_none k m, text_eq_iff j k, text_eq_iff k j)
