-- ===== src/Prelude/Maps.antt =====
-- Go's maps with text keys as association lists. A write puts the key in front and keeps one
-- entry for each key; where the program ranges over a map the order is an argument.
use Prim.Native.Nat.{◌≤◌}
use mathlib.Core.Path.{◌≡◌}
use mathlib.Core.List.{List, [], ◌∷◌}
use mathlib.Core.Option.{Option, none, some}
use native.Mathlib.Omega.{arith}
use flow_proxy.Prelude.Tests.{if◌then◌else◌}
use flow_proxy.Prelude.Lists.{length}
use flow_proxy.Prelude.Texts.{Text, text_eq, text_eq_iff}

module _ {ℓ} {V : Type ℓ} where
  unfoldable pub lookup : Text → List (Text × V) → Option V
  lookup k [] = none
  lookup k ((j, v) ∷ m) = if text_eq j k then some v else lookup k m

  unfoldable pub delete : Text → List (Text × V) → List (Text × V)
  delete k [] = []
  delete k ((j, v) ∷ m) = if text_eq j k then delete k m else (j, v) ∷ delete k m

  unfoldable pub store : Text → V → List (Text × V) → List (Text × V)
  unfolding delete
  store k v m = (k, v) ∷ delete k m

  pub lookup-delete :
      (k j : Text) (m : List (Text × V))
      → lookup j (delete k m) ≡ (if text_eq k j then none else lookup j m)
  unfolding lookup delete
  lookup-delete k j [] = ground arith
  lookup-delete k j ((i, v) ∷ m) =
      ground (arith, lookup-delete k j m, text_eq_iff i k, text_eq_iff i j, text_eq_iff k j)

  pub lookup-store :
      (k j : Text) (v : V) (m : List (Text × V))
      → lookup j (store k v m) ≡ (if text_eq k j then some v else lookup j m)
  unfolding lookup store
  lookup-store k j v m = ground (arith, lookup-delete k j m)

  pub length-delete-le : (k : Text) (m : List (Text × V)) → length (delete k m) ≤ length m
  unfolding delete
  length-delete-le k [] = omega arith
  length-delete-le k ((j, v) ∷ m) = ground (arith, length-delete-le k m)
