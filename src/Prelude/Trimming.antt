-- ===== src/Prelude/Trimming.antt =====
-- What strings.TrimSpace leaves: it does nothing the second time.
use mathlib.Core.Path.{◌≡◌, refl, sym, ap, ◌∙◌, subst}
use mathlib.Core.Logic.{inl, inr}
use mathlib.Core.Bool.{Bool, true, not}
use mathlib.Core.List.{[], ◌∷◌, ◌++◌, reverse, reverse-append, reverse-reverse}
use native.Mathlib.Omega.{arith}
use flow_proxy.Prelude.Tests.{Bool-cases}
use flow_proxy.Prelude.Texts.{Text, is_space, trim_left, trim_space}

-- A text that is empty or does not begin with a space.
abbrev opens : Text → Bool
unfolding is_space
opens [] = true
opens (c ∷ s) = not (is_space c)

opens-trim_left : (s : Text) → opens (trim_left s) ≡ true
unfolding trim_left is_space
opens-trim_left [] = refl
opens-trim_left (c ∷ s) = elim (Bool-cases (is_space c)) [
  | inl space ↦ rw space (opens-trim_left s)
  | inr other ↦ rw other (rw other refl)
]

trim_left_of_opens : (s : Text) → opens s ≡ true → trim_left s ≡ s
unfolding trim_left is_space
trim_left_of_opens [] h = refl
trim_left_of_opens (c ∷ s) h = ground (arith, h)

opens_prefix : (t q : Text) → opens (t ++ q) ≡ true → opens t ≡ true
unfolding opens
opens_prefix [] q h = refl
opens_prefix (c ∷ t) q h = h

trim_left_suffix : (w : Text) → (p : Text) × (w ≡ p ++ trim_left w)
unfolding trim_left is_space
trim_left_suffix [] = ([], refl)
trim_left_suffix (c ∷ w) = elim (Bool-cases (is_space c)) [
  | inl space ↦ (let (p, e) = trim_left_suffix w in (c ∷ p, rw space (ap (λ s. c ∷ s) e)))
  | inr other ↦ ([], rw other refl)
]

pub trim_space_idem : (s : Text) → trim_space (trim_space s) ≡ trim_space s
unfolding trim_space
trim_space_idem s =
    let u = trim_left s in
    let v = trim_left (reverse u) in
    let (p, e) = trim_left_suffix (reverse u) in
    let whole : u ≡ reverse v ++ reverse p =
      sym (reverse-reverse u) ∙ ap reverse e ∙ reverse-append p v in
    let first : trim_left (reverse v) ≡ reverse v = trim_left_of_opens (reverse v) (
      opens_prefix (reverse v) (reverse p)
        (subst (λ x. opens x ≡ true) whole (opens-trim_left s))) in
    let last : trim_left v ≡ v = trim_left_of_opens v (opens-trim_left (reverse u)) in
    ap (λ x. reverse (trim_left (reverse x))) first
    ∙ ap (λ x. reverse (trim_left x)) (reverse-reverse v)
    ∙ ap reverse last
