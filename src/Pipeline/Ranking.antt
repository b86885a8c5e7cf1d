-- ===== src/Pipeline/Ranking.antt =====
-- The qualities of a name in the order of its items, and the choice between two qualities.
use flow_proxy.Prelude.{
  ℕ, ◌≡◌, refl, ap, ◌∙◌, Bool, true, false, not, ◌&&◌, List, [], ◌∷◌, Option, none, some, ltb, leb,
  max, if◌then◌else◌, arith, Bool-cases, inl, inr,
}
use flow_proxy.Pipeline.Compression.{
  Weight, nan_weight, weight, Algorithm, uncompressed, gzip, brotli, is_above, is_at_least, raised,
}

-- The largest number among qualities, 0 where there is none.
abbrev pub top : List Weight → ℕ
top [] = 0
top (nan_weight ∷ qs) = top qs
top (weight q ∷ qs) = max q (top qs)

-- The quality of a name whose items have the given ones: NaN where the first is, and otherwise the
-- largest number.
abbrev pub best : List Weight → Option Weight
best [] = none
best (nan_weight ∷ qs) = some nan_weight
best (weight q ∷ qs) = some (weight (max q (top qs)))

-- A quality, or else that of the wildcard, or else 0.
abbrev pub first_of : Option Weight → Option Weight → Weight
first_of o w = elim o [ some q ↦ q | none ↦ elim w [ none ↦ weight 0 | some q ↦ q ] ]

-- The better of two qualities, brotli where they are equal, none where both are 0. Where one is
-- NaN, gzip is chosen if it is a positive number, and brotli never is.
abbrev pub ranked : Weight → Weight → Algorithm
ranked nan_weight b = uncompressed
ranked (weight g) nan_weight = if ltb 0 g then gzip else uncompressed
ranked (weight g) (weight b) =
    if leb g b && ltb 0 b then brotli else if ltb 0 g then gzip else uncompressed

-- The loop over the qualities of one name.
abbrev pub folded : Option Weight → List Weight → Option Weight
folded o [] = o
folded o (q ∷ qs) = folded (some (raised o q)) qs

folded_nan : (qs : List Weight) → folded (some nan_weight) qs ≡ some nan_weight
folded_nan [] = refl
folded_nan (nan_weight ∷ qs) = folded_nan qs
folded_nan (weight q ∷ qs) = folded_nan qs

folded_number :
    (c : ℕ) (qs : List Weight) → folded (some (weight c)) qs ≡ some (weight (max c (top qs)))
folded_number c [] = ap (λ n. some (weight n)) (let e : c ≡ max c 0 = omega arith in e)
folded_number c (nan_weight ∷ qs) = folded_number c qs
folded_number c (weight q ∷ qs) = elim (Bool-cases (ltb c q)) [
  | inl more ↦ rw more (
      folded_number q qs
      ∙ ap (λ n. some (weight n))
          (let e : max q (top qs) ≡ max c (max q (top qs)) = ground (arith, more) in e))
  | inr less ↦ rw less (
      folded_number c qs
      ∙ ap (λ n. some (weight n))
          (let e : max c (top qs) ≡ max c (max q (top qs)) = ground (arith, less) in e))
]

pub folded-best : (qs : List Weight) → folded none qs ≡ best qs
folded-best [] = refl
folded-best (nan_weight ∷ qs) = folded_nan qs
folded-best (weight q ∷ qs) = folded_number q qs

pub uncompressed-always : (off : Bool) → (if off then uncompressed else uncompressed) ≡ uncompressed
uncompressed-always false = refl
uncompressed-always true = refl

compared :
    (g b : Weight)
    → (if is_at_least (weight 0) b && is_at_least (weight 0) g
        then uncompressed
        else if is_at_least b g && is_above b (weight 0)
        then brotli
        else if is_above g (weight 0)
        then gzip
        else uncompressed)
      ≡ ranked g b
compared nan_weight nan_weight = refl
compared nan_weight (weight b) = ground arith
compared (weight g) nan_weight = refl
compared (weight g) (weight b) = ground arith

pub chooses :
    (eg eb : Bool) (g b : Weight)
    → (if not eg && not eb
        then uncompressed
        else if is_at_least (weight 0) (if eb then b else weight 0)
            && is_at_least (weight 0) (if eg then g else weight 0)
        then uncompressed
        else if is_at_least (if eb then b else weight 0) (if eg then g else weight 0)
            && is_above (if eb then b else weight 0) (weight 0)
        then brotli
        else if is_above (if eg then g else weight 0) (weight 0)
        then gzip
        else uncompressed)
      ≡ ranked (if eg then g else weight 0) (if eb then b else weight 0)
chooses false false g b = refl
chooses true false g b = compared g (weight 0)
chooses false true g b = compared (weight 0) b
chooses true true g b = compared g b
