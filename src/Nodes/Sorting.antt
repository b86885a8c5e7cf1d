-- ===== src/Nodes/Sorting.antt =====
-- The nodes of a registry and the order in which it keeps them: slices.SortFunc by the name, and
-- slices.Sort on texts, as insertion sorts.
use flow_proxy.Prelude.{
  ℕ, ◌≡◌, refl, Bool, true, false, ◌||◌, ◌&&◌, List, [], ◌∷◌, Option, none, some, Text, text_eq,
  text_eq_iff, if◌then◌else◌, ltb, ◌==◌, arith, All, All-map, Bool-cases, inl, inr,
}

pub record Node : Type 0 where
  pub id : Text
  pub name : Text
  pub endpoint : Text
  pub tags : List Text
  pub is_enabled : Bool
  pub mode : Text
  pub last_heartbeat_at : ℕ
  pub created_at : ℕ
  pub updated_at : ℕ

-- `strings.Compare(s, t) < 0`.
unfoldable pub text_lt : Text → Text → Bool
text_lt s [] = false
text_lt [] (d ∷ t) = true
text_lt (c ∷ s) (d ∷ t) = ltb c d || c == d && text_lt s t

pub text_lt_irrefl : (s : Text) → text_lt s s ≡ false
unfolding text_lt
text_lt_irrefl [] = refl
text_lt_irrefl (c ∷ s) = ground (arith, text_lt_irrefl s)

text_lt_trans : (r s t : Text) → text_lt r s ≡ true → text_lt s t ≡ true → text_lt r t ≡ true
unfolding text_lt
text_lt_trans r s [] h k = absurd (ground (arith, k))
text_lt_trans r [] (d ∷ t) h k = absurd (ground (arith, h))
text_lt_trans [] (c ∷ s) (d ∷ t) h k = refl
text_lt_trans (b ∷ r) (c ∷ s) (d ∷ t) h k = ground (arith, h, k, text_lt_trans r s t)

text_lt_total : (s t : Text) → text_lt s t ≡ false → text_eq s t ≡ false → text_lt t s ≡ true
unfolding text_lt
text_lt_total [] [] h k = absurd (ground (arith, k))
text_lt_total (c ∷ s) [] h k = refl
text_lt_total [] (d ∷ t) h k = absurd (ground (arith, h))
text_lt_total (c ∷ s) (d ∷ t) h k = ground (arith, h, k, text_lt_total s t)

unfoldable pub insert_text : Text → List Text → List Text
unfolding text_lt
insert_text s [] = s ∷ []
insert_text s (t ∷ ts) = let rest = insert_text s ts in if text_lt t s then t ∷ rest else s ∷ t ∷ ts

unfoldable pub sort_texts : List Text → List Text
unfolding insert_text
sort_texts [] = []
sort_texts (s ∷ ss) = insert_text s (sort_texts ss)

unfoldable pub insert_node : Node → List Node → List Node
unfolding text_lt
insert_node n [] = n ∷ []
insert_node n (x ∷ xs) =
    let rest = insert_node n xs in if text_lt x.id n.id then x ∷ rest else n ∷ x ∷ xs

unfoldable pub sort_nodes : List Node → List Node
unfolding insert_node
sort_nodes [] = []
sort_nodes (x ∷ xs) = insert_node x (sort_nodes xs)

-- The first node of a name.
unfoldable pub find : Text → List Node → Option Node
find id [] = none
find id (x ∷ xs) = let rest = find id xs in if text_eq x.id id then some x else rest

abbrev pub Absent : Text → List Node → Type 0
Absent id xs = All (λ x. text_eq x.id id ≡ false) xs

abbrev pub IsAscending : List Node → Type 0
IsAscending [] = Unit {0}
IsAscending (x ∷ xs) = All (λ y. text_lt x.id y.id ≡ true) xs × IsAscending xs

pub find-Absent : (id : Text) (xs : List Node) → find id xs ≡ none → Absent id xs
unfolding find
find-Absent id [] h = tt
find-Absent id (x ∷ xs) h = ground (arith, h, find-Absent id xs)

insert_node-All :
    (P : Node → Type 0) (n : Node) (xs : List Node) → P n → All P xs → All P (insert_node n xs)
unfolding insert_node
insert_node-All P n [] h k = (h, tt)
insert_node-All P n (x ∷ xs) h k = elim (Bool-cases (text_lt x.id n.id)) [
  | inl lower ↦ rw lower (k.0, insert_node-All P n xs h k.1)
  | inr upper ↦ rw upper (h, k)
]

pub sort_nodes-All : (P : Node → Type 0) (xs : List Node) → All P xs → All P (sort_nodes xs)
unfolding sort_nodes
sort_nodes-All P [] h = tt
sort_nodes-All P (x ∷ xs) h = insert_node-All P x (sort_nodes xs) h.0 (sort_nodes-All P xs h.1)

pub insert_node-IsAscending :
    (n : Node) (xs : List Node) → IsAscending xs → Absent n.id xs → IsAscending (insert_node n xs)
unfolding insert_node
insert_node-IsAscending n [] h k = (tt, tt)
insert_node-IsAscending n (x ∷ xs) h k = elim (Bool-cases (text_lt x.id n.id)) [
  | inl lower ↦ rw lower (
    insert_node-All (λ y. text_lt x.id y.id ≡ true) n xs lower h.0,
    insert_node-IsAscending n xs h.1 k.1,
  )
  | inr upper ↦
      let first = text_lt_total x.id n.id upper k.0 in
      rw upper ((first, All-map xs (λ y above. text_lt_trans n.id x.id y.id first above) h.0), h)
]

pub find-insert_node :
    (j : Text) (n : Node) (xs : List Node)
    → Absent n.id xs
    → find j (insert_node n xs) ≡ (if text_eq n.id j then some n else find j xs)
unfolding find insert_node
find-insert_node j n [] k = ground arith
find-insert_node j n (x ∷ xs) k = ground (
  arith,
  k.0,
  find-insert_node j n xs k.1,
  text_eq_iff n.id j,
  text_eq_iff x.id j,
  text_eq_iff x.id n.id,
)
