-- ===== src/Nodes/Registry.antt =====
-- What the registry answers after a change.
use flow_proxy.Prelude.{
  ℕ, ◌≡◌, refl, sym, ap, ◌∙◌, Bool, true, false, not, List, [], ◌∷◌, ◌++◌, Option, none, some,
  no_some, Text, text_eq, text_eq_iff, text_eq_sound, if◌then◌else◌, keep, length, ◌==◌, arith, All,
  All-map, All-append, All-keep, Bool-cases, Option-cases, inl, inr, subst,
}
use flow_proxy.Nodes.Sorting.{
  Node, text_lt, find, sort_nodes, insert_node, Absent, IsAscending, find-Absent, sort_nodes-All,
  insert_node-IsAscending, find-insert_node, text_lt_irrefl,
}
use flow_proxy.Nodes.Store.{
  normalize_id, normalize_node, merged, replace_node, place_node, get_node, upsert, delete_node,
  touch_heartbeat,
}

-- The names after a node are other names.
above-Absent : (x : Node) (ys : List Node) → All (λ y. text_lt x.id y.id ≡ true) ys → Absent x.id ys
above-Absent x ys h = All-map ys (λ y above. apart x.id y.id above) h
  where
    apart : (s t : Text) → text_lt s t ≡ true → text_eq t s ≡ false
    apart s t above = elim (Bool-cases (text_eq t s)) [
      | inr other ↦ other
      | inl same ↦ absurd (
          ground (
            arith,
            text_lt_irrefl s,
            subst (λ x. text_lt s x ≡ true) (text_eq_sound t s same) above,
          ))
    ]

sort_nodes-snoc :
    (j : Text) (n : Node) (xs : List Node)
    → IsAscending xs
    → Absent n.id xs
    → IsAscending (sort_nodes (xs ++ n ∷ []))
      × (find j (sort_nodes (xs ++ n ∷ [])) ≡ (if text_eq n.id j then some n else find j xs))
unfolding sort_nodes find insert_node
sort_nodes-snoc j n [] h k = ((tt, tt), refl)
sort_nodes-snoc j n (x ∷ xs) h k =
    let (sorted, found) = sort_nodes-snoc j n xs h.1 k.1 in
    let absent : Absent x.id (sort_nodes (xs ++ n ∷ [])) =
      sort_nodes-All (λ y. text_eq y.id x.id ≡ false) (xs ++ n ∷ [])
        (All-append (λ y. text_eq y.id x.id ≡ false) xs (n ∷ []) (above-Absent x xs h.0)
          (ground (arith, k.0, text_eq_iff x.id n.id, text_eq_iff n.id x.id), tt)) in
    (
      insert_node-IsAscending x (sort_nodes (xs ++ n ∷ [])) sorted absent,
      find-insert_node j x (sort_nodes (xs ++ n ∷ [])) absent
          ∙ ground
              (arith, found, k.0, text_eq_iff x.id n.id, text_eq_iff x.id j, text_eq_iff n.id j),
    )

replace_node-All :
    (t : Text) (n : Node) (xs : List Node)
    → All (λ y. text_lt t y.id ≡ true) xs
    → All (λ y. text_lt t y.id ≡ true) (replace_node n xs)
unfolding replace_node
replace_node-All t n [] h = tt
replace_node-All t n (x ∷ xs) h = elim (Bool-cases (text_eq x.id n.id)) [
  | inl same ↦ rw same (subst (λ s. text_lt t s ≡ true) (text_eq_sound x.id n.id same) h.0, h.1)
  | inr other ↦ rw other (h.0, replace_node-All t n xs h.1)
]

replace_node-IsAscending :
    (n : Node) (xs : List Node) → IsAscending xs → IsAscending (replace_node n xs)
unfolding replace_node
replace_node-IsAscending n [] h = tt
replace_node-IsAscending n (x ∷ xs) h = elim (Bool-cases (text_eq x.id n.id)) [
  | inl same ↦
      rw same
        (subst (λ s. All (λ y. text_lt s y.id ≡ true) xs) (text_eq_sound x.id n.id same) h.0, h.1)
  | inr other ↦ rw other (replace_node-All x.id n xs h.0, replace_node-IsAscending n xs h.1)
]

find-replace_node :
    (j : Text) (n old : Node) (xs : List Node)
    → find n.id xs ≡ some old
    → find j (replace_node n xs) ≡ (if text_eq n.id j then some n else find j xs)
unfolding find replace_node
find-replace_node j n old [] h = no_some h
find-replace_node j n old (x ∷ xs) h = ground (
  arith,
  h,
  find-replace_node j n old xs,
  text_eq_iff x.id n.id,
  text_eq_iff x.id j,
  text_eq_iff n.id j,
)

place_node-find :
    (j : Text) (n : Node) (xs : List Node)
    → IsAscending xs
    → IsAscending (place_node n xs)
      × (find j (place_node n xs) ≡ (if text_eq n.id j then some n else find j xs))
unfolding place_node
place_node-find j n xs h = elim (Option-cases (find n.id xs)) [
  | inl missing ↦ rw (missing, place_node) (sort_nodes-snoc j n xs h (find-Absent n.id xs missing))
  | inr (old, found) ↦
      rw (found, place_node) (replace_node-IsAscending n xs h, find-replace_node j n old xs found)
]

id-merged : (now : ℕ) (n : Node) (old : Option Node) → (merged now n old).id ≡ n.id
unfolding merged
id-merged now n none = refl
id-merged now n (some old) = refl

keep-IsAscending : (q : Node → Bool) (xs : List Node) → IsAscending xs → IsAscending (keep q xs)
keep-IsAscending q [] h = tt
keep-IsAscending q (x ∷ xs) h = elim (Bool-cases (q x)) [
  | inl kept ↦
      rw kept (All-keep (λ y. text_lt x.id y.id ≡ true) q xs h.0, keep-IsAscending q xs h.1)
  | inr dropped ↦ rw dropped (keep-IsAscending q xs h.1)
]

-- The calls that change a registry.
pub data Change : Type 0 where
  upserted : (now : ℕ) (saves : Bool) → Node → Change
  deleted : (saves : Bool) (id : Text) → Change
  heartbeat :
      (now : ℕ) (saves : Bool) (id name endpoint : Text) (tags : Option (List Text))
      (enabled : Bool)
      → Change

unfoldable pub change : Change → List Node → List Node
change (upserted now saves input) xs = (upsert now saves input xs).1
change (deleted saves id) xs = (delete_node saves id xs).1
change (heartbeat now saves id name endpoint tags enabled) xs =
    (touch_heartbeat now saves id name endpoint tags enabled xs).1

-- The registry after some calls, the last of them in front.
unfoldable pub registry : List Change → List Node
unfolding change
registry [] = []
registry (c ∷ cs) = change c (registry cs)

nodes-delete_node :
    (saves : Bool) (id : Text) (xs : List Node)
    → (delete_node saves id xs).1 ≡ keep (λ x. not (text_eq x.id (normalize_id id))) xs
unfolding delete_node
nodes-delete_node saves id xs =
    elim (Bool-cases (length (keep (λ x. not (text_eq x.id (normalize_id id))) xs) == length xs)) [
      | inl same ↦ rw same refl
      | inr fewer ↦ rw fewer refl
    ]

change-IsAscending : (c : Change) (xs : List Node) → IsAscending xs → IsAscending (change c xs)
unfolding change upsert delete_node touch_heartbeat
change-IsAscending (upserted now saves input) xs h = (place_node-find [] _ xs h).0
change-IsAscending (deleted saves id) xs h =
    let q = λ (x : Node). not (text_eq x.id (normalize_id id)) in
    subst IsAscending (sym (nodes-delete_node saves id xs)) (keep-IsAscending q xs h)
change-IsAscending (heartbeat now saves id name endpoint tags enabled) xs h =
    (place_node-find [] _ xs h).0

registry-IsAscending : (cs : List Change) → IsAscending (registry cs)
unfolding registry
registry-IsAscending [] = tt
registry-IsAscending (c ∷ cs) = change-IsAscending c (registry cs) (registry-IsAscending cs)

upsert-find :
    (now : ℕ) (saves : Bool) (input : Node) (xs : List Node) (id : Text)
    → IsAscending xs
    → let n =
        merged now
          (record (normalize_node now input) { updated_at = now })
          (get_node input.id xs) in
      get_node id (upsert now saves input xs).1
      ≡ (if text_eq (normalize_id input.id) (normalize_id id) then some n else get_node id xs)
unfolding upsert get_node normalize_node
upsert-find now saves input xs id h =
    let normalized : Node = record (normalize_node now input) { updated_at = now } in
    let n = merged now normalized (get_node input.id xs) in
    let (sorted, found) = place_node-find (normalize_id id) n xs h in
    found
    ∙ ap (λ t. if text_eq t (normalize_id id) then some n else find (normalize_id id) xs)
        (id-merged now normalized (get_node input.id xs))

-- In a registry after any calls that put in, delete and touch nodes, whether or not they could be
-- saved, an upsert changes what is found under the normalised name of its node, and under no other: it
-- is then the node that was put in, normalised, with the time of the call as that of its update, and,
-- where it replaces a node, with that node's time of creation. The names stay in order, each once.
pub upsert-get :
    (cs : List Change) (now : ℕ) (saves : Bool) (input : Node) (id : Text)
    → let xs = registry cs in
      let n =
        merged now
          (record (normalize_node now input) { updated_at = now })
          (get_node input.id xs) in
      IsAscending (registry (upserted now saves input ∷ cs))
      × (get_node id (registry (upserted now saves input ∷ cs))
          ≡ (if text_eq (normalize_id input.id) (normalize_id id) then some n else get_node id xs))
unfolding registry change
upsert-get cs now saves input id = (
  registry-IsAscending (upserted now saves input ∷ cs),
  upsert-find now saves input (registry cs) id (registry-IsAscending cs),
)
