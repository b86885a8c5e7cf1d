-- ===== src/RuleSets/Merge.antt =====
-- Merged lists: no text twice, and exactly the texts that were merged.
use flow_proxy.Prelude.{
  Bool, false, not, ◌&&◌, ◌||◌, List, [], ◌∷◌, ◌++◌, Text, text_eq, text_eq_iff, if◌then◌else◌, any,
  member, Distinct, trim_space, ◌≡◌, refl, ◌∙◌, arith,
}
use flow_proxy.RuleSets.{merge_into, merge_lists, merge_string_list}

-- Whether a text is what some item of a list trims to, and is not blank.
abbrev pub mentioned : Text → List Text → Bool
mentioned t items = not (text_eq t []) && any (λ item. text_eq t (trim_space item)) items

member-snoc : (t u : Text) (xs : List Text) → member t (xs ++ u ∷ []) ≡ (member t xs || text_eq t u)
member-snoc t u [] = ground arith
member-snoc t u (x ∷ xs) = ground (arith, member-snoc t u xs)

Distinct-snoc :
    (u : Text) (xs : List Text) → Distinct xs → member u xs ≡ false → Distinct (xs ++ u ∷ [])
Distinct-snoc u [] d h = (refl, tt)
Distinct-snoc u (x ∷ xs) d h = (
  ground (arith, d.0, member-snoc x u xs, text_eq_iff x u, text_eq_iff u x),
  Distinct-snoc u xs d.1 (ground arith),
)

module _ (out : List Text) (u : Text) where
  -- One turn of the loop.
  abbrev turn : List Text
  turn = if text_eq u [] || member u out then out else out ++ u ∷ []

  turn-Distinct : Distinct out → Distinct turn
  turn-Distinct d = ground (arith, Distinct-snoc u out d)

  member-turn : (t : Text) → member t turn ≡ (member t out || (not (text_eq t []) && text_eq t u))
  member-turn t =
      ground (arith, member-snoc t u out, text_eq_iff t u, text_eq_iff u [], text_eq_iff t [])

merge_into-Distinct : (out items : List Text) → Distinct out → Distinct (merge_into out items)
unfolding merge_into
merge_into-Distinct out [] d = d
merge_into-Distinct out (item ∷ items) d =
    merge_into-Distinct (turn out (trim_space item)) items (turn-Distinct out (trim_space item) d)

pub member-merge_into :
    (t : Text) (out items : List Text)
    → member t (merge_into out items) ≡ (member t out || mentioned t items)
unfolding merge_into
member-merge_into t out [] = ground arith
member-merge_into t out (item ∷ items) =
    member-merge_into t (turn out (trim_space item)) items
    ∙ ground (arith, member-turn out (trim_space item) t)

merge_lists-union :
    (out : List Text) (lists : List (List Text))
    → Distinct out
    → Distinct (merge_lists out lists)
      × ((t : Text) → member t (merge_lists out lists) ≡ (member t out || any (mentioned t) lists))
unfolding merge_lists
merge_lists-union out [] d = (d, λ t. ground arith)
merge_lists-union out (list ∷ lists) d =
    let rest = merge_lists-union (merge_into out list) lists (merge_into-Distinct out list d) in
    (rest.0, λ t. rest.1 t ∙ ground (arith, member-merge_into t out list))

-- The merged list has each text once, and holds exactly the texts that are not blank and that some
-- item of some list trims to.
pub merge_string_list-union :
    (lists : List (List Text))
    → Distinct (merge_string_list lists)
      × ((t : Text) → member t (merge_string_list lists) ≡ any (mentioned t) lists)
unfolding merge_string_list
merge_string_list-union lists = merge_lists-union [] lists tt

-- The selected ids of a site are distinct.
pub merge_into-Distinct_twice : (xs ys : List Text) → Distinct (merge_into (merge_into [] xs) ys)
merge_into-Distinct_twice xs ys = merge_into-Distinct _ ys (merge_into-Distinct [] xs tt)
