-- ===== src/Tests/Loading.antt =====
-- A load of two sites, with an insertion sort of the wildcards.
use flow_proxy.Prelude.{
  Bool, drop, subst, sym, ℕ, ◌≡◌, ◌≢◌, refl, true, false, List, [], ◌∷◌, Option, some, Text, codes,
  length, has_prefix, has_suffix, All, All-map, Bool-cases, inl, inr, if◌then◌else◌,
}
use flow_proxy.Domains.{all_domains}
use flow_proxy.Routing.{lookup_site}
use flow_proxy.Routing.Load.{SiteItem, Sorts, Tables, lookup_site_by_port, load, hosts_of}
use flow_proxy.Routing.Wildcards.{In, IsOrdered, IsStrict, Wins}
use flow_proxy.Routing.Loaded.{Serves, SortsSlices, load-answers, load-Longest}

abbrev Less : Type 0
Less = (Text × ℕ) → (Text × ℕ) → Bool

abbrev insert : Less → Text × ℕ → List (Text × ℕ) → List (Text × ℕ)
insert less w [] = w ∷ []
insert less w (v ∷ vs) = if less v w then v ∷ insert less w vs else w ∷ v ∷ vs

abbrev insertion_sort : Less → List (Text × ℕ) → List (Text × ℕ)
insertion_sort less [] = []
insertion_sort less (w ∷ ws) = insert less w (insertion_sort less ws)

All-insert :
    (less : Less) (w v : Text × ℕ) (vs : List (Text × ℕ))
    → less w v ≡ false
    → All (λ x. less x v ≡ false) vs
    → All (λ x. less x v ≡ false) (insert less w vs)
All-insert less w v [] h k = (h, tt)
All-insert less w v (x ∷ vs) h k = elim (Bool-cases (less x w)) [
  | inl later ↦ rw later (k.0, All-insert less w v vs h k.1)
  | inr first ↦ rw first (h, k)
]

insert-IsOrdered :
    (less : Less) (w : Text × ℕ) (vs : List (Text × ℕ))
    → IsStrict less
    → IsOrdered less vs
    → IsOrdered less (insert less w vs)
insert-IsOrdered less w [] strict h = (tt, tt)
insert-IsOrdered less w (v ∷ vs) strict h = elim (Bool-cases (less v w)) [
  | inl later ↦
      rw later
        (All-insert less w v vs (strict.0 v w later) h.0, insert-IsOrdered less w vs strict h.1)
  | inr first ↦ rw first ((first, All-map vs (λ x k. strict.1 x v w k first) h.0), h)
]

insertion_sort-IsOrdered :
    (less : Less) (ws : List (Text × ℕ)) → IsStrict less → IsOrdered less (insertion_sort less ws)
insertion_sort-IsOrdered less [] strict = tt
insertion_sort-IsOrdered less (w ∷ ws) strict =
    insert-IsOrdered less w (insertion_sort less ws) strict
      (insertion_sort-IsOrdered less ws strict)

In-insert_same : (less : Less) (w : Text × ℕ) (vs : List (Text × ℕ)) → In w (insert less w vs)
In-insert_same less w [] = inl refl
In-insert_same less w (v ∷ vs) = elim (Bool-cases (less v w)) [
  | inl later ↦ rw later (inr (In-insert_same less w vs))
  | inr first ↦ rw first (inl refl)
]

In-insert :
    (less : Less) (w x : Text × ℕ) (vs : List (Text × ℕ)) → In x vs → In x (insert less w vs)
In-insert less w x [] h = elim h [ ]
In-insert less w x (v ∷ vs) (inl here) = elim (Bool-cases (less v w)) [
  | inl later ↦ rw later (inl here)
  | inr first ↦ rw first (inr (inl here))
]
In-insert less w x (v ∷ vs) (inr there) = elim (Bool-cases (less v w)) [
  | inl later ↦ rw later (inr (In-insert less w x vs there))
  | inr first ↦ rw first (inr (inr there))
]

In-insertion_sort :
    (less : Less) (x : Text × ℕ) (ws : List (Text × ℕ)) → In x ws → In x (insertion_sort less ws)
In-insertion_sort less x [] h = elim h [ ]
In-insertion_sort less x (w ∷ ws) (inl here) =
    subst (λ y. In y (insertion_sort less (w ∷ ws))) (sym here)
      (In-insert_same less w (insertion_sort less ws))
In-insertion_sort less x (w ∷ ws) (inr there) =
    In-insert less w x (insertion_sort less ws) (In-insertion_sort less x ws there)

abbrev compiled : SiteItem → Option ℕ
compiled item = some (length item.domain)

abbrev sorts : Sorts ℕ
sorts = record { sort_texts = λ ts. ts; sort_slice = insertion_sort }

sorts-SortsSlices : SortsSlices sorts compiled
sorts-SortsSlices = record { ordered = insertion_sort-IsOrdered; kept = In-insertion_sort }

abbrev first : SiteItem
first = record {
  id = codes "1";
  is_enabled = true;
  protocol = codes "http";
  listen_port = 81;
  domain = codes "A.org";
  additional_domains = codes "*.org" ∷ codes "a.org" ∷ [];
}

abbrev second : SiteItem
second = record first {
  id = codes "2";
  listen_port = 0;
  domain = codes "*.b.org";
  additional_domains = [];
}

abbrev tables : Tables ℕ
tables = record {
  exact = (codes "a.org", 5) ∷ [];
  wildcards = (codes ".b.org", 7) ∷ (codes ".org", 5) ∷ [];
  port_sites = (81, 5) ∷ [];
}

loads : load sorts compiled (first ∷ second ∷ []) ≡ some tables
unfolding load
loads = refl

load-answers_example :
    All
      (λ item.
        (s : ℕ)
        → Serves sorts compiled item s
        → All
            (λ d. has_prefix d (codes "*.") ≡ false → lookup_site (hosts_of tables) d ≡ some s)
            (all_domains sorts.sort_texts item.domain item.additional_domains)
          × (item.listen_port ≢ 0 → lookup_site_by_port item.listen_port tables ≡ some s))
      (first ∷ second ∷ [])
load-answers_example = load-answers sorts compiled (first ∷ second ∷ []) tables loads

load-Longest_example :
    All
      (λ item.
        (s : ℕ)
        → Serves sorts compiled item s
        → All
            (λ d.
              has_prefix d (codes "*.") ≡ true
              → has_suffix (codes "x.b.org") (drop 1 d) ≡ true
              → (x : ℕ) × (lookup_site (hosts_of tables) (codes "x.b.org") ≡ some x)
                × Wins (codes "x.b.org") (drop 1 d) (hosts_of tables) x)
            (all_domains sorts.sort_texts item.domain item.additional_domains))
      (first ∷ second ∷ [])
load-Longest_example =
    load-Longest sorts compiled (first ∷ second ∷ []) tables (codes "x.b.org") sorts-SortsSlices
      loads
