-- ===== src/Slots/PerIp.antt =====
-- `tryAcquirePerIPSlot` and `releasePerIPSlot`: the mutex makes each of them one step.
use flow_proxy.Prelude.{
  ℕ, suc, ◌-◌, ◌≤◌, ◌<◌, ◌≡◌, refl, ◌∙◌, Bool, true, false, List, [], ◌∷◌, ◌++◌, Option, none, some,
  Text, text_eq, text_eq_iff, text_eq_refl, leb, ◌==◌, if◌then◌else◌, lookup, store, delete,
  lookup-delete, lookup-store, arith,
}

abbrev pub Counters : Type 0
Counters = List (Text × ℕ)

-- The counter of an address, where it has one.
abbrev pub counter_or_zero : Option ℕ → ℕ
counter_or_zero none = 0
counter_or_zero (some n) = n

-- `limit` is `maxConcurrentPerIP`, and 0 stands for every value that is not positive.
unfoldable pub try_acquire_per_ip_slot : ℕ → Text → Counters → Bool × Counters
unfolding lookup store
try_acquire_per_ip_slot limit ip m =
    let current = counter_or_zero (lookup ip m) in
    if limit == 0
    then (true, m)
    else if leb limit current
    then (false, store ip current m)
    else (true, store ip (suc current) m)

unfoldable pub release_per_ip_slot : ℕ → Text → Counters → Counters
unfolding lookup store delete
release_per_ip_slot limit ip m = if limit == 0 then m else elim (lookup ip m) [
  | none ↦ m
  | some n ↦ (if leb n 1 then delete ip m else store ip (n - 1) m)
]

-- The counters and the addresses of the requests that hold a slot.
pub record System : Type 0 where
  pub counters : Counters
  pub holders : List Text

pub data Step (limit : ℕ) (s : System) : System → Type 0 where
  admitted :
      (ip : Text)
      → (try_acquire_per_ip_slot limit ip s.counters).0 ≡ true
      → Step limit s (record {
        counters = (try_acquire_per_ip_slot limit ip s.counters).1;
        holders = ip ∷ s.holders;
      })
  turned_away :
      (ip : Text)
      → (try_acquire_per_ip_slot limit ip s.counters).0 ≡ false
      → Step limit s (record {
        counters = (try_acquire_per_ip_slot limit ip s.counters).1;
        holders = s.holders;
      })
  left :
      (ip : Text) (before behind : List Text)
      → s.holders ≡ before ++ ip ∷ behind
      → Step limit s (record {
        counters = release_per_ip_slot limit ip s.counters;
        holders = before ++ behind;
      })

pub data Reach (limit : ℕ) : System → Type 0 where
  start : Reach limit (record { counters = []; holders = [] })
  later : {s t : System} → Reach limit s → Step limit s t → Reach limit t

-- How many of the requests come from an address.
abbrev pub times : Text → List Text → ℕ
times ip [] = 0
times ip (j ∷ js) = if text_eq j ip then suc (times ip js) else times ip js

-- An address has a counter exactly while one of its requests holds a slot; it is their number, and
-- at most the limit.
abbrev pub IsCounted : ℕ → System → Type 0
IsCounted limit s =
    (ip : Text)
    → (lookup ip s.counters ≡ (if times ip s.holders == 0 then none else some (times ip s.holders)))
      × (times ip s.holders ≤ limit)

times-split : (ip j : Text) (xs ys : List Text) → times ip (xs ++ j ∷ ys) ≡ times ip (j ∷ xs ++ ys)
times-split ip j [] ys = refl
times-split ip j (x ∷ xs) ys = ground (arith, times-split ip j xs ys)

-- What an address's counter is when it has that many requests.
abbrev counter_of : ℕ → Option ℕ
counter_of n = if n == 0 then none else some n

acquire-yes :
    (limit n : ℕ) (j ip : Text) (m : Counters)
    → 0 < limit
    → lookup j m ≡ counter_of n
    → (try_acquire_per_ip_slot limit j m).0 ≡ true
    → (n < limit)
      × (lookup ip (try_acquire_per_ip_slot limit j m).1
          ≡ (if text_eq j ip then some (suc n) else lookup ip m))
unfolding try_acquire_per_ip_slot
acquire-yes limit n j ip m pos c ok = ground (arith, c, ok, lookup-store j ip (suc n) m)

acquire-no :
    (limit n : ℕ) (j ip : Text) (m : Counters)
    → 0 < limit
    → lookup j m ≡ counter_of n
    → (try_acquire_per_ip_slot limit j m).0 ≡ false
    → lookup ip (try_acquire_per_ip_slot limit j m).1 ≡ lookup ip m
unfolding try_acquire_per_ip_slot
acquire-no limit n j ip m pos c bad =
    ground (arith, c, bad, lookup-store j ip n m, text_eq_iff j ip)

release-one :
    (limit n : ℕ) (j ip : Text) (m : Counters)
    → 0 < limit
    → lookup j m ≡ some (suc n)
    → lookup ip (release_per_ip_slot limit j m)
      ≡ (if text_eq j ip then counter_of n else lookup ip m)
unfolding release_per_ip_slot
release-one limit n j ip m pos c =
    rw c (ground (arith, lookup-store j ip n m, lookup-delete j ip m))

Step-IsCounted :
    (limit : ℕ) (s t : System) → 0 < limit → IsCounted limit s → Step limit s t → IsCounted limit t
Step-IsCounted limit s _ pos i (admitted j ok) ip =
    let a = acquire-yes limit (times j s.holders) j ip s.counters pos (i j).0 ok in
    ground (arith, a.0, a.1, (i ip).0, (i ip).1, text_eq_iff j ip)
Step-IsCounted limit s _ pos i (turned_away j bad) ip =
    (acquire-no limit (times j s.holders) j ip s.counters pos (i j).0 bad ∙ (i ip).0, (i ip).1)
Step-IsCounted limit s _ pos i (left j before behind e) ip =
    let n = times j (before ++ behind) in
    let there : (k : Text) → times k s.holders ≡ times k (j ∷ before ++ behind) =
      λ k. rw e (times-split k j before behind) in
    let held : lookup j s.counters ≡ some (suc n) =
      (i j).0 ∙ rw there (ground (arith, text_eq_refl j)) in
    let r = release-one limit n j ip s.counters pos held in
    ground (arith, r, there ip, (i ip).0, (i ip).1, text_eq_iff j ip)

-- With a positive limit, whatever requests come and go, an address has a counter exactly while one
-- of its requests holds a slot, the counter is the number of them, and it is at most the limit.
pub Reach-IsCounted_per_ip :
    (limit : ℕ) (s : System) → 0 < limit → Reach limit s → IsCounted limit s
unfolding lookup
Reach-IsCounted_per_ip limit _ pos start = λ ip. (refl, omega arith)
Reach-IsCounted_per_ip limit _ pos (later {s} {t} r step) =
    Step-IsCounted limit s t pos (Reach-IsCounted_per_ip limit s pos r) step
