-- ===== src/Cache/Steps.antt =====
-- The map and the list of the cache in step, through a read and through the evictions.
use flow_proxy.Prelude.{
  ℕ, zero, suc, ◌≡◌, inl, inr, true, List, [], ◌∷◌, some, Text, text_eq, text_eq_iff, ltb, leb,
  length, lookup, remove, member, Distinct, keys, keys-delete, member-remove, remove-Distinct,
  arith, Bool-cases, Option-cases, member-keys_of_lookup,
}
use flow_proxy.Cache.{
  ResponseCache, CacheEntry, expired, drop_key, get_found, get, evict_expired, back, evict_lru,
}

-- The map and the list hold the same keys, each once.
pub record InStep (c : ResponseCache) : Type 0 where
  pub same : (k : Text) → member k c.lru_list ≡ member k (keys c.entries)
  pub listed_once : Distinct c.lru_list
  pub stored_once : Distinct (keys c.entries)

pub drop_key-InStep : (k : Text) (c : ResponseCache) → InStep c → InStep (drop_key k c)
unfolding drop_key
drop_key-InStep k c s = record {
  same = λ j. rw (
    keys-delete k c.entries,
    member-remove k j c.lru_list,
    member-remove k j (keys c.entries),
    s.same j,
  );
  listed_once = remove-Distinct k c.lru_list s.listed_once;
  stored_once = rw (keys-delete k c.entries) (remove-Distinct k (keys c.entries) s.stored_once);
}

move_to_front-InStep :
    (k : Text) (c : ResponseCache)
    → member k (keys c.entries) ≡ true
    → InStep c
    → InStep (record c { lru_list = k ∷ remove k c.lru_list })
move_to_front-InStep k c stored s = record {
  same =
      λ j. ground (arith, member-remove k j c.lru_list, s.same j, text_eq_iff j k, text_eq_iff k j);
  listed_once = (
    ground (arith, member-remove k k c.lru_list, text_eq_iff k k),
    remove-Distinct k c.lru_list s.listed_once,
  );
  stored_once = s.stored_once;
}

get_found-InStep :
    (now : ℕ) (k : Text) (e : CacheEntry) (c : ResponseCache)
    → lookup k c.entries ≡ some e
    → InStep c
    → InStep (get_found now k e c).1
unfolding get_found
get_found-InStep now k e c found s = elim (Bool-cases (expired now e)) [
  | inl old ↦ rw old (drop_key-InStep k c s)
  | inr fresh ↦ rw fresh (move_to_front-InStep k c (member-keys_of_lookup k c.entries e found) s)
]

pub get-InStep : (now : ℕ) (k : Text) (c : ResponseCache) → InStep c → InStep (get now k c).1
unfolding get
get-InStep now k c s = elim (Bool-cases (text_eq k [])) [
  | inl nameless ↦ rw nameless s
  | inr named ↦ rw named (elim (Option-cases (lookup k c.entries)) [
    | inl missing ↦ rw (missing, get) s
    | inr (e, found) ↦ rw (found, get) (get_found-InStep now k e c found s)
  ])
]

module _ {ℓ} (P : ResponseCache → Type ℓ)
    (step : (k : Text) (c : ResponseCache) → P c → P (drop_key k c)) where
  -- What every drop keeps, the two eviction loops keep.
  pub evict_expired_keeps :
      (now n : ℕ) (order : List Text) (c : ResponseCache) → P c → P (evict_expired now n order c)
  unfolding evict_expired
  evict_expired_keeps now n [] c p = p
  evict_expired_keeps now n (k ∷ order) c p = elim (Bool-cases (leb 10 n)) [
    | inl enough ↦ rw enough p
    | inr more ↦ rw more (elim (Option-cases (lookup k c.entries)) [
      | inl missing ↦ rw (missing, evict_expired) (evict_expired_keeps now n order c p)
      | inr (e, found) ↦
          rw (found, evict_expired)
            (elim (Bool-cases (expired now e)) [
              | inl old ↦ rw old (evict_expired_keeps now (suc n) order (drop_key k c) (step k c p))
              | inr fresh ↦ rw fresh (evict_expired_keeps now n order c p)
            ])
    ])
  ]

  pub evict_lru_keeps : (fuel : ℕ) (c : ResponseCache) → P c → P (evict_lru fuel c)
  unfolding evict_lru
  evict_lru_keeps zero c p = p
  evict_lru_keeps (suc fuel) c p = elim (Bool-cases (ltb (length c.entries) c.policy.max_entries)) [
    | inl room ↦ rw room p
    | inr full ↦ rw full (elim (Option-cases (back c.lru_list)) [
      | inl empty ↦ rw empty p
      | inr (k, last) ↦ rw last (evict_lru_keeps fuel (drop_key k c) (step k c p))
    ])
  ]
