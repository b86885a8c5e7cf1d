-- ===== src/Cache/Capacity.antt =====
-- The cache stays in step with its list and within its limit.
use flow_proxy.Prelude.{
  ℕ, zero, suc, ◌≤◌, ◌<◌, ◌≡◌, refl, ◌∙◌, inl, inr, true, false, List, [], ◌∷◌, none, some, Text,
  text_eq, text_eq_iff, ltb, length, member, keys, keys-delete, length-keys, member-remove,
  remove-Distinct, length-remove, length-delete-le, length_same, arith, Bool-cases, Option-cases,
}
use flow_proxy.Http.{Header}
use flow_proxy.Cache.{
  ResponseCache, CacheEntry, drop_key, evict_expired, back, evict_lru, push_front, set_entry, set,
}
use flow_proxy.Cache.Steps.{InStep, drop_key-InStep, evict_expired_keeps, evict_lru_keeps}

member-back : (k : Text) (ks : List Text) → back ks ≡ some k → member k ks ≡ true
member-back k [] h = cc
member-back k (j ∷ []) h = ground (arith, text_eq_iff k j)
member-back k (j ∷ i ∷ ks) h = rw (member-back k (i ∷ ks) h) (ground arith)

back-eq-none : (ks : List Text) → back ks ≡ none → length ks ≡ 0
back-eq-none [] h = refl
back-eq-none (j ∷ []) h = cc
back-eq-none (j ∷ i ∷ ks) h = absurd (ground (arith, back-eq-none (i ∷ ks) h))

InStep-length : (c : ResponseCache) → InStep c → length c.lru_list ≡ length c.entries
InStep-length c s =
    length_same c.lru_list (keys c.entries) s.listed_once s.stored_once s.same
    ∙ length-keys c.entries

-- With fuel for every listed key the loop ends with room for an entry.
evict_lru-room :
    (fuel : ℕ) (c : ResponseCache)
    → InStep c
    → 0 < c.policy.max_entries
    → length c.lru_list < fuel
    → length (evict_lru fuel c).entries < c.policy.max_entries
unfolding evict_lru drop_key
evict_lru-room zero c s pos h = elim h [ ]
evict_lru-room (suc fuel) c s pos h =
    elim (Bool-cases (ltb (length c.entries) c.policy.max_entries)) [
      | inl room ↦ rw room (ground arith)
      | inr full ↦ rw full (elim (Option-cases (back c.lru_list)) [
        | inl empty ↦ rw empty (omega (arith, back-eq-none c.lru_list empty, InStep-length c s))
        | inr (k, last) ↦
            let shorter =
              length-remove k c.lru_list s.listed_once (member-back k c.lru_list last) in
            rw last (evict_lru-room fuel (drop_key k c) (drop_key-InStep k c s) pos (omega arith))
      ])
    ]

-- A cache in step that has no entry for a key.
record Ready (key : Text) (limit : ℕ) (c : ResponseCache) : Type 0 where
  in_step : InStep c
  absent : member key c.lru_list ≡ false
  limited : c.policy.max_entries ≡ limit

drop_key-Ready :
    (key : Text) (limit : ℕ) (k : Text) (c : ResponseCache)
    → Ready key limit c
    → Ready key limit (drop_key k c)
drop_key-Ready key limit k c r = record {
  in_step = drop_key-InStep k c r.in_step;
  absent = unfold drop_key in ground (arith, member-remove k key c.lru_list, r.absent);
  limited = unfold drop_key in r.limited;
}

-- The cache that `set_entry` puts the new entry into.
swept-Ready :
    (now : ℕ) (order : List Text) (key : Text) (c : ResponseCache)
    → InStep c
    → Ready key c.policy.max_entries (evict_expired now 0 order (drop_key key c))
swept-Ready now order key c s =
    evict_expired_keeps (Ready key c.policy.max_entries) (drop_key-Ready key c.policy.max_entries)
      now 0 order (drop_key key c)
      (record {
        in_step = drop_key-InStep key c s;
        absent =
            unfold drop_key in
            ground (arith, member-remove key key c.lru_list, text_eq_iff key key);
        limited = unfold drop_key in refl;
      })

push_front-InStep :
    (key : Text) (limit : ℕ) (e : CacheEntry) (c : ResponseCache)
    → Ready key limit c
    → InStep (push_front key e c)
unfolding push_front
push_front-InStep key limit e c r = record {
  same = λ j.
      rw (keys-delete key c.entries, member-remove key j (keys c.entries), r.in_step.same j)
        (ground (arith, text_eq_iff j key, text_eq_iff key j));
  listed_once = (r.absent, r.in_step.listed_once);
  stored_once = rw (keys-delete key c.entries) (
    ground (arith, member-remove key key (keys c.entries), text_eq_iff key key),
    remove-Distinct key (keys c.entries) r.in_step.stored_once,
  );
}

set_entry-InStep :
    (now : ℕ) (order : List Text) (key : Text) (e : CacheEntry) (c : ResponseCache)
    → InStep c
    → InStep (set_entry now order key e c)
unfolding set_entry
set_entry-InStep now order key e c s = push_front-InStep key _ e _ (
    evict_lru_keeps (Ready key c.policy.max_entries) (drop_key-Ready key c.policy.max_entries) _ _
      (swept-Ready now order key c s))

set_entry-length :
    (now : ℕ) (order : List Text) (key : Text) (e : CacheEntry) (c : ResponseCache)
    → InStep c
    → 0 < c.policy.max_entries
    → length (set_entry now order key e c).entries ≤ c.policy.max_entries
unfolding set_entry push_front
set_entry-length now order key e c s pos =
    let swept = evict_expired now 0 order (drop_key key c) in
    let r = swept-Ready now order key c s in
    let room =
      evict_lru-room (suc (length swept.lru_list)) swept r.in_step (omega (arith, r.limited))
        (omega arith) in
    omega (
      arith,
      room,
      r.limited,
      length-delete-le key (evict_lru (suc (length swept.lru_list)) swept).entries,
    )

-- `Set` keeps the map and the list in step, whatever the order in which the expired entries are met.
pub set-InStep :
    (now : ℕ) (order : List Text) (key : Text) (status : ℕ) (header : Header) (body : List ℕ)
    (c : ResponseCache)
    → InStep c
    → InStep (set now order key status header body c)
unfolding set
set-InStep now order key status header body c s = elim (Bool-cases (text_eq key [])) [
  | inl nameless ↦ rw nameless s
  | inr named ↦ rw named (elim (Bool-cases (ltb c.policy.max_body_bytes (length body))) [
    | inl large ↦ rw large s
    | inr small ↦ rw small (set_entry-InStep now order key _ c s)
  ])
]

pub set-length :
    (now : ℕ) (order : List Text) (key : Text) (status : ℕ) (header : Header) (body : List ℕ)
    (c : ResponseCache)
    → InStep c
    → 0 < c.policy.max_entries
    → length c.entries ≤ c.policy.max_entries
    → length (set now order key status header body c).entries ≤ c.policy.max_entries
unfolding set
set-length now order key status header body c s pos h = elim (Bool-cases (text_eq key [])) [
  | inl nameless ↦ rw nameless h
  | inr named ↦ rw named (elim (Bool-cases (ltb c.policy.max_body_bytes (length body))) [
    | inl large ↦ rw large h
    | inr small ↦ rw small (set_entry-length now order key _ c s pos)
  ])
]
