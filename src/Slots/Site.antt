-- ===== src/Slots/Site.antt =====
-- `tryAcquireRequestSlot` and `releaseRequestSlot`: requests that run at the same time, each atomic
-- operation of each one a step.
use flow_proxy.Prelude.{ℕ, suc, ◌+◌, ◌-◌, ◌≤◌, ◌<◌, ◌≡◌, ◌≢◌, refl, List, [], ◌∷◌, ◌++◌, arith}

-- Where a request stands: before `Serve`, at the head of the loop, after `Load`, behind the limit
-- and sent away.
pub data Pc : Type 0 where
  outside : Pc
  trying : Pc
  loaded : (current : ℕ) → Pc
  inside : Pc
  refused : Pc

-- A step of one request: the counter and its place before and after it. `limit` is
-- `maxConcurrent`, and 0 stands for every value that is not positive.
pub data Move (limit active : ℕ) : Pc → ℕ → Pc → Type 0 where
  unlimited : limit ≡ 0 → Move limit active outside active inside
  arrive : 0 < limit → Move limit active outside active trying
  load : Move limit active trying active (loaded active)
  full : {current : ℕ} → limit ≤ current → Move limit active (loaded current) active refused
  swap :
      {current : ℕ}
      → current < limit
      → active ≡ current
      → Move limit active (loaded current) (suc current) inside
  lose :
      {current : ℕ}
      → current < limit
      → active ≢ current
      → Move limit active (loaded current) active trying
  release_unlimited : limit ≡ 0 → Move limit active inside active outside
  release : 0 < limit → Move limit active inside (active - 1) outside

pub record System : Type 0 where
  pub active : ℕ
  pub requests : List Pc

pub data Step (limit : ℕ) (s : System) : System → Type 0 where
  moves :
      {p q : Pc} {active : ℕ} (before behind : List Pc)
      → s.requests ≡ before ++ p ∷ behind
      → Move limit s.active p active q
      → Step limit s (record { active = active; requests = before ++ q ∷ behind })

pub data Reach (limit : ℕ) (s : System) : System → Type 0 where
  start : Reach limit s s
  later : {t u : System} → Reach limit s t → Step limit t u → Reach limit s u

abbrev pub weight : Pc → ℕ
weight inside = 1
weight _ = 0

-- The requests behind the limit.
abbrev pub holders : List Pc → ℕ
holders [] = 0
holders (p ∷ ps) = weight p + holders ps

-- The counter is the number of requests behind the limit, and that is at most the limit.
pub record IsCounted (limit : ℕ) (s : System) : Type 0 where
  pub counted : s.active ≡ holders s.requests
  pub bounded : s.active ≤ limit

holders-split :
    (ps : List Pc) (p : Pc) (qs : List Pc)
    → holders (ps ++ p ∷ qs) ≡ holders ps + (weight p + holders qs)
holders-split [] p qs = omega arith
holders-split (x ∷ ps) p qs = omega (arith, holders-split ps p qs)

Move-counts :
    (limit active new : ℕ) (p q : Pc)
    → 0 < limit
    → Move limit active p new q
    → weight p ≤ active
    → active ≤ limit
    → (new + weight p ≡ active + weight q) × (new ≤ limit)
Move-counts limit active _ _ _ pos (unlimited z) w b = ground arith
Move-counts limit active _ _ _ pos (arrive z) w b = (refl, b)
Move-counts limit active _ _ _ pos load w b = (refl, b)
Move-counts limit active _ _ _ pos (full z) w b = (refl, b)
Move-counts limit active _ _ _ pos (swap z e) w b = (omega (arith, e), z)
Move-counts limit active _ _ _ pos (lose z e) w b = (refl, b)
Move-counts limit active _ _ _ pos (release_unlimited z) w b = ground arith
Move-counts limit active _ _ _ pos (release z) w b = (omega arith, omega arith)

Step-IsCounted :
    (limit : ℕ) (s t : System) → 0 < limit → IsCounted limit s → Step limit s t → IsCounted limit t
Step-IsCounted limit s _ pos i (moves {p} {q} {active = new} before behind e m) =
    let there : holders s.requests ≡ holders before + (weight p + holders behind) =
      rw e (holders-split before p behind) in
    let change =
      Move-counts limit s.active new p q pos m (omega (arith, there, i.counted)) i.bounded in
    record {
      counted = rw holders-split (omega (arith, there, i.counted, change.0));
      bounded = change.1;
    }

-- With a positive limit, every state that is reached from one that is counted is counted: however
-- the requests interleave, the counter is the number of requests behind the limit, and no more
-- than the limit are.
pub Reach-IsCounted :
    (limit : ℕ) (s t : System) → 0 < limit → IsCounted limit s → Reach limit s t → IsCounted limit t
Reach-IsCounted limit s _ pos i start = i
Reach-IsCounted limit s _ pos i (later {t} {u} r step) =
    Step-IsCounted limit t u pos (Reach-IsCounted limit s t pos i r) step
