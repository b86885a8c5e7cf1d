-- ===== src/Sync/Failover.antt =====
-- That a call reaches an endpoint that answers.
use flow_proxy.Prelude.{
  ℕ, zero, suc, ◌+◌, ◌<◌, ◌≡◌, ◌≢◌, refl, sym, ap, ◌∙◌, Bool, true, false, not, ◌||◌, List, [], ◌∷◌,
  ◌++◌, none, some, no_some, Text, codes, text_eq, text_eq_iff, text_eq_refl, text_eq_sound,
  is_empty, member, lookup, store, delete, lookup-store, lookup-delete, length, length-append, take,
  drop, keep, get_elem?, leb, ◌==◌, trim_space, arith, All, Bool-cases, Option-cases, inl, inr,
  subst,
}
use flow_proxy.Sync.Client.{
  Client, SyncError, message, should_failover, current_active_index, set_active_index,
  active_endpoint, mark_failure_and_switch, mark_success, is_eligible,
  prioritize_eligible_endpoints, index_of, Calling, try_endpoints, with_failover,
}

member-append : (u : Text) (xs ys : List Text) → member u (xs ++ ys) ≡ member u xs || member u ys
member-append u [] ys = refl
member-append u (x ∷ xs) ys = ground (arith, member-append u xs ys)

member-around :
    (u : Text) (n : ℕ) (xs : List Text) → member u (drop n xs) || member u (take n xs) ≡ member u xs
member-around u zero xs = ground arith
member-around u (suc n) [] = refl
member-around u (suc n) (x ∷ xs) = ground (arith, member-around u n xs)

length-around : (n : ℕ) (xs : List Text) → length (drop n xs) + length (take n xs) ≡ length xs
length-around zero xs = ground arith
length-around (suc n) [] = refl
length-around (suc n) (x ∷ xs) = ground (arith, length-around n xs)

member-parts :
    (u : Text) (p : Text → Bool) (xs : List Text)
    → member u (keep p xs) || member u (keep (λ x. not (p x)) xs) ≡ member u xs
member-parts u p [] = refl
member-parts u p (x ∷ xs) = ground (arith, member-parts u p xs)

length-parts :
    (p : Text → Bool) (xs : List Text)
    → length (keep p xs) + length (keep (λ x. not (p x)) xs) ≡ length xs
length-parts p [] = refl
length-parts p (x ∷ xs) = ground (arith, length-parts p xs)

-- The order leaves out no endpoint, and adds none.
prioritize-member :
    (u : Text) (urls : List Text) (start now : ℕ) (c : Client)
    → (member u (prioritize_eligible_endpoints urls start now c) ≡ member u urls)
      × (length (prioritize_eligible_endpoints urls start now c) ≡ length urls)
unfolding prioritize_eligible_endpoints
prioritize-member u urls start now c =
    let around = drop start urls ++ take start urls in
    let p = is_eligible now c in
    let eligible = keep p around in
    let held = keep (λ url. not (p url)) around in
    elim (Bool-cases (is_empty eligible)) [
      | inl all_held ↦ rw all_held (refl, refl)
      | inr some_free ↦ rw some_free (
        member-append u eligible held
            ∙ member-parts u p around
            ∙ member-append u (drop start urls) (take start urls)
            ∙ member-around u start urls,
        length-append eligible held
            ∙ length-parts p around
            ∙ length-append (drop start urls) (take start urls)
            ∙ length-around start urls,
      )
    ]

index_of-member :
    (u : Text) (urls : List Text)
    → member u urls ≡ true
    → (i : ℕ) × (index_of urls u ≡ some i) × (i < length urls) × (get_elem? urls i ≡ some u)
unfolding index_of
index_of-member u [] h = absurd (ground (arith, h))
index_of-member u (x ∷ urls) h = elim (Bool-cases (text_eq x u)) [
  | inl same ↦ (0, rw same refl, omega arith, ap some (text_eq_sound x u same))
  | inr other ↦
      let (i, found, lt, here) =
        index_of-member u urls (ground (arith, h, other, text_eq_iff x u, text_eq_iff u x)) in
      (suc i, rw (other, found) refl, omega (arith, lt), here)
]

mark_failure-base_urls :
    (from : Text) (now : ℕ) (c : Client)
    → (mark_failure_and_switch from now c).base_urls ≡ c.base_urls
unfolding mark_failure_and_switch
mark_failure-base_urls from now c = ground arith

mark_success-base_urls : (url : Text) (c : Client) → (mark_success url c).base_urls ≡ c.base_urls
unfolding mark_success
mark_success-base_urls url c = ground arith

-- The client works with an endpoint that it does not hold anything against.
pub record IsSettled (c : Client) : Type 0 where
  pub url : Text
  pub listed : member url c.base_urls ≡ true
  pub active : active_endpoint c ≡ url
  pub failures : lookup url c.failures_by_url ≡ some 0
  pub cooldown : lookup url c.cooldown_until ≡ none

active_endpoint-at :
    (url : Text) (c : Client)
    → leb (length c.base_urls) c.active_index ≡ false
    → get_elem? c.base_urls c.active_index ≡ some url
    → active_endpoint c ≡ url
unfolding active_endpoint
active_endpoint-at url c lower here = rw (lower, here, active_endpoint) refl

All-member : (P : Text → Type 0) (u : Text) (xs : List Text) → All P xs → member u xs ≡ true → P u
All-member P u [] h k = absurd (ground (arith, k))
All-member P u (x ∷ xs) h k = elim (Bool-cases (text_eq u x)) [
  | inl same ↦ subst P (sym (text_eq_sound u x same)) h.0
  | inr other ↦ All-member P u xs h.1 (ground (arith, k, other))
]

set_active-IsSettled :
    (url : Text) (i : ℕ) (c : Client)
    → trim_space url ≢ []
    → member url c.base_urls ≡ true
    → i < length c.base_urls
    → get_elem? c.base_urls i ≡ some url
    → IsSettled (set_active_index i (mark_success url c))
unfolding set_active_index mark_success
set_active-IsSettled url i c named listed lt here =
    let e : is_empty (trim_space url) ≡ false = ground (arith, named) in
    let lower : leb (length c.base_urls) i ≡ false = ground (arith, lt) in
    let kept : lookup url (store url 0 c.failures_by_url) ≡ some 0 =
      lookup-store url url 0 c.failures_by_url ∙ rw (text_eq_refl url) refl in
    let freed : lookup url (delete url c.cooldown_until) ≡ none =
      lookup-delete url url c.cooldown_until ∙ rw (text_eq_refl url) refl in
    record {
      url = url;
      listed = rw (e, lower) listed;
      active =
          rw (e, lower)
            (active_endpoint-at url
              (record c {
                active_index = i;
                failures_by_url = store url 0 c.failures_by_url;
                cooldown_until = delete url c.cooldown_until;
              })
              lower here);
      failures = rw (e, lower) kept;
      cooldown = rw (e, lower) freed;
    }

All-of_member :
    (P : Text → Type 0) (xs : List Text) → ((u : Text) → member u xs ≡ true → P u) → All P xs
All-of_member P [] h = tt
All-of_member P (x ∷ xs) h =
    (h x (rw (text_eq_refl x) refl), All-of_member P xs (λ u k. h u (ground (arith, k))))

current_active_index-base_urls :
    (n : ℕ) (c : Client) → (current_active_index n c).1.base_urls ≡ c.base_urls
unfolding current_active_index
current_active_index-base_urls n c = ground arith

member-pos : (u : Text) (xs : List Text) → member u xs ≡ true → 0 < length xs
member-pos u [] h = absurd (ground (arith, h))
member-pos u (x ∷ xs) h = omega arith

module _ (call : Calling) (url : Text) (now : ℕ) where
  -- The endpoint answers every call, and the others fail only in ways that lead on to the next one.
  abbrev pub Answers : Type 0
  Answers =
      ((logged : List Text) → (call url logged).0 ≡ none)
      × ((u : Text) (logged : List Text) (e : SyncError)
          → (call u logged).0 ≡ some e
          → should_failover e ≡ true)

  -- An endpoint that failed was not this one, so more are to come.
  passed_on :
      (u : Text) (rest logged : List Text) (e : SyncError)
      → Answers
      → (call u logged).0 ≡ some e
      → member url (u ∷ rest) ≡ true
      → (member url rest ≡ true) × (0 < length rest)
  passed_on u rest logged e answers failed here = elim (Bool-cases (text_eq url u)) [
    | inl same ↦ no_some (
        sym (answers.0 logged)
        ∙ subst (λ v. (call v logged).0 ≡ some e) (sym (text_eq_sound url u same)) failed)
    | inr other ↦ (ground (arith, here, other), member-pos url rest (ground (arith, here, other)))
  ]

  try_endpoints-reaches :
      (i : ℕ) (rest : List Text) (last : SyncError) (c : Client)
      → Answers
      → All (λ u. trim_space u ≢ []) c.base_urls
      → All (λ u. member u c.base_urls ≡ true) rest
      → i + length rest ≡ length c.base_urls
      → member url rest ≡ true
      → ((try_endpoints call now i rest last c).0 ≡ none)
        × IsSettled (try_endpoints call now i rest last c).1
  unfolding try_endpoints
  try_endpoints-reaches i [] last c answers named listed sum here = absurd (ground (arith, here))
  try_endpoints-reaches i (u ∷ rest) last c answers named listed sum here =
      let (k, found, lt, at_k) = index_of-member u c.base_urls listed.0 in
      elim (Option-cases (call u c.logged_in).0) [
        | inl success ↦
            rw (found, success, try_endpoints)
              (
                refl,
                set_active-IsSettled u k (record c { logged_in = (call u c.logged_in).1 })
                    (All-member (λ v. trim_space v ≢ []) u c.base_urls named listed.0) listed.0 lt
                    at_k,
              )
        | inr (e, failed) ↦
            let d : Client = record c { logged_in = (call u c.logged_in).1 } in
            let next = mark_failure_and_switch u now d in
            let same : c.base_urls ≡ next.base_urls = sym (mark_failure-base_urls u now d) in
            let later_on = passed_on u rest c.logged_in e answers failed here in
            let more : (suc i == length c.base_urls) ≡ false = ground (arith, sum, later_on.1) in
            rw (found, failed, answers.1 u c.logged_in e failed, more, try_endpoints)
              (try_endpoints-reaches (suc i) rest e next answers
                (subst (λ bs. All (λ v. trim_space v ≢ []) bs) same named)
                (subst (λ bs. All (λ v. member v bs ≡ true) rest) same listed.1)
                (omega (arith, sum) ∙ ap length same) later_on.0)
      ]

  -- Take endpoints with names that are not blank, one of which answers every call, while the others
  -- fail only with errors that lead on to the next endpoint. Whatever is held against any of them, a
  -- call succeeds, and the endpoint that the client then works with has no failures and no cooldown.
  pub with_failover-reaches :
      (c : Client)
      → Answers
      → All (λ u. trim_space u ≢ []) c.base_urls
      → member url c.base_urls ≡ true
      → ((with_failover call now c).0 ≡ none) × IsSettled (with_failover call now c).1
  unfolding with_failover
  with_failover-reaches c answers named here =
      let (start, d) = current_active_index (length c.base_urls) c in
      let same : c.base_urls ≡ d.base_urls =
        sym (current_active_index-base_urls (length c.base_urls) c) in
      let order = prioritize_eligible_endpoints c.base_urls start now d in
      let listed = λ (u : Text) (k : member u order ≡ true).
        sym (prioritize-member u c.base_urls start now d).0 ∙ k in
      try_endpoints-reaches 0 order (message (codes "cluster sync request failed")) d answers
        (subst (λ bs. All (λ v. trim_space v ≢ []) bs) same named)
        (subst (λ bs. All (λ v. member v bs ≡ true) order) same
          (All-of_member (λ v. member v c.base_urls ≡ true) order listed))
        (omega arith ∙ (prioritize-member url c.base_urls start now d).1 ∙ ap length same)
        ((prioritize-member url c.base_urls start now d).0 ∙ here)
