-- ===== src/Sites/Stored.antt =====
-- The sites of a list, and those that a store's updates leave in it.
use flow_proxy.Prelude.{
  ◌≡◌, ◌⊎◌, sym, ap, ◌∙◌, subst, Bool, false, List, [], ◌∷◌, ◌++◌, some, some_inj, Text, text_eq,
  text_eq_iff, any, keep, arith, Bool-cases, inl, inr,
}
use flow_proxy.Sites.Config.{Site}
use flow_proxy.Sites.Store.{get_site, replace_site}

abbrev pub In : Site → List Site → Type 0
In s [] = ⊥
In s (t ∷ ts) = (s ≡ t) ⊎ In s ts

pub any-In :
    (p : Site → Bool) (sites : List Site) (s : Site)
    → any p sites ≡ false
    → In s sites
    → p s ≡ false
any-In p [] s h x = elim x [ ]
any-In p (t ∷ ts) s h (inl here) = subst (λ x. p x ≡ false) (sym here) (ground (arith, h))
any-In p (t ∷ ts) s h (inr later) = any-In p ts s (ground (arith, h)) later

pub In-append : (x n : Site) (ss : List Site) → In x (ss ++ n ∷ []) → (x ≡ n) ⊎ In x ss
In-append x n [] (inl e) = inl e
In-append x n [] (inr e) = elim e [ ]
In-append x n (s ∷ ss) (inl e) = inr (inl e)
In-append x n (s ∷ ss) (inr e) = elim (In-append x n ss e) [
  | inl here ↦ inl here
  | inr there ↦ inr (inr there)
]

or_later : {A B C : Type 0} → (B → C) → A ⊎ B → A ⊎ C
or_later f (inl a) = inl a
or_later f (inr b) = inr (f b)

pub In-keep : (x : Site) (p : Site → Bool) (ss : List Site) → In x (keep p ss) → In x ss
In-keep x p [] e = e
In-keep x p (s ∷ ss) e = elim (Bool-cases (p s)) [
  | inr out ↦ inr (In-keep x p ss (rw out at e))
  | inl kept ↦ or_later (In-keep x p ss) (rw kept at e)
]

-- What was looked up is stored, under its name.
pub get_site-In :
    (id : Text) (ss : List Site) (item : Site)
    → get_site id ss ≡ some item
    → In item ss × (item.id ≡ id)
unfolding get_site
get_site-In id [] item h = cc
get_site-In id (s ∷ ss) item h = elim (Bool-cases (text_eq s.id id)) [
  | inl here ↦
      (let same : s ≡ item = some_inj (rw (here, get_site) at h) in
        (inl (sym same), subst (λ x. x.id ≡ id) same ((text_eq_iff s.id id).0 here)))
  | inr other ↦
      (let (later, name) = get_site-In id ss item (rw (other, get_site) at h) in (inr later, name))
]

pub In-replace_site :
    (x : Site) (id : Text) (f : Site → Site) (ss : List Site) (item : Site)
    → get_site id ss ≡ some item
    → In x (replace_site id f ss)
    → (x ≡ f item) ⊎ In x ss
unfolding get_site replace_site
In-replace_site x id f [] item h e = cc
In-replace_site x id f (s ∷ ss) item h e = elim (Bool-cases (text_eq s.id id)) [
  | inl here ↦ first (some_inj (rw (here, get_site) at h)) (rw (here, replace_site) at e)
  | inr other ↦
      rest (In-replace_site x id f ss item (rw (other, get_site) at h))
        (rw (other, replace_site) at e)
]
  where
    first : s ≡ item → In x (f s ∷ ss) → (x ≡ f item) ⊎ In x (s ∷ ss)
    first same (inl now) = inl (now ∙ ap f same)
    first same (inr later) = inr (inr later)

    rest :
        (In x (replace_site id f ss) → (x ≡ f item) ⊎ In x ss)
        → In x (s ∷ replace_site id f ss)
        → (x ≡ f item) ⊎ In x (s ∷ ss)
    rest deeper (inl now) = inr (inl now)
    rest deeper (inr later) = elim (deeper later) [ inl new ↦ inl new | inr old ↦ inr (inr old) ]
