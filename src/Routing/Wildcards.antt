-- ===== src/Routing/Wildcards.antt =====
-- The wildcards in the order of their lengths, and which of them answers for a host.
use flow_proxy.Prelude.{
  ◌≤◌, length, has_suffix, Bool, ◌≡◌, refl, sym, ap, ◌⊎◌, true, false, List, [], ◌∷◌, ◌++◌, none,
  some, Text, lookup, arith, All, Bool-cases, Option-cases, inl, inr, subst,
}
use flow_proxy.Routing.{Hosts, lookup_wildcard, lookup_site}
use flow_proxy.Routing.Load.{longer}

module _ {Site : Type 0} where
  abbrev pub In : (Text × Site) → List (Text × Site) → Type 0
  In w [] = ⊥
  In w (v ∷ vs) = (w ≡ v) ⊎ In w vs

  pub In-append : (w v : Text × Site) (vs : List (Text × Site)) → In w vs → In w (vs ++ v ∷ [])
  In-append w v [] h = elim h [ ]
  In-append w v (x ∷ vs) (inl here) = inl here
  In-append w v (x ∷ vs) (inr there) = inr (In-append w v vs there)

  pub In-last : (w : Text × Site) (vs : List (Text × Site)) → In w (vs ++ w ∷ [])
  In-last w [] = inl refl
  In-last w (x ∷ vs) = inr (In-last w vs)

  -- No element stands behind one that the order puts after it.
  abbrev pub IsOrdered : ((Text × Site) → (Text × Site) → Bool) → List (Text × Site) → Type 0
  IsOrdered less [] = Unit {0}
  IsOrdered less (w ∷ ws) = All (λ v. less v w ≡ false) ws × IsOrdered less ws

  abbrev pub IsStrict : ((Text × Site) → (Text × Site) → Bool) → Type 0
  IsStrict less =
      ((v w : Text × Site) → less v w ≡ true → less w v ≡ false)
      × ((u v w : Text × Site) → less u v ≡ false → less v w ≡ false → less u w ≡ false)

  pub longer-IsStrict : IsStrict longer
  longer-IsStrict = (λ v w h. ground (arith, h), λ u v w h k. ground (arith, h, k))

  -- The site found for a host is that of the exact name, or, where there is none, that of a wildcard
  -- that matches and is no shorter than the given one.
  abbrev pub Wins : Text → Text → Hosts Site → Site → Type 0
  Wins host given r x =
      (lookup host r.exact_hosts ≡ some x)
      ⊎ ((lookup host r.exact_hosts ≡ none)
          × ((suffix : Text) × (has_suffix host suffix ≡ true)
              × (length given ≤ length suffix)
              × In (suffix, x) r.wildcards))

  lookup_wildcard-wins :
      (host given : Text) (s : Site) (ws : List (Text × Site))
      → IsOrdered longer ws
      → In (given, s) ws
      → has_suffix host given ≡ true
      → (x : Site) × (lookup_wildcard host ws ≡ some x)
        × ((suffix : Text) × (has_suffix host suffix ≡ true)
            × (length given ≤ length suffix)
            × In (suffix, x) ws)
  unfolding lookup_wildcard
  lookup_wildcard-wins host given s [] sorted here matching = elim here [ ]
  lookup_wildcard-wins host given s ((suffix, t) ∷ ws) sorted here matching =
      elim (Bool-cases (has_suffix host suffix)) [
        | inl fits ↦ (t, rw (fits, lookup_wildcard) refl, (suffix, fits, no_shorter here, inl refl))
        | inr misses ↦
            let (x, found, (best, fits, long, there)) =
              lookup_wildcard-wins host given s ws sorted.1 (behind here misses) matching in
            (x, rw (misses, lookup_wildcard) found, (best, fits, long, inr there))
      ]
    where
      All-In :
          (w : Text × Site) (vs : List (Text × Site))
          → In w vs
          → All (λ v. longer v (suffix, t) ≡ false) vs
          → length w.0 ≤ length suffix
      All-In w [] h k = elim h [ ]
      All-In w (v ∷ vs) (inl same) k =
          subst (λ (y : Text × Site). length y.0 ≤ length suffix) (sym same) (ground (arith, k.0))
      All-In w (v ∷ vs) (inr there) k = All-In w vs there k.1

      no_shorter : In (given, s) ((suffix, t) ∷ ws) → length given ≤ length suffix
      no_shorter (inl same) =
          subst (λ (w : Text × Site). length given ≤ length w.0) same (omega arith)
      no_shorter (inr there) = All-In (given, s) ws there sorted.0

      behind : In (given, s) ((suffix, t) ∷ ws) → has_suffix host suffix ≡ false → In (given, s) ws
      behind (inl same) misses =
          absurd
            (ground (arith, misses, matching, ap (λ (w : Text × Site). has_suffix host w.0) same))
      behind (inr there) misses = there

  pub lookup_site-Wins :
      (host given : Text) (s : Site) (r : Hosts Site)
      → IsOrdered longer r.wildcards
      → In (given, s) r.wildcards
      → has_suffix host given ≡ true
      → (x : Site) × (lookup_site r host ≡ some x) × Wins host given r x
  unfolding lookup_site
  lookup_site-Wins host given s r sorted here matching =
      elim (Option-cases (lookup host r.exact_hosts)) [
        | inr (x, exact) ↦ (x, rw (exact, lookup_site) refl, inl exact)
        | inl missing ↦
            let (x, found, best) =
              lookup_wildcard-wins host given s r.wildcards sorted here matching in
            (x, rw (missing, lookup_site) found, inr (missing, best))
      ]
