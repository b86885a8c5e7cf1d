-- ===== src/Admin/Lifetime.antt =====
-- How long a session of the administration lives.
use flow_proxy.Prelude.{
  ℕ, ◌+◌, ◌<◌, ◌≡◌, ◌≢◌, refl, ◌∙◌, Bool, false, ◌&&◌, List, [], ◌∷◌, Option, none, some, Text,
  text_eq, text_eq_iff, ltb, leb, if◌then◌else◌, lookup, lookup-store, lookup-delete, trim_space,
  arith, Bool-cases, Option-cases, inl, inr,
}
use flow_proxy.Admin.Sessions.{Session, Sessions, ttl_or_default, renew, current_username}

-- What a use at an instant makes of a session.
abbrev pub renewed : ℕ → Option Session → Option Session
renewed now none = none
renewed now (some s) =
    if ltb s.expires_at now
    then none
    else some (record s { expires_at = now + ttl_or_default s.ttl })

abbrev pub is_this : Text → Option Text → Bool
is_this token none = false
is_this token (some j) = text_eq j token

module _ (token : Text) (named : trim_space token ≢ []) where
  pub lookup-current_username :
      (now : ℕ) (cookie : Option Text) (m : Sessions)
      → lookup token (current_username now cookie m).1
        ≡ (if is_this token cookie then renewed now (lookup token m) else lookup token m)
  unfolding current_username renew
  lookup-current_username now none m = refl
  lookup-current_username now (some j) m = elim (Option-cases (lookup j m)) [
    | inl missing ↦ ground (arith, missing, text_eq_iff j token)
    | inr (s, found) ↦ ground (
      arith,
      found,
      text_eq_iff j token,
      text_eq_iff (trim_space j) [],
      lookup-delete j token m,
      lookup-store j token (record s { expires_at = now + ttl_or_default s.ttl }) m,
    )
  ]

  pub username-current_username :
      (now : ℕ) (m : Sessions)
      → (current_username now (some token) m).0 ≡ elim (lookup token m) [
        | none ↦ none
        | some s ↦ (if ltb s.expires_at now then none else some s.username)
      ]
  unfolding current_username renew
  username-current_username now m = ground (arith, text_eq_iff (trim_space token) [])

-- Uses of cookies at instants, in order.
unfoldable pub uses : List (ℕ × Option Text) → Sessions → Sessions
uses [] m = m
uses ((now, cookie) ∷ us) m = uses us (current_username now cookie m).1

-- From a last use on, no two uses of the token stand further apart than the lifetime, up to the
-- end.
abbrev pub is_kept : Text → ℕ → ℕ → List (ℕ × Option Text) → ℕ → Bool
is_kept token ttl last [] until = leb until (last + ttl)
is_kept token ttl last ((now, cookie) ∷ us) until =
    if is_this token cookie
    then leb now (last + ttl) && is_kept token ttl now us until
    else is_kept token ttl last us until

gone_stays :
    (token : Text) (us : List (ℕ × Option Text)) (m : Sessions)
    → trim_space token ≢ []
    → lookup token m ≡ none
    → lookup token (uses us m) ≡ none
unfolding uses
gone_stays token [] m named gone = gone
gone_stays token ((now, cookie) ∷ us) m named gone =
    gone_stays token us (current_username now cookie m).1 named
      (lookup-current_username token named now cookie m ∙ ground (arith, gone))

-- A session with a positive lifetime authenticates its user at the end of any sequence of uses, of
-- this and of other cookies, exactly if the gaps between its uses, the last one to the end
-- included, are never longer than the lifetime.
pub current_username-uses :
    (token user : Text) (ttl last until : ℕ) (us : List (ℕ × Option Text)) (m : Sessions)
    → trim_space token ≢ []
    → 0 < ttl
    → lookup token m ≡ some (record { username = user; expires_at = last + ttl; ttl = ttl })
    → (current_username until (some token) (uses us m)).0
      ≡ (if is_kept token ttl last us until then some user else none)
unfolding uses
current_username-uses token user ttl last until [] m named pos found =
    username-current_username token named until m ∙ rw found (ground arith)
current_username-uses token user ttl last until ((now, cookie) ∷ us) m named pos found =
    let m' = (current_username now cookie m).1 in
    let next = lookup-current_username token named now cookie m in
    elim (Bool-cases (is_this token cookie)) [
      | inr other ↦ rw other (
          current_username-uses token user ttl last until us m' named pos
            (next ∙ rw (other, found) refl))
      | inl this ↦ elim (Bool-cases (leb now (last + ttl))) [
        | inl early ↦
            rw (this, early)
              (current_username-uses token user ttl now until us m' named pos
                (next ∙ rw (this, found) (ground arith)))
        | inr late ↦
            rw (this, late)
              (username-current_username token named until (uses us m')
                ∙ rw (gone_stays token us m' named (next ∙ rw (this, found) (ground arith))) refl)
      ]
    ]
