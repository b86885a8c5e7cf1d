-- ===== src/Pipeline/Negotiated.antt =====
-- What the negotiation of the compression chooses, in terms of the items of Accept-Encoding.
use flow_proxy.Prelude.{
  ◌≡◌, refl, sym, ap, ◌∙◌, Bool, true, false, not, ◌&&◌, List, [], ◌∷◌, none, some, Text, codes,
  text_eq, text_eq_iff, is_empty, if◌then◌else◌, lookup, lookup-store, trim_space, split_at, arith,
  Bool-cases, Option-cases, inl, inr,
}
use flow_proxy.Pipeline.Compression.{
  Weight, weight, Qualities, CompressionPolicy, AcceptEncodingWeights, raised, add_weight, quality,
  parse_item, parse_items, parse_accept_encoding_weights, negotiate,
}
use flow_proxy.Pipeline.Ranking.{
  best, first_of, ranked, folded, folded-best, uncompressed-always, chooses,
}

module _ (floats : Qualities) where
  -- The qualities of the items of one name, in their order.
  unfoldable pub qualities : Text → List Text → List Weight
  qualities name [] = []
  qualities name (item ∷ items) =
      let rest = qualities name items in
      elim (parse_item floats item) [
        | none ↦ rest
        | some (n, q) ↦ (if text_eq n name then q ∷ rest else rest)
      ]

  -- What Accept-Encoding grants a name: its own quality, else that of the wildcard, else 0.
  abbrev pub granted : Text → Text → Weight
  granted raw name =
      if is_empty (trim_space raw)
      then weight 0
      else first_of (best (qualities name (split_at b',' raw)))
          (best (qualities (codes "*") (split_at b',' raw)))

  add_weight-header :
      (n : Text) (q : Weight) (w : AcceptEncodingWeights)
      → (add_weight n q w).has_header ≡ w.has_header
  unfolding add_weight
  add_weight-header n q w = ground arith

  not-star :
      (n name : Text)
      → text_eq n (codes "*") ≡ true
      → text_eq name (codes "*") ≡ false
      → text_eq n name ≡ false
  not-star n name star plain = ground (
    arith,
    text_eq_iff n name,
    text_eq_iff n (codes "*"),
    text_eq_iff name (codes "*"),
    star,
    plain,
  )

  add_weight-name :
      (n name : Text) (q : Weight) (w : AcceptEncodingWeights) (qs : List Weight)
      → text_eq name (codes "*") ≡ false
      → folded (lookup name (add_weight n q w).explicit) qs
        ≡ folded (lookup name w.explicit) (if text_eq n name then q ∷ qs else qs)
  unfolding add_weight
  add_weight-name n name q w qs plain =
      let stored = lookup-store n name (raised (lookup n w.explicit) q) w.explicit in
      elim (Bool-cases (text_eq n (codes "*"))) [
        | inl star ↦ rw (star, not-star n name star plain) refl
        | inr other ↦ elim (Bool-cases (text_eq n name)) [
          | inr apart ↦ rw other (ap (λ o. folded o qs) stored ∙ rw apart refl)
          | inl same ↦ rw other (
              ap (λ o. folded o qs) stored
              ∙ rw same (
                  ap (λ t. folded (some (raised (lookup t w.explicit) q)) qs)
                    ((text_eq_iff n name).0 same)))
        ]
      ]

  add_weight-star :
      (n : Text) (q : Weight) (w : AcceptEncodingWeights) (qs : List Weight)
      → folded (add_weight n q w).wildcard qs
        ≡ folded w.wildcard (if text_eq n (codes "*") then q ∷ qs else qs)
  unfolding add_weight
  add_weight-star n q w qs = elim (Bool-cases (text_eq n (codes "*"))) [
    | inl star ↦ rw star refl
    | inr other ↦ rw other refl
  ]

  -- The weights after the loop, from those before it.
  parse_items-folded :
      (name : Text) (w : AcceptEncodingWeights) (items : List Text)
      → text_eq name (codes "*") ≡ false
      → (lookup name (parse_items floats w items).explicit
          ≡ folded (lookup name w.explicit) (qualities name items))
        × ((parse_items floats w items).wildcard ≡ folded w.wildcard (qualities (codes "*") items))
        × ((parse_items floats w items).has_header ≡ w.has_header)
  unfolding parse_items qualities
  parse_items-folded name w [] plain = (refl, refl, refl)
  parse_items-folded name w (item ∷ items) plain = elim (Option-cases (parse_item floats item)) [
    | inl nothing ↦ rw (nothing, parse_items, qualities) (parse_items-folded name w items plain)
    | inr ((n, q), found) ↦
        (let (named, star, header) = parse_items-folded name (add_weight n q w) items plain in
          rw (found, parse_items, qualities)
            (
              named ∙ add_weight-name n name q w (qualities name items) plain,
              star ∙ add_weight-star n q w (qualities (codes "*") items),
              header ∙ add_weight-header n q w,
            ))
  ]

  abbrev started : AcceptEncodingWeights
  started = record { has_header = true; wildcard = none; explicit = [] }

  quality-parse_items :
      (items : List Text) (name : Text)
      → text_eq name (codes "*") ≡ false
      → quality (parse_items floats started items) name
        ≡ first_of (best (qualities name items)) (best (qualities (codes "*") items))
  unfolding quality
  quality-parse_items items name plain =
      (let (named, star, _) = parse_items-folded name started items plain in
        ap (λ o. first_of o (parse_items floats started items).wildcard)
          (named ∙ folded-best (qualities name items))
        ∙ ap (first_of (best (qualities name items)))
            (star ∙ folded-best (qualities (codes "*") items)))

  parsed-blank :
      (raw : Text)
      → is_empty (trim_space raw) ≡ true
      → (parse_accept_encoding_weights floats raw).has_header ≡ false
  unfolding parse_accept_encoding_weights
  parsed-blank raw blank = rw (blank, parse_accept_encoding_weights) refl

  parsed-full :
      (raw : Text)
      → is_empty (trim_space raw) ≡ false
      → parse_accept_encoding_weights floats raw ≡ parse_items floats started (split_at b',' raw)
  unfolding parse_accept_encoding_weights
  parsed-full raw full = rw (full, parse_accept_encoding_weights) refl

  parsed-header :
      (raw : Text)
      → is_empty (trim_space raw) ≡ false
      → (parse_accept_encoding_weights floats raw).has_header ≡ true
  parsed-header raw full =
      (let (_, _, header) = parse_items-folded [] started (split_at b',' raw) refl in
        ap (λ w. w.has_header) (parsed-full raw full) ∙ header)

  -- The quality that the code reads is what a header that is not blank grants.
  quality-granted :
      (raw name : Text)
      → is_empty (trim_space raw) ≡ false
      → text_eq name (codes "*") ≡ false
      → quality (parse_accept_encoding_weights floats raw) name ≡ granted raw name
  quality-granted raw name full plain =
      ap (λ w. quality w name) (parsed-full raw full)
      ∙ quality-parse_items (split_at b',' raw) name plain
      ∙ rw full refl

  -- What the policy and the header grant an algorithm.
  abbrev pub offered : Bool → Text → Text → Weight
  offered enabled raw name = if enabled then granted raw name else weight 0

  granted-blank :
      (e : Bool) (raw name : Text)
      → is_empty (trim_space raw) ≡ true
      → offered e raw name ≡ weight 0
  granted-blank false raw name blank = refl
  granted-blank true raw name blank = rw blank refl

  -- The chosen compression is the enabled one of the larger quality that the header grants, brotli where
  -- they are equal, and none where both are 0. A name whose first item has the quality NaN has NaN, and
  -- any other its largest number; where one of the two is NaN, gzip is chosen if it has a positive
  -- number, and brotli never is.
  pub negotiate-qualities :
      (policy : CompressionPolicy) (raw : Text)
      → negotiate floats policy raw
        ≡ ranked
            (offered policy.gzip_enabled raw (codes "gzip"))
            (offered policy.brotli_enabled raw (codes "br"))
  unfolding negotiate
  negotiate-qualities policy raw = elim (Bool-cases (is_empty (trim_space raw))) [
    | inl blank ↦
        rw (negotiate, parsed-blank raw blank)
          (uncompressed-always (not policy.gzip_enabled && not policy.brotli_enabled)
            ∙ sym (
                rw
                  (
                    granted-blank policy.gzip_enabled raw (codes "gzip") blank,
                    granted-blank policy.brotli_enabled raw (codes "br") blank,
                  )
                  refl))
    | inr full ↦
        rw
          (
            negotiate,
            quality-granted raw (codes "gzip") full refl,
            quality-granted raw (codes "br") full refl,
            parsed-header raw full,
          )
          (chooses policy.gzip_enabled policy.brotli_enabled (granted raw (codes "gzip"))
            (granted raw (codes "br")))
  ]
