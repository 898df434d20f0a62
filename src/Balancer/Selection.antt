-- ===== src/Balancer/Selection.antt =====
-- Which backend the balancer selects (src/balancer/mod.rs).
use reduction.Prelude.{
  ℕ, suc, ◌≡◌, refl, sym, ap, ◌∙◌, ◌⊎◌, inl, inr, Bool, true, false, Option, none, some, List, [],
  ◌∷◌, if◌then◌else◌, Bool-cases, get_elem?, all, Text,
}
use mathlib.Core.Option
use reduction.Balancer.{
  F64, BackendConfig, BackendPool, is_skipped, consider, best_of, better, scored_weight,
  select_with_pressure_excluding,
}

module _ (f : F64) (weight_factor : Text → f.Float) (pressure_fn : BackendConfig f → f.Float)
    (rendezvous_score : Text → f.Float → f.Float) (excluded : List Text) where
  abbrev pub skips : BackendConfig f → Bool
  skips = is_skipped f weight_factor pressure_fn rendezvous_score excluded

  abbrev best :
      List (BackendConfig f)
      → Option (BackendConfig f × f.Float)
      → Option (BackendConfig f × f.Float)
  best = best_of f weight_factor pressure_fn rendezvous_score excluded

  abbrev next :
      BackendConfig f → Option (BackendConfig f × f.Float) → Option (BackendConfig f × f.Float)
  next = consider f weight_factor pressure_fn rendezvous_score excluded

  -- A backend of the pool that is not skipped.
  unfoldable pub Eligible : List (BackendConfig f) → BackendConfig f → Type 0
  Eligible bs b = (i : ℕ) × (get_elem? bs i ≡ some b) × (skips b ≡ false)

  better-cases :
      (c : BackendConfig f) (s : f.Float) (o : Option (BackendConfig f × f.Float))
      → (better f c s o ≡ o) ⊎ (better f c s o ≡ some (c, s))
  unfolding better
  better-cases c s none = inr refl
  better-cases c s (some (held, t)) = elim (Bool-cases (f.above s t)) [
    | inl e ↦ inr (ap (λ b. if b then some (c, s) else some (held, t)) e)
    | inr e ↦ inl (ap (λ b. if b then some (c, s) else some (held, t)) e)
  ]

  abbrev score : BackendConfig f → f.Float
  score c = rendezvous_score c.id (scored_weight f weight_factor pressure_fn c)

  consider-skips :
      (c : BackendConfig f) (o : Option (BackendConfig f × f.Float))
      → next c o ≡ (if skips c then o else better f c (score c) o)
  unfolding consider
  consider-skips c o = refl

  consider-cases :
      (c : BackendConfig f) (o : Option (BackendConfig f × f.Float))
      → (next c o ≡ o) ⊎ ((skips c ≡ false) × ((s : f.Float) × (next c o ≡ some (c, s))))
  consider-cases c o = elim (Bool-cases (skips c)) [
    | inl e ↦ inl (consider-skips c o ∙ ap (λ b. if b then o else better f c (score c) o) e)
    | inr e ↦
        let taken = consider-skips c o ∙ ap (λ b. if b then o else better f c (score c) o) e in
        elim (better-cases c (score c) o) [
          | inl k ↦ inl (taken ∙ k)
          | inr k ↦ inr (e, (score c, taken ∙ k))
        ]
  ]

  consider_none :
      (c : BackendConfig f) → (skips c ≡ false) → (s : f.Float) × (next c none ≡ some (c, s))
  unfolding better
  consider_none c e =
      (score c, consider-skips c none ∙ ap (λ b. if b then none else better f c (score c) none) e)

  best_of-cases :
      (bs : List (BackendConfig f)) (o : Option (BackendConfig f × f.Float))
      → (best bs o ≡ o)
        ⊎ ((b : BackendConfig f) × (s : f.Float) × Eligible bs b × (best bs o ≡ some (b, s)))
  unfolding best_of Eligible
  best_of-cases [] o = inl refl
  best_of-cases (c ∷ bs) o = elim (best_of-cases bs (next c o)) [
    | inr (b, s, p, e) ↦ inr (b, s, (let (i, at, taken) = p in (suc i, at, taken)), e)
    | inl e ↦ elim (consider-cases c o) [
      | inl k ↦ inl (e ∙ k)
      | inr p ↦ inr (c, p.1.0, (0, refl, p.0), e ∙ p.1.1)
    ]
  ]

  best_of_none : (bs : List (BackendConfig f)) → best bs none ≡ none → all skips bs ≡ true
  unfolding best_of
  best_of_none [] e = refl
  best_of_none (c ∷ bs) e = elim (Bool-cases (skips c)) [
    | inl k ↦
        let same =
          consider-skips c none ∙ ap (λ b. if b then none else better f c (score c) none) k in
        cc (k, best_of_none bs (ap (best bs) (sym same) ∙ e))
    | inr k ↦
        let (s, held) = consider_none c k in
        absurd (elim (best_of-cases bs (some (c, s))) [
          | inl kept ↦ cc (ap (best bs) (sym held) ∙ e, kept)
          | inr (b, t, p, kept) ↦ cc (ap (best bs) (sym held) ∙ e, kept)
        ])
  ]

  pub selects-Eligible :
      (pool : BackendPool f)
      → ((select_with_pressure_excluding f weight_factor pressure_fn rendezvous_score excluded pool
            ≡ none)
          × (all skips pool.backends ≡ true))
        ⊎ ((b : BackendConfig f) × (select_with_pressure_excluding f weight_factor pressure_fn
                rendezvous_score excluded pool
              ≡ some b)
            × Eligible pool.backends b)
  unfolding select_with_pressure_excluding
  selects-Eligible pool = elim (best_of-cases pool.backends none) [
    | inl e ↦ inl (ap (Option.map (λ held. held.0)) e, best_of_none pool.backends e)
    | inr (b, s, p, e) ↦ inr (b, ap (Option.map (λ held. held.0)) e, p)
  ]
