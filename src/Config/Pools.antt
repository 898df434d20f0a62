-- ===== src/Config/Pools.antt =====
-- The pools of a configuration that was checked (`build_backend_pools` of src/config_reload.rs,
-- `ReductionConfig::validate` of src/config/types.rs), as requests find them (`resolve_backend_pool` of
-- src/proxy/handler/selection.rs).
use reduction.Prelude.{
  ℕ, ◌≡◌, refl, subst, inl, inr, Bool, true, false, List, [], ◌∷◌, ◌++◌, map, any, All, arith,
  Bool-cases, Text, text_eq, text_eq_refl, retain,
}
use reduction.Prelude.Results.{ok, ok_inj, Result-cases}
use reduction.Balancer.{F64, BackendConfig, BackendPool, with_max}
use reduction.Router.{RouteConfig}
use reduction.Config.{contains, is_empty}
use reduction.Config.Build.{Pools, add_pool, build_pools}

module _ (f : F64) (backends : List (BackendConfig f)) where
  -- The backends that name a pool.
  abbrev pub members : Text → List (BackendConfig f)
  members id = retain (λ b. text_eq b.pool id) backends

  -- A pool holds its members, and has one.
  abbrev pub Built : Pools f → Type 0
  Built pools =
      All (λ entry. (entry.1.backends ≡ members entry.0) × (is_empty (members entry.0) ≡ false))
        pools

  abbrev pub has : Pools f → Text → Bool
  has pools id = any (λ entry. text_eq entry.0 id) pools

  abbrev Grows : Pools f → Pools f → Type 0
  Grows pools out = (id : Text) → has pools id ≡ true → has out id ≡ true

  -- Every route whose pool has a member has its pool.
  abbrev pub Covers : Pools f → List RouteConfig → Type 0
  Covers out routes =
      All (λ r. is_empty (members r.backend_id) ≡ false → has out r.backend_id ≡ true) routes

  with_max-backends :
      (max_backends : ℕ) (chosen : List (BackendConfig f)) (p : BackendPool f)
      → with_max f chosen max_backends ≡ ok p
      → p.backends ≡ chosen
  unfolding with_max
  with_max-backends max_backends chosen p h = ground arith

  abbrev Good : List RouteConfig → Pools f → Pools f → Type 0
  Good routes pools out = Built out × Grows pools out × Covers out routes

  has_head : (id : Text) (p : BackendPool f) (pools : Pools f) → has ((id, p) ∷ pools) id ≡ true
  has_head id p pools = rw (text_eq_refl id) refl

  has_tail :
      (id : Text) (entry : Text × BackendPool f) (pools : Pools f)
      → has pools id ≡ true
      → has (entry ∷ pools) id ≡ true
  has_tail id entry pools h = ground arith

  pub build_pools-Good :
      (max_backends : ℕ) (routes : List RouteConfig) (pools out : Pools f)
      → build_pools f max_backends backends routes pools ≡ ok out
      → Built pools
      → Good routes pools out
  unfolding build_pools add_pool
  build_pools-Good max_backends [] pools out h built =
      (subst Built (ok_inj h) built, λ id k. cc, tt)
  build_pools-Good max_backends (r ∷ routes) pools out h built =
      elim (Bool-cases (has pools r.backend_id)) [
        | inl there ↦
            let (out_built, grows, covers) =
              build_pools-Good max_backends routes pools out (rw there at h) built in
            (out_built, grows, ((λ k. grows r.backend_id there), covers))
        | inr fresh ↦ elim (Bool-cases (is_empty (members r.backend_id))) [
          | inl none_left ↦
              let (out_built, grows, covers) =
                build_pools-Good max_backends routes pools out (rw (fresh, none_left) at h) built in
              (out_built, grows, ((λ k. cc), covers))
          | inr some_left ↦ elim (Result-cases (with_max f (members r.backend_id) max_backends)) [
            | inl (p, built_pool) ↦
                let (out_built, grows, covers) =
                  build_pools-Good max_backends routes ((r.backend_id, p) ∷ pools) out
                    (rw (fresh, some_left, built_pool) at h)
                    (
                      (
                        with_max-backends max_backends (members r.backend_id) p built_pool,
                        some_left,
                      ),
                      built,
                    ) in
                (
                  out_built,
                  (λ id k. grows id (has_tail id (r.backend_id, p) pools k)),
                  ((λ k. grows r.backend_id (has_head r.backend_id p pools)), covers),
                )
            | inr (x, failed) ↦ cc (rw (fresh, some_left, failed) at h)
          ]
        ]
      ]

  pub members_some :
      (id : Text) → contains (map (λ b. b.pool) backends) id ≡ true → is_empty (members id) ≡ false
  members_some id h = some_of backends h
    where
      some_of :
          (bs : List (BackendConfig f))
          → contains (map (λ b. b.pool) bs) id ≡ true
          → is_empty (retain (λ b. text_eq b.pool id) bs) ≡ false
      some_of [] h = cc
      some_of (b ∷ bs) h = ground (arith, some_of bs)

  pub All-split {κ} :
      {A : Type 0}
      → (P : A → Type κ) (before : List A) (s : A) (after : List A) → All P (before ++ (s ∷ after))
      → P s
  All-split P [] s after h = h.0
  All-split P (x ∷ before) s after h = All-split P before s after h.1
