-- ===== src/Config/Capped.antt =====
-- The permits of a backend in a checked configuration (`validate_no_duplicate_backend_ids` of
-- src/config/types.rs), for the backends that a request is led to.
use reduction.Prelude.{
  ℕ, zero, suc, ◌≡◌, refl, sym, subst, inl, inr, true, false, some, List, [], ◌∷◌, All, All-retain,
  arith, Bool-cases, Text, text_eq, text_eq→eq, text_eq_refl, get_elem?, if◌then◌else◌,
}
use reduction.Prelude.Results.{ok}
use reduction.Balancer.{F64, BackendConfig}
use reduction.Router.{new}
use reduction.Proxy.{Env}
use reduction.Proxy.Course.{ReloadableState, resolve_backend_pool}
use reduction.Proxy.Course.Released.{RouteCapped}
use reduction.Config.{contains, ReductionConfig, validate}
use reduction.Config.Build.{Pools, build_backend_pools}
use reduction.Config.Checks.{Distinct, validate-Routed}
use reduction.Config.Answers.{resolve_backend_pool-Leads}

module _ {A : Type 0} where
  All-get_elem :
      (P : A → Type 0) (xs : List A) (i : ℕ) (x : A) → All P xs → get_elem? xs i ≡ some x → P x
  All-get_elem P [] i x h k = cc
  All-get_elem P (y ∷ xs) zero x h k = subst P (cc) h.0
  All-get_elem P (y ∷ xs) (suc i) x h k = All-get_elem P xs i x h.1 k

module _ (f : F64) where
  -- `max_connections` of the backend with an id.
  abbrev pub cap_of : List (BackendConfig f) → Text → ℕ
  cap_of [] id = 0
  cap_of (b ∷ backends) id = if text_eq b.id id then b.max_connections else cap_of backends id

  Distinct-apart :
      (t : Text) (seen : List Text) (backends : List (BackendConfig f))
      → contains seen t ≡ true
      → Distinct f seen backends
      → All (λ b. text_eq t b.id ≡ false) backends
  Distinct-apart t seen [] h k = tt
  Distinct-apart t seen (b ∷ backends) h (new_id, others) = (
    elim (Bool-cases (text_eq t b.id)) [
      | inl same ↦ cc (text_eq→eq t b.id same, h, new_id)
      | inr apart ↦ apart
    ],
    Distinct-apart t (b.id ∷ seen) backends (ground arith) others,
  )

  All-capped :
      (head : BackendConfig f) (held backends : List (BackendConfig f))
      → All (λ b. text_eq head.id b.id ≡ false) backends
      → All (λ b. b.max_connections ≡ cap_of held b.id) backends
      → All (λ b. b.max_connections ≡ cap_of (head ∷ held) b.id) backends
  All-capped head held [] h k = tt
  All-capped head held (b ∷ backends) h k = (rw h.0 k.0, All-capped head held backends h.1 k.1)

  Distinct-capped :
      (seen : List Text) (backends : List (BackendConfig f))
      → Distinct f seen backends
      → All (λ b. b.max_connections ≡ cap_of backends b.id) backends
  Distinct-capped seen [] h = tt
  Distinct-capped seen (b ∷ backends) (new_id, others) = (
    rw (text_eq_refl b.id) refl,
    All-capped b backends backends
        (Distinct-apart b.id (b.id ∷ seen) backends (rw (text_eq_refl b.id) refl) others)
        (Distinct-capped (b.id ∷ seen) backends others),
  )

module _ (e : Env) (c : ReductionConfig e.f64) where
  pub configured-RouteCapped :
      (pools : Pools e.f64) (state : ReloadableState e) (path : Text)
      → validate e.f64 c ≡ ok tt
      → build_backend_pools e.f64 c ≡ ok pools
      → state.router ≡ new c.routes
      → state.backend_pools ≡ pools
      → RouteCapped e (cap_of e.f64 c.backends) (resolve_backend_pool e state path)
  configured-RouteCapped pools state path valid made router held =
      elim (resolve_backend_pool-Leads e c pools state path valid made router held) [
        | inl (missing, below) ↦ subst (RouteCapped e (cap_of e.f64 c.backends)) (sym missing) tt
        | inr (s, p, longest, leads, holds, one) ↦
            subst (RouteCapped e (cap_of e.f64 c.backends)) (sym leads) (λ b (i, at).
              All-get_elem (λ b. b.max_connections ≡ cap_of e.f64 c.backends b.id) p.backends i b
                (subst (All (λ b. b.max_connections ≡ cap_of e.f64 c.backends b.id)) (sym holds) (
                  All-retain (λ b. b.max_connections ≡ cap_of e.f64 c.backends b.id)
                    (λ b. text_eq b.pool s.backend_id) c.backends
                    (Distinct-capped e.f64 [] c.backends (validate-Routed e.f64 c valid).0)))
                at)
      ]
