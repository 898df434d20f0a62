-- ===== src/Config/Build.antt =====
-- The pools of a configuration (`build_backend_pools` of src/config_reload.rs).
use reduction.Prelude.{ℕ, List, [], ◌∷◌, if◌then◌else◌, any, retain, Text, text_eq}
use reduction.Prelude.Results.{Result, ok, err}
use reduction.Balancer.{
  F64, BackendConfig, BackendPool, BackendScheme, http, https, TransportKind, quic, tcp, with_max,
}
use reduction.Balancer
use reduction.Router.{RouteConfig}
use reduction.Config.{is_empty, ReductionConfig}

module _ (f : F64) where
  -- The pools so far, the latest first.
  abbrev pub Pools : Type 0
  Pools = List (Text × BackendPool f)

  unfoldable pub add_pool :
      (Pools → Result Balancer.ReductionError Pools)
      → Text
      → Pools
      → Result Balancer.ReductionError (BackendPool f)
      → Result Balancer.ReductionError Pools
  add_pool again id pools (err e) = err e
  add_pool again id pools (ok pool) = again ((id, pool) ∷ pools)

  unfoldable pub build_pools :
      ℕ → List (BackendConfig f) → List RouteConfig → Pools → Result Balancer.ReductionError Pools
  build_pools max_backends backends [] pools = ok pools
  build_pools max_backends backends (r ∷ routes) pools =
      let again = build_pools max_backends backends routes in
      let members = retain (λ b. text_eq b.pool r.backend_id) backends in
      if any (λ entry. text_eq entry.0 r.backend_id) pools
      then again pools
      else if is_empty members
      then again pools
      else add_pool again r.backend_id pools (with_max f members max_backends)

  unfoldable pub build_backend_pools : ReductionConfig f → Result Balancer.ReductionError Pools
  build_backend_pools c = build_pools c.max_backends c.backends c.routes []
