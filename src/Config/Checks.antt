-- ===== src/Config/Checks.antt =====
-- What a configuration that passes `ReductionConfig::validate` (src/config/types.rs) has: what its
-- routes and its backends are for those that come after.
use reduction.Prelude.{◌≡◌, true, false, List, [], ◌∷◌, map, All, arith, Text}
use reduction.Prelude.Results.{ok, and_then-ok}
use reduction.Balancer.{F64, BackendConfig}
use reduction.Router.{RouteConfig}
use reduction.Config.{contains, check_ids, check_routes, ReductionConfig, validate}

-- The routes name pools.
abbrev pub Routed : List Text → List RouteConfig → Type 0
Routed pools routes = All (λ r. contains pools r.backend_id ≡ true) routes

module _ (f : F64) where
  -- No two of the list have one id, nor one of those seen before.
  abbrev pub Distinct : List Text → List (BackendConfig f) → Type 0
  Distinct seen [] = Unit
  Distinct seen (b ∷ backends) = (contains seen b.id ≡ false) × Distinct (b.id ∷ seen) backends

  check_ids-Distinct :
      (seen : List Text) (backends : List (BackendConfig f))
      → check_ids f seen backends ≡ ok tt
      → Distinct seen backends
  unfolding check_ids
  check_ids-Distinct seen [] h = tt
  check_ids-Distinct seen (b ∷ backends) h =
      ground (arith, check_ids-Distinct (b.id ∷ seen) backends)

  check_routes-Routed :
      (pools seen : List Text) (routes : List RouteConfig)
      → check_routes f pools seen routes ≡ ok tt
      → Routed pools routes
  unfolding check_routes
  check_routes-Routed pools seen [] h = tt
  check_routes-Routed pools seen (r ∷ routes) h =
      ground (arith, check_routes-Routed pools (r.path_prefix ∷ seen) routes)

  pub validate-Routed :
      (c : ReductionConfig f)
      → validate f c ≡ ok tt
      → Distinct [] c.backends × Routed (map (λ b. b.pool) c.backends) c.routes
  unfolding validate
  validate-Routed c h =
      let (x, ids, more) = and_then-ok _ _ tt h in
      let (y, routes, most) = and_then-ok _ _ tt more in
      (check_ids-Distinct [] c.backends ids, check_routes-Routed _ [] c.routes routes)
