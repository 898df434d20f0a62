-- ===== src/Config/Answers.antt =====
-- Where the requests of a checked configuration are led (`ReductionConfig::validate` of
-- src/config/types.rs, `build_backend_pools` of src/config_reload.rs, `resolve_backend_pool` of
-- src/proxy/handler/selection.rs).
use reduction.Prelude.{
  ◌≡◌, refl, sym, ap, ◌∙◌, subst, ◌⊎◌, inl, inr, true, false, List, [], ◌∷◌, map, any, All,
  Bool-cases, Text, codes, text_eq, text_eq→eq, some,
}
use reduction.Prelude.Results.{ok, err}
use reduction.Balancer.{BackendPool}
use reduction.Router.{RouteConfig, Route, RouteMatch, route_of, new, match_route, found, not_found}
use reduction.Router.Matching.{match_route_exact, IsLongest}
use reduction.Router.Segments.{Below}
use reduction.Proxy.{Env, error_body}
use reduction.Proxy.Course.{ReloadableState, find_pool, resolve_backend_pool}
use reduction.Config.{is_empty, ReductionConfig, validate}
use reduction.Config.Build.{Pools, build_backend_pools}
use reduction.Config.Checks.{Routed, validate-Routed}
use reduction.Config.Pools.{members, Built, Covers, members_some, All-split, build_pools-Good}

module _ (e : Env) (c : ReductionConfig e.f64) where
  found_pool :
      (pools : Pools e.f64) (id : Text)
      → any (λ entry. text_eq entry.0 id) pools ≡ true
      → Built e.f64 c.backends pools
      → (p : BackendPool e.f64) × (find_pool e id pools ≡ some p)
        × (p.backends ≡ members e.f64 c.backends id)
        × (is_empty (members e.f64 c.backends id) ≡ false)
  found_pool [] id h built = cc
  found_pool ((key, pool) ∷ pools) id h built = elim (Bool-cases (text_eq key id)) [
    | inl here ↦
        let same = ap (members e.f64 c.backends) (text_eq→eq key id here) in
        (pool, (rw here refl), built.0.0 ∙ same, ap is_empty (sym same) ∙ built.0.1)
    | inr away ↦ rw away (found_pool pools id (rw away at h) built.1)
  ]

  -- What the routes of a checked configuration lead to.
  abbrev Answers : Pools e.f64 → Text → Type 0
  Answers pools id =
      (p : BackendPool e.f64) × (find_pool e id pools ≡ some p)
      × (p.backends ≡ members e.f64 c.backends id)
      × (is_empty (members e.f64 c.backends id) ≡ false)

  routes-Answers :
      (pools : Pools e.f64) (routes : List RouteConfig)
      → Built e.f64 c.backends pools
      → Routed (map (λ b. b.pool) c.backends) routes
      → Covers e.f64 c.backends pools routes
      → All (λ r. Answers pools r.backend_id) (map route_of routes)
  routes-Answers pools [] built routed covers = tt
  routes-Answers pools (r ∷ routes) built routed covers = (
    found_pool pools r.backend_id (covers.0 (members_some e.f64 c.backends r.backend_id routed.0))
        built,
    routes-Answers pools routes built routed.1 covers.1,
  )

  -- No configured prefix is at or above the path, and the answer is 404; or the request goes to the
  -- pool of the longest, which has every backend that names the pool, and one at least.
  abbrev pub Leads : ReloadableState e → Text → Type 0
  Leads state path =
      let routes = map route_of c.routes in
      ((resolve_backend_pool e state path ≡ err (error_body e 404 (codes "no route matched")))
        × All (λ r. ¬ Below path r.path_prefix) routes)
      ⊎ ((s : Route) × (p : BackendPool e.f64) × IsLongest path routes s
          × (resolve_backend_pool e state path
              ≡ ok (record { backend_id = s.backend_id; pool = p; timeout_secs = s.timeout_secs }))
          × (p.backends ≡ members e.f64 c.backends s.backend_id)
          × (is_empty (members e.f64 c.backends s.backend_id) ≡ false))

  resolve_backend_pool_missing :
      (state : ReloadableState e) (path : Text)
      → match_route state.router path ≡ not_found
      → resolve_backend_pool e state path ≡ err (error_body e 404 (codes "no route matched"))
  unfolding resolve_backend_pool
  resolve_backend_pool_missing state path h = rw (h, resolve_backend_pool) refl

  resolve_backend_pool_found :
      (state : ReloadableState e) (path : Text) (m : RouteMatch) (p : BackendPool e.f64)
      → match_route state.router path ≡ found m
      → find_pool e m.backend_id state.backend_pools ≡ some p
      → resolve_backend_pool e state path
        ≡ ok (record { backend_id = m.backend_id; pool = p; timeout_secs = m.timeout_secs })
  unfolding resolve_backend_pool
  resolve_backend_pool_found state path m p h k = rw (h, k, resolve_backend_pool) refl

  pub resolve_backend_pool-Leads :
      (pools : Pools e.f64) (state : ReloadableState e) (path : Text)
      → validate e.f64 c ≡ ok tt
      → build_backend_pools e.f64 c ≡ ok pools
      → state.router ≡ new c.routes
      → state.backend_pools ≡ pools
      → Leads state path
  unfolding build_backend_pools
  resolve_backend_pool-Leads pools state path valid made router held =
      let (distinct, routed) = validate-Routed e.f64 c valid in
      let (built, grows, covers) =
        build_pools-Good e.f64 c.backends c.max_backends c.routes [] pools made tt in
      elim (match_route_exact path c.routes) [
        | inl (missing, below) ↦ inl (
          resolve_backend_pool_missing state path (ap (λ r. match_route r path) router ∙ missing),
          below,
        )
        | inr (s, matched, longest) ↦
            let (before, after, split, below, shorter, no_longer) = longest in
            let (p, there, holds, one) =
              All-split e.f64 c.backends (λ r. Answers pools r.backend_id) before s after
                (subst (All (λ r. Answers pools r.backend_id)) split
                  (routes-Answers pools c.routes built routed covers)) in
            inr (
              s,
              p,
              longest,
              resolve_backend_pool_found state path _ p
                  (ap (λ r. match_route r path) router ∙ matched)
                  (ap (find_pool e s.backend_id) held ∙ there),
              holds,
              one,
            )
      ]
