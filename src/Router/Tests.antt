-- ===== src/Router/Tests.antt =====
-- Routing at concrete paths; the runs are unit tests of src/proxy/router.rs.
use reduction.Prelude.{◌≡◌, refl, ◌⊎◌, none, some, List, [], ◌∷◌, map, codes, All}
use reduction.Router.{RouteConfig, Route, route_of, new, found, not_found, match_route}
use reduction.Router.Segments.{Below}
use reduction.Router.Matching.{IsLongest, match_route_exact}

abbrev configs : List RouteConfig
configs =
    record { path_prefix = codes "/api"; backend_id = codes "general"; timeout_secs = none }
    ∷ record { path_prefix = codes "/api/v2"; backend_id = codes "v2"; timeout_secs = some 5 }
    ∷ record { path_prefix = codes "/static/"; backend_id = codes "files"; timeout_secs = none }
    ∷ []

-- `test_longest_prefix_wins`, `test_prefix_boundary_rejects_partial_segment` and
-- `test_trailing_slash_prefix_matches_subpaths`.
runs :
    (match_route (new configs) (codes "/api/v2/users")
      ≡ found (record { backend_id = codes "v2"; timeout_secs = some 5 }))
    × (match_route (new configs) (codes "/api/v1")
        ≡ found (record { backend_id = codes "general"; timeout_secs = none }))
    × (match_route (new configs) (codes "/api-internal") ≡ not_found)
    × (match_route (new configs) (codes "/static") ≡ not_found)
unfolding new match_route
runs = (refl, refl, refl, refl)

match_route_exact_example :
    ((match_route (new configs) (codes "/api/v2/users") ≡ not_found)
      × All (λ r. ¬ Below (codes "/api/v2/users") r.path_prefix) (map route_of configs))
    ⊎ ((s : Route) × (match_route (new configs) (codes "/api/v2/users")
          ≡ found (record { backend_id = s.backend_id; timeout_secs = s.timeout_secs }))
        × IsLongest (codes "/api/v2/users") (map route_of configs) s)
match_route_exact_example = match_route_exact (codes "/api/v2/users") configs
