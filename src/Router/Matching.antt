-- ===== src/Router/Matching.antt =====
-- What `match_route` answers (src/proxy/router.rs), in terms of the routes as configured.
use reduction.Prelude.{
  ◌≤◌, ◌<◌, ◌≡◌, refl, ap, ◌∙◌, ◌⊎◌, inl, inr, Option, none, some, Bool, true, List, [], ◌∷◌, ◌++◌,
  map, Text, length, All, Option-cases, arith,
}
use reduction.Router.{
  RouteConfig, Route, RouteMatch, route_of, sort_by_len, new, Lookup, found, not_found, match_route,
}
use reduction.Router.Segments.{Below, test_route_exact}
use reduction.Router.Sorting.{find, Wins, Rejects, find-sort_none, find-sort_some}

abbrev passes : Text → Route → Bool
passes path r = (test_route_exact path r.path_prefix).0

abbrev match_of : Route → RouteMatch
match_of r = record { backend_id = r.backend_id; timeout_secs = r.timeout_secs }

abbrev answer : Option Route → Lookup
answer none = not_found
answer (some r) = found (match_of r)

match_route-find :
    (path : Text) (rs : List Route) → match_route rs path ≡ answer (find (passes path) rs)
unfolding match_route find
match_route-find path [] = refl
match_route-find path (r ∷ rs) =
    ground (arith, match_route-find path rs, (test_route_exact path r.path_prefix).1)

-- The longest configured prefix at or above the path, and the first such in the configuration.
abbrev pub IsLongest : Text → List Route → Route → Type 0
IsLongest path routes s =
    (before : List Route) × (after : List Route) × (routes ≡ before ++ (s ∷ after))
    × Below path s.path_prefix
    × All (λ r. Below path r.path_prefix → length r.path_prefix < length s.path_prefix) before
    × All (λ r. Below path r.path_prefix → length r.path_prefix ≤ length s.path_prefix) after

module _ (path : Text) where
  All-Below {κ} :
      (P : Route → Type κ) (rs : List Route)
      → All (λ r. passes path r ≡ true → P r) rs
      → All (λ r. Below path r.path_prefix → P r) rs
  All-Below P [] h = tt
  All-Below P (r ∷ rs) h =
      ((λ b. h.0 ((test_route_exact path r.path_prefix).2.1 b)), All-Below P rs h.1)

  All-rejected :
      (rs : List Route) → All (Rejects (passes path)) rs → All (λ r. ¬ Below path r.path_prefix) rs
  All-rejected [] h = tt
  All-rejected (r ∷ rs) h =
      ((λ b. cc (h.0, (test_route_exact path r.path_prefix).2.1 b)), All-rejected rs h.1)

  Wins-IsLongest : (rs : List Route) (s : Route) → Wins (passes path) rs s → IsLongest path rs s
  Wins-IsLongest rs s (before, after, split, hit, b, a) = (
    before,
    after,
    split,
    (test_route_exact path s.path_prefix).2.0 hit,
    All-Below (λ r. length r.path_prefix < length s.path_prefix) before b,
    All-Below (λ r. length r.path_prefix ≤ length s.path_prefix) after a,
  )

  -- The router never panics: it answers that there is no route when no configured prefix is at or above
  -- the path on a border of segments, and otherwise the backend and timeout of the longest such prefix,
  -- the first configured among equals.
  pub match_route_exact :
      (configs : List RouteConfig)
      → let routes = map route_of configs in
        ((match_route (new configs) path ≡ not_found)
          × All (λ r. ¬ Below path r.path_prefix) routes)
        ⊎ ((s : Route) × (match_route (new configs) path
              ≡ found (record { backend_id = s.backend_id; timeout_secs = s.timeout_secs }))
            × IsLongest path routes s)
  unfolding new
  match_route_exact configs =
      let routes = map route_of configs in
      elim (Option-cases (find (passes path) (sort_by_len routes))) [
        | inl e ↦ inl (
          match_route-find path (sort_by_len routes) ∙ ap answer e,
          All-rejected routes (find-sort_none (passes path) routes e),
        )
        | inr (s, e) ↦ inr (
          s,
          match_route-find path (sort_by_len routes) ∙ ap answer e,
          Wins-IsLongest routes s (find-sort_some (passes path) routes s e),
        )
      ]
