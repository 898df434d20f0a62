-- ===== src/Router.antt =====
-- Path routing (src/proxy/router.rs). Texts are lists of bytes; an index out of range is a panic.
pub mod Segments
pub mod Sorting
pub mod Matching
mod Tests
use mathlib.Core.Option
use reduction.Prelude.{
  ℕ, Option, none, some, Bool, true, false, List, [], ◌∷◌, map, Text, length, get_elem?,
  starts_with, ends_with, ◌==◌, leb, if◌then◌else◌,
}

-- `RouteConfig` of src/config/types/backend.rs.
pub record RouteConfig : Type 0 where
  pub path_prefix : Text
  pub backend_id : Text
  pub timeout_secs : Option ℕ

pub record Route : Type 0 where
  pub path_prefix : Text
  pub backend_id : Text
  pub timeout_secs : Option ℕ

pub record RouteMatch : Type 0 where
  pub backend_id : Text
  pub timeout_secs : Option ℕ

abbrev pub route_of : RouteConfig → Route
route_of rc = record {
  path_prefix = rc.path_prefix;
  backend_id = rc.backend_id;
  timeout_secs = rc.timeout_secs;
}

-- `sort_by_key(Reverse(len))`: stable, the longest prefix first.
pub insert_by_len : Route → List Route → List Route
insert_by_len r [] = r ∷ []
insert_by_len r (s ∷ rs) =
    if leb (length s.path_prefix) (length r.path_prefix) then r ∷ s ∷ rs else s ∷ insert_by_len r rs

pub sort_by_len : List Route → List Route
sort_by_len [] = []
sort_by_len (r ∷ rs) = insert_by_len r (sort_by_len rs)

unfoldable pub new : List RouteConfig → List Route
unfolding sort_by_len insert_by_len
new route_configs = sort_by_len (map route_of route_configs)

-- The test of the loop, `none` where `path.as_bytes()[..]` would panic.
pub test_route : Text → Text → Option Bool
test_route path prefix =
    if starts_with path prefix
    then (if length path == length prefix
        then some true
        else if ends_with prefix b'/'
        then some true
        else Option.map (λ c. c == b'/') (get_elem? path (length prefix)))
    else some false

pub data Lookup : Type 0 where
  found : RouteMatch → Lookup
  not_found panicked : Lookup

unfoldable pub match_route : List Route → Text → Lookup
unfolding test_route
match_route [] path = not_found
match_route (route ∷ rest) path = elim (test_route path route.path_prefix) [
  | none ↦ panicked
  | some true ↦ found (record { backend_id = route.backend_id; timeout_secs = route.timeout_secs })
  | some false ↦ match_route rest path
]
