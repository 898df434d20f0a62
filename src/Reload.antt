-- ===== src/Reload.antt =====
-- A new configuration in a running server (`apply_config_reload`, `backend_addresses` and
-- `diff_removed_backends` of src/config_reload.rs). The file of revocations is read outside, and a
-- `watch::Sender` without receivers keeps its value. A set of addresses is the list of its elements;
-- the drain that is spawned is the list of its addresses, and the warm-up of the pool is left out.
pub mod Effects
pub mod Serves
mod Tests
use reduction.Prelude.{
  ℕ, Bool, true, false, not, ◌&&◌, ◌||◌, Option, none, some, List, [], ◌∷◌, ◌++◌, map, ◌==◌, any,
  retain, Text, text_eq, if◌then◌else◌,
}
use reduction.Prelude.Results.{Result, ok, err, and_then}
use reduction.Acl.{AccessControl}
use reduction.Acl
use reduction.Balancer.{
  BackendConfig, BackendPool, BackendScheme, http, https, TransportKind, quic, tcp,
}
use reduction.Balancer
use reduction.Cache.{clear}
use reduction.Circuit.Cells.{remove_backend}
use reduction.Ingress.{SocketAddr}
use reduction.Router.{RouteConfig, new}
use reduction.Tunnel.Revocation.{RevocationSet}
use reduction.Tunnel.Revocation
use reduction.Proxy.{Env, Backend, Server}
use reduction.Proxy.Course.{ReloadableState}
use reduction.Config.{same_addr, ReductionConfig}
use reduction.Config.Build.{Pools, build_backend_pools}

-- `ControlFlow`.
pub data Flow : Type 0 where
  carry_on stop : Flow

-- The derived equality of `Option<u64>`, `RouteConfig`, `TransportKind` and `BackendScheme`.
abbrev pub same_secs : Option ℕ → Option ℕ → Bool
same_secs none none = true
same_secs (some a) (some b) = a == b
same_secs none (some b) = false
same_secs (some a) none = false

abbrev pub same_route : RouteConfig → RouteConfig → Bool
same_route a b =
    text_eq a.path_prefix b.path_prefix
    && text_eq a.backend_id b.backend_id
    && same_secs a.timeout_secs b.timeout_secs

abbrev pub same_transport : TransportKind → TransportKind → Bool
same_transport quic quic = true
same_transport tcp tcp = true
same_transport quic tcp = false
same_transport tcp quic = false

abbrev pub same_scheme : BackendScheme → BackendScheme → Bool
same_scheme http http = true
same_scheme https https = true
same_scheme http https = false
same_scheme https http = false

abbrev pub same_bool : Bool → Bool → Bool
same_bool true b = b
same_bool false b = not b

abbrev pub same_list : {A : Type 0} → (A → A → Bool) → List A → List A → Bool
same_list same [] [] = true
same_list same [] (y ∷ ys) = false
same_list same (x ∷ xs) [] = false
same_list same (x ∷ xs) (y ∷ ys) = same x y && same_list same xs ys

module _ (e : Env) (same_weight : e.f64.Float → e.f64.Float → Bool) where
  pub record Reloader : Type 0 where
    pub reloadable : ReloadableState e
    pub server : Server e
    pub prev_routes : List RouteConfig
    pub prev_backends : List (Backend e)

  -- What a reload leaves: the addresses are those that will be drained.
  pub record Applied : Type 0 where
    pub reloader : Reloader
    pub flow : Flow
    pub drained : List SocketAddr

  -- What a reload is given: the access lists stand beside the rest.
  pub record Reload : Type 0 where
    pub config : ReductionConfig e.f64
    pub access : AccessControl e.net
    pub revoked : Option (Result Revocation.ConfigError RevocationSet)
    pub has_receivers : Bool

  abbrev pub same_backend : Backend e → Backend e → Bool
  same_backend a b =
      text_eq a.id b.id
      && text_eq a.pool b.pool
      && same_addr a.address b.address
      && text_eq a.host b.host
      && same_weight a.weight b.weight
      && same_transport a.transport b.transport
      && same_scheme a.scheme b.scheme
      && (a.max_connections == b.max_connections)
      && same_bool a.wakeable b.wakeable

  abbrev pub addresses_of : List (Backend e) → List SocketAddr
  addresses_of backends = map (λ b. b.address) backends

  unfoldable pub backend_addresses : Pools e.f64 → List SocketAddr
  backend_addresses [] = []
  backend_addresses ((id, p) ∷ pools) = addresses_of p.backends ++ backend_addresses pools

  abbrev pub has_addr : List SocketAddr → SocketAddr → Bool
  has_addr addrs addr = any (λ a. same_addr a addr) addrs

  abbrev pub contains_key : Pools e.f64 → Text → Bool
  contains_key pools id = any (λ entry. text_eq entry.0 id) pools

  unfoldable pub diff_removed_backends : Pools e.f64 → Pools e.f64 → List SocketAddr × List Text
  diff_removed_backends old new_pools = (
    retain (λ a. not (has_addr (backend_addresses new_pools) a)) (backend_addresses old),
    retain (λ id. not (contains_key new_pools id)) (map (λ entry. entry.0) old),
  )

  -- After the grace period.
  unfoldable pub to_evict : List SocketAddr → Pools e.f64 → List SocketAddr
  to_evict removed current = retain (λ a. not (has_addr (backend_addresses current) a)) removed

  unfoldable pub republish :
      Option (Result Revocation.ConfigError RevocationSet) → ReloadableState e → ReloadableState e
  republish none state = state
  republish (some (err x)) state = state
  republish (some (ok set)) state = record state { revocation = set }

  abbrev pub clean_up : Text → Server e → Server e
  clean_up id s = record s {
    queues = e.counts.remove id s.queues;
    circuit_breakers = remove_backend e.fits e.counts s.circuit_breakers id;
  }

  unfoldable pub clean_up_all : List Text → Server e → Server e
  clean_up_all [] s = s
  clean_up_all (id ∷ ids) s = clean_up_all ids (clean_up id s)

  unfoldable pub routing_changed : ReductionConfig e.f64 → Reloader → Bool
  routing_changed c s =
      not (same_list same_route c.routes s.prev_routes)
      || not (same_list same_backend c.backends s.prev_backends)

  abbrev pub flush : Server e → Server e
  flush s = record s { response_cache = clear e.http e.lru s.response_cache }

  -- The state is published; the cache and what is kept for the removed pools are dropped.
  abbrev pub publish : ReductionConfig e.f64 → ReloadableState e → Reloader → Applied
  publish c new_state s =
      let changed = routing_changed c s in
      let (removed_addrs, removed_ids) =
        diff_removed_backends s.reloadable.backend_pools new_state.backend_pools in
      record {
        reloader = record {
          reloadable = new_state;
          server = clean_up_all removed_ids (if changed then flush s.server else s.server);
          prev_routes = if changed then c.routes else s.prev_routes;
          prev_backends = if changed then c.backends else s.prev_backends;
        };
        flow = carry_on;
        drained = removed_addrs;
      }

  -- Nothing is published without receivers, nor when the pools could not be built.
  abbrev pub send_built :
      Reload → Bool → Reloader → Result Balancer.ReductionError (Pools e.f64) → Applied
  send_built r has_receivers s (err x) = record { reloader = s; flow = carry_on; drained = [] }
  send_built r true s (ok pools) =
      publish r.config
        (record s.reloadable {
          router = new r.config.routes;
          backend_pools = pools;
          acl = Acl.new e.net r.access.allow r.access.deny;
        })
        s
  send_built r false s (ok pools) = record { reloader = s; flow = stop; drained = [] }

  unfoldable pub apply_config_reload : Reload → Reloader → Applied
  apply_config_reload r s =
      send_built r r.has_receivers (record s { reloadable = republish r.revoked s.reloadable })
        (build_backend_pools e.f64 r.config)

  -- The state that the server starts with, by what is not configured here.
  unfoldable pub initial_reloadable :
      ReductionConfig e.f64
      → AccessControl e.net
      → ReloadableState e
      → Result Balancer.ReductionError (ReloadableState e)
  initial_reloadable c access state = and_then (build_backend_pools e.f64 c) (λ pools.
      ok (record state {
        router = new c.routes;
        backend_pools = pools;
        acl = Acl.new e.net access.allow access.deny;
      }))

  abbrev pub next : Flow → Reloader → Reloader → Reloader
  next carry_on again last = again
  next stop again last = last

  -- The task that waits for configurations.
  unfoldable pub reload_task : List Reload → Reloader → Reloader
  reload_task [] s = s
  reload_task (r ∷ reloads) s =
      let applied = apply_config_reload r s in
      next applied.flow (reload_task reloads applied.reloader) applied.reloader
