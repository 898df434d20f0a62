-- ===== src/Reload/Tests.antt =====
-- Three reloads of a server (src/config_reload.rs).
use reduction.Prelude.{Text, ◌≡◌, refl, true, false, some, List, [], ◌∷◌, codes, ◌==◌, text_dec}
use reduction.Prelude.Results.{ok}
use reduction.Acl
use reduction.Acl.{AccessControl}
use reduction.Balancer.{with_max}
use reduction.Circuit.Cells
use reduction.Proxy.Sample.{whole, no_nets, env, serving, backend, started}
use reduction.Router.{new}
use reduction.Config.{
  ReductionConfig, validate, check_ids, check_routes, check_ingress, check_schemes,
  validate_client_identity, validate_acme_inbound_ca, validate_acme_barrel_state,
  validate_http_redirect, validate_health_endpoint, is_plaintext,
}
use reduction.Config.Build.{build_backend_pools, build_pools, add_pool}
use reduction.Config.Answers.{Leads}
use reduction.Config.Tests.{config, route, two_routes, two_routes-valid}
use reduction.Tunnel.Revocation.{RevocationSet}
use reduction.Reload.{
  Reloader, Reload, apply_config_reload, initial_reloadable, reload_task, republish, clean_up_all,
  diff_removed_backends, backend_addresses, routing_changed,
}
use reduction.Reload.Effects.{Outcome, apply_config_reload-Outcome}
use reduction.Reload.Serves.{in_force, reload_task-Leads}
use reduction.Proxy.{Request}

abbrev open_access : AccessControl no_nets
open_access = record { allow = []; deny = [] }

abbrev only_web : ReductionConfig whole
only_web = config (route (codes "/") (codes "web") ∷ [])

-- Its pools are over the cap.
abbrev too_small : ReductionConfig whole
too_small = record only_web { max_backends = 1 }

abbrev revoked : RevocationSet
revoked = record { spki = codes "k" ∷ []; backend_ids = [] }

abbrev reload : ReductionConfig whole → Reload env (λ a b. a == b)
reload c = record {
  config = c;
  access = open_access;
  revoked = some (ok revoked);
  has_receivers = true;
}

-- The state made of two_routes, with a queue and a breaker under `api`, and under `b` of that pool.
abbrev running : Reloader env (λ a b. a == b)
running = record {
  reloadable = record (serving false) {
    router = new two_routes.routes;
    backend_pools =
        (
          codes "api",
          record { backends = record (backend (codes "b")) { pool = codes "api" } ∷ [] },
        )
        ∷ (codes "web", record { backends = backend (codes "a") ∷ backend (codes "c") ∷ [] })
        ∷ [];
    acl = Acl.new no_nets [] [];
  };
  server = record started {
    queues = (codes "api", 3) ∷ [];
    circuit_breakers = record started.circuit_breakers {
      breakers = (codes "api", 0) ∷ (codes "b", 1) ∷ [];
    };
  };
  prev_routes = two_routes.routes;
  prev_backends = two_routes.backends;
}

abbrev reloads : List (Reload env (λ a b. a == b))
reloads = reload only_web ∷ reload too_small ∷ []

only_web-valid : validate whole only_web ≡ ok tt
unfolding validate check_ids check_routes check_ingress check_schemes validate_client_identity
    validate_acme_inbound_ca validate_acme_barrel_state validate_http_redirect
    validate_health_endpoint is_plaintext
only_web-valid = refl

too_small-valid : validate whole too_small ≡ ok tt
unfolding validate check_ids check_routes check_ingress check_schemes validate_client_identity
    validate_acme_inbound_ca validate_acme_barrel_state validate_http_redirect
    validate_health_endpoint is_plaintext
too_small-valid = refl

started_well :
    initial_reloadable env (λ a b. a == b) two_routes open_access (serving false)
    ≡ ok running.reloadable
unfolding initial_reloadable build_backend_pools build_pools add_pool with_max
started_well = refl

reload_task-Leads_example :
    Leads env
      (in_force env (λ a b. a == b) two_routes reloads)
      (reload_task env (λ a b. a == b) reloads running).reloadable
      (codes "/api/x")
reload_task-Leads_example =
    reload_task-Leads env (λ a b. a == b) two_routes open_access (serving false) running reloads
      two_routes-valid started_well (only_web-valid, (too_small-valid, tt)) (codes "/api/x")

abbrev request : Request (List (Text × Text)) Text
request = record {
  parts = record {
    method = codes "GET";
    path = codes "/api/x";
    path_and_query = some (codes "/api/x");
    headers = [];
  };
  body = [];
}

apply_config_reload-Outcome_example :
    Outcome env
      (λ a b. a == b)
      (reload only_web)
      running
      (build_backend_pools whole only_web)
      true
      (apply_config_reload env (λ a b. a == b) (reload only_web) running)
apply_config_reload-Outcome_example =
    apply_config_reload-Outcome env (λ a b. a == b) (reload only_web) running

-- The queue of the pool is dropped; the breaker of its backend `b` stays, since the pool's name is
-- what is removed.
stale_breaker :
    let after =
      (apply_config_reload env (λ a b. a == b) (reload only_web) running).reloader.server in
    (after.queues ≡ []) × (after.circuit_breakers.breakers ≡ (codes "b", 1) ∷ [])
unfolding apply_config_reload build_backend_pools build_pools add_pool with_max republish
    clean_up_all diff_removed_backends backend_addresses routing_changed Cells.remove_backend
    text_dec
stale_breaker = (refl, refl)
