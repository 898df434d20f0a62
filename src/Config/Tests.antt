-- ===== src/Config/Tests.antt =====
-- A configuration of two pools (src/config/types.rs, src/config_reload.rs).
use reduction.Prelude.{◌↔◌, ◌*◌, ◌+◌, ◌^◌, ◌≡◌, refl, true, false, none, List, [], ◌∷◌, Text, codes}
use reduction.Prelude.Results.{ok, err}
use reduction.Acl.{v4, v6}
use reduction.Admission.{optional}
use reduction.Balancer.{http, quic}
use reduction.Proxy.Sample.{whole, backend}
use reduction.Router.{RouteConfig}
use reduction.Config.Valid.{ListensAll, check_ingress_iff}
use reduction.Config.{
  IngressConfig, check_backend_ids, validate_ingress_caps, ReductionConfig, manual, validate,
  check_ids, check_routes, check_ingress, is_private_listen_addr, is_plaintext, check_schemes,
  validate_client_identity, validate_acme_inbound_ca, validate_acme_barrel_state,
  validate_http_redirect, validate_health_endpoint, duplicate_prefix, no_backend_pool,
  cleartext_over_quic,
}
use reduction.Config.Build.{Pools, build_backend_pools, build_pools, add_pool}
use reduction.Balancer.{with_max}

abbrev pub route : Text → Text → RouteConfig
route prefix pool = record { path_prefix = prefix; backend_id = pool; timeout_secs = none }

abbrev pub config : List RouteConfig → ReductionConfig whole
config routes = record {
  listen_address = record { ip = v4 1; port = 443 };
  client_auth = optional;
  tls_server = manual;
  has_tls_client = true;
  backends =
      backend (codes "a")
      ∷ record (backend (codes "b")) { pool = codes "api" }
      ∷ backend (codes "c")
      ∷ [];
  routes = routes;
  max_backends = 10;
  has_allow_list = false;
  retry = record { max_retries = 1; base_delay_ms = 10; max_delay_ms = 100; jitter_ms = 0 };
  ingress = [];
  http_redirect = record {
    enabled = true;
    listen = record { ip = v4 1; port = 80 };
    to_host = codes "example.test";
  };
  health_endpoint = record { enabled = true; listen = record { ip = v4 1; port = 9000 } };
}

abbrev pub two_routes : ReductionConfig whole
two_routes = config (route (codes "/") (codes "web") ∷ route (codes "/api") (codes "api") ∷ [])

abbrev pools : Pools whole
pools =
    (codes "api", record { backends = record (backend (codes "b")) { pool = codes "api" } ∷ [] })
    ∷ (codes "web", record { backends = backend (codes "a") ∷ backend (codes "c") ∷ [] })
    ∷ []

pub two_routes-valid : validate whole two_routes ≡ ok tt
unfolding validate check_ids check_routes check_ingress check_schemes validate_client_identity
    validate_acme_inbound_ca validate_acme_barrel_state validate_http_redirect
    validate_health_endpoint is_plaintext
two_routes-valid = refl

two_routes-built : build_backend_pools whole two_routes ≡ ok pools
unfolding build_backend_pools build_pools add_pool with_max
two_routes-built = refl

lost_route :
    validate whole (config (route (codes "/") (codes "nope") ∷ []))
    ≡ err (no_backend_pool (codes "/"))
unfolding validate check_ids check_routes
lost_route = refl

same_prefix :
    validate whole
      (config (route (codes "/a") (codes "web") ∷ route (codes "/a") (codes "api") ∷ []))
    ≡ err (duplicate_prefix (codes "/a"))
unfolding validate check_ids check_routes
same_prefix = refl

quic_in_clear :
    check_schemes whole (record (backend (codes "a")) { scheme = http; transport = quic } ∷ [])
    ≡ err (cleartext_over_quic (codes "a"))
unfolding check_schemes is_plaintext
quic_in_clear = refl

-- fd00::1 is private, and 172.32.0.1 is not.
private_addresses :
    (is_private_listen_addr (v6 (253 * 2 ^ 120 + 1)) ≡ true)
    × (is_private_listen_addr (v4 (172 * 2 ^ 24 + 32 * 2 ^ 16 + 1)) ≡ false)
unfolding is_private_listen_addr
private_addresses = (refl, refl)

abbrev listener : IngressConfig
listener = record {
  id = codes "in";
  listen = record { ip = v4 (10 * 2 ^ 24 + 1); port = 5000 };
  recv_buffer_bytes = 1;
  max_datagram_bytes = 1500;
  backend_ids = codes "a" ∷ [];
  batch_max_datagrams = 8;
  batch_max_bytes = 9000;
  queue_depth_per_backend = 4;
}

check_ingress_iff_example :
    (check_ingress whole false (codes "a" ∷ []) [] (listener ∷ []) ≡ ok tt)
    ↔ ListensAll whole false (codes "a" ∷ []) [] (listener ∷ [])
check_ingress_iff_example = check_ingress_iff whole false (codes "a" ∷ []) (listener ∷ [])

listened : check_ingress whole false (codes "a" ∷ []) [] (listener ∷ []) ≡ ok tt
unfolding check_ingress check_backend_ids validate_ingress_caps is_private_listen_addr
listened = refl
