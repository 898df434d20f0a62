-- ===== src/Config.antt =====
-- The checks on a configuration that is loaded or reloaded (`ReductionConfig::validate` of
-- src/config/types.rs, with is_private_listen_addr of src/config/types/ingress.rs), in a build with the
-- feature acme. Config/Build has the pools that are made of it (src/config_reload.rs). The
-- structures are what serde made of the file; a warning is left out. A `HashSet` is the list of its
-- elements, and the `HashMap` of the pools the list of its entries.
pub mod Build
pub mod Checks
pub mod Pools
pub mod Answers
pub mod Capped
pub mod Valid
pub mod Tests
use reduction.Prelude.{
  ℕ, ◌*◌, ◌+◌, ◌/◌, ◌^◌, Bool, true, false, not, ◌&&◌, ◌||◌, Option, none, some, List, [], ◌∷◌, map,
  ltb, ◌==◌, if◌then◌else◌, is_some, is_none, any, retain, Text, codes, text_eq, starts_with,
}
use reduction.Prelude.Parsing.{trim}
use reduction.Prelude.Results.{Result, ok, err, and_then}
use reduction.Acl.{IpAddr, v4, v6}
use reduction.Admission.{ClientAuthPolicy, builds_verifier}
use reduction.Balancer.{
  F64, BackendConfig, BackendPool, BackendScheme, http, https, TransportKind, quic, tcp, with_max,
}
use reduction.Balancer
use reduction.Ingress.{SocketAddr, max_envelope_frame}
use reduction.Proxy.Course.{find_pool}
use reduction.Proxy.Store.{contains_text}
use reduction.Retry.{RetryConfig}
use reduction.Router.{RouteConfig}

-- What is wrong, with the name or the address that the message tells.
pub data ConfigError : Type 0 where
  duplicate_backend_id prefix_without_slash duplicate_prefix no_backend_pool : Text → ConfigError
  base_above_max : ConfigError
  no_backend_ids zero_cap datagram_too_large batch_too_small batch_too_large : Text → ConfigError
  not_a_quic_backend : Text → Text → ConfigError
  duplicate_ingress_listen : SocketAddr → ConfigError
  no_allow_list : Text → ConfigError
  cleartext_over_quic no_client_identity : Text → ConfigError
  no_acme_ca no_persist_command : ConfigError
  no_to_host to_host_not_bare redirect_port_taken health_port_taken : ConfigError

pub record IngressConfig : Type 0 where
  pub id : Text
  pub listen : SocketAddr
  pub recv_buffer_bytes : ℕ
  pub max_datagram_bytes : ℕ
  pub backend_ids : List Text
  pub batch_max_datagrams : ℕ
  pub batch_max_bytes : ℕ
  pub queue_depth_per_backend : ℕ

pub record HttpRedirectConfig : Type 0 where
  pub enabled : Bool
  pub listen : SocketAddr
  pub to_host : Text

pub record HealthEndpointConfig : Type 0 where
  pub enabled : Bool
  pub listen : SocketAddr

-- A manual identity, or ACME with its CA for clients and the command of its Barrel store.
pub data ServerTlsConfig : Type 0 where
  manual : ServerTlsConfig
  acme : (ca_cert_path : Option Text) → (persist_command : Option (List Text)) → ServerTlsConfig

abbrev pub max_udp_datagram_bytes : ℕ
max_udp_datagram_bytes = 65507

abbrev pub contains : List Text → Text → Bool
contains set t = any (λ x. text_eq x t) set

abbrev pub is_empty : {A : Type 0} → List A → Bool
is_empty [] = true
is_empty (x ∷ xs) = false

abbrev pub same_ip : IpAddr → IpAddr → Bool
same_ip (v4 a) (v4 b) = a == b
same_ip (v6 a) (v6 b) = a == b
same_ip (v4 a) (v6 b) = false
same_ip (v6 a) (v4 b) = false

abbrev pub same_addr : SocketAddr → SocketAddr → Bool
same_addr a b = same_ip a.ip b.ip && (a.port == b.port)

-- 10/8, 172.16/12, 192.168/16, 127/8, 169.254/16; ::1, fc00::/7, fe80::/10.
unfoldable pub is_private_listen_addr : IpAddr → Bool
is_private_listen_addr (v4 n) =
    (n / 2 ^ 24 == 10)
    || (n / 2 ^ 20 == 172 * 16 + 1)
    || (n / 2 ^ 16 == 192 * 256 + 168)
    || (n / 2 ^ 24 == 127)
    || (n / 2 ^ 16 == 169 * 256 + 254)
is_private_listen_addr (v6 n) = (n == 1) || (n / 2 ^ 121 == 126) || (n / 2 ^ 118 == 1018)

unfoldable pub is_plaintext : BackendScheme → Bool
is_plaintext http = true
is_plaintext https = false

abbrev pub is_quic : TransportKind → Bool
is_quic quic = true
is_quic tcp = false

-- A check that returns its error, before those that follow.
abbrev pub check : Bool → ConfigError → Result ConfigError Unit → Result ConfigError Unit
check true e rest = err e
check false e rest = rest

module _ (f : F64) where
  pub record ReductionConfig : Type 0 where
    pub listen_address : SocketAddr
    pub client_auth : ClientAuthPolicy
    pub tls_server : ServerTlsConfig
    pub has_tls_client : Bool
    pub backends : List (BackendConfig f)
    pub routes : List RouteConfig
    pub max_backends : ℕ
    pub has_allow_list : Bool
    pub retry : RetryConfig
    pub ingress : List IngressConfig
    pub http_redirect : HttpRedirectConfig
    pub health_endpoint : HealthEndpointConfig

  unfoldable pub needs_client_tls : BackendConfig f → Bool
  needs_client_tls b = is_quic b.transport || not (is_plaintext b.scheme)

  unfoldable pub check_ids : List Text → List (BackendConfig f) → Result ConfigError Unit
  check_ids seen [] = ok tt
  check_ids seen (b ∷ backends) =
      check (contains seen b.id) (duplicate_backend_id b.id) (check_ids (b.id ∷ seen) backends)

  unfoldable pub check_routes :
      (pools seen : List Text) → List RouteConfig → Result ConfigError Unit
  check_routes pools seen [] = ok tt
  check_routes pools seen (r ∷ routes) =
      check (not (starts_with r.path_prefix (codes "/"))) (prefix_without_slash r.path_prefix) (
        check (contains seen r.path_prefix) (duplicate_prefix r.path_prefix) (
          check (not (contains pools r.backend_id)) (no_backend_pool r.path_prefix)
            (check_routes pools (r.path_prefix ∷ seen) routes)))

  unfoldable pub validate_ingress_caps :
      IngressConfig → Result ConfigError Unit → Result ConfigError Unit
  validate_ingress_caps i rest =
      check
        ((i.max_datagram_bytes == 0)
          || (i.batch_max_datagrams == 0)
          || (i.batch_max_bytes == 0)
          || (i.queue_depth_per_backend == 0)
          || (i.recv_buffer_bytes == 0))
        (zero_cap i.id)
        (check (ltb max_udp_datagram_bytes i.max_datagram_bytes) (datagram_too_large i.id) (
          check (ltb i.batch_max_bytes i.max_datagram_bytes) (batch_too_small i.id)
            (check (ltb max_envelope_frame i.batch_max_bytes) (batch_too_large i.id) rest)))

  unfoldable pub check_backend_ids :
      Text → List Text → List Text → Result ConfigError Unit → Result ConfigError Unit
  check_backend_ids id quic_ids [] rest = rest
  check_backend_ids id quic_ids (b ∷ ids) rest =
      check (not (contains quic_ids b)) (not_a_quic_backend id b)
        (check_backend_ids id quic_ids ids rest)

  unfoldable pub check_ingress :
      Bool → List Text → List SocketAddr → List IngressConfig → Result ConfigError Unit
  check_ingress has_allow_list quic_ids seen [] = ok tt
  check_ingress has_allow_list quic_ids seen (i ∷ ingress) =
      check (is_empty i.backend_ids) (no_backend_ids i.id) (
        check_backend_ids i.id quic_ids i.backend_ids (
          validate_ingress_caps i (
            check (any (same_addr i.listen) seen) (duplicate_ingress_listen i.listen) (
              check (not (is_private_listen_addr i.listen.ip) && not has_allow_list)
                (no_allow_list i.id)
                (check_ingress has_allow_list quic_ids (i.listen ∷ seen) ingress)))))

  unfoldable pub check_schemes : List (BackendConfig f) → Result ConfigError Unit
  check_schemes [] = ok tt
  check_schemes (b ∷ backends) =
      check (is_plaintext b.scheme && is_quic b.transport) (cleartext_over_quic b.id)
        (check_schemes backends)

  unfoldable pub check_clients : List (BackendConfig f) → Result ConfigError Unit
  check_clients [] = ok tt
  check_clients (b ∷ backends) =
      check (needs_client_tls b) (no_client_identity b.id) (check_clients backends)

  unfoldable pub validate_client_identity : ReductionConfig → Result ConfigError Unit
  validate_client_identity c = if c.has_tls_client then ok tt else check_clients c.backends

  unfoldable pub validate_acme_inbound_ca : ReductionConfig → Result ConfigError Unit
  validate_acme_inbound_ca c = elim c.tls_server [
    | manual ↦ ok tt
    | acme ca persist ↦ check (builds_verifier c.client_auth && is_none ca) no_acme_ca (ok tt)
  ]

  abbrev pub is_empty_command : Option (List Text) → Bool
  is_empty_command none = false
  is_empty_command (some command) = is_empty command

  unfoldable pub validate_acme_barrel_state : ReductionConfig → Result ConfigError Unit
  validate_acme_barrel_state c = elim c.tls_server [
    | manual ↦ ok tt
    | acme ca persist ↦ check (is_empty_command persist) no_persist_command (ok tt)
  ]

  unfoldable pub validate_http_redirect : ReductionConfig → Result ConfigError Unit
  validate_http_redirect c =
      let host = trim c.http_redirect.to_host in
      if not c.http_redirect.enabled
      then ok tt
      else check (is_empty host) no_to_host (
          check (contains_text host (codes "://") || contains_text host (codes "/"))
            to_host_not_bare
            (check (same_addr c.http_redirect.listen c.listen_address) redirect_port_taken (ok tt)))

  unfoldable pub validate_health_endpoint : ReductionConfig → Result ConfigError Unit
  validate_health_endpoint c =
      let listen = c.health_endpoint.listen in
      if not c.health_endpoint.enabled
      then ok tt
      else check (same_addr listen c.listen_address) health_port_taken (
          check (c.http_redirect.enabled && same_addr listen c.http_redirect.listen)
            health_port_taken (ok tt))

  abbrev pub quic_ids_of : List (BackendConfig f) → List Text
  quic_ids_of backends = map (λ b. b.id) (retain (λ b. is_quic b.transport) backends)

  unfoldable pub validate : ReductionConfig → Result ConfigError Unit
  validate c = and_then (check_ids [] c.backends) (λ _.
      and_then (check_routes (map (λ b. b.pool) c.backends) [] c.routes) (λ _.
        and_then (check (ltb c.retry.max_delay_ms c.retry.base_delay_ms) base_above_max (ok tt))
          (λ _.
            and_then (check_ingress c.has_allow_list (quic_ids_of c.backends) [] c.ingress) (λ _.
              and_then (check_schemes c.backends) (λ _. and_then (validate_client_identity c) (λ _.
                and_then (validate_acme_inbound_ca c) (λ _.
                  and_then (validate_http_redirect c) (λ _.
                    and_then (validate_health_endpoint c)
                      (λ _. validate_acme_barrel_state c)))))))))
