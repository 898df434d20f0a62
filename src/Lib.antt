-- ===== src/Lib.antt =====
-- A verification library for Reduction, a reverse proxy (Rust) that serves HTTP from backends, some of
-- them behind QUIC tunnels that they open themselves. Paths below are from the repository's root.
--
-- The program. A request passes the access lists, the response cache, the router and the balancer;
-- it is then sent to a backend in a loop of attempts, each of which asks the backend's circuit breaker
-- and records on it what came back, with a delay before the next attempt. A response may be kept in the
-- response cache. Backends behind tunnels register sessions in the tunnel registry, over frames on a
-- control stream; a list of revoked identities keeps devices out and ends their sessions. The ingress
-- takes datagrams and connections and sends them on to consumers in envelopes.
--
-- What is modelled, file by file:
--   Proxy          the course of a request (src/proxy/handler.rs and src/proxy/handler). Proxy.antt has what it
--                  runs on, its state and messages. Proxy/Course: proxy_handler, admit_client,
--                  route_and_admit and the retry loop. Proxy/Store: the cache before an attempt and after
--                  it (src/proxy/handler/cache.rs, store_and_respond, maybe_compress). Proxy/Replay: the
--                  body made ready for its attempts (src/proxy/handler/body.rs). Proxy/Gate: the choice of a
--                  backend, its permit (src/proxy/pool.rs) and its breaker. Proxy/Attempt: one attempt
--                  (src/proxy/handler/attempt.rs); Proxy/Attempt/Wake the wait for a woken backend
--                  (src/proxy/handler/attempt/wake.rs). Proxy/Forward: forward_request.
--                  Proxy/Guarded: the body of a streamed response (src/proxy/guarded_body.rs).
--   Admission      the gates before routing (reject_before_routing of src/proxy/handler.rs) and before a raw
--                  relay (src/proxy/raw_relay/admission.rs), the rate limit (src/ratelimit.rs), and
--                  the policy on client certificates (src/config/types/listener.rs).
--   Error          the errors (src/error.rs).
--   Acl            the access lists (src/acl.rs): AccessControl::new and check, canonicalize_net.
--   Balancer       the selection of a backend (src/balancer/mod.rs).
--   Router         the routes (src/proxy/router.rs): Router::new and match_route.
--   Circuit        the breaker of one backend (src/circuit.rs): the cell, and what check, record_success,
--                  record_failure and the drop of a HalfOpenGuard do to it. Circuit/Cells has the map of
--                  backends and the store of the cells that entries and guards share.
--   Retry          the delay between attempts (src/retry.rs).
--   CacheControl   the parser of Cache-Control (src/cache_control.rs).
--   Cache          the response cache (src/cache.rs): get, put and clear. Cache/Key has the keys.
--   Handler        the conditions on caching and retrying (src/proxy/handler/policy.rs, should_cache_response
--                  of src/proxy/handler/attempt/respond.rs) and what handle_response of
--                  src/proxy/handler/attempt.rs records of a response on the circuit breaker.
--                  Handler/Headers: the headers rewritten for a backend (src/proxy/handler/headers.rs).
--   Config         the checks on a configuration (ReductionConfig::validate of src/config/types.rs) and the
--                  pools made of it (build_backend_pools of src/config_reload.rs).
--   Reload         a new configuration in a running server (apply_config_reload of
--                  src/config_reload.rs).
--   RawAuthz       which devices may open a raw relay to which backend (src/proxy/raw_authz.rs).
--   Redirect       the answer of the HTTP listener that redirects to HTTPS (src/redirect.rs).
--   Tunnel         Tunnel/Protocol: frames and preamble (src/tunnel/protocol.rs); Tunnel/Registry: the
--                  sessions (src/tunnel/registry.rs); Tunnel/Revocation: the list of revoked identities
--                  (src/tunnel/revocation.rs, with PeerIdentity of src/tls/identity.rs); Tunnel/Registration:
--                  how a session is registered (src/tunnel/listener/registration.rs). Tunnel/Plain is a
--                  codec and two streams in memory that meet the hypotheses on bitcode and tokio.
--   Ingress        the frames to the consumers of the ingress (src/ingress/protocol.rs). Ingress/Batch has the
--                  batches of datagrams (src/ingress/batch.rs) as the receive loop of src/ingress/udp.rs
--                  drives them; Ingress/Plain is a codec that meets the hypothesis on bitcode.
--   Http           the header map of the http crate, as an interface with an instance.
--   Prelude        shared names: tests, lists, texts, words, maps, decimal numbers, parsing, results.
--
-- State and operations. A struct is a record and an enum a data type; a method that changes its object
-- takes the state and returns it with its result. Every call of an object behind a lock, an atomic or a
-- concurrent map runs to its end as one step, and sequences of calls are lists; interleavings of single
-- atomic operations are not modelled. Times are numbers, and `now` is what the clock returns in a call.
-- A Notify is the number of its notify_waiters calls.
--
-- Numbers and texts. Numbers are native; wrapping and saturating operations on u32, u64 and usize (64
-- bits) are written out in Prelude/Words and where they occur. Texts are lists of bytes. White space,
-- case and digits are those of ASCII, to which HeaderValue::to_str restricts header values.
--
-- Fuel. The printing of a number (Prelude/Decimal) is given the successor of the number, and each digit at
-- least divides it by ten. The wait for a woken backend (Proxy/Attempt/Wake) is given one more than the
-- intervals up to its deadline. The retry loop recurs on the attempts that are left.
--
-- Code outside the repository is a parameter with laws that state its documented behaviour: DashMap
-- (Prelude/Maps), the http crate's HeaderMap (Http), the lru crate (Cache), ArrayString's writer
-- (Cache/Key), ipnet (Acl), rand (Retry), f64 and its operations (Balancer), bitcode and tokio's AsyncRead and AsyncWrite (Tunnel/Protocol, Ingress).
-- Proxy takes the libraries and the outside world as one record, Env: the connections of the pool, the
-- bodies and their collection, zstd, the buckets of governor, the clock and the sleeps; what another task
-- does in the meantime is in its World. A semaphore is the number of permits that it has left, and the
-- drop of a guard is a step of the code that lets it go.
-- Each has an instance, so that the laws can be met.
--
-- Not modelled: TLS, certificates and transports; sockets, the pools of connections, relays, the
-- compression of bodies, and what the guards of a streamed body do at its end; the control loops of the
-- tunnels; the configuration's parser
-- and the watcher of its file; metrics, logs, traces and startup, which are I/O or calls of other libraries. The scores of
-- the balancer, the health state and the sockets of the ingress are not modelled either. In a handler's
-- run no other request takes a permit or asks a breaker; and the race of the wait for a wake with a
-- refusal is a parameter of it. A body of a request that is decompressed on another thread is decompressed
-- in place, without the panic that the code answers with 500.
pub mod Acl
pub mod Admission
pub mod Balancer
pub mod Cache
pub mod CacheControl
pub mod Circuit
pub mod Config
pub mod Error
pub mod Handler
pub mod Http
pub mod Ingress
pub mod Prelude
pub mod Proxy
pub mod RawAuthz
pub mod Redirect
pub mod Reload
pub mod Retry
pub mod Router
pub mod Tunnel
