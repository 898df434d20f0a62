-- ===== src/Proxy/Course.antt =====
-- The whole course of a request (`proxy_handler`, `admit_client` and `route_and_admit` of
-- src/proxy/handler.rs, `resolve_backend_pool` of src/proxy/handler/selection.rs). Metrics, logs and
-- traces are left out.
pub mod Refused
pub mod Attempts
pub mod Seen
pub mod Prepared
pub mod Whole
pub mod Released
pub mod Permits
mod Tests
use reduction.Prelude.{
  ℕ, zero, suc, ◌+◌, ◌-◌, ◌*◌, ◌/◌, ◌%◌, ◌^◌, ◌≤◌, ◌<◌, min, max, ◌≡◌, refl, sym, ap, ap₂, ◌∙◌,
  subst, fun_ext, ◌≢◌, ◌↔◌, ◌⊎◌, inl, inr, ite, if_pos, if_neg, Bool, true, false, not, ◌&&◌, ◌||◌,
  Option, none, some, List, [], ◌∷◌, ◌++◌, map, append-nil, append_assoc, arith, ltb, leb, ◌==◌,
  if◌then◌else◌, tests, Bool-cases, Option-cases, is_some, is_none, unwrap_or, length, get_elem?,
  take, drop, any, all, retain, length-append, All, All-append, take-length_append,
  drop-length_append, Text, codes, text_eq, text_eq→eq, text_eq_refl, text_eq_iff, text_dec,
  starts_with, ends_with, eq_ignore_ascii_case, to_ascii_lowercase, dec_lt, dec_le, ℕ_discrete,
  length-retain-le, length-drop, All-retain, retain-All,
}
use reduction.Prelude.Results.{Result, ok, err}
use reduction.Acl.{IpAddr, AccessControl, v4}
use reduction.Admission.{ClientAuthPolicy, ErrorResponse, reject_before_routing}
use reduction.Balancer.{BackendPool}
use reduction.Cache.{from_secs}
use reduction.Router.{Route, match_route, found, not_found, panicked}
use reduction.Tunnel.Revocation.{PeerIdentity, RevocationSet}
use reduction.Proxy.{
  Env, Parts, Request, Response, Headers, Server, Settings, RequestCtx, ReplayBody, RetryState,
  error_body,
}
use reduction.Proxy.Attempt.{AttemptOutcome, try_next, stop, return_it, stream, run_attempt}
use reduction.Proxy.Gate.{Selected}
use reduction.Proxy.Replay.{PreparedBody, ready, respond_with, prepare_replay_body}
use reduction.Proxy.Store.{Answer, CacheNegotiation, CacheDecision, hit, miss, negotiate_cache}

abbrev pub loopback : IpAddr
loopback = v4 2130706433

module _ (e : Env) where
  -- What is hot-swapped, and whether the server drains.
  pub record ReloadableState : Type 0 where
    pub router : List Route
    pub backend_pools : List (Text × BackendPool e.f64)
    pub acl : AccessControl e.net
    pub revocation : RevocationSet
    pub client_auth : ClientAuthPolicy
    pub shutdown : Bool

  -- The address and the identity of the connection, where it has one.
  abbrev pub ConnectInfo : Type 0
  ConnectInfo = Option (IpAddr × Option PeerIdentity)

  pub data ClientAdmission : Type 0 where
    reject : Answer e → ClientAdmission
    proceed : ℕ → IpAddr → Option PeerIdentity → ClientAdmission

  abbrev pub ip_of : ConnectInfo → IpAddr
  ip_of none = loopback
  ip_of (some (ip, identity)) = ip

  abbrev pub identity_of : ConnectInfo → Option PeerIdentity
  identity_of none = none
  identity_of (some (ip, identity)) = identity

  abbrev pub draining : Answer e
  draining = record (error_body e 503 (codes "server is shutting down")) {
    headers = e.http.insert (codes "retry-after") (codes "5") e.http.empty;
  }

  unfoldable pub admit_client : Bool → ConnectInfo → Server e → Server e × ClientAdmission
  admit_client shutdown connect_info s =
      let (world, start) = e.now s.world in
      (
        record s { world = world },
        if shutdown
            then reject draining
            else proceed start (ip_of connect_info) (identity_of connect_info),
      )

  abbrev pub find_pool : Text → List (Text × BackendPool e.f64) → Option (BackendPool e.f64)
  find_pool id [] = none
  find_pool id ((key, pool) ∷ pools) = if text_eq key id then some pool else find_pool id pools

  pub record ResolvedRoute : Type 0 where
    pub backend_id : Text
    pub pool : BackendPool e.f64
    pub timeout_secs : Option ℕ

  -- A panic of the router is no answer; there is none (Router.Matching).
  unfoldable pub resolve_backend_pool : ReloadableState → Text → Result (Answer e) ResolvedRoute
  resolve_backend_pool state path = elim (match_route state.router path) [
    | found m ↦ elim (find_pool m.backend_id state.backend_pools) [
      | none ↦ err (error_body e 502 (codes "backend pool not found"))
      | some pool ↦
          ok (record { backend_id = m.backend_id; pool = pool; timeout_secs = m.timeout_secs })
    ]
    | not_found ↦ err (error_body e 404 (codes "no route matched"))
    | panicked ↦ err (error_body e 500 [])
  ]

  -- The queue of a backend is made when it is first used.
  unfoldable pub take_queue_permit : ℕ → Text → Server e → Server e × Bool
  take_queue_permit depth backend_id s =
      let available = unwrap_or (e.counts.get backend_id s.queues) depth in
      (record s { queues = e.counts.insert backend_id (available - 1) s.queues }, ltb 0 available)

  unfoldable pub release_queue_permit : Text → Server e → Server e
  release_queue_permit backend_id s = elim (e.counts.get backend_id s.queues) [
    | none ↦ s
    | some available ↦ record s { queues = e.counts.insert backend_id (available + 1) s.queues }
  ]

  unfoldable pub admit_route :
      Settings e
      → Result (Answer e) ResolvedRoute
      → Server e
      → Server e × Result (Answer e) ResolvedRoute
  admit_route settings (err response) s = (s, err response)
  admit_route settings (ok resolved) s =
      let (s', granted) = take_queue_permit settings.default_queue_depth resolved.backend_id s in
      (s', if granted then ok resolved else err (error_body e 503 (codes "queue full")))

  unfoldable pub route_and_admit :
      Settings e → ReloadableState → Text → Server e → Server e × Result (Answer e) ResolvedRoute
  route_and_admit settings state path s = admit_route settings (resolve_backend_pool state path) s

  pub data LoopEnd : Type 0 where
    exhausted : LoopEnd
    returned : Answer e → LoopEnd
    streamed : Answer e → Selected e → LoopEnd

  -- What follows an attempt, where `again` is the rest of the loop.
  unfoldable pub resume :
      (ReplayBody e → Server e → RetryState e → Server e × RetryState e × LoopEnd)
      → Server e × ReplayBody e × RetryState e × AttemptOutcome e
      → Server e × RetryState e × LoopEnd
  resume again (s, replay, retry, try_next) = again replay s retry
  resume again (s, replay, retry, stop) = (s, retry, exhausted)
  resume again (s, replay, retry, return_it response) = (s, retry, returned response)
  resume again (s, replay, retry, stream response selected) = (s, retry, streamed response selected)

  -- `for attempt in 0..max_attempts`: the attempts left, and the number of the next one.
  unfoldable pub retry_loop :
      ℕ
      → ℕ
      → RequestCtx e
      → (deadline connect_budget : ℕ) → ReplayBody e
      → Server e
      → RetryState e
      → Server e × RetryState e × LoopEnd
  retry_loop zero attempt ctx deadline connect_budget replay s retry = (s, retry, exhausted)
  retry_loop (suc left) attempt ctx deadline connect_budget replay s retry =
      let (world, now) = e.now s.world in
      let s' : Server e = record s { world = world } in
      if ltb connect_budget (deadline - now)
      then resume (retry_loop left (attempt + 1) ctx deadline connect_budget)
          (run_attempt e ctx attempt (deadline - now) replay s' retry)
      else (s', retry, exhausted)

  -- A response, and whether its body owns the guards of the request: the permit of the queue, and for
  -- the response of an attempt what that attempt holds.
  pub data Reply : Type 0 where
    plain : Answer e → Reply
    guarded : Answer e → Option (Selected e) → Reply

  unfoldable pub conclude : Text → Server e → RetryState e → LoopEnd → Server e × Reply
  conclude backend_id s retry (returned response) =
      (release_queue_permit backend_id s, plain response)
  conclude backend_id s retry (streamed response selected) = (s, guarded response (some selected))
  conclude backend_id s retry exhausted = elim retry.last_response [
    | some response ↦ (s, guarded response none)
    | none ↦ (release_queue_permit backend_id s, plain (error_body e 502 (codes "backend error")))
  ]

  abbrev pub fresh_retry : RetryState e
  fresh_retry = record { failed_backends = []; last_response = none; last_error_msg = none }

  abbrev pub ctx_of :
      Settings e
      → IpAddr
      → Option PeerIdentity
      → CacheNegotiation
      → ResolvedRoute
      → ℕ
      → RequestCtx e
  ctx_of settings client_ip client_identity n route max_attempts = record {
    settings = settings;
    pool = route.pool;
    client_ip = client_ip;
    client_identity = client_identity;
    backend_id = route.backend_id;
    cache_identity = unwrap_or n.cache_identity_hex [];
    max_attempts = max_attempts;
    is_cacheable_method = n.is_cacheable_method;
    request_has_cookie = n.request_has_cookie;
    accepts_zstd = n.accepts_zstd;
  }

  -- The handler from the retry loop on, where the body is ready.
  unfoldable pub drive_ready :
      Settings e
      → ℕ
      → IpAddr
      → Option PeerIdentity
      → CacheNegotiation
      → ResolvedRoute
      → Server e × PreparedBody e
      → Server e × Reply
  drive_ready settings start client_ip client_identity n route (s, respond_with response) =
      (release_queue_permit route.backend_id s, plain response)
  drive_ready settings start client_ip client_identity n route (s, ready replay max_attempts) =
      let ctx = ctx_of settings client_ip client_identity n route max_attempts in
      let deadline =
        start + from_secs (unwrap_or route.timeout_secs settings.timeouts.request_secs) in
      let (s', retry, end) =
        retry_loop max_attempts 0 ctx deadline (from_secs settings.timeouts.connect_secs) replay s
          fresh_retry in
      conclude route.backend_id s' retry end

  -- The handler from the preparation of the body on.
  unfoldable pub drive :
      Settings e
      → ℕ
      → IpAddr
      → Option PeerIdentity
      → CacheNegotiation
      → ResolvedRoute
      → Request (Headers e) e.Body
      → Server e
      → Server e × Reply
  drive settings start client_ip client_identity n route req s =
      drive_ready settings start client_ip client_identity n route
        (prepare_replay_body e req settings n.request_is_zstd s)

  unfoldable pub serve_routed :
      Settings e
      → ℕ
      → IpAddr
      → Option PeerIdentity
      → CacheNegotiation
      → Request (Headers e) e.Body
      → Server e × Result (Answer e) ResolvedRoute
      → Server e × Reply
  serve_routed settings start client_ip client_identity n req (s, err response) =
      (s, plain response)
  serve_routed settings start client_ip client_identity n req (s, ok route) =
      drive settings start client_ip client_identity n route req s

  unfoldable pub serve_decided :
      Settings e
      → ReloadableState
      → ℕ
      → IpAddr
      → Option PeerIdentity
      → Request (Headers e) e.Body
      → Server e × CacheDecision e
      → Server e × Reply
  serve_decided settings state start client_ip client_identity req (s, hit response) =
      (s, plain response)
  serve_decided settings state start client_ip client_identity req (s, miss n) =
      serve_routed settings start client_ip client_identity n req
        (route_and_admit settings state req.parts.path s)

  -- The handler from the cache on.
  unfoldable pub serve :
      Settings e
      → ReloadableState
      → ℕ
      → IpAddr
      → Option PeerIdentity
      → Request (Headers e) e.Body
      → Server e
      → Server e × Reply
  serve settings state start client_ip client_identity req s =
      serve_decided settings state start client_ip client_identity req
        (negotiate_cache e settings req.parts client_identity s)

  abbrev pub answer_from : ErrorResponse → Answer e
  answer_from r = error_body e r.status r.message

  unfoldable pub serve_admitted :
      Settings e
      → ReloadableState
      → ℕ
      → IpAddr
      → Option PeerIdentity
      → Request (Headers e) e.Body
      → Server e
      → Option ErrorResponse
      → Server e × Reply
  serve_admitted settings state start client_ip client_identity req s (some response) =
      (s, plain (answer_from response))
  serve_admitted settings state start client_ip client_identity req s none =
      serve settings state start client_ip client_identity req s

  -- The handler from the gates on.
  unfoldable pub gated :
      Settings e
      → ReloadableState
      → Request (Headers e) e.Body
      → Server e
      → ClientAdmission
      → Server e × Reply
  gated settings state req s (reject response) = (s, plain response)
  gated settings state req s (proceed start client_ip client_identity) =
      let (buckets, rejected) =
        reject_before_routing e.net e.check_key state.acl client_ip s.buckets state.client_auth
          client_identity state.revocation in
      serve_admitted settings state start client_ip client_identity req
        (record s { buckets = buckets }) rejected

  unfoldable pub proxy_handler :
      Settings e
      → ReloadableState
      → ConnectInfo
      → Request (Headers e) e.Body
      → Server e
      → Server e × Reply
  proxy_handler settings state connect_info req s =
      let (s', admission) = admit_client state.shutdown connect_info s in
      gated settings state req s' admission
