-- ===== src/Proxy/Course/Released.antt =====
-- No permit is lost (`proxy_handler` of src/proxy/handler.rs).
use reduction.Prelude.{
  ℕ, ◌+◌, ◌≡◌, refl, sym, ap, ◌∙◌, subst, Bool, true, false, Option, none, some, [], arith, ltb,
  if◌then◌else◌, unwrap_or, Text, codes,
}
use reduction.Prelude.Results.{Result, ok, err}
use reduction.Acl.{IpAddr}
use reduction.Admission.{ErrorResponse, reject_before_routing}
use reduction.Cache.{from_secs}
use reduction.Tunnel.Revocation.{PeerIdentity}
use reduction.Proxy.{error_body, Env, Parts, Request, Headers, Backend, Server, Settings}
use reduction.Proxy.Attempt.Counts.{left_of, Takes, taken_by, take_one}
use reduction.Proxy.Attempt.Frames.{permits}
use reduction.Proxy.Attempt.Sends.{Member}
use reduction.Proxy.Course.{
  answer_from, ReloadableState, ConnectInfo, ip_of, identity_of, draining, reject, proceed,
  admit_client, ResolvedRoute, resolve_backend_pool, take_queue_permit, admit_route,
  route_and_admit, retry_loop, Reply, plain, fresh_retry, ctx_of, drive_ready, drive, serve_routed,
  serve_decided, serve, serve_admitted, gated, proxy_handler,
}
use reduction.Proxy.Replay.{
  PreparedBody, ready, respond_with, prepare_replay_body, buffered, buffered_after,
  decompress_request, buffer_request_body,
}
use reduction.Proxy.Store.{
  Answer, CacheNegotiation, CacheDecision, hit, miss, negotiate_cache, try_serve_from_cache,
}
use reduction.Proxy.Course.Permits.{
  conn_holder, queue_holder, retry_loop-Holds, Settles, Queued, Takes-none, released-Settles,
  conclude-Settles,
}

module _ (e : Env) where
  prepare_replay_body-permits :
      (req : Request (Headers e) e.Body) (settings : Settings e) (zstd : Bool) (s : Server e)
      → permits e (prepare_replay_body e req settings zstd s).0 ≡ permits e s
  unfolding prepare_replay_body buffered_after buffered decompress_request buffer_request_body
  prepare_replay_body-permits req settings zstd s = ground arith

  negotiate_cache-permits :
      (settings : Settings e) (parts : Parts (Headers e)) (identity : Option PeerIdentity)
      (s : Server e)
      → permits e (negotiate_cache e settings parts identity s).0 ≡ permits e s
  unfolding negotiate_cache try_serve_from_cache
  negotiate_cache-permits settings parts identity s = ground arith

  -- The backend whose queue the request stands in.
  abbrev pub queue_of : Result (Answer e) (ResolvedRoute e) → Text
  queue_of (ok route) = route.backend_id
  queue_of (err x) = []

  -- The backends that a path leads to have the most permits that is assumed.
  abbrev pub RouteCapped : (Text → ℕ) → Result (Answer e) (ResolvedRoute e) → Type 0
  RouteCapped most (err x) = Unit
  RouteCapped most (ok route) =
      (b : Backend e) → Member e route.pool b → b.max_connections ≡ most b.id

  Settles-same :
      (most depth : Text → ℕ) (id : Text) (s t : Server e) (x : Answer e)
      → permits e t ≡ permits e s
      → Settles e most depth id s (t, plain x)
  Settles-same most depth id s t x h = (
    subst (λ m. Takes e most none s.conn_limits m) (sym (ap (λ p. p.0) h))
        (Takes-none e most depth s.conn_limits),
    subst (λ m. Takes e depth none s.queues m) (sym (ap (λ p. p.1) h))
        (Takes-none e depth most s.queues),
  )

  Settles-from :
      (most depth : Text → ℕ) (id : Text) (s t : Server e) (r : Server e × Reply e)
      → permits e t ≡ permits e s
      → Settles e most depth id t r
      → Settles e most depth id s r
  Settles-from most depth id s t r h (conn, queue) = (
    subst (λ m. Takes e most (conn_holder e r.1) m r.0.conn_limits) (ap (λ p. p.0) h) conn,
    subst (λ m. Takes e depth (queue_holder e id r.1) m r.0.queues) (ap (λ p. p.1) h) queue,
  )

  Queued-to :
      (most depth : Text → ℕ) (id : Text) (s t u : Server e)
      → permits e u ≡ permits e t
      → Queued e most depth id s t
      → Queued e most depth id s u
  Queued-to most depth id s t u h (conn, queue) = (
    subst (λ m. Takes e most none s.conn_limits m) (sym (ap (λ p. p.0) h)) conn,
    subst (λ m. Takes e depth (some id) s.queues m) (sym (ap (λ p. p.1) h)) queue,
  )

module _ (e : Env) (settings : Settings e) (most : Text → ℕ) where
  abbrev depth : Text → ℕ
  depth id = settings.default_queue_depth

  drive_ready-Settles :
      (start : ℕ) (ip : IpAddr) (identity : Option PeerIdentity) (n : CacheNegotiation)
      (route : ResolvedRoute e) (s : Server e) (r : Server e × PreparedBody e)
      → RouteCapped e most (ok route)
      → Queued e most depth route.backend_id s r.0
      → Settles e most depth route.backend_id s (drive_ready e settings start ip identity n route r)
  unfolding drive_ready
  drive_ready-Settles start ip identity n route s (t, respond_with x) c h =
      released-Settles e most depth route.backend_id s t x h
  drive_ready-Settles start ip identity n route s (t, ready replay max_attempts) c h =
      let ctx = ctx_of e settings ip identity n route max_attempts in
      let deadline =
        start + from_secs (unwrap_or route.timeout_secs settings.timeouts.request_secs) in
      let budget = from_secs settings.timeouts.connect_secs in
      let ran = retry_loop e max_attempts 0 ctx deadline budget replay t (fresh_retry e) in
      let (took, same) =
        retry_loop-Holds e most ctx c deadline budget max_attempts 0 replay t (fresh_retry e) in
      conclude-Settles e most depth route.backend_id s ran.0 ran.1 ran.2 (
        (λ id. omega (arith, h.0.0 id, took.0 id), took.1),
        subst (λ m. Takes e depth (some route.backend_id) s.queues m) (sym same) h.1,
      )

  admit_if-Settles :
      (start : ℕ) (ip : IpAddr) (identity : Option PeerIdentity) (n : CacheNegotiation)
      (req : Request (Headers e) e.Body) (route : ResolvedRoute e) (granted : Bool) (s t : Server e)
      → RouteCapped e most (ok route)
      → Takes e most none s.conn_limits t.conn_limits
      → Takes e depth (taken_by e route.backend_id granted) s.queues t.queues
      → Settles e most depth route.backend_id s (
          serve_routed e settings start ip identity n req
            (t, if granted then ok route else err (error_body e 503 (codes "queue full"))))
  unfolding serve_routed drive
  admit_if-Settles start ip identity n req route false s t c conn queue = (conn, queue)
  admit_if-Settles start ip identity n req route true s t c conn queue =
      let prepared = prepare_replay_body e req settings n.request_is_zstd t in
      drive_ready-Settles start ip identity n route s prepared c (
        Queued-to e most depth route.backend_id s t prepared.0
          (prepare_replay_body-permits e req settings n.request_is_zstd t) (conn, queue))

  admitted-Settles :
      (start : ℕ) (ip : IpAddr) (identity : Option PeerIdentity) (n : CacheNegotiation)
      (req : Request (Headers e) e.Body) (r : Result (Answer e) (ResolvedRoute e)) (s : Server e)
      → RouteCapped e most r
      → Settles e most depth
          (queue_of e r)
          s
          (serve_routed e settings start ip identity n req (admit_route e settings r s))
  unfolding admit_route take_queue_permit serve_routed
  admitted-Settles start ip identity n req (err x) s c = Settles-same e most depth [] s s x refl
  admitted-Settles start ip identity n req (ok route) s c =
      let available = left_of e s.queues depth route.backend_id in
      admit_if-Settles start ip identity n req route (ltb 0 available) s
        (take_queue_permit e settings.default_queue_depth route.backend_id s).0 c
        (Takes-none e most depth s.conn_limits)
        (take_one e depth s.queues route.backend_id available refl)

  module _ (state : ReloadableState e) (ip : IpAddr) (identity : Option PeerIdentity)
      (req : Request (Headers e) e.Body)
      (capped : RouteCapped e most (resolve_backend_pool e state req.parts.path)) where
    abbrev Kept : Server e → Server e × Reply e → Type 0
    Kept s r = Settles e most depth (queue_of e (resolve_backend_pool e state req.parts.path)) s r

    Kept-same : (s t : Server e) (x : Answer e) → permits e t ≡ permits e s → Kept s (t, plain x)
    Kept-same s t x h =
        Settles-same e most depth (queue_of e (resolve_backend_pool e state req.parts.path)) s t x h

    serve_decided-Settles :
        (start : ℕ) (s t : Server e) (d : CacheDecision e)
        → permits e t ≡ permits e s
        → Kept s (serve_decided e settings state start ip identity req (t, d))
    unfolding serve_decided route_and_admit
    serve_decided-Settles start s t (hit x) h = Kept-same s t x h
    serve_decided-Settles start s t (miss n) h =
        let resolved = resolve_backend_pool e state req.parts.path in
        Settles-from e most depth (queue_of e resolved) s t
          (serve_routed e settings start ip identity n req (admit_route e settings resolved t)) h
          (admitted-Settles start ip identity n req resolved t capped)

    serve_admitted-Settles :
        (start : ℕ) (s t : Server e) (o : Option ErrorResponse)
        → permits e t ≡ permits e s
        → Kept s (serve_admitted e settings state start ip identity req t o)
    unfolding serve_admitted serve
    serve_admitted-Settles start s t (some x) h = Kept-same s t (answer_from e x) h
    serve_admitted-Settles start s t none h =
        let d = negotiate_cache e settings req.parts identity t in
        serve_decided-Settles start s d.0 d.1
          (negotiate_cache-permits e settings req.parts identity t ∙ h)

    gated-Settles :
        (shutdown : Bool) (start : ℕ) (s t : Server e)
        → permits e t ≡ permits e s
        → Kept s (
            gated e settings state req t
              (if shutdown then reject (draining e) else proceed start ip identity))
    unfolding gated
    gated-Settles true start s t h = Kept-same s t (draining e) h
    gated-Settles false start s t h =
        let checked =
          reject_before_routing e.net e.check_key state.acl ip t.buckets state.client_auth identity
            state.revocation in
        serve_admitted-Settles start s (record t { buckets = checked.0 }) checked.1 h

  -- Once the handler has answered, every permit is back that it took, of connections and of queues,
  -- but for those that the body of the answer holds: a streamed response of a backend holds one
  -- permit of that backend, and it or a last failed response one of the queue of the route. The
  -- backends of the route are assumed to have one configured maximum for each id.
  pub proxy_handler-Settles :
      (state : ReloadableState e) (info : ConnectInfo e) (req : Request (Headers e) e.Body)
      (s : Server e)
      → RouteCapped e most (resolve_backend_pool e state req.parts.path)
      → Settles e most
          (λ id. settings.default_queue_depth)
          (queue_of e (resolve_backend_pool e state req.parts.path))
          s
          (proxy_handler e settings state info req s)
  unfolding proxy_handler admit_client
  proxy_handler-Settles state info req s capped =
      let (world, start) = e.now s.world in
      gated-Settles state (ip_of e info) (identity_of e info) req capped state.shutdown start s
        (record s { world = world }) refl
