-- ===== src/Proxy/Course/Whole.antt =====
-- The requests that the handler sends for one request of a client (`proxy_handler` of
-- src/proxy/handler.rs).
use reduction.Prelude.{
  ℕ, ◌+◌, ◌≡◌, refl, ap, ◌∙◌, Bool, true, false, Option, none, some, arith, ltb, if◌then◌else◌,
  unwrap_or, Text, codes,
}
use reduction.Prelude.Results.{Result, ok, err}
use reduction.Acl.{IpAddr}
use reduction.Cache.{from_secs}
use reduction.Admission.{ErrorResponse, reject_before_routing}
use reduction.Handler.Headers.{header_client_id, header_client_spki}
use reduction.Tunnel.Revocation.{PeerIdentity}
use reduction.Proxy.{error_body, Env, Parts, Request, Headers, Sent, Server, Settings, RetryState}
use reduction.Proxy.Attempt.Sends.{Member}
use reduction.Proxy.Attempt.Reach.{Sends, Sends-none, Sends-weak, Sends-from, Sends-to}
use reduction.Proxy.Course.{
  ReloadableState, ConnectInfo, ip_of, identity_of, draining, reject, proceed, admit_client,
  ResolvedRoute, resolve_backend_pool, take_queue_permit, release_queue_permit, admit_route,
  route_and_admit, LoopEnd, exhausted, returned, streamed, retry_loop, conclude, fresh_retry,
  ctx_of, drive_ready, drive, serve_routed, serve_decided, serve, serve_admitted, gated,
  proxy_handler,
}
use reduction.Proxy.Course.Attempts.{allowance, good_for-le, Allowed, retry_loop-Sends}
use reduction.Proxy.Course.Prepared.{SameLine, IsReady, prepare_replay_body-IsReady}
use reduction.Proxy.Course.Seen.{Unnamed, Identified, outbound_headers-Identified}
use reduction.Proxy.Replay.{PreparedBody, ready, respond_with, attempts_of, prepare_replay_body}
use reduction.Proxy.Store.{
  Answer, CacheNegotiation, CacheDecision, hit, miss, negotiate_cache, try_serve_from_cache,
}

module _ (e : Env) where
  negotiate_cache-sent :
      (settings : Settings e) (parts : Parts (Headers e)) (identity : Option PeerIdentity)
      (s : Server e)
      → (negotiate_cache e settings parts identity s).0.sent ≡ s.sent
  unfolding negotiate_cache try_serve_from_cache
  negotiate_cache-sent settings parts identity s = ground arith

  ok_if :
      (b : Bool) (found route : ResolvedRoute e) (x : Answer e)
      → (if b then ok found else err x) ≡ ok route
      → Path (Result (Answer e) (ResolvedRoute e)) (ok found) (ok route)
  ok_if true found route x h = h
  ok_if false found route x h = cc h

module _ (e : Env) (settings : Settings e) (state : ReloadableState e) where
  -- The trace context carries no identity headers.
  abbrev pub Quiet : Type 0
  Quiet =
      (world : e.World)
      → Unnamed e header_client_id (e.trace_pairs world)
        × Unnamed e header_client_spki (e.trace_pairs world)

  -- A request as the client's request may be sent on: with its method and path, the identity that the
  -- handshake proved, and to a backend of the pool that the path is routed to.
  pub record Faithful (identity : Option PeerIdentity) (parts : Parts (Headers e)) (sent : Sent e)
      : Type 0 where
    pub method : sent.request.parts.method ≡ parts.method
    pub path : sent.request.parts.path ≡ parts.path
    pub path_and_query : sent.request.parts.path_and_query ≡ parts.path_and_query
    pub identified : Identified e identity sent.request.parts.headers
    pub routed :
        (route : ResolvedRoute e) × (resolve_backend_pool e state parts.path ≡ ok route)
        × Member e route.pool sent.backend

  module _ (quiet : Quiet) (client_ip : IpAddr) (identity : Option PeerIdentity)
      (req : Request (Headers e) e.Body) where
    abbrev Told : Server e → Server e → Type 0
    Told s t = Sends e (Faithful identity req.parts) (attempts_of e settings req.parts) s t

    Told-same : (s t : Server e) → t.sent ≡ s.sent → Told s t
    Told-same s t h =
        Sends-none e (Faithful identity req.parts) (attempts_of e settings req.parts) s t h

    line-Allowed :
        (n : CacheNegotiation) (route : ResolvedRoute e) (max_attempts : ℕ)
        (parts : Parts (Headers e))
        → resolve_backend_pool e state req.parts.path ≡ ok route
        → SameLine e parts req.parts
        → Allowed e
            (Faithful identity req.parts)
            (ctx_of e settings client_ip identity n route max_attempts)
            parts
    line-Allowed n route max_attempts parts r l b sub member same world headers built = record {
      method = ap (λ p. p.method) same ∙ l.method;
      path = ap (λ p. p.path) same ∙ l.path;
      path_and_query = ap (λ p. p.path_and_query) same ∙ l.path_and_query;
      identified =
          outbound_headers-Identified e b identity client_ip sub.parts.headers world headers
            (quiet world).0 (quiet world).1 built;
      routed = (route, r, member);
    }

    release_queue_permit-sent :
        (id : Text) (s : Server e) → (release_queue_permit e id s).sent ≡ s.sent
    unfolding release_queue_permit
    release_queue_permit-sent id s = ground arith

    conclude-sent :
        (id : Text) (s : Server e) (retry : RetryState e) (end : LoopEnd e)
        → (conclude e id s retry end).0.sent ≡ s.sent
    unfolding conclude release_queue_permit
    conclude-sent id s retry exhausted = ground arith
    conclude-sent id s retry (returned r) = ground arith
    conclude-sent id s retry (streamed r sel) = refl

    drive_ready-Told :
        (start : ℕ) (n : CacheNegotiation) (route : ResolvedRoute e) (s : Server e)
        (r : Server e × PreparedBody e)
        → resolve_backend_pool e state req.parts.path ≡ ok route
        → IsReady e settings req.parts s r
        → Told s (drive_ready e settings start client_ip identity n route r).0
    unfolding drive_ready release_queue_permit
    drive_ready-Told start n route s (t, respond_with x) k (h, made) =
        Told-same s (release_queue_permit e route.backend_id t)
          (release_queue_permit-sent route.backend_id t ∙ h)
    drive_ready-Told start n route s (t, ready replay max_attempts) k (h, made) =
        let ctx = ctx_of e settings client_ip identity n route max_attempts in
        let deadline =
          start + from_secs (unwrap_or route.timeout_secs settings.timeouts.request_secs) in
        let budget = from_secs settings.timeouts.connect_secs in
        let P = Faithful identity req.parts in
        let ran = retry_loop e max_attempts 0 ctx deadline budget replay t (fresh_retry e) in
        let (line, count) = made replay max_attempts refl in
        let least = good_for-le e replay.body_bytes replay.streaming_body max_attempts in
        Sends-to e P (attempts_of e settings req.parts) s ran.0
          (conclude e route.backend_id ran.0 ran.1 ran.2).0
          (conclude-sent route.backend_id ran.0 ran.1 ran.2)
          (Sends-weak e P (allowance e replay max_attempts) (attempts_of e settings req.parts) s
            ran.0 (omega (arith, least, count))
            (Sends-from e P (allowance e replay max_attempts) s t ran.0 h (
              retry_loop-Sends e P ctx deadline budget max_attempts 0 replay t (fresh_retry e)
                (line-Allowed n route max_attempts replay.req_parts k line))))

    serve_routed-Told :
        (start : ℕ) (n : CacheNegotiation) (s t : Server e)
        (r : Result (Answer e) (ResolvedRoute e))
        → t.sent ≡ s.sent
        → ((route : ResolvedRoute e)
            → r ≡ ok route
            → resolve_backend_pool e state req.parts.path ≡ ok route)
        → Told s (serve_routed e settings start client_ip identity n req (t, r)).0
    unfolding serve_routed drive
    serve_routed-Told start n s t (err x) h k = Told-same s t h
    serve_routed-Told start n s t (ok route) h k =
        let prepared = prepare_replay_body e req settings n.request_is_zstd t in
        let P = Faithful identity req.parts in
        Sends-from e P (attempts_of e settings req.parts) s t
          (drive_ready e settings start client_ip identity n route prepared).0 h
          (drive_ready-Told start n route t prepared (k route refl)
            (prepare_replay_body-IsReady e req settings n.request_is_zstd t))

    -- A route that is admitted is the one that was resolved.
    admit_route_lem :
        (r : Result (Answer e) (ResolvedRoute e)) (s : Server e)
        → ((admit_route e settings r s).0.sent ≡ s.sent)
          × ((route : ResolvedRoute e) → (admit_route e settings r s).1 ≡ ok route → r ≡ ok route)
    unfolding admit_route take_queue_permit
    admit_route_lem (err x) s = (refl, λ route h. h)
    admit_route_lem (ok found) s = (
      refl,
      λ route h.
          ok_if e
            (ltb 0
              (unwrap_or (e.counts.get found.backend_id s.queues) settings.default_queue_depth))
            found route (error_body e 503 (codes "queue full")) h,
    )

    serve_decided-Told :
        (start : ℕ) (s t : Server e) (d : CacheDecision e)
        → t.sent ≡ s.sent
        → Told s (serve_decided e settings state start client_ip identity req (t, d)).0
    unfolding serve_decided route_and_admit
    serve_decided-Told start s t (hit x) h = Told-same s t h
    serve_decided-Told start s t (miss n) h =
        let resolved = resolve_backend_pool e state req.parts.path in
        let admitted = admit_route e settings resolved t in
        let (same, from) = admit_route_lem resolved t in
        serve_routed-Told start n s admitted.0 admitted.1 (same ∙ h) from

    serve_admitted-Told :
        (start : ℕ) (s t : Server e) (o : Option ErrorResponse)
        → t.sent ≡ s.sent
        → Told s (serve_admitted e settings state start client_ip identity req t o).0
    unfolding serve_admitted serve
    serve_admitted-Told start s t (some x) h = Told-same s t h
    serve_admitted-Told start s t none h =
        let d = negotiate_cache e settings req.parts identity t in
        serve_decided-Told start s d.0 d.1
          (negotiate_cache-sent e settings req.parts identity t ∙ h)

    gated-Told :
        (shutdown : Bool) (start : ℕ) (s t : Server e)
        → t.sent ≡ s.sent
        → Told s
            (gated e settings state req t
              (if shutdown then reject (draining e) else proceed start client_ip identity)).0
    unfolding gated
    gated-Told true start s t h = Told-same s t h
    gated-Told false start s t h =
        let checked =
          reject_before_routing e.net e.check_key state.acl client_ip t.buckets state.client_auth
            identity state.revocation in
        serve_admitted-Told start s (record t { buckets = checked.0 }) checked.1 h

  -- What the handler sends for one request of a client: at most as many requests as the method and the
  -- idempotency key allow (one, where a retry is not permitted, and else one more than max_retries, as
  -- u32), each to a backend of the pool that the path is routed to, with the client's method and path,
  -- and with the identity headers that the handshake proved and no others, whatever the client sent.
  pub proxy_handler-Sends :
      Quiet
      → (info : ConnectInfo e) (req : Request (Headers e) e.Body) (s : Server e)
      → Sends e
          (Faithful (identity_of e info) req.parts)
          (attempts_of e settings req.parts)
          s
          (proxy_handler e settings state info req s).0
  unfolding proxy_handler admit_client
  proxy_handler-Sends quiet info req s =
      let (world, start) = e.now s.world in
      gated-Told quiet (ip_of e info) (identity_of e info) req state.shutdown start s
        (record s { world = world }) refl
