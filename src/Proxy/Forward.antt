-- ===== src/Proxy/Forward.antt =====
-- One request to one backend (`forward_request` of src/proxy/handler.rs, and the injection of the trace
-- context by `HeaderInjector` of src/proxy/handler/headers.rs).
use reduction.Prelude.{ℕ, Option, none, some, List, [], ◌∷◌, Text, codes}
use reduction.Prelude.Results.{Result, ok, err}
use reduction.Acl.{IpAddr}
use reduction.Error.{ReductionError, forward}
use reduction.Handler.Headers.{
  apply_identity_headers, apply_forwarded_headers, strip_hop_by_hop_headers, ForwardError,
}
use reduction.Tunnel.Revocation.{PeerIdentity}
use reduction.Proxy.{Env, Request, Response, Headers, Backend, Server}

module _ (e : Env) where
  -- `HeaderInjector::set`.
  unfoldable pub set_header : Option Text → Option Text → Headers e → Headers e
  set_header (some name) (some val) headers = e.http.insert name val headers
  set_header (some name) none headers = headers
  set_header none val headers = headers

  -- Each pair of the propagator.
  unfoldable pub inject : List (Text × Text) → Headers e → Headers e
  inject [] headers = headers
  inject ((key, value) ∷ pairs) headers =
      inject pairs (set_header (e.from_bytes key) (e.from_str value) headers)

  abbrev pub failed : ForwardError → ReductionError
  failed _ = forward (codes "invalid header")

  -- The headers after `apply_identity_headers`.
  unfoldable pub traced :
      e.World → Headers e × Option ForwardError → Result ReductionError (Headers e)
  traced world (headers, some x) = err (failed x)
  traced world (headers, none) = ok (inject (e.trace_pairs world) headers)

  -- The headers after `apply_forwarded_headers`.
  unfoldable pub identified :
      Option PeerIdentity
      → e.World
      → Headers e × Option ForwardError
      → Result ReductionError (Headers e)
  identified identity world (headers, some x) = err (failed x)
  identified identity world (headers, none) =
      traced world (apply_identity_headers e.http e.from_str headers identity)

  unfoldable pub addressed :
      Option PeerIdentity
      → IpAddr
      → Headers e
      → e.World
      → Option Text
      → Result ReductionError (Headers e)
  addressed identity client_ip headers world none = err (forward (codes "invalid host header"))
  addressed identity client_ip headers world (some host) = identified identity world (
      apply_forwarded_headers e.http e.from_str (e.http.insert (codes "host") host headers)
        (e.show_ip client_ip))

  -- The headers of the request to the backend.
  unfoldable pub outbound_headers :
      Backend e
      → Option PeerIdentity
      → IpAddr
      → Headers e
      → e.World
      → Result ReductionError (Headers e)
  outbound_headers backend identity client_ip headers world =
      addressed identity client_ip (strip_hop_by_hop_headers e.http e.to_str e.from_bytes headers)
        world (e.from_str backend.host)

  -- The response, with its body held to the limit.
  unfoldable pub limited_response : ℕ → Response (Headers e) e.Body → Response (Headers e) e.Body
  limited_response cap response = record {
    status = response.status;
    headers = strip_hop_by_hop_headers e.http e.to_str e.from_bytes response.headers;
    body = e.limited cap response.body;
  }

  abbrev pub limited_result :
      ℕ
      → Result ReductionError (Response (Headers e) e.Body)
      → Result ReductionError (Response (Headers e) e.Body)
  limited_result cap (err x) = err x
  limited_result cap (ok response) = ok (limited_response cap response)

  unfoldable pub deliver :
      ℕ
      → Backend e
      → ℕ
      → Request (Headers e) e.Body
      → Server e
      → Server e × Result ReductionError (Response (Headers e) e.Body)
  deliver cap backend request_timeout request s =
      let (world, result) = e.send_request backend request_timeout request s.world in
      (
        record s { world = world; sent = record { backend = backend; request = request } ∷ s.sent },
        limited_result cap result,
      )

  -- The request is built with its new headers and sent.
  unfoldable pub send_with :
      ℕ
      → Request (Headers e) e.Body
      → Backend e
      → ℕ
      → Server e
      → Result ReductionError (Headers e)
      → Server e × Result ReductionError (Response (Headers e) e.Body)
  send_with cap req backend request_timeout s (err x) = (s, err x)
  send_with cap req backend request_timeout s (ok headers) =
      deliver cap backend request_timeout
        (record { parts = record req.parts { headers = headers }; body = req.body }) s

  -- What follows `acquire`.
  unfoldable pub forward_acquired :
      ℕ
      → Request (Headers e) e.Body
      → Backend e
      → ℕ
      → Option PeerIdentity
      → IpAddr
      → Server e
      → Option ReductionError
      → Server e × Result ReductionError (Response (Headers e) e.Body)
  forward_acquired cap req backend request_timeout identity client_ip s (some x) = (s, err x)
  forward_acquired cap req backend request_timeout identity client_ip s none =
      send_with cap req backend request_timeout s
        (outbound_headers backend identity client_ip req.parts.headers s.world)

  unfoldable pub forward_request :
      ℕ
      → Request (Headers e) e.Body
      → Backend e
      → ℕ
      → Option PeerIdentity
      → IpAddr
      → Server e
      → Server e × Result ReductionError (Response (Headers e) e.Body)
  forward_request cap req backend request_timeout identity client_ip s =
      let (world, missed) = e.acquire backend s.world in
      forward_acquired cap req backend request_timeout identity client_ip
        (record s { world = world }) missed
