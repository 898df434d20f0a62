-- ===== src/Proxy/Attempt/Frames.antt =====
-- What a request to a backend leaves as it is (src/proxy/handler/attempt.rs).
use reduction.Prelude.{ℕ, ◌≡◌, refl, Bool, true, false, Option, none, some, arith, Text}
use reduction.Prelude.Results.{Result, ok, err}
use reduction.Acl.{IpAddr}
use reduction.Error.{ReductionError}
use reduction.Handler.{is_retryable_status}
use reduction.Tunnel.Revocation.{PeerIdentity}
use reduction.Proxy.{Env, Parts, Request, Headers, Backend, Server, RequestCtx, RetryState}
use reduction.Proxy.Forward.{
  outbound_headers, deliver, send_with, forward_acquired, forward_request,
}
use reduction.Proxy.Gate.{Selected}
use reduction.Proxy.Store.{Answer, store_and_respond}
use reduction.Proxy.Attempt.{
  count_failure, record_failure, record_success, park_for_wake, handle_forward_error, respond,
  handle_answer, handle_response,
}

module _ (e : Env) where
  -- What a request to a backend, and what is made of its result, leaves as it is.
  abbrev pub Permits : Type 0
  Permits = e.counts.Map × e.counts.Map

  abbrev pub permits : Server e → Permits
  permits s = (s.conn_limits, s.queues)

  handle_forward_error-permits :
      (ctx : RequestCtx e) (attempt : ℕ) (b : Backend e) (x : ReductionError) (s : Server e)
      (retry : RetryState e)
      → permits (handle_forward_error e ctx attempt b x s retry).0 ≡ permits s
  unfolding handle_forward_error park_for_wake record_failure
  handle_forward_error-permits ctx attempt b x s retry = ground arith

  respond-permits :
      (ctx : RequestCtx e) (sel : Selected e) (response : Answer e) (parts : Parts (Headers e))
      (s : Server e)
      → permits (respond e ctx sel response parts s).0 ≡ permits s
  unfolding respond store_and_respond
  respond-permits ctx sel response parts s = ground arith

  record_failure-permits : (id : Text) (s : Server e) → permits (record_failure e id s) ≡ permits s
  unfolding record_failure
  record_failure-permits id s = refl

  record_success-permits : (id : Text) (s : Server e) → permits (record_success e id s) ≡ permits s
  unfolding record_success
  record_success-permits id s = refl

  count_failure-permits :
      (b : Bool) (id : Text) (s : Server e) → permits (count_failure e b id s) ≡ permits s
  count_failure-permits true id s = record_failure-permits id s
  count_failure-permits false id s = refl

  handle_answer-permits :
      (ctx : RequestCtx e) (attempt : ℕ) (sel : Selected e) (response : Answer e)
      (parts : Parts (Headers e)) (s : Server e) (retry : RetryState e)
      → permits (handle_answer e ctx attempt sel response parts s retry).0 ≡ permits s
  unfolding handle_answer
  handle_answer-permits ctx attempt sel response parts s retry =
      let id = sel.backend.id in
      let counted = count_failure e (is_retryable_status response.status) id s in
      ground (
        arith,
        count_failure-permits (is_retryable_status response.status) id s,
        record_failure-permits id counted,
        record_success-permits id counted,
        respond-permits ctx sel response parts (record_failure e id counted),
        respond-permits ctx sel response parts (record_success e id counted),
      )

  pub handle_response-permits :
      (ctx : RequestCtx e) (attempt : ℕ) (sel : Selected e)
      (result : Result ReductionError (Answer e)) (parts : Parts (Headers e)) (s : Server e)
      (retry : RetryState e)
      → permits (handle_response e ctx attempt sel result parts s retry).0 ≡ permits s
  unfolding handle_response
  handle_response-permits ctx attempt sel (ok r) parts s retry =
      handle_answer-permits ctx attempt sel r parts s retry
  handle_response-permits ctx attempt sel (err x) parts s retry =
      handle_forward_error-permits ctx attempt sel.backend x s retry

  send_with-permits :
      (cap : ℕ) (req : Request (Headers e) e.Body) (b : Backend e) (t : ℕ) (s : Server e)
      (r : Result ReductionError (Headers e))
      → permits (send_with e cap req b t s r).0 ≡ permits s
  unfolding send_with deliver
  send_with-permits cap req b t s (err x) = refl
  send_with-permits cap req b t s (ok headers) = refl

  forward_acquired-permits :
      (cap : ℕ) (req : Request (Headers e) e.Body) (b : Backend e) (t : ℕ)
      (identity : Option PeerIdentity) (ip : IpAddr) (s : Server e) (missed : Option ReductionError)
      → permits (forward_acquired e cap req b t identity ip s missed).0 ≡ permits s
  unfolding forward_acquired
  forward_acquired-permits cap req b t identity ip s (some x) = refl
  forward_acquired-permits cap req b t identity ip s none =
      send_with-permits cap req b t s (outbound_headers e b identity ip req.parts.headers s.world)

  pub forward_request-permits :
      (cap : ℕ) (req : Request (Headers e) e.Body) (b : Backend e) (t : ℕ)
      (identity : Option PeerIdentity) (ip : IpAddr) (s : Server e)
      → permits (forward_request e cap req b t identity ip s).0 ≡ permits s
  unfolding forward_request
  forward_request-permits cap req b t identity ip s =
      forward_acquired-permits cap req b t identity ip
        (record s { world = (e.acquire b s.world).0 }) (e.acquire b s.world).1
