-- ===== src/Proxy/Attempt/Sends.antt =====
-- What an attempt sends (src/proxy/handler/attempt.rs): at most one request, by `forward_request`, to
-- the backend that was selected.
use reduction.Prelude.{
  ℕ, ◌≡◌, refl, sym, ap, ◌∙◌, subst, inl, inr, Bool, true, false, Option, none, some, List, arith,
  get_elem?, Text,
}
use reduction.Prelude.Results.{Result, ok, err}
use reduction.Acl.{IpAddr}
use reduction.Balancer.{BackendPool}
use reduction.Balancer.Selection.{selects-Eligible, Eligible}
use reduction.Circuit.{CircuitState, opened, half_open, closed}
use reduction.Handler.{is_retryable_status}
use reduction.Error.{ReductionError}
use reduction.Proxy.{Env, Parts, Headers, Backend, Server, RequestCtx, RetryState}
use reduction.Proxy.Gate.{
  connection_pressure, Skip, Selected, release_permit, gate, select_backend_excluding,
}
use reduction.Proxy.Store.{Answer, store_and_respond}
use reduction.Proxy.Attempt.{
  drop_probe, count_failure, AttemptOutcome, try_next, stop, return_it, stream, let_go,
  record_failure, record_success, park_for_wake, handle_forward_error, respond, handle_answer,
  handle_response, finish,
}

module _ (e : Env) where
  release_permit-sent : (id : Text) (s : Server e) → (release_permit e id s).sent ≡ s.sent
  unfolding release_permit
  release_permit-sent id s = ground arith

  drop_probe-sent : (g : Option ℕ) (s : Server e) → (drop_probe e g s).sent ≡ s.sent
  drop_probe-sent none s = refl
  drop_probe-sent (some cell) s = refl

  pub let_go-sent : (sel : Selected e) (s : Server e) → (let_go e sel s).sent ≡ s.sent
  unfolding let_go
  let_go-sent sel s =
      drop_probe-sent sel.half_open_guard (release_permit e sel.backend.id s)
      ∙ release_permit-sent sel.backend.id s

  record_failure-sent : (id : Text) (s : Server e) → (record_failure e id s).sent ≡ s.sent
  unfolding record_failure
  record_failure-sent id s = refl

  record_success-sent : (id : Text) (s : Server e) → (record_success e id s).sent ≡ s.sent
  unfolding record_success
  record_success-sent id s = refl

  handle_forward_error-sent :
      (ctx : RequestCtx e) (attempt : ℕ) (b : Backend e) (x : ReductionError) (s : Server e)
      (retry : RetryState e)
      → (handle_forward_error e ctx attempt b x s retry).0.sent ≡ s.sent
  unfolding handle_forward_error park_for_wake record_failure
  handle_forward_error-sent ctx attempt b x s retry = ground arith

  respond-sent :
      (ctx : RequestCtx e) (sel : Selected e) (response : Answer e) (parts : Parts (Headers e))
      (s : Server e)
      → (respond e ctx sel response parts s).0.sent ≡ s.sent
  unfolding respond store_and_respond
  respond-sent ctx sel response parts s = ground arith

  count_failure-sent :
      (b : Bool) (id : Text) (s : Server e) → (count_failure e b id s).sent ≡ s.sent
  count_failure-sent true id s = record_failure-sent id s
  count_failure-sent false id s = refl

  handle_answer-sent :
      (ctx : RequestCtx e) (attempt : ℕ) (sel : Selected e) (response : Answer e)
      (parts : Parts (Headers e)) (s : Server e) (retry : RetryState e)
      → (handle_answer e ctx attempt sel response parts s retry).0.sent ≡ s.sent
  unfolding handle_answer
  handle_answer-sent ctx attempt sel response parts s retry =
      let id = sel.backend.id in
      let counted = count_failure e (is_retryable_status response.status) id s in
      ground (
        arith,
        count_failure-sent (is_retryable_status response.status) id s,
        record_failure-sent id counted,
        record_success-sent id counted,
        respond-sent ctx sel response parts (record_failure e id counted),
        respond-sent ctx sel response parts (record_success e id counted),
      )

  pub handle_response-sent :
      (ctx : RequestCtx e) (attempt : ℕ) (sel : Selected e)
      (result : Result ReductionError (Answer e)) (parts : Parts (Headers e)) (s : Server e)
      (retry : RetryState e)
      → (handle_response e ctx attempt sel result parts s retry).0.sent ≡ s.sent
  unfolding handle_response
  handle_response-sent ctx attempt sel (ok r) parts s retry =
      handle_answer-sent ctx attempt sel r parts s retry
  handle_response-sent ctx attempt sel (err x) parts s retry =
      handle_forward_error-sent ctx attempt sel.backend x s retry

  pub finish-sent :
      (sel : Selected e) (o : AttemptOutcome e) (s : Server e) → (finish e sel o s).sent ≡ s.sent
  unfolding finish
  finish-sent sel try_next s = let_go-sent sel s
  finish-sent sel stop s = let_go-sent sel s
  finish-sent sel (return_it r) s = let_go-sent sel s
  finish-sent sel (stream r kept) s = refl

  -- A backend of the pool.
  abbrev pub Member : BackendPool e.f64 → Backend e → Type 0
  Member pool b = (i : ℕ) × (get_elem? pool.backends i ≡ some b)

  pub select_backend_excluding-Member :
      (pool : BackendPool e.f64) (ip : IpAddr) (s : Server e) (excluded : List Text) (b : Backend e)
      → select_backend_excluding e pool ip s excluded ≡ some b
      → Member pool b
  unfolding select_backend_excluding Eligible
  select_backend_excluding-Member pool ip s excluded b h =
      elim (selects-Eligible e.f64 (e.weight_factor s.world)
        (λ c. connection_pressure e s c.id c.max_connections) (e.rendezvous_score ip) excluded
        pool) [
          | inl n ↦ cc (n.0, h)
          | inr p ↦ (let (b', at, inside) = p in (inside.0, inside.1 ∙ sym at ∙ h))
        ]

  -- After a choice nothing was sent, and what is chosen is a backend of the pool.
  abbrev pub Chosen :
      RequestCtx e → Server e → Server e × RetryState e × Result Skip (Selected e) → Type 0
  Chosen ctx s r =
      (r.0.sent ≡ s.sent) × ((sel : Selected e) → r.2 ≡ ok sel → Member ctx.pool sel.backend)

  abbrev backend_of : (b : Backend e) → Result Skip (Selected e) → Backend e
  backend_of b (ok sel) = sel.backend
  backend_of b (err x) = b

  pub gate-Chosen :
      (ctx : RequestCtx e) (b : Backend e) (s : Server e) (retry : RetryState e)
      (answer : CircuitState × Option ℕ)
      → Member ctx.pool b
      → Chosen ctx s (gate e b s retry answer)
  unfolding gate
  gate-Chosen ctx b s retry (opened, g) m = (release_permit-sent b.id s, λ sel h. cc h)
  gate-Chosen ctx b s retry (half_open, g) m =
      (refl, λ sel h. subst (Member ctx.pool) (ap (backend_of b) h) m)
  gate-Chosen ctx b s retry (closed, g) m =
      (refl, λ sel h. subst (Member ctx.pool) (ap (backend_of b) h) m)
