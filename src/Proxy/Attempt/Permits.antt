-- ===== src/Proxy/Attempt/Permits.antt =====
-- The permits of the backends' connections over an attempt (src/proxy/handler/attempt.rs).
use reduction.Prelude.{
  ℕ, ◌≡◌, refl, sym, ap, ◌∙◌, subst, Bool, true, false, Option, none, some, arith, ltb,
  if◌then◌else◌, unwrap_or, Text,
}
use reduction.Prelude.Results.{Result, ok, err}
use reduction.Circuit.{CircuitState, opened, half_open, closed}
use reduction.Circuit.Cells
use reduction.Error.{ReductionError}
use reduction.Proxy.{
  Env, Parts, Request, Headers, Backend, Server, RequestCtx, RetryState, ReplayBody,
}
use reduction.Proxy.Forward.{forward_request}
use reduction.Proxy.Gate.{
  Skip, skip_break, skip_continue, Selected, release_permit, try_acquire_conn_permit, gate,
  ask_breaker, gate_chosen, select_any, select_and_gate,
}
use reduction.Proxy.Store.{Answer}
use reduction.Proxy.Attempt.Frames.{permits, handle_response-permits, forward_request-permits}
use reduction.Proxy.Attempt.Sends.{Member}
use reduction.Proxy.Attempt.Reach.{select_any-Member}
use reduction.Proxy.Attempt.{
  drop_probe, AttemptOutcome, try_next, stop, return_it, stream, build_retry_req, let_go,
  park_for_wake, handle_forward_error, respond, handle_answer, handle_response, finish,
  send_attempt, attempt_with, attempt_on, run_attempt,
}
use reduction.Proxy.Attempt.Counts.{Takes, taken_by, take_one, release_permit-Takes}

module _ (e : Env) where
  -- The backend whose permit the body of a response holds.
  abbrev pub holder_of : AttemptOutcome e → Option Text
  holder_of try_next = none
  holder_of stop = none
  holder_of (return_it r) = none
  holder_of (stream r kept) = some kept.backend.id

  abbrev kept_or : Selected e → AttemptOutcome e → Text
  kept_or sel try_next = sel.backend.id
  kept_or sel stop = sel.backend.id
  kept_or sel (return_it r) = sel.backend.id
  kept_or sel (stream r kept) = kept.backend.id

  handle_response-kept :
      (ctx : RequestCtx e) (attempt : ℕ) (sel : Selected e)
      (result : Result ReductionError (Answer e)) (parts : Parts (Headers e)) (s : Server e)
      (retry : RetryState e)
      → kept_or sel (handle_response e ctx attempt sel result parts s retry).2 ≡ sel.backend.id
  unfolding handle_response handle_answer respond handle_forward_error park_for_wake
  handle_response-kept ctx attempt sel (ok r) parts s retry = ground arith
  handle_response-kept ctx attempt sel (err x) parts s retry = ground arith

  -- From `s` to `t` the holder took a permit of its backend, and the queues are as they were.
  abbrev pub Holds : (Text → ℕ) → Option Text → Server e → Server e → Type 0
  Holds most holder s t = Takes e most holder s.conn_limits t.conn_limits × (t.queues ≡ s.queues)

  pub Holds-to :
      (most : Text → ℕ) (holder : Option Text) (s t u : Server e)
      → permits e u ≡ permits e t
      → Holds most holder s t
      → Holds most holder s u
  Holds-to most holder s t u h (took, same) = (
    subst (λ n. Takes e most holder s.conn_limits n) (sym (ap (λ p. p.0) h)) took,
    ap (λ p. p.1) h ∙ same,
  )

  pub Holds-none :
      (most : Text → ℕ) (s t : Server e) → permits e t ≡ permits e s → Holds most none s t
  Holds-none most s t h = Holds-to most none s s t h ((λ id. omega arith, tt), refl)

  pub Holds-more :
      (most : Text → ℕ) (holder : Option Text) (s t u : Server e)
      → Holds most none s t
      → Holds most holder t u
      → Holds most holder s u
  Holds-more most holder s t u ((counted, _), same) ((counted', there), same') =
      ((λ id. omega (arith, counted id, counted' id), there), same' ∙ same)

  release_permit-queues : (id : Text) (s : Server e) → (release_permit e id s).queues ≡ s.queues
  unfolding release_permit
  release_permit-queues id s = ground arith

  drop_probe-permits : (g : Option ℕ) (s : Server e) → permits e (drop_probe e g s) ≡ permits e s
  drop_probe-permits none s = refl
  drop_probe-permits (some cell) s = refl

  release_permit-Holds :
      (most : Text → ℕ) (s t : Server e) (id : Text)
      → Holds most (some id) s t
      → Holds most none s (release_permit e id t)
  release_permit-Holds most s t id (took, same) =
      (release_permit-Takes e most s.conn_limits id t took, release_permit-queues id t ∙ same)

  let_go-Holds :
      (most : Text → ℕ) (s t : Server e) (sel : Selected e)
      → Holds most (some sel.backend.id) s t
      → Holds most none s (let_go e sel t)
  unfolding let_go
  let_go-Holds most s t sel h =
      Holds-to most none s (release_permit e sel.backend.id t) (let_go e sel t)
        (drop_probe-permits sel.half_open_guard (release_permit e sel.backend.id t))
        (release_permit-Holds most s t sel.backend.id h)

  finish-Holds :
      (most : Text → ℕ) (s t : Server e) (sel : Selected e) (o : AttemptOutcome e)
      → kept_or sel o ≡ sel.backend.id
      → Holds most (some sel.backend.id) s t
      → Holds most (holder_of o) s (finish e sel o t)
  unfolding finish
  finish-Holds most s t sel try_next k h = let_go-Holds most s t sel h
  finish-Holds most s t sel stop k h = let_go-Holds most s t sel h
  finish-Holds most s t sel (return_it r) k h = let_go-Holds most s t sel h
  finish-Holds most s t sel (stream r kept) k h = subst (λ id. Holds most (some id) s t) (sym k) h

  abbrev Attempted : Type 0
  Attempted = Server e × ReplayBody e × RetryState e × AttemptOutcome e

  -- The backends of the pool have the most permits e that is assumed.
  abbrev pub Capped : (Text → ℕ) → RequestCtx e → Type 0
  Capped most ctx = (b : Backend e) → Member e ctx.pool b → b.max_connections ≡ most b.id

  attempt_with-Holds :
      (most : Text → ℕ) (s : Server e) (ctx : RequestCtx e) (attempt remaining : ℕ)
      (sel : Selected e) (replay : ReplayBody e) (o : Option (Request (Headers e) e.Body))
      (t : Server e) (retry : RetryState e)
      → Holds most (some sel.backend.id) s t
      → let r = attempt_with e ctx attempt remaining sel replay o t retry in
        Holds most (holder_of r.3) s r.0
  unfolding attempt_with send_attempt
  attempt_with-Holds most s ctx attempt remaining sel replay none t retry h =
      let_go-Holds most s t sel h
  attempt_with-Holds most s ctx attempt remaining sel replay (some req) t retry h =
      let cap = ctx.settings.proxy_config.max_response_body_bytes in
      let f = forward_request e cap req sel.backend remaining ctx.client_identity ctx.client_ip t in
      let r = handle_response e ctx attempt sel f.1 replay.req_parts f.0 retry in
      finish-Holds most s r.0 sel r.2
        (handle_response-kept ctx attempt sel f.1 replay.req_parts f.0 retry)
        (Holds-to most (some sel.backend.id) s t r.0
          (handle_response-permits e ctx attempt sel f.1 replay.req_parts f.0 retry
            ∙ forward_request-permits e cap req sel.backend remaining ctx.client_identity
                ctx.client_ip t)
          h)

  abbrev chosen_id : Result Skip (Selected e) → Option Text
  chosen_id (ok sel) = some sel.backend.id
  chosen_id (err x) = none

  abbrev Gated : Type 0
  Gated = Server e × RetryState e × Result Skip (Selected e)

  attempt_on-Holds :
      (most : Text → ℕ) (s : Server e) (ctx : RequestCtx e) (attempt remaining : ℕ)
      (g : Result Skip (Selected e)) (replay : ReplayBody e) (t : Server e) (retry : RetryState e)
      → Holds most (chosen_id g) s t
      → let r = attempt_on e ctx attempt remaining g replay t retry in
        Holds most (holder_of r.3) s r.0
  unfolding attempt_on
  attempt_on-Holds most s ctx attempt remaining (err skip_break) replay t retry h = h
  attempt_on-Holds most s ctx attempt remaining (err skip_continue) replay t retry h = h
  attempt_on-Holds most s ctx attempt remaining (ok sel) replay t retry h =
      let built = build_retry_req e replay in
      attempt_with-Holds most s ctx attempt remaining sel built.0 built.1 t retry h

  gate-Holds :
      (most : Text → ℕ) (b : Backend e) (s t : Server e) (retry : RetryState e)
      (answer : CircuitState × Option ℕ)
      → Holds most (some b.id) s t
      → let r = gate e b t retry answer in Holds most (chosen_id r.2) s r.0
  unfolding gate
  gate-Holds most b s t retry (opened, g) h = release_permit-Holds most s t b.id h
  gate-Holds most b s t retry (half_open, g) h = h
  gate-Holds most b s t retry (closed, g) h = h

  ask_breaker-Holds :
      (most : Text → ℕ) (b : Backend e) (s t : Server e) (retry : RetryState e)
      → Holds most (some b.id) s t
      → let r = ask_breaker e b t retry in Holds most (chosen_id r.2) s r.0
  unfolding ask_breaker
  ask_breaker-Holds most b s t retry h =
      let (world, now) = e.now t.world in
      let asked = Cells.check e.fits e.counts t.circuit_breakers now b.id in
      gate-Holds most b s (record t { circuit_breakers = asked.0; world = world }) retry
        (asked.1, asked.2) h

  gated_if-Holds :
      (most : Text → ℕ) (id : Text) (s t : Server e) (granted : Bool) (x : Gated)
      (retry : RetryState e)
      → Holds most (taken_by e id granted) s t
      → (Holds most (some id) s t → Holds most (chosen_id x.2) s x.0)
      → let r : Gated = if granted then x else (t, retry, err skip_continue) in
        Holds most (chosen_id r.2) s r.0
  gated_if-Holds most id s t true x retry h k = k h
  gated_if-Holds most id s t false x retry h k = h

  gate_chosen-Holds :
      (most : Text → ℕ) (s : Server e) (retry : RetryState e) (o : Option (Backend e))
      → ((b : Backend e) → o ≡ some b → b.max_connections ≡ most b.id)
      → let r = gate_chosen e s retry o in Holds most (chosen_id r.2) s r.0
  unfolding gate_chosen try_acquire_conn_permit
  gate_chosen-Holds most s retry none c = Holds-none most s s refl
  gate_chosen-Holds most s retry (some b) c =
      let available = unwrap_or (e.counts.get b.id s.conn_limits) b.max_connections in
      let t = (try_acquire_conn_permit e b s).0 in
      gated_if-Holds most b.id s t (ltb 0 available) (ask_breaker e b t retry) _
        (
          take_one e most s.conn_limits b.id available
              (ap (λ n. unwrap_or (e.counts.get b.id s.conn_limits) n) (c b refl)),
          refl,
        )
        (λ h. ask_breaker-Holds most b s t retry h)

  -- An attempt gives every permit back that it took, but for the one of a response that streams.
  pub run_attempt-Holds :
      (most : Text → ℕ) (ctx : RequestCtx e) (attempt remaining : ℕ) (replay : ReplayBody e)
      (s : Server e) (retry : RetryState e)
      → Capped most ctx
      → let r = run_attempt e ctx attempt remaining replay s retry in
        Holds most (holder_of r.3) s r.0
  unfolding run_attempt select_and_gate
  run_attempt-Holds most ctx attempt remaining replay s retry c =
      let chosen = select_any e ctx.pool ctx.client_ip s retry.failed_backends in
      let g = gate_chosen e s retry chosen in
      attempt_on-Holds most s ctx attempt remaining g.2 replay g.0 g.1 (
        gate_chosen-Holds most s retry chosen
          (λ b k. c b (select_any-Member e ctx s retry.failed_backends b k)))
