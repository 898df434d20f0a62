-- ===== src/Proxy/Attempt/Reach.antt =====
-- What an attempt adds to the requests sent (src/proxy/handler/attempt.rs): none, or one to the backend
-- that it selected.
use reduction.Prelude.{
  ℕ, ◌+◌, ◌≤◌, ◌≡◌, refl, sym, ap, ◌∙◌, inl, inr, Bool, true, false, Option, none, some, List, [],
  ◌∷◌, ◌++◌, append_assoc, arith, if◌then◌else◌, Option-cases, length, length-append, All,
  All-append, Text,
}
use reduction.Prelude.Results.{Result, ok, err}
use reduction.Error.{ReductionError}
use reduction.Proxy.{
  Env, Request, Headers, Backend, Sent, Server, RequestCtx, RetryState, ReplayBody,
}
use reduction.Proxy.Forward.{
  outbound_headers, deliver, send_with, forward_acquired, forward_request,
}
use reduction.Proxy.Gate.{
  Skip, Selected, try_acquire_conn_permit, ask_breaker, select_any, select_backend_excluding,
  select_and_gate, or_else, gate_chosen,
}
use reduction.Proxy.Attempt.{handle_response, finish, attempt_with, send_attempt, let_go}
use reduction.Proxy.Attempt.Sends.{
  Member, Chosen, gate-Chosen, select_backend_excluding-Member, let_go-sent, handle_response-sent,
  finish-sent,
}

abbrev pub count_of : {A : Type 0} → Option A → ℕ
count_of none = 0
count_of (some x) = 1

module _ (e : Env) where
  -- From `s` to `t` at most `n` requests were sent, all of them such as `P` says.
  abbrev pub Sends : (Sent e → Type 0) → ℕ → Server e → Server e → Type 0
  Sends P n s t = (new : List (Sent e)) × (t.sent ≡ new ++ s.sent) × (length new ≤ n) × All P new

  module _ (P : Sent e → Type 0) where
    pub Sends-none : (n : ℕ) (s t : Server e) → t.sent ≡ s.sent → Sends P n s t
    Sends-none n s t h = ([], h, omega arith, tt)

    pub Sends-more :
        (m n : ℕ) (s t u : Server e) → Sends P m s t → Sends P n t u → Sends P (m + n) s u
    Sends-more m n s t u (a, ea, la, pa) (b, eb, lb, pb) = (
      b ++ a,
      eb ∙ ap (λ l. b ++ l) ea ∙ sym (append_assoc b a s.sent),
      omega (arith, length-append b a),
      All-append P b a pb pa,
    )

    pub Sends-weak : (m n : ℕ) (s t : Server e) → m ≤ n → Sends P m s t → Sends P n s t
    Sends-weak m n s t h (a, ea, la, pa) = (a, ea, omega arith, pa)

    pub Sends-from : (n : ℕ) (s s' t : Server e) → s'.sent ≡ s.sent → Sends P n s' t → Sends P n s t
    Sends-from n s s' t h (a, ea, la, pa) = (a, ea ∙ ap (λ l. a ++ l) h, la, pa)

    pub Sends-to : (n : ℕ) (s t t' : Server e) → t'.sent ≡ t.sent → Sends P n s t → Sends P n s t'
    Sends-to n s t t' h (a, ea, la, pa) = (a, h ∙ ea, la, pa)

  pub select_any-Member :
      (ctx : RequestCtx e) (s : Server e) (failed : List Text) (b : Backend e)
      → select_any e ctx.pool ctx.client_ip s failed ≡ some b
      → Member e ctx.pool b
  unfolding select_any
  select_any-Member ctx s failed b h =
      let first = select_backend_excluding e ctx.pool ctx.client_ip s failed in
      let second = select_backend_excluding e ctx.pool ctx.client_ip s [] in
      elim (Option-cases first) [
        | inl n ↦
            select_backend_excluding-Member e ctx.pool ctx.client_ip s [] b
              (sym (ap (λ o. or_else o second) n) ∙ h)
        | inr (c, n) ↦
            select_backend_excluding-Member e ctx.pool ctx.client_ip s failed b
              (n ∙ sym (ap (λ o. or_else o second) n) ∙ h)
      ]

  ask_breaker-Chosen :
      (ctx : RequestCtx e) (b : Backend e) (s : Server e) (retry : RetryState e)
      → Member e ctx.pool b
      → Chosen e ctx s (ask_breaker e b s retry)
  unfolding ask_breaker
  ask_breaker-Chosen ctx b s retry m = gate-Chosen e ctx b _ retry _ m

  if-Chosen :
      (ctx : RequestCtx e) (s : Server e) (b : Bool)
      (x y : Server e × RetryState e × Result Skip (Selected e))
      → Chosen e ctx s x
      → Chosen e ctx s y
      → Chosen e ctx s (if b then x else y)
  if-Chosen ctx s true x y h k = h
  if-Chosen ctx s false x y h k = k

  gate_chosen-Chosen :
      (ctx : RequestCtx e) (s : Server e) (retry : RetryState e) (o : Option (Backend e))
      → ((b : Backend e) → o ≡ some b → Member e ctx.pool b)
      → Chosen e ctx s (gate_chosen e s retry o)
  unfolding gate_chosen try_acquire_conn_permit
  gate_chosen-Chosen ctx s retry none h = (refl, λ sel k. cc k)
  gate_chosen-Chosen ctx s retry (some b) h =
      if-Chosen ctx s _ _ _
        (ask_breaker-Chosen ctx b (try_acquire_conn_permit e b s).0 retry (h b refl))
        (refl, λ sel k. cc k)

  pub select_and_gate-Chosen :
      (ctx : RequestCtx e) (s : Server e) (retry : RetryState e)
      → Chosen e ctx s (select_and_gate e ctx s retry)
  unfolding select_and_gate
  select_and_gate-Chosen ctx s retry =
      gate_chosen-Chosen ctx s retry (select_any e ctx.pool ctx.client_ip s retry.failed_backends)
        (select_any-Member ctx s retry.failed_backends)

  -- What `P` has to hold of: the request of the attempt, with the headers that were made for it.
  abbrev pub Outbound :
      (Sent e → Type 0) → RequestCtx e → Backend e → Request (Headers e) e.Body → Type 0
  Outbound P ctx b req =
      (world : e.World) (headers : Headers e)
      → outbound_headers e b ctx.client_identity ctx.client_ip req.parts.headers world ≡ ok headers
      → P (record {
        backend = b;
        request = record { parts = record req.parts { headers = headers }; body = req.body };
      })

  module _ (P : Sent e → Type 0) where
    deliver-Sends :
        (cap : ℕ) (b : Backend e) (t : ℕ) (req : Request (Headers e) e.Body) (s : Server e)
        → P (record { backend = b; request = req })
        → Sends P 1 s (deliver e cap b t req s).0
    unfolding deliver
    deliver-Sends cap b t req s p =
        (record { backend = b; request = req } ∷ [], refl, omega arith, (p, tt))

    send_with-Sends :
        (cap : ℕ) (req : Request (Headers e) e.Body) (b : Backend e) (t : ℕ) (s : Server e)
        (r : Result ReductionError (Headers e))
        → ((headers : Headers e)
            → r ≡ ok headers
            → P (record {
              backend = b;
              request = record { parts = record req.parts { headers = headers }; body = req.body };
            }))
        → Sends P 1 s (send_with e cap req b t s r).0
    unfolding send_with
    send_with-Sends cap req b t s (err x) p = Sends-none P 1 s s refl
    send_with-Sends cap req b t s (ok headers) p = deliver-Sends cap b t _ s (p headers refl)

    forward_acquired-Sends :
        (cap : ℕ) (ctx : RequestCtx e) (req : Request (Headers e) e.Body) (b : Backend e) (t : ℕ)
        (s : Server e) (missed : Option ReductionError)
        → Outbound P ctx b req
        → Sends P 1 s (forward_acquired e cap req b t ctx.client_identity ctx.client_ip s missed).0
    unfolding forward_acquired
    forward_acquired-Sends cap ctx req b t s (some x) p = Sends-none P 1 s s refl
    forward_acquired-Sends cap ctx req b t s none p = send_with-Sends cap req b t s _ (p s.world)

    forward_request-Sends :
        (cap : ℕ) (ctx : RequestCtx e) (req : Request (Headers e) e.Body) (b : Backend e) (t : ℕ)
        (s : Server e)
        → Outbound P ctx b req
        → Sends P 1 s (forward_request e cap req b t ctx.client_identity ctx.client_ip s).0
    unfolding forward_request
    forward_request-Sends cap ctx req b t s p =
        let s' : Server e = record s { world = (e.acquire b s.world).0 } in
        let missed = (e.acquire b s.world).1 in
        Sends-from P 1 s s'
          (forward_acquired e cap req b t ctx.client_identity ctx.client_ip s' missed).0 refl
          (forward_acquired-Sends cap ctx req b t s' missed p)

    send_attempt-Sends :
        (ctx : RequestCtx e) (attempt remaining : ℕ) (sel : Selected e) (replay : ReplayBody e)
        (req : Request (Headers e) e.Body) (s : Server e) (retry : RetryState e)
        → Outbound P ctx sel.backend req
        → Sends P 1 s (send_attempt e ctx attempt remaining sel replay req s retry).0
    unfolding send_attempt
    send_attempt-Sends ctx attempt remaining sel replay req s retry p =
        let cap = ctx.settings.proxy_config.max_response_body_bytes in
        let f =
          forward_request e cap req sel.backend remaining ctx.client_identity ctx.client_ip s in
        let h = handle_response e ctx attempt sel f.1 replay.req_parts f.0 retry in
        Sends-to P 1 s f.0 (finish e sel h.2 h.0)
          (finish-sent e sel h.2 h.0
            ∙ handle_response-sent e ctx attempt sel f.1 replay.req_parts f.0 retry)
          (forward_request-Sends cap ctx req sel.backend remaining s p)

    pub attempt_with-Sends :
        (ctx : RequestCtx e) (attempt remaining : ℕ) (sel : Selected e) (replay : ReplayBody e)
        (o : Option (Request (Headers e) e.Body)) (s : Server e) (retry : RetryState e)
        → ((req : Request (Headers e) e.Body) → o ≡ some req → Outbound P ctx sel.backend req)
        → Sends P (count_of o) s (attempt_with e ctx attempt remaining sel replay o s retry).0
    unfolding attempt_with
    attempt_with-Sends ctx attempt remaining sel replay none s retry p =
        Sends-none P 0 s (let_go e sel s) (let_go-sent e sel s)
    attempt_with-Sends ctx attempt remaining sel replay (some req) s retry p =
        send_attempt-Sends ctx attempt remaining sel replay req s retry (p req refl)
