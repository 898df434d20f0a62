-- ===== src/Proxy/Course/Refused.antt =====
-- A client that is refused before its request is routed (`proxy_handler` of src/proxy/handler.rs).
use mathlib.Core.Option
use reduction.Prelude.{
  ℕ, ◌≡◌, refl, sym, ap, subst, ◌⊎◌, inl, inr, Bool, true, false, Option, none, some, arith,
  if◌then◌else◌,
}
use reduction.Admission.{ErrorResponse, reject_before_routing, error_response, rate_check}
use reduction.Proxy.{Env, Request, Headers, Server, Settings}
use reduction.Proxy.Store.{Answer}
use reduction.Proxy.Course.{
  ReloadableState, ConnectInfo, ip_of, identity_of, draining, reject, proceed, admit_client, plain,
  answer_from, serve_admitted, gated, proxy_handler,
}

module _ (e : Env) where
  -- What the client is told: that the server drains, or what the gates say.
  unfoldable pub refusal : ReloadableState e → ConnectInfo e → Server e → Option (Answer e)
  refusal state info s =
      if state.shutdown
      then some (draining e)
      else Option.map (answer_from e)
          (reject_before_routing e.net e.check_key state.acl (ip_of e info) s.buckets
            state.client_auth (identity_of e info) state.revocation).1

module _ (e : Env) (settings : Settings e) (state : ReloadableState e) where
  abbrev Verdict : Server e → ConnectInfo e → e.Buckets × Option ErrorResponse
  Verdict s info =
      reject_before_routing e.net e.check_key state.acl (ip_of e info) s.buckets state.client_auth
        (identity_of e info) state.revocation

  abbrev IsRefusal : Answer e → Type 0
  IsRefusal x = (x.status ≡ 503) ⊎ (x.status ≡ 403) ⊎ (x.status ≡ 429)

  verdict_status :
      (s : Server e) (info : ConnectInfo e) (r : ErrorResponse)
      → (Verdict s info).1 ≡ some r
      → (r.status ≡ 403) ⊎ (r.status ≡ 429)
  unfolding reject_before_routing rate_check error_response
  verdict_status s info r h = ground arith

  serve_admitted_refused :
      (req : Request (Headers e) e.Body) (t : Server e) (start : ℕ) (info : ConnectInfo e)
      (o : Option ErrorResponse) (x : Answer e)
      → ((r : ErrorResponse) → o ≡ some r → (r.status ≡ 403) ⊎ (r.status ≡ 429))
      → Option.map (answer_from e) o ≡ some x
      → (serve_admitted e settings state start (ip_of e info) (identity_of e info) req t o
          ≡ (t, plain x))
        × IsRefusal x
  unfolding serve_admitted
  serve_admitted_refused req t start info none x k h = cc h
  serve_admitted_refused req t start info (some r) x k h =
      let same : answer_from e r ≡ x = cc h in
      (ap (λ y. (t, plain y)) same, subst IsRefusal same (inr (k r refl)))

  gated_refused :
      (shutdown : Bool) (req : Request (Headers e) e.Body) (t : Server e) (start : ℕ)
      (info : ConnectInfo e) (x : Answer e)
      → Path
          (Option (Answer e))
          (if shutdown then some (draining e) else Option.map (answer_from e) (Verdict t info).1)
          (some x)
      → let (u, reply) = gated e settings state req t (
          if shutdown
          then reject (draining e)
          else proceed start (ip_of e info) (identity_of e info)) in
        (reply ≡ plain x) × (u ≡ record t { world = u.world; buckets = u.buckets }) × IsRefusal x
  unfolding gated
  gated_refused true req t start info x h =
      let same : draining e ≡ x = cc h in (ap plain same, refl, subst IsRefusal same (inl refl))
  gated_refused false req t start info x h =
      let (same, is) =
        serve_admitted_refused req (record t { buckets = (Verdict t info).0 }) start info
          (Verdict t info).1 x (verdict_status t info) h in
      (
        ap (λ r. r.1) same,
        subst (λ u. u ≡ record t { world = u.world; buckets = u.buckets })
            (sym (ap (λ r. r.0) same)) refl,
        is,
      )

  -- A client that is refused gets that refusal, whose status is 503, 403 or 429, and no other part of
  -- the server changes than the clock and the counts of the rate limit: nothing is sent, and no
  -- permit, breaker or stored response is touched.
  pub proxy_handler_refused :
      (info : ConnectInfo e) (req : Request (Headers e) e.Body) (s : Server e) (x : Answer e)
      → refusal e state info s ≡ some x
      → let (t, reply) = proxy_handler e settings state info req s in
        (reply ≡ plain x)
        × (t ≡ record s { world = t.world; buckets = t.buckets })
        × ((x.status ≡ 503) ⊎ (x.status ≡ 403) ⊎ (x.status ≡ 429))
  unfolding proxy_handler admit_client gated refusal
  proxy_handler_refused info req s x h =
      let (world, start) = e.now s.world in
      gated_refused state.shutdown req (record s { world = world }) start info x h
