-- ===== src/Proxy/Course/Attempts.antt =====
-- How often a request is sent (`proxy_handler` of src/proxy/handler.rs).
use reduction.Prelude.{
  ℕ, zero, suc, ◌+◌, ◌-◌, ◌≤◌, min, ◌≡◌, refl, sym, ap, subst, Bool, true, false, Option, none,
  some, arith, ltb, if◌then◌else◌, Text,
}
use reduction.Prelude.Results.{Result, ok, err}
use reduction.Proxy.{
  Env, Parts, Request, Headers, Backend, Sent, Server, RequestCtx, RetryState, ReplayBody,
}
use reduction.Proxy.Attempt.{
  AttemptOutcome, try_next, stop, return_it, stream, build_from, build_retry_req, attempt_with,
  send_attempt, attempt_on, run_attempt,
}
use reduction.Proxy.Gate.{Skip, skip_break, skip_continue, Selected, select_and_gate}
use reduction.Proxy.Attempt.Sends.{Member}
use reduction.Proxy.Attempt.Reach.{
  count_of, Sends, Sends-none, Sends-more, Sends-weak, Sends-from, Outbound, attempt_with-Sends,
  select_and_gate-Chosen,
}
use reduction.Proxy.Course.{LoopEnd, exhausted, resume, retry_loop}

module _ (e : Env) where
  abbrev pub good_for : Option Text → Option e.Body → ℕ → ℕ
  good_for (some bytes) streaming left = left
  good_for none streaming left = min left (count_of streaming)

  -- The requests that a body is good for: one for each attempt where it is buffered, else one.
  abbrev pub allowance : ReplayBody e → ℕ → ℕ
  allowance replay left = good_for replay.body_bytes replay.streaming_body left

  -- The attempt uses up the body, and leaves the parts of the request.
  build_from_lem :
      (replay : ReplayBody e) (bytes : Option Text) (streaming : Option e.Body) (left : ℕ)
      → replay.body_bytes ≡ bytes
      → replay.streaming_body ≡ streaming
      → (count_of (build_from e replay bytes streaming).1
            + allowance (build_from e replay bytes streaming).0 left
          ≤ good_for bytes streaming (suc left))
        × ((build_from e replay bytes streaming).0.req_parts ≡ replay.req_parts)
  unfolding build_from
  build_from_lem replay (some bytes) streaming left h k = rw h (omega arith, refl)
  build_from_lem replay none (some body) left h k = rw h (omega arith, refl)
  build_from_lem replay none none left h k = rw (h, k) (omega arith, refl)

  abbrev parts_or : ReplayBody e → Option (Request (Headers e) e.Body) → Parts (Headers e)
  parts_or replay none = replay.req_parts
  parts_or replay (some req) = req.parts

  build_from-parts :
      (replay : ReplayBody e) (bytes : Option Text) (streaming : Option e.Body)
      (req : Request (Headers e) e.Body)
      → (build_from e replay bytes streaming).1 ≡ some req
      → req.parts ≡ replay.req_parts
  unfolding build_from
  build_from-parts replay (some bytes) streaming req h = ap (parts_or replay) (sym h)
  build_from-parts replay none (some body) req h = ap (parts_or replay) (sym h)
  build_from-parts replay none none req h = cc h

  pub good_for-le :
      (bytes : Option Text) (streaming : Option e.Body) (left : ℕ)
      → good_for bytes streaming left ≤ left
  good_for-le (some bytes) streaming left = omega arith
  good_for-le none streaming left = omega arith

  good_for_mono :
      (bytes : Option Text) (streaming : Option e.Body) (left : ℕ)
      → 0 + good_for bytes streaming left ≤ good_for bytes streaming (suc left)
  good_for_mono (some bytes) streaming left = omega arith
  good_for_mono none streaming left = omega arith

  -- An attempt of which so many are left: what it sends, and what its body is good for after it.
  abbrev Spends :
      (Sent e → Type 0)
      → ℕ
      → ReplayBody e
      → Server e
      → Server e × ReplayBody e × RetryState e × AttemptOutcome e
      → Type 0
  Spends P left replay s r =
      (n : ℕ) × Sends e P n s r.0
      × (n + allowance r.1 left ≤ allowance replay (suc left))
      × (r.1.req_parts ≡ replay.req_parts)

  module _ (P : Sent e → Type 0) (ctx : RequestCtx e) where
    -- Each attempt that is made sends what `P` allows.
    abbrev pub Allowed : Parts (Headers e) → Type 0
    Allowed parts =
        (b : Backend e) (req : Request (Headers e) e.Body)
        → Member e ctx.pool b
        → req.parts ≡ parts
        → Outbound e P ctx b req

    attempt_with-replay :
        (attempt remaining : ℕ) (sel : Selected e) (replay : ReplayBody e)
        (o : Option (Request (Headers e) e.Body)) (s : Server e) (retry : RetryState e)
        → (attempt_with e ctx attempt remaining sel replay o s retry).1 ≡ replay
    unfolding attempt_with send_attempt
    attempt_with-replay attempt remaining sel replay none s retry = refl
    attempt_with-replay attempt remaining sel replay (some req) s retry = refl

    attempt_on-Spends :
        (left attempt remaining : ℕ) (r : Result Skip (Selected e)) (replay : ReplayBody e)
        (s : Server e) (retry : RetryState e)
        → ((sel : Selected e) → r ≡ ok sel → Member e ctx.pool sel.backend)
        → Allowed replay.req_parts
        → Spends P left replay s (attempt_on e ctx attempt remaining r replay s retry)
    unfolding attempt_on build_retry_req
    attempt_on-Spends left attempt remaining (err skip_break) replay s retry m p = (
      0,
      Sends-none e P 0 s s refl,
      good_for_mono replay.body_bytes replay.streaming_body left,
      refl,
    )
    attempt_on-Spends left attempt remaining (err skip_continue) replay s retry m p = (
      0,
      Sends-none e P 0 s s refl,
      good_for_mono replay.body_bytes replay.streaming_body left,
      refl,
    )
    attempt_on-Spends left attempt remaining (ok sel) replay s retry m p =
        let bytes = replay.body_bytes in
        let streaming = replay.streaming_body in
        let built = build_from e replay bytes streaming in
        let (bound, kept) = build_from_lem replay bytes streaming left refl refl in
        let same = attempt_with-replay attempt remaining sel built.0 built.1 s retry in
        (
          count_of built.1,
          attempt_with-Sends e P ctx attempt remaining sel built.0 built.1 s retry (λ req k.
              p sel.backend req (m sel refl) (build_from-parts replay bytes streaming req k)),
          rw same bound,
          rw same kept,
        )

    run_attempt-Spends :
        (left attempt remaining : ℕ) (replay : ReplayBody e) (s : Server e) (retry : RetryState e)
        → Allowed replay.req_parts
        → Spends P left replay s (run_attempt e ctx attempt remaining replay s retry)
    unfolding run_attempt
    run_attempt-Spends left attempt remaining replay s retry p =
        let (same, inside) = select_and_gate-Chosen e ctx s retry in
        let g = select_and_gate e ctx s retry in
        let (n, sends, bound, kept) =
          attempt_on-Spends left attempt remaining g.2 replay g.0 g.1 inside p in
        (
          n,
          Sends-from e P n s g.0 (attempt_on e ctx attempt remaining g.2 replay g.0 g.1).0 same
              sends,
          bound,
          kept,
        )

    module _ (deadline budget : ℕ) where
      resume-Sends :
          (left : ℕ) (replay : ReplayBody e) (s : Server e)
          (again : ReplayBody e → Server e → RetryState e → Server e × RetryState e × LoopEnd e)
          (r : Server e × ReplayBody e × RetryState e × AttemptOutcome e)
          → ((replay' : ReplayBody e) (t : Server e) (retry : RetryState e)
              → replay'.req_parts ≡ replay.req_parts
              → Sends e P (allowance replay' left) t (again replay' t retry).0)
          → Spends P left replay s r
          → Sends e P (allowance replay (suc left)) s (resume e again r).0
      unfolding resume
      resume-Sends left replay s again (t, replay', retry, try_next) ih (n, sends, bound, kept) =
          Sends-weak e P (n + allowance replay' left) (allowance replay (suc left)) s
            (again replay' t retry).0 bound
            (Sends-more e P n (allowance replay' left) s t (again replay' t retry).0 sends
              (ih replay' t retry kept))
      resume-Sends left replay s again (t, replay', retry, stop) ih (n, sends, bound, kept) =
          Sends-weak e P n (allowance replay (suc left)) s t (omega arith) sends
      resume-Sends left replay s again (t, replay', retry, return_it r) ih (n, sends, bound, kept) =
          Sends-weak e P n (allowance replay (suc left)) s t (omega arith) sends
      resume-Sends left replay s again (t, replay', retry, stream r sel) ih
            (n, sends, bound, kept) =
          Sends-weak e P n (allowance replay (suc left)) s t (omega arith) sends

      if-Sends :
          (n : ℕ) (s : Server e) (b : Bool) (x y : Server e × RetryState e × LoopEnd e)
          → Sends e P n s x.0
          → Sends e P n s y.0
          → Sends e P n s (if b then x else y).0
      if-Sends n s true x y h k = h
      if-Sends n s false x y h k = k

      pub retry_loop-Sends :
          (left attempt : ℕ) (replay : ReplayBody e) (s : Server e) (retry : RetryState e)
          → Allowed replay.req_parts
          → Sends e P
              (allowance replay left)
              s
              (retry_loop e left attempt ctx deadline budget replay s retry).0
      unfolding retry_loop
      retry_loop-Sends zero attempt replay s retry p =
          Sends-none e P (allowance replay zero) s s refl
      retry_loop-Sends (suc left) attempt replay s retry p =
          let now = (e.now s.world).1 in
          let s' : Server e = record s { world = (e.now s.world).0 } in
          let tried = run_attempt e ctx attempt (deadline - now) replay s' retry in
          let again = retry_loop e left (attempt + 1) ctx deadline budget in
          if-Sends (allowance replay (suc left)) s (ltb budget (deadline - now))
            (resume e again tried) (s', retry, exhausted)
            (Sends-from e P (allowance replay (suc left)) s s' (resume e again tried).0 refl (
              resume-Sends left replay s' again tried
                (λ replay' t retry' same.
                  retry_loop-Sends left (attempt + 1) replay' t retry' (subst Allowed (sym same) p))
                (run_attempt-Spends left attempt (deadline - now) replay s' retry p)))
            (Sends-none e P (allowance replay (suc left)) s s' refl)
