-- ===== src/Proxy/Attempt.antt =====
-- One attempt of the retry loop (src/proxy/handler/attempt.rs, with the parking of
-- src/proxy/handler/attempt/wake.rs).
pub mod Sends
pub mod Reach
pub mod Permits
pub mod Frames
pub mod Counts
pub mod Wake
use reduction.Prelude.{
  ℕ, zero, suc, ◌+◌, ◌-◌, ◌*◌, ◌/◌, ◌%◌, ◌^◌, ◌≤◌, ◌<◌, min, max, ◌≡◌, refl, sym, ap, ap₂, ◌∙◌,
  subst, fun_ext, ◌≢◌, ◌↔◌, ◌⊎◌, inl, inr, ite, if_pos, if_neg, Bool, true, false, not, ◌&&◌, ◌||◌,
  Option, none, some, List, [], ◌∷◌, ◌++◌, map, append-nil, append_assoc, arith, ltb, leb, ◌==◌,
  if◌then◌else◌, tests, Bool-cases, Option-cases, is_some, is_none, unwrap_or, length, get_elem?,
  take, drop, any, all, retain, length-append, All, All-append, take-length_append,
  drop-length_append, Text, codes, text_eq, text_eq→eq, text_eq_refl, text_eq_iff, text_dec,
  starts_with, ends_with, eq_ignore_ascii_case, to_ascii_lowercase, dec_lt, dec_le, ℕ_discrete,
  length-retain-le, length-drop, All-retain, retain-All,
}
use reduction.Prelude.Decimal.{decimal}
use reduction.Prelude.Results.{Result, ok, err}
use reduction.Circuit.Cells
use reduction.Error.{ReductionError, is_transport_miss}
use reduction.Handler.{should_cache_response, is_retryable_status, is_server_error}
use reduction.Retry.{backoff_delay}
use reduction.Proxy.{
  Env, Parts, Request, Response, Headers, Backend, Server, RequestCtx, RetryState, ReplayBody,
  error_body,
}
use reduction.Proxy.Forward.{forward_request}
use reduction.Proxy.Gate.{
  mark_failed, Skip, skip_break, skip_continue, Selected, release_permit, select_and_gate,
}
use reduction.Proxy.Store.{Answer, maybe_compress, directives_of, store_and_respond}

module _ (e : Env) where
  pub data AttemptOutcome : Type 0 where
    try_next stop : AttemptOutcome
    return_it : Answer e → AttemptOutcome
    stream : Answer e → Selected e → AttemptOutcome

  unfoldable pub build_from :
      ReplayBody e
      → Option Text
      → Option e.Body
      → ReplayBody e × Option (Request (Headers e) e.Body)
  build_from replay (some bytes) streaming =
      (replay, some (record { parts = replay.req_parts; body = e.body_of bytes }))
  build_from replay none (some body) = (
    record replay { streaming_body = none },
    some (record { parts = replay.req_parts; body = body }),
  )
  build_from replay none none = (replay, none)

  -- A body that is buffered is copied, and one that streams is taken.
  unfoldable pub build_retry_req : ReplayBody e → ReplayBody e × Option (Request (Headers e) e.Body)
  build_retry_req replay = build_from replay replay.body_bytes replay.streaming_body

  abbrev pub drop_probe : Option ℕ → Server e → Server e
  drop_probe none s = s
  drop_probe (some cell) s = record s {
    circuit_breakers = Cells.drop_held e.fits e.counts s.circuit_breakers cell;
  }

  -- The drops at the end of an attempt: the connection permit and the guard of a probe.
  unfoldable pub let_go : Selected e → Server e → Server e
  let_go selected s = drop_probe selected.half_open_guard (release_permit e selected.backend.id s)

  unfoldable pub record_failure : Text → Server e → Server e
  record_failure id s =
      let (world, now) = e.now s.world in
      record s {
        circuit_breakers = Cells.record_failure e.fits e.counts s.circuit_breakers now id;
        world = world;
      }

  unfoldable pub record_success : Text → Server e → Server e
  record_success id s = record s {
    circuit_breakers = Cells.record_success e.fits e.counts s.circuit_breakers id;
  }

  unfoldable pub wake_timeout_response : ℕ → Answer e
  wake_timeout_response wake_secs =
      let response = error_body e 503 (codes "backend waking; retry shortly") in
      elim (e.from_str (decimal wake_secs)) [
        | none ↦ response
        | some value ↦ record response {
          headers = e.http.insert (codes "retry-after") value response.headers;
        }
      ]

  -- `e.woken` is the wait for the session or the connection, or for a refusal.
  unfoldable pub park_for_wake : RequestCtx e → Backend e → Server e → Server e × AttemptOutcome
  park_for_wake ctx backend s =
      let wake_secs = ctx.settings.proxy_config.wake_timeout_secs in
      let (world, reachable) = e.woken backend wake_secs s.world in
      let s' : Server e = record s { world = world } in
      if reachable then (s', try_next) else (s', return_it (wake_timeout_response wake_secs))

  abbrev pub pause : RequestCtx e → ℕ → Server e → Server e
  pause ctx attempt s = record s {
    world = e.sleep_ms (backoff_delay e.random_range attempt ctx.settings.retry_config) s.world;
  }

  abbrev pub tried : Text → RetryState e → RetryState e
  tried id retry = record retry { failed_backends = mark_failed retry.failed_backends id }

  unfoldable pub handle_forward_error :
      RequestCtx e
      → ℕ
      → Backend e
      → ReductionError
      → Server e
      → RetryState e
      → Server e × RetryState e × AttemptOutcome
  handle_forward_error ctx attempt backend x s retry =
      if backend.wakeable && is_transport_miss x
      then (let (s', outcome) = park_for_wake ctx backend s in (s', retry, outcome))
      else let s' = record_failure backend.id s in
        if ltb (attempt + 1) ctx.max_attempts
        then (
          pause ctx attempt s',
          record (tried backend.id retry) { last_error_msg = some x },
          try_next,
        )
        else (s', retry, return_it (error_body e 502 (codes "backend error")))

  -- `store_and_respond`, or the streamed response.
  unfoldable pub respond :
      RequestCtx e
      → Selected e
      → Answer e
      → Parts (Headers e)
      → Server e
      → Server e × AttemptOutcome
  respond ctx selected response req_parts s =
      let directives = directives_of e response.headers in
      if should_cache_response e.http e.to_str ctx.settings.cache_config.enabled
        ctx.is_cacheable_method ctx.request_has_cookie response.headers response.status directives
      then (let (s', answer) = store_and_respond e ctx response directives req_parts s in
          (s', return_it answer))
      else (
        s,
        stream
            (maybe_compress e response ctx.accepts_zstd directives ctx.settings.compression_config)
            selected,
      )

  abbrev pub count_failure : Bool → Text → Server e → Server e
  count_failure failed id s = if failed then record_failure id s else s

  -- `handle_response`, for a response.
  unfoldable pub handle_answer :
      RequestCtx e
      → ℕ
      → Selected e
      → Answer e
      → Parts (Headers e)
      → Server e
      → RetryState e
      → Server e × RetryState e × AttemptOutcome
  handle_answer ctx attempt selected response req_parts s retry =
      let id = selected.backend.id in
      let retryable = is_retryable_status response.status in
      let counted = count_failure retryable id s in
      if retryable && ltb (attempt + 1) ctx.max_attempts
      then (
        pause ctx attempt counted,
        record (tried id retry) { last_response = some response },
        try_next,
      )
      else let judged : Server e =
          if is_server_error response.status
          then record_failure id counted
          else record_success id counted in
        let (s', outcome) = respond ctx selected response req_parts judged in (s', retry, outcome)

  unfoldable pub handle_response :
      RequestCtx e
      → ℕ
      → Selected e
      → Result ReductionError (Answer e)
      → Parts (Headers e)
      → Server e
      → RetryState e
      → Server e × RetryState e × AttemptOutcome
  handle_response ctx attempt selected (ok response) req_parts s retry =
      handle_answer ctx attempt selected response req_parts s retry
  handle_response ctx attempt selected (err x) req_parts s retry =
      handle_forward_error ctx attempt selected.backend x s retry

  -- What an attempt that does not stream its response drops.
  unfoldable pub finish : Selected e → AttemptOutcome → Server e → Server e
  finish selected (stream response kept) s = s
  finish selected try_next s = let_go selected s
  finish selected stop s = let_go selected s
  finish selected (return_it response) s = let_go selected s

  -- The request sent, and its result handled.
  unfoldable pub send_attempt :
      RequestCtx e
      → ℕ
      → ℕ
      → Selected e
      → ReplayBody e
      → Request (Headers e) e.Body
      → Server e
      → RetryState e
      → Server e × ReplayBody e × RetryState e × AttemptOutcome
  send_attempt ctx attempt remaining selected replay req s retry =
      let (s1, result) =
        forward_request e ctx.settings.proxy_config.max_response_body_bytes req selected.backend
          remaining ctx.client_identity ctx.client_ip s in
      let (s2, retry', outcome) =
        handle_response ctx attempt selected result replay.req_parts s1 retry in
      (finish selected outcome s2, replay, retry', outcome)

  unfoldable pub attempt_with :
      RequestCtx e
      → ℕ
      → ℕ
      → Selected e
      → ReplayBody e
      → Option (Request (Headers e) e.Body)
      → Server e
      → RetryState e
      → Server e × ReplayBody e × RetryState e × AttemptOutcome
  attempt_with ctx attempt remaining selected replay none s retry =
      (let_go selected s, replay, retry, stop)
  attempt_with ctx attempt remaining selected replay (some req) s retry =
      send_attempt ctx attempt remaining selected replay req s retry

  -- The attempt on the backend that is selected, or the end of the attempt without one.
  unfoldable pub attempt_on :
      RequestCtx e
      → ℕ
      → ℕ
      → Result Skip (Selected e)
      → ReplayBody e
      → Server e
      → RetryState e
      → Server e × ReplayBody e × RetryState e × AttemptOutcome
  attempt_on ctx attempt remaining (err skip_break) replay s retry = (s, replay, retry, stop)
  attempt_on ctx attempt remaining (err skip_continue) replay s retry = (s, replay, retry, try_next)
  attempt_on ctx attempt remaining (ok selected) replay s retry =
      let (replay', built) = build_retry_req replay in
      attempt_with ctx attempt remaining selected replay' built s retry

  unfoldable pub run_attempt :
      RequestCtx e
      → ℕ
      → ℕ
      → ReplayBody e
      → Server e
      → RetryState e
      → Server e × ReplayBody e × RetryState e × AttemptOutcome
  run_attempt ctx attempt remaining replay s retry =
      let (s', retry', selected) = select_and_gate e ctx s retry in
      attempt_on ctx attempt remaining selected replay s' retry'
