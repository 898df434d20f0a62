-- ===== src/Proxy/Course/Permits.antt =====
-- The permits over the whole course of a request (src/proxy/handler.rs): those of the backends'
-- connections, and those of the queues.
use reduction.Prelude.{
  ℕ, zero, suc, ◌+◌, ◌-◌, ◌≡◌, refl, sym, subst, inl, inr, Bool, true, false, Option, none, some,
  arith, ltb, if◌then◌else◌, Option-cases, Text, codes,
}
use reduction.Proxy.{error_body, Env, Server, RequestCtx, RetryState, ReplayBody}
use reduction.Proxy.Attempt.{AttemptOutcome, try_next, stop, return_it, stream, run_attempt}
use reduction.Proxy.Attempt.Counts.{Takes, give_back}
use reduction.Proxy.Attempt.Permits.{
  Holds, Capped, Holds-none, Holds-more, holder_of, run_attempt-Holds,
}
use reduction.Proxy.Course.{
  release_queue_permit, LoopEnd, exhausted, returned, streamed, resume, retry_loop, Reply, plain,
  guarded, conclude,
}
use reduction.Proxy.Store.{Answer}

module _ (e : Env) where
  abbrev pub loop_holder : LoopEnd e → Option Text
  loop_holder exhausted = none
  loop_holder (returned r) = none
  loop_holder (streamed r selected) = some selected.backend.id

  -- What a reply holds of the backends' permits, and of the queue's.
  abbrev pub conn_holder : Reply e → Option Text
  conn_holder (plain r) = none
  conn_holder (guarded r none) = none
  conn_holder (guarded r (some selected)) = some selected.backend.id

  abbrev pub queue_holder : Text → Reply e → Option Text
  queue_holder backend_id (plain r) = none
  queue_holder backend_id (guarded r kept) = some backend_id

  module _ (most : Text → ℕ) (ctx : RequestCtx e) (capped : Capped e most ctx) where
    resume-Holds :
        (s : Server e)
        (again : ReplayBody e → Server e → RetryState e → Server e × RetryState e × LoopEnd e)
        (r : Server e × ReplayBody e × RetryState e × AttemptOutcome e)
        → ((replay : ReplayBody e) (t : Server e) (retry : RetryState e)
            → let x = again replay t retry in Holds e most (loop_holder x.2) t x.0)
        → Holds e most (holder_of e r.3) s r.0
        → let x = resume e again r in Holds e most (loop_holder x.2) s x.0
    unfolding resume
    resume-Holds s again (t, replay, retry, try_next) ih h =
        let x = again replay t retry in
        Holds-more e most (loop_holder x.2) s t x.0 h (ih replay t retry)
    resume-Holds s again (t, replay, retry, stop) ih h = h
    resume-Holds s again (t, replay, retry, return_it r) ih h = h
    resume-Holds s again (t, replay, retry, stream r kept) ih h = h

    if-Holds :
        (s : Server e) (b : Bool) (x y : Server e × RetryState e × LoopEnd e)
        → Holds e most (loop_holder x.2) s x.0
        → Holds e most (loop_holder y.2) s y.0
        → let r = if b then x else y in Holds e most (loop_holder r.2) s r.0
    if-Holds s true x y h k = h
    if-Holds s false x y h k = k

    -- The loop leaves no permit taken but the one of the response that it streams.
    pub retry_loop-Holds :
        (deadline budget left attempt : ℕ) (replay : ReplayBody e) (s : Server e)
        (retry : RetryState e)
        → let r = retry_loop e left attempt ctx deadline budget replay s retry in
          Holds e most (loop_holder r.2) s r.0
    unfolding retry_loop
    retry_loop-Holds deadline budget zero attempt replay s retry = Holds-none e most s s refl
    retry_loop-Holds deadline budget (suc left) attempt replay s retry =
        let (world, now) = e.now s.world in
        let s' : Server e = record s { world = world } in
        let tried = run_attempt e ctx attempt (deadline - now) replay s' retry in
        let again = retry_loop e left (attempt + 1) ctx deadline budget in
        if-Holds s (ltb budget (deadline - now)) (resume e again tried) (s', retry, exhausted)
          (resume-Holds s again tried
            (λ replay' t retry'.
              retry_loop-Holds deadline budget left (attempt + 1) replay' t retry')
            (run_attempt-Holds e most ctx attempt (deadline - now) replay s' retry capped))
          (Holds-none e most s s' refl)

  -- From `s` to the end, what the reply holds was taken, and nothing else.
  abbrev pub Settles : (most depth : Text → ℕ) → Text → Server e → Server e × Reply e → Type 0
  Settles most depth backend_id s r =
      Takes e most (conn_holder r.1) s.conn_limits r.0.conn_limits
      × Takes e depth (queue_holder backend_id r.1) s.queues r.0.queues

  module _ (most depth : Text → ℕ) where
    pub Takes-none : (m : e.counts.Map) → Takes e most none m m
    Takes-none m = ((λ id. omega arith), tt)

    -- A permit of the queue is held.
    abbrev pub Queued : Text → Server e → Server e → Type 0
    Queued backend_id s t =
        Takes e most none s.conn_limits t.conn_limits
        × Takes e depth (some backend_id) s.queues t.queues

    release_queue_permit-conn_limits :
        (id : Text) (s : Server e) → (release_queue_permit e id s).conn_limits ≡ s.conn_limits
    unfolding release_queue_permit
    release_queue_permit-conn_limits id s = ground arith

    release_queue_permit-Takes :
        (m : e.counts.Map) (id : Text) (s : Server e)
        → Takes e depth (some id) m s.queues
        → Takes e depth none m (release_queue_permit e id s).queues
    unfolding release_queue_permit
    release_queue_permit-Takes m id s h = elim (Option-cases (e.counts.get id s.queues)) [
      | inl k ↦ cc (k, h.1)
      | inr (n, k) ↦
          (let back = give_back e depth m s.queues id n h k in rw (release_queue_permit, k) back)
    ]

    pub released-Settles :
        (id : Text) (s t : Server e) (x : Answer e)
        → Queued id s t
        → Settles most depth id s (release_queue_permit e id t, plain x)
    released-Settles id s t x (conn, queue) = (
      subst (λ m. Takes e most none s.conn_limits m) (sym (release_queue_permit-conn_limits id t))
          conn,
      release_queue_permit-Takes s.queues id t queue,
    )

    -- The loop ran from `t`, with the queue's permit held.
    abbrev pub Ran : Text → LoopEnd e → Server e → Server e → Type 0
    Ran id end s u =
        Takes e most (loop_holder end) s.conn_limits u.conn_limits
        × Takes e depth (some id) s.queues u.queues

    pub conclude-Settles :
        (id : Text) (s u : Server e) (retry : RetryState e) (end : LoopEnd e)
        → Ran id end s u
        → Settles most depth id s (conclude e id u retry end)
    unfolding conclude
    conclude-Settles id s u retry (returned x) h = released-Settles id s u x h
    conclude-Settles id s u retry (streamed x kept) h = h
    conclude-Settles id s u retry exhausted h = elim (Option-cases retry.last_response) [
      | inl k ↦
          (let done = released-Settles id s u (error_body e 502 (codes "backend error")) h in
            rw (conclude, k) done)
      | inr (x, k) ↦ rw (conclude, k) h
    ]
