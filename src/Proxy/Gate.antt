-- ===== src/Proxy/Gate.antt =====
-- The choice of a backend for one attempt (`select_and_gate` of src/proxy/handler/attempt.rs,
-- src/proxy/handler/selection.rs, and the permits of src/proxy/pool.rs). A semaphore is the number of
-- its permits that are left; a permit that is dropped is given back.
use reduction.Prelude.{
  ℕ, ◌+◌, ◌-◌, Bool, Option, none, some, List, [], ◌∷◌, ◌++◌, ltb, ◌==◌, if◌then◌else◌, unwrap_or,
  length, any, Text, codes, text_eq,
}
use reduction.Prelude.Results.{Result, ok, err}
use reduction.Acl.{IpAddr}
use reduction.Balancer.{BackendPool, max_backends, select_with_pressure_excluding}
use reduction.Circuit.{CircuitState, opened, half_open, closed}
use reduction.Circuit.Cells
use reduction.Error.{ReductionError, backend_unavailable, circuit_open}
use reduction.Proxy.{Env, Backend, Server, RequestCtx, RetryState}

-- `contains` before `try_push`, which refuses what an `ArrayVec` has no room for.
unfoldable pub mark_failed : List Text → Text → List Text
mark_failed failed id =
    if any (text_eq id) failed
    then failed
    else if ltb (length failed) max_backends
    then failed ++ (id ∷ [])
    else failed

pub data Skip : Type 0 where
  skip_break skip_continue : Skip

-- `Option::or`, and `Result::or_else` here.
abbrev pub or_else : {A : Type 0} → Option A → Option A → Option A
or_else (some x) y = some x
or_else none y = y

module _ (e : Env) where
  pub record Selected : Type 0 where
    pub backend : Backend e
    -- The cell that the guard of a probe holds.
    pub half_open_guard : Option ℕ

  -- `conn_limits.entry(id).or_insert_with(..)` and `try_acquire_owned`.
  unfoldable pub try_acquire_conn_permit : Backend e → Server e → Server e × Bool
  try_acquire_conn_permit backend s =
      let available = unwrap_or (e.counts.get backend.id s.conn_limits) backend.max_connections in
      (
        record s { conn_limits = e.counts.insert backend.id (available - 1) s.conn_limits },
        ltb 0 available,
      )

  unfoldable pub release_permit : Text → Server e → Server e
  release_permit id s = elim (e.counts.get id s.conn_limits) [
    | none ↦ s
    | some available ↦ record s { conn_limits = e.counts.insert id (available + 1) s.conn_limits }
  ]

  unfoldable pub connection_pressure : Server e → Text → ℕ → e.f64.Float
  connection_pressure s backend_id max_connections =
      if max_connections == 0
      then e.f64.one_point
      else let available = unwrap_or (e.counts.get backend_id s.conn_limits) max_connections in
        e.of_ratio (max_connections - available) max_connections

  unfoldable pub select_backend_excluding :
      BackendPool e.f64 → IpAddr → Server e → List Text → Option (Backend e)
  select_backend_excluding pool client_ip s excluded =
      select_with_pressure_excluding e.f64 (e.weight_factor s.world)
        (λ b. connection_pressure s b.id b.max_connections) (e.rendezvous_score client_ip) excluded
        pool

  -- The first choice is among the backends that have not failed; without one, all of them.
  unfoldable pub select_any : BackendPool e.f64 → IpAddr → Server e → List Text → Option (Backend e)
  select_any pool client_ip s failed =
      or_else (select_backend_excluding pool client_ip s failed)
        (select_backend_excluding pool client_ip s [])

  abbrev pub note_skip : Text → ReductionError → RetryState e → RetryState e
  note_skip id error retry = record retry {
    failed_backends = mark_failed retry.failed_backends id;
    last_error_msg = some error;
  }

  -- The match on the answer of the breaker. The permit is given back where the attempt is skipped.
  unfoldable pub gate :
      Backend e
      → Server e
      → RetryState e
      → CircuitState × Option ℕ
      → Server e × RetryState e × Result Skip Selected
  gate backend s retry (opened, guard) = (
    release_permit backend.id s,
    note_skip backend.id (circuit_open (codes "circuit open")) retry,
    err skip_continue,
  )
  gate backend s retry (half_open, guard) =
      (s, retry, ok (record { backend = backend; half_open_guard = guard }))
  gate backend s retry (closed, guard) =
      (s, retry, ok (record { backend = backend; half_open_guard = none }))

  -- The breaker is asked at the time `now`.
  unfoldable pub ask_breaker :
      Backend e → Server e → RetryState e → Server e × RetryState e × Result Skip Selected
  ask_breaker backend s retry =
      let (world, now) = e.now s.world in
      let (breakers, state, guard) =
        Cells.check e.fits e.counts s.circuit_breakers now backend.id in
      gate backend (record s { circuit_breakers = breakers; world = world }) retry (state, guard)

  unfoldable pub gate_chosen :
      Server e → RetryState e → Option (Backend e) → Server e × RetryState e × Result Skip Selected
  gate_chosen s retry none =
      (s, record retry { last_error_msg = some backend_unavailable }, err skip_break)
  gate_chosen s retry (some backend) =
      let (s', granted) = try_acquire_conn_permit backend s in
      if granted
      then ask_breaker backend s' retry
      else (s', note_skip backend.id backend_unavailable retry, err skip_continue)

  unfoldable pub select_and_gate :
      RequestCtx e → Server e → RetryState e → Server e × RetryState e × Result Skip Selected
  select_and_gate ctx s retry =
      gate_chosen s retry (select_any ctx.pool ctx.client_ip s retry.failed_backends)
