-- ===== src/Circuit/Stale.antt =====
-- What the condition of `Circuit.Probes` is for: a guard that outlives its half-open period and is
-- dropped in the next one (`HalfOpenGuard::drop` of src/circuit.rs).
use reduction.Prelude.{ℕ, ◌+◌, ◌≤◌, ◌≡◌, refl, some, false, List, [], ◌∷◌, arith}
use reduction.Prelude.Words.{u32_max}
use reduction.Circuit.{
  opened, half_open, from_u8, state_open, state_half_open, Breaker, Limits, drop_guard,
  check_breaker, failure_breaker,
}
use reduction.Circuit.Probes.{World, Event, check, failure, drop_live, drop_stale, step, run}

-- Two probes of different periods, the first of which ends late and without a verdict, and then the
-- second ends without a verdict too.
abbrev pub late_guard : ℕ → ℕ → ℕ → List Event
late_guard first fails second =
    check first ∷ failure fails ∷ check second ∷ drop_stale ∷ drop_live ∷ []

-- A cell that was just opened, with no guard held on it.
abbrev pub opened_world : ℕ → ℕ → World
opened_world failures since = record {
  cell = record {
    state = state_open;
    consecutive_failures = failures;
    half_open_inflight = 0;
    opened_at = some since;
  };
  live = 0;
  stale = 0;
}

module _ (l : Limits) (fits : l.half_open_max_requests ≤ u32_max) where
  wrapped_cell : ℕ → ℕ → Breaker
  wrapped_cell failures fails = record {
    state = state_half_open;
    consecutive_failures = failures;
    half_open_inflight = u32_max;
    opened_at = some fails;
  }

  late_guard-wraps :
      (failures since first fails second : ℕ)
      → since + l.recovery_timeout ≤ first
      → fails + l.recovery_timeout ≤ second
      → run l (late_guard first fails second) (opened_world failures since)
        ≡ record { cell = wrapped_cell failures fails; live = 0; stale = 0 }
  unfolding run step check_breaker failure_breaker drop_guard wrapped_cell
  late_guard-wraps failures since first fails second h k = ground arith

  wrapped-refuses :
      (failures fails now : ℕ)
      → check_breaker l now (wrapped_cell failures fails)
        ≡ (wrapped_cell failures fails, opened, false)
  unfolding check_breaker wrapped_cell
  wrapped-refuses failures fails now = ground arith

  -- For every limit that fits u32 and every recovery timeout: from a breaker that has opened, a probe
  -- whose guard is dropped one half-open period late leaves the breaker, with no probe in flight, in a
  -- state where every later check is refused and changes nothing, however much time passes.
  pub late_guard_blocks :
      (failures since first fails second : ℕ)
      → since + l.recovery_timeout ≤ first
      → fails + l.recovery_timeout ≤ second
      → let w = run l (late_guard first fails second) (opened_world failures since) in
        (w.live ≡ 0)
        × (w.stale ≡ 0)
        × (from_u8 w.cell.state ≡ half_open)
        × ((now : ℕ) → check_breaker l now w.cell ≡ (w.cell, opened, false))
  unfolding wrapped_cell
  late_guard_blocks failures since first fails second h k =
      rw (late_guard-wraps failures since first fails second h k)
        (refl, refl, refl, wrapped-refuses failures fails)
