-- ===== src/Circuit.antt =====
-- The circuit breaker of one backend (src/circuit.rs): its cell, and what each call does to it. The
-- atomics of a cell are the fields of a record and every call runs to its end; the map of cells is in
-- Circuit/Cells. Times are ticks, and `now` is what `Instant::now()` returns in the call.
pub mod Cells
pub mod Trip
pub mod Edges
pub mod Probes
pub mod Stale
pub mod Isolation
mod Tests
use reduction.Prelude.{ℕ, ◌-◌, Bool, true, false, Option, none, some, ◌==◌, leb, if◌then◌else◌}
use reduction.Prelude.Words.{wrap_inc, wrap_dec}

abbrev pub state_closed : ℕ
state_closed = 0

abbrev pub state_open : ℕ
state_open = 1

abbrev pub state_half_open : ℕ
state_half_open = 2

pub data CircuitState : Type 0 where
  closed opened half_open : CircuitState

-- `CircuitState::from(u8)`.
abbrev pub from_u8 : ℕ → CircuitState
from_u8 v = if v == state_open then opened else if v == state_half_open then half_open else closed

pub record Breaker : Type 0 where
  pub state : ℕ
  pub consecutive_failures : ℕ
  pub half_open_inflight : ℕ
  pub opened_at : Option ℕ

pub new_breaker : Breaker
new_breaker = record {
  state = state_closed;
  consecutive_failures = 0;
  half_open_inflight = 0;
  opened_at = none;
}

pub record Limits : Type 0 where
  pub failure_threshold : ℕ
  pub recovery_timeout : ℕ
  pub half_open_max_requests : ℕ

-- What a `HalfOpenGuard` does when it is dropped.
pub drop_guard : Breaker → Breaker
drop_guard b = elim (from_u8 b.state) [
  | half_open ↦ record b { half_open_inflight = wrap_dec b.half_open_inflight }
  | _ ↦ b
]

-- `opened_at.map(|t| t.elapsed() >= recovery_timeout).unwrap_or(false)`; `elapsed` stops at 0.
pub should_transition : Limits → ℕ → Option ℕ → Bool
should_transition l now none = false
should_transition l now (some t) = leb l.recovery_timeout (now - t)

check_half_open : Limits → Breaker → Breaker × CircuitState × Bool
check_half_open l b =
    let inflight = b.half_open_inflight in
    let counted = wrap_inc inflight in
    if leb l.half_open_max_requests inflight
    then (record b { half_open_inflight = wrap_dec counted }, opened, false)
    else (record b { half_open_inflight = counted }, half_open, true)

-- The match of `check`: the cell, the state reported, and whether a `HalfOpenGuard` comes with it.
pub check_breaker : Limits → ℕ → Breaker → Breaker × CircuitState × Bool
unfolding should_transition check_half_open
check_breaker l now b = elim (from_u8 b.state) [
  | closed ↦ (b, closed, false)
  | opened ↦
      if should_transition l now b.opened_at
      then (record b { half_open_inflight = 1; state = state_half_open }, half_open, true)
      else (b, opened, false)
  | half_open ↦ check_half_open l b
]

-- The match of `record_success`.
unfoldable pub success_breaker : Breaker → Breaker
success_breaker b = elim (from_u8 b.state) [
  | half_open ↦ record b {
    consecutive_failures = 0;
    half_open_inflight = 0;
    state = state_closed;
    opened_at = none;
  }
  | closed ↦ record b { consecutive_failures = 0 }
  | opened ↦ b
]

unfoldable pub failure_closed : Limits → ℕ → Breaker → Breaker
failure_closed l now b =
    let failures = wrap_inc b.consecutive_failures in
    if leb l.failure_threshold failures
    then record b { consecutive_failures = failures; state = state_open; opened_at = some now }
    else record b { consecutive_failures = failures }

-- The match of `record_failure`. `fetch_add(1) + 1` is the new count: the counter stays below the
-- threshold, which fits u32, so neither sum wraps (`Circuit.Trip`).
unfoldable pub failure_breaker : Limits → ℕ → Breaker → Breaker
unfolding failure_closed
failure_breaker l now b = elim (from_u8 b.state) [
  | closed ↦ failure_closed l now b
  | half_open ↦ record b { half_open_inflight = 0; state = state_open; opened_at = some now }
  | opened ↦ b
]
