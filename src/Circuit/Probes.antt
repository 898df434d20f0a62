-- ===== src/Circuit/Probes.antt =====
-- The half-open limit (src/circuit.rs): the guards that requests hold, beside the counter of the cell.
use reduction.Prelude.{
  ℕ, ◌+◌, ◌-◌, ◌≤◌, ◌<◌, ◌≡◌, refl, ◌↔◌, ◌≢◌, List, [], ◌∷◌, arith, if◌then◌else◌, ltb,
}
use reduction.Prelude.Words.{u32_max}
use reduction.Circuit.{
  half_open, from_u8, Breaker, Limits, new_breaker, drop_guard, check_breaker, success_breaker,
  failure_breaker,
}

-- A cell with the guards that are held on it: `live` of the present half-open period, and `stale`
-- ones of earlier periods, whose requests still run.
pub record World : Type 0 where
  pub cell : Breaker
  pub live : ℕ
  pub stale : ℕ

pub data Event : Type 0 where
  check failure : (now : ℕ) → Event
  success drop_live drop_stale : Event

-- The guards of a period that ends become stale.
retire : World → Breaker → World
retire w b = elim (from_u8 w.cell.state) [
  | half_open ↦ record { cell = b; live = 0; stale = w.stale + w.live }
  | _ ↦ record w { cell = b }
]

unfoldable pub step : Limits → Event → World → World
unfolding retire
step l (check now) w =
    let (b, _, guard) = check_breaker l now w.cell in
    record w { cell = b; live = if guard then w.live + 1 else w.live }
step l (failure now) w = retire w (failure_breaker l now w.cell)
step l success w = retire w (success_breaker w.cell)
step l drop_live w =
    if ltb 0 w.live then record w { cell = drop_guard w.cell; live = w.live - 1 } else w
step l drop_stale w =
    if ltb 0 w.stale then record w { cell = drop_guard w.cell; stale = w.stale - 1 } else w

unfoldable pub run : Limits → List Event → World → World
run l [] w = w
run l (e ∷ es) w = run l es (step l e w)

unfoldable pub start : World
unfolding new_breaker
start = record { cell = new_breaker; live = 0; stale = 0 }

-- No guard of an earlier period is dropped while the cell is half-open.
abbrev pub Timely : Limits → List Event → World → Type 0
Timely l [] w = Unit {0}
Timely l (e ∷ es) w = (e ≡ drop_stale → from_u8 w.cell.state ≢ half_open) × Timely l es (step l e w)

pub record Counted (l : Limits) (w : World) : Type 0 where
  pub probing : from_u8 w.cell.state ≡ half_open → w.cell.half_open_inflight ≡ w.live
  pub idle : from_u8 w.cell.state ≢ half_open → w.live ≡ 0
  pub bounded : w.live ≤ l.half_open_max_requests

module _ (l : Limits) (positive : 0 < l.half_open_max_requests)
    (fits : l.half_open_max_requests ≤ u32_max) where
  step-Counted :
      (e : Event) (w : World)
      → (e ≡ drop_stale → from_u8 w.cell.state ≢ half_open)
      → Counted l w
      → Counted l (step l e w)
  unfolding step check_breaker failure_breaker success_breaker drop_guard
  step-Counted (check now) w h v = ground arith
  step-Counted (failure now) w h v = ground arith
  step-Counted success w h v = ground arith
  step-Counted drop_live w h v = ground arith
  step-Counted drop_stale w h v = ground arith

  run-Counted : (es : List Event) (w : World) → Timely l es w → Counted l w → Counted l (run l es w)
  unfolding run
  run-Counted [] w h v = v
  run-Counted (e ∷ es) w h v = run-Counted es (step l e w) h.1 (step-Counted e w h.0 v)

  start-Counted : Counted l start
  unfolding start
  start-Counted = record { probing = λ h. cc; idle = λ h. refl; bounded = omega arith }

  admitted_iff :
      (now : ℕ) (w : World)
      → Counted l w
      → from_u8 w.cell.state ≡ half_open
      → ((check_breaker l now w.cell).1 ≡ half_open) ↔ (w.live < l.half_open_max_requests)
  unfolding check_breaker
  admitted_iff now w v h = (λ e. ground arith, λ e. ground arith)

  -- With a limit from 1 to the largest u32: after any calls from a new breaker in which no guard of an
  -- earlier period is dropped while the cell is half-open, at most `half_open_max_requests` probes are
  -- in flight, a half-open cell counts them exactly, and it admits one more exactly when fewer than
  -- the limit are in flight.
  pub probes_bounded :
      (es : List Event)
      → Timely l es start
      → let w = run l es start in
        (w.live ≤ l.half_open_max_requests)
        × (from_u8 w.cell.state ≡ half_open → w.cell.half_open_inflight ≡ w.live)
        × ((now : ℕ)
            → from_u8 w.cell.state ≡ half_open
            → ((check_breaker l now w.cell).1 ≡ half_open) ↔ (w.live < l.half_open_max_requests))
  probes_bounded es h =
      let v : Counted l (run l es start) = run-Counted es start h start-Counted in
      (v.bounded, v.probing, λ now. admitted_iff now (run l es start) v)
