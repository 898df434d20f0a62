-- ===== src/Circuit/Tests.antt =====
-- The breaker at concrete inputs, most of them those of the unit tests of src/circuit.rs.
use reduction.Prelude.{
  ℕ, ◌≤◌, ◌<◌, ◌≡◌, refl, ◌≢◌, ◌↔◌, Bool, false, List, [], ◌∷◌, Text, codes, text_dec, arith, leb,
  length,
}
use reduction.Prelude.Maps.{assoc}
use reduction.Circuit.{
  closed, opened, half_open, from_u8, Limits, new_breaker, check_breaker, drop_guard,
  success_breaker, failure_breaker,
}
use reduction.Circuit.Cells.{
  CircuitBreakers, CircuitBreakerConfig, new, record_success, record_failure, state,
}
use reduction.Circuit.Trip.{success, failure, record_all, HasRun, opened_iff-HasRun}
use reduction.Circuit.Edges
use reduction.Circuit.Edges.{Edge, step-Edge}
use reduction.Circuit.Probes
use reduction.Circuit.Probes.{World, Event, run, start, probes_bounded}
use reduction.Circuit.Stale.{late_guard, opened_world, late_guard_blocks}
use reduction.Circuit.Isolation.{
  IsValid, check_at, failure_at, call, cell_of, call-Isolated, new-IsValid,
}

abbrev fits : Text → Bool
fits id = leb (length id) 256

abbrev limits : Limits
limits = record { failure_threshold = 2; recovery_timeout = 60; half_open_max_requests = 2 }

abbrev config : CircuitBreakerConfig
config = record { failure_threshold = 3; recovery_timeout_secs = 60; half_open_max_requests = 2 }

abbrev breakers : CircuitBreakers fits (assoc text_dec)
breakers = new fits (assoc text_dec) config

abbrev b1 : Text
b1 = codes "b1"

-- `test_opens_after_threshold` and `test_success_resets_failure_count`.
opens_after_threshold :
    let ops = assoc text_dec in
    let twice = record_failure fits ops (record_failure fits ops breakers 1 b1) 2 b1 in
    (state fits ops twice b1 ≡ closed)
    × (state fits ops (record_failure fits ops twice 3 b1) b1 ≡ opened)
    × (state fits ops (record_failure fits ops (record_success fits ops twice b1) 3 b1) b1 ≡ closed)
unfolding new record_failure record_success state new_breaker failure_breaker success_breaker
    text_dec
opens_after_threshold = (refl, refl, refl)

opened_iff-HasRun_example :
    let os = failure 1 ∷ success ∷ failure 2 ∷ failure 3 ∷ [] in
    (from_u8 (record_all limits os new_breaker).state ≡ opened) ↔ HasRun 2 os
opened_iff-HasRun_example =
    opened_iff-HasRun limits (omega arith) (omega arith)
      (failure 1 ∷ success ∷ failure 2 ∷ failure 3 ∷ [])

step-Edge_example :
    Edge limits new_breaker
      (Edges.step limits (Edges.Call.failure 7) new_breaker)
      (Edges.Call.failure 7)
step-Edge_example = step-Edge limits (Edges.Call.failure 7) new_breaker

abbrev probing : List Event
probing =
    Event.failure 1
    ∷ Event.failure 2
    ∷ Event.check 62
    ∷ Event.check 63
    ∷ Event.check 64
    ∷ Event.drop_live
    ∷ []

-- `test_half_open_limits_probes` and `test_half_open_guard_decrements_on_drop`.
probing_runs : ((run limits probing start).live ≡ 1)
unfolding run start Probes.step check_breaker failure_breaker drop_guard
probing_runs = refl

probes_bounded_example :
    let w = run limits probing start in
    (w.live ≤ 2)
    × (from_u8 w.cell.state ≡ half_open → w.cell.half_open_inflight ≡ w.live)
    × ((now : ℕ)
        → from_u8 w.cell.state ≡ half_open
        → ((check_breaker limits now w.cell).1 ≡ half_open) ↔ (w.live < 2))
probes_bounded_example =
    probes_bounded limits (omega arith) (omega arith) probing
      ((λ e. cc), ((λ e. cc), ((λ e. cc), ((λ e. cc), ((λ e. cc), ((λ e. cc), tt))))))

late_guard_blocks_example :
    let w = run limits (late_guard 61 70 130) (opened_world 2 1) in
    (w.live ≡ 0)
    × (w.stale ≡ 0)
    × (from_u8 w.cell.state ≡ half_open)
    × ((now : ℕ) → check_breaker limits now w.cell ≡ (w.cell, opened, false))
late_guard_blocks_example =
    late_guard_blocks limits (omega arith) 2 1 61 70 130 (omega arith) (omega arith)

call-Isolated_example :
    IsValid fits (assoc text_dec) (call fits (assoc text_dec) breakers (check_at 5) b1)
    × ((id' : Text)
        → b1 ≢ id'
        → cell_of fits (assoc text_dec) (call fits (assoc text_dec) breakers (check_at 5) b1) id'
          ≡ cell_of fits (assoc text_dec) breakers id')
call-Isolated_example =
    call-Isolated fits (assoc text_dec) breakers (check_at 5) b1
      (new-IsValid fits (assoc text_dec) config)

abbrev recovering : CircuitBreakers fits (assoc text_dec)
recovering =
    record_failure fits (assoc text_dec)
      (new fits (assoc text_dec)
        (record { failure_threshold = 1; recovery_timeout_secs = 0; half_open_max_requests = 2 }))
      1 b1

recovering-IsValid : IsValid fits (assoc text_dec) recovering
unfolding call
recovering-IsValid =
    (call-Isolated fits (assoc text_dec) (new fits (assoc text_dec) _) (failure_at 1) b1
      (new-IsValid fits (assoc text_dec) _)).0
