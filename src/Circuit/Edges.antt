-- ===== src/Circuit/Edges.antt =====
-- Every call on a cell (src/circuit.rs) against the diagram of the breaker's states.
use reduction.Prelude.Words.{wrap_inc}
use reduction.Prelude.{
  ◌⊎◌, inl, inr, Bool-cases, leb→le, ℕ, ◌-◌, ◌≤◌, ◌≡◌, refl, Option, some, none, arith, leb,
}
use reduction.Circuit.{
  CircuitState, closed, opened, half_open, from_u8, Breaker, Limits, drop_guard, check_breaker,
  success_breaker, failure_breaker,
}

pub data Call : Type 0 where
  check failure : (now : ℕ) → Call
  success drop : Call

unfoldable pub step : Limits → Call → Breaker → Breaker
step l (check now) b = (check_breaker l now b).0
step l (failure now) b = failure_breaker l now b
step l success b = success_breaker b
step l drop b = drop_guard b

-- The arrows of the diagram, with what each needs of the cell before and leaves in the cell after.
pub data Edge (l : Limits) (b b' : Breaker) : Call → Type 0 where
  stays :
      (c : Call) → from_u8 b'.state ≡ from_u8 b.state → b'.opened_at ≡ b.opened_at → Edge l b b' c
  trips :
      (now : ℕ)
      → from_u8 b.state ≡ closed
      → from_u8 b'.state ≡ opened
      → b'.opened_at ≡ some now
      → l.failure_threshold ≤ b'.consecutive_failures
      → Edge l b b' (failure now)
  probes :
      (now since : ℕ)
      → from_u8 b.state ≡ opened
      → b.opened_at ≡ some since
      → l.recovery_timeout ≤ now - since
      → from_u8 b'.state ≡ half_open
      → b'.half_open_inflight ≡ 1
      → Edge l b b' (check now)
  reopens :
      (now : ℕ)
      → from_u8 b.state ≡ half_open
      → from_u8 b'.state ≡ opened
      → b'.opened_at ≡ some now
      → b'.half_open_inflight ≡ 0
      → Edge l b b' (failure now)
  recovers :
      from_u8 b.state ≡ half_open
      → from_u8 b'.state ≡ closed
      → b'.opened_at ≡ none
      → b'.consecutive_failures ≡ 0
      → b'.half_open_inflight ≡ 0
      → Edge l b b' success

state-cases : (s : CircuitState) → (s ≡ closed) ⊎ ((s ≡ opened) ⊎ (s ≡ half_open))
state-cases closed = inl refl
state-cases opened = inr (inl refl)
state-cases half_open = inr (inr refl)

check-Edge : (l : Limits) (now : ℕ) (b : Breaker) → Edge l b (check_breaker l now b).0 (check now)
unfolding check_breaker
check-Edge l now b = elim (state-cases (from_u8 b.state)) [
  | inl c ↦ stays (check now) (ground arith) (ground arith)
  | inr (inl o) ↦ opened-Edge b.opened_at refl o
  | inr (inr h) ↦ stays (check now) (ground arith) (ground arith)
]
  where
    opened-Edge :
        (t : Option ℕ)
        → b.opened_at ≡ t
        → from_u8 b.state ≡ opened
        → Edge l b (check_breaker l now b).0 (check now)
    opened-Edge none e o = stays (check now) (ground arith) (ground arith)
    opened-Edge (some since) e o = elim (Bool-cases (leb l.recovery_timeout (now - since))) [
      | inl over ↦ probes now since o e (leb→le _ _ over) (ground arith) (ground arith)
      | inr wait ↦ stays (check now) (ground arith) (ground arith)
    ]

failure-Edge :
    (l : Limits) (now : ℕ) (b : Breaker) → Edge l b (failure_breaker l now b) (failure now)
unfolding failure_breaker
failure-Edge l now b = elim (state-cases (from_u8 b.state)) [
  | inl c ↦ elim (Bool-cases (leb l.failure_threshold (wrap_inc b.consecutive_failures))) [
    | inl full ↦ trips now c (ground arith) (ground arith) (ground arith)
    | inr under ↦ stays (failure now) (ground arith) (ground arith)
  ]
  | inr (inl o) ↦ stays (failure now) (ground arith) (ground arith)
  | inr (inr h) ↦ reopens now h (ground arith) (ground arith) (ground arith)
]

success-Edge : (l : Limits) (b : Breaker) → Edge l b (success_breaker b) success
unfolding success_breaker
success-Edge l b = elim (state-cases (from_u8 b.state)) [
  | inl c ↦ stays success (ground arith) (ground arith)
  | inr (inl o) ↦ stays success (ground arith) (ground arith)
  | inr (inr h) ↦ recovers h (ground arith) (ground arith) (ground arith) (ground arith)
]

drop-Edge : (l : Limits) (b : Breaker) → Edge l b (drop_guard b) drop
unfolding drop_guard
drop-Edge l b = stays drop (ground arith) (ground arith)

-- Every call leaves the state and the opening time of the cell alone, or takes one arrow of the
-- diagram: a failure trips a closed cell whose count then reaches the threshold, a check starts
-- half-open probing of an open cell once the recovery timeout has passed since it opened, a failure
-- opens a half-open cell again, and a success closes a half-open cell and clears its counters.
pub step-Edge : (l : Limits) (c : Call) (b : Breaker) → Edge l b (step l c b) c
unfolding step
step-Edge l (check now) b = check-Edge l now b
step-Edge l (failure now) b = failure-Edge l now b
step-Edge l success b = success-Edge l b
step-Edge l drop b = drop-Edge l b
