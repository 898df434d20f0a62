-- ===== src/Handler/Outcome.antt =====
-- How the response of a last attempt counts on the circuit breaker (`handle_response` of
-- src/proxy/handler/attempt.rs with src/circuit.rs).
use reduction.Prelude.{
  ℕ, ◌+◌, ◌%◌, ◌^◌, ◌≤◌, ◌<◌, ◌≡◌, refl, sym, ap, ◌∙◌, ◌⊎◌, inl, inr, true, false, some, arith, ltb,
  leb, if◌then◌else◌, Bool-cases,
}
use reduction.Circuit.{
  Limits, Breaker, opened, from_u8, state_closed, failure_breaker, success_breaker, failure_closed,
}
use reduction.Handler.{handle_response}

-- A closed breaker with its number of failures.
abbrev shut_with : ℕ → Breaker → Breaker
shut_with f b = record b { state = state_closed; consecutive_failures = f }

failure_shut :
    (l : Limits) (now f : ℕ) (b : Breaker)
    → f + 1 < 2 ^ 32
    → failure_breaker l now (shut_with f b) ≡ (
        if leb l.failure_threshold (f + 1)
        then record b { state = 1; consecutive_failures = f + 1; opened_at = some now }
        else shut_with (f + 1) b)
unfolding failure_breaker failure_closed
failure_shut l now f b fits =
    let counted : (f + 1) % 2 ^ 32 ≡ f + 1 = omega (arith, fits) in
    ap
      (λ n.
        if leb l.failure_threshold n
        then record b { state = 1; consecutive_failures = n; opened_at = some now }
        else shut_with n b)
      counted

is_shut : (b : Breaker) → b.state ≡ state_closed → b ≡ shut_with b.consecutive_failures b
is_shut b shut = ap (λ s. record b { state = s }) shut

twice :
    (l : Limits) (now attempt max_attempts status : ℕ) (b : Breaker)
    → max_attempts ≤ attempt + 1
    → (status ≡ 502) ⊎ (status ≡ 503)
    → (handle_response l now attempt max_attempts status b).0
      ≡ failure_breaker l now (failure_breaker l now b)
unfolding handle_response
twice l now attempt max_attempts status b last which =
    let done : ltb (attempt + 1) max_attempts ≡ false = ground (arith, last) in
    elim which [
      | inl e ↦ rw (e, handle_response, done) refl
      | inr e ↦ rw (e, handle_response, done) refl
    ]

-- One 502 or 503 of the last attempt counts as two failures of a closed breaker: two below the
-- threshold, it opens.
pub last_failure_counts_twice :
    (l : Limits) (now attempt max_attempts status : ℕ) (b : Breaker)
    → max_attempts ≤ attempt + 1
    → (status ≡ 502) ⊎ (status ≡ 503)
    → b.state ≡ state_closed
    → b.consecutive_failures + 2 < 2 ^ 32
    → l.failure_threshold ≤ b.consecutive_failures + 2
    → from_u8 (handle_response l now attempt max_attempts status b).0.state ≡ opened
unfolding failure_breaker
last_failure_counts_twice l now attempt max_attempts status b last which shut fits near =
    let f = b.consecutive_failures in
    let first = failure_shut l now f b (omega (arith, fits)) in
    let second = failure_shut l now (f + 1) b (omega (arith, fits)) in
    let reached : leb l.failure_threshold (f + 1 + 1) ≡ true = ground (arith, near) in
    let start =
      ap (λ x. from_u8 (failure_breaker l now (failure_breaker l now x)).state) (is_shut b shut) in
    ap (λ x. from_u8 x.state) (twice l now attempt max_attempts status b last which)
    ∙ (start
        ∙ (ap (λ x. from_u8 (failure_breaker l now x).state) first
            ∙ elim (Bool-cases (leb l.failure_threshold (f + 1))) [
              | inl at_once ↦ rw at_once refl
              | inr later ↦ rw later (ap (λ x. from_u8 x.state) second ∙ rw reached refl)
            ]))

-- Answers of 429 at last attempts never open a breaker whose threshold is above the count by more
-- than 1: each is counted as a failure and at once as a success, which sets the count to 0.
pub rate_limited_never_opens :
    (l : Limits) (now attempt max_attempts : ℕ) (b : Breaker)
    → max_attempts ≤ attempt + 1
    → b.state ≡ state_closed
    → b.consecutive_failures + 1 < l.failure_threshold
    → l.failure_threshold < 2 ^ 32
    → (handle_response l now attempt max_attempts 429 b).0 ≡ record b { consecutive_failures = 0 }
unfolding handle_response success_breaker
rate_limited_never_opens l now attempt max_attempts b last shut far fits =
    let f = b.consecutive_failures in
    let done : ltb (attempt + 1) max_attempts ≡ false = ground (arith, last) in
    let below : leb l.failure_threshold (f + 1) ≡ false = ground (arith, far) in
    let first = rw below at (failure_shut l now f b (omega (arith, far, fits))) in
    rw (done, handle_response)
      (ap (λ x. success_breaker (failure_breaker l now x)) (is_shut b shut)
        ∙ (ap success_breaker first
            ∙ ap (λ s. record b { state = s; consecutive_failures = 0 }) (sym shut)))
