-- ===== src/Retry/Bounds.antt =====
-- What the delay of src/retry.rs is, with no saturation in the statement.
use native.Mathlib.Nat.{pow-le-pow_right}
use reduction.Prelude.{ℕ, zero, suc, ◌+◌, ◌-◌, ◌*◌, ◌^◌, ◌≤◌, ◌<◌, ◌≡◌, min, arith, dec_lt}
use reduction.Prelude.Words.{u64_max}
use reduction.Retry.{RetryConfig, exp_delay_ms, jitter_ms, backoff_delay}

-- The configuration fits its fields.
pub record IsConfig (c : RetryConfig) : Type 0 where
  pub base_fits : c.base_delay_ms ≤ u64_max
  pub max_fits : c.max_delay_ms ≤ u64_max

capped :
    (base x most : ℕ) → most ≤ u64_max → min (min (base * x) u64_max) most ≡ min (base * x) most
capped base x most h = omega arith

saturated :
    (base x most : ℕ)
    → most ≤ u64_max
    → 2 ^ 64 ≤ x
    → min (min (base * u64_max) u64_max) most ≡ min (base * x) most
saturated zero x most h k = grind arith
saturated (suc base) x most h k = grind arith

-- Neither the shift nor the multiplication distorts the delay by its saturation: at every attempt
-- the part without jitter is the smaller of `base_delay_ms * 2 ^ attempt` and `max_delay_ms`.
pub exp_delay_lem :
    (attempt : ℕ) (c : RetryConfig)
    → IsConfig c
    → exp_delay_ms attempt c ≡ min (c.base_delay_ms * 2 ^ attempt) c.max_delay_ms
unfolding exp_delay_ms
exp_delay_lem attempt c v = elim (dec_lt attempt 64) [
  | yes low ↦ ground (arith, capped c.base_delay_ms (2 ^ attempt) c.max_delay_ms)
  | no high ↦ ground (
    arith,
    saturated c.base_delay_ms (2 ^ attempt) c.max_delay_ms,
    pow-le-pow_right {n = 2} (omega arith) {i = 64} {j = attempt} (omega arith),
  )
]

module _ (random_range : ℕ → ℕ) (draws : (n : ℕ) → 0 < n → random_range n < n) where
  -- For a configuration whose fields fit u64, and draws of the random source below their bound: the
  -- delay is at least `min (base_delay_ms * 2 ^ attempt) max_delay_ms`, exceeds it by less than
  -- `jitter_ms` (by nothing when that is 0), and fits u64.
  pub backoff_delay_bounds :
      (attempt : ℕ) (c : RetryConfig)
      → IsConfig c
      → let exact = min (c.base_delay_ms * 2 ^ attempt) c.max_delay_ms in
        (exact ≤ backoff_delay random_range attempt c)
        × (backoff_delay random_range attempt c ≤ exact + (c.jitter_ms - 1))
        × (backoff_delay random_range attempt c ≤ u64_max)
  unfolding backoff_delay jitter_ms
  backoff_delay_bounds attempt c v =
      let exact = min (c.base_delay_ms * 2 ^ attempt) c.max_delay_ms in
      ground (arith, exp_delay_lem attempt c v, draws c.jitter_ms, v.max_fits)
