-- ===== src/Retry/Tests.antt =====
-- Retry delays at concrete configurations; the runs are the unit tests of src/retry.rs.
use reduction.Prelude.{ℕ, ◌+◌, ◌-◌, ◌≤◌, ◌≡◌, refl, arith}
use reduction.Prelude.Words.{u32_max, u64_max}
use reduction.Retry.{RetryConfig, exp_delay_ms, backoff_delay, jitter_ms}
use reduction.Retry.Bounds.{backoff_delay_bounds}

abbrev config : ℕ → ℕ → ℕ → RetryConfig
config base most jitter = record {
  max_retries = 3;
  base_delay_ms = base;
  max_delay_ms = most;
  jitter_ms = jitter;
}

-- `test_backoff_grows_exponentially_without_jitter`, `test_backoff_capped_at_max` and
-- `test_backoff_high_attempt_does_not_overflow`.
delays :
    (backoff_delay (λ n. 0) 0 (config 100 5000 0) ≡ 100)
    × (backoff_delay (λ n. 0) 2 (config 100 5000 0) ≡ 400)
    × (backoff_delay (λ n. 0) 5 (config 1000 2000 0) ≡ 2000)
    × (backoff_delay (λ n. 0) u32_max (config 200 2000 0) ≡ 2000)
unfolding backoff_delay exp_delay_ms jitter_ms
delays = (refl, refl, refl, refl)

backoff_delay_bounds_example :
    (800 ≤ backoff_delay (λ n. n - 1) 3 (config 100 5000 50))
    × (backoff_delay (λ n. n - 1) 3 (config 100 5000 50) ≤ 800 + (50 - 1))
    × (backoff_delay (λ n. n - 1) 3 (config 100 5000 50) ≤ u64_max)
backoff_delay_bounds_example =
    backoff_delay_bounds (λ n. n - 1) (λ n h. omega arith) 3 (config 100 5000 50) (omega arith)
