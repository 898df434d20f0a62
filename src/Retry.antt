-- ===== src/Retry.antt =====
-- The delay between two attempts (src/retry.rs), shared by the forward loop of the proxy and the
-- reconnect loop of the ingress. Values of u64 are native numbers; `random_range` of the rand crate is
-- a parameter.
pub mod Bounds
mod Tests
use reduction.Prelude.{ℕ, ◌^◌, Option, some, none, min, ltb, unwrap_or, if◌then◌else◌}
use reduction.Prelude.Words.{u64_max, saturating_add, saturating_mul}

pub record RetryConfig : Type 0 where
  pub max_retries : ℕ
  pub base_delay_ms : ℕ
  pub max_delay_ms : ℕ
  pub jitter_ms : ℕ

-- `1u64.checked_shl(attempt)`: none from 64 on.
abbrev pub checked_shl_one : ℕ → Option ℕ
checked_shl_one attempt = if ltb attempt 64 then some (2 ^ attempt) else none

pub exp_delay_ms : ℕ → RetryConfig → ℕ
exp_delay_ms attempt config =
    min (saturating_mul config.base_delay_ms (unwrap_or (checked_shl_one attempt) u64_max))
      config.max_delay_ms

-- `random_range n` is a draw from `0..n`.
module _ (random_range : ℕ → ℕ) where
  pub jitter_ms : RetryConfig → ℕ
  jitter_ms config = if ltb 0 config.jitter_ms then random_range config.jitter_ms else 0

  -- In milliseconds.
  pub backoff_delay : ℕ → RetryConfig → ℕ
  backoff_delay attempt config = saturating_add (exp_delay_ms attempt config) (jitter_ms config)
