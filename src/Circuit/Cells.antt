-- ===== src/Circuit/Cells.antt =====
-- `CircuitBreakers` (src/circuit.rs). The map holds an `Arc` to each cell, and a `HalfOpenGuard` holds
-- another: a cell outlives its entry. So the map leads to the position of a cell in a store.
use reduction.Prelude.{
  ℕ, zero, suc, ◌*◌, Bool, Option, none, some, List, [], ◌∷◌, ◌++◌, Text, text_dec, length,
  get_elem?, if◌then◌else◌,
}
use reduction.Prelude.Maps.{MapOps}
use reduction.Circuit.{
  CircuitState, closed, opened, from_u8, Breaker, new_breaker, Limits, drop_guard, check_breaker,
  success_breaker, failure_breaker,
}

-- `CircuitBreakerConfig`, whose timeout is in seconds; a tick is a nanosecond.
pub record CircuitBreakerConfig : Type 0 where
  pub failure_threshold : ℕ
  pub recovery_timeout_secs : ℕ
  pub half_open_max_requests : ℕ

abbrev pub modify {ℓ} : {A : Type ℓ} → ℕ → (A → A) → List A → List A
modify i f [] = []
modify zero f (x ∷ xs) = f x ∷ xs
modify (suc i) f (x ∷ xs) = x ∷ modify i f xs

-- The `DashMap` of the crate, and `ArrayString::<256>::from`, which refuses what does not fit.
module _ (fits : Text → Bool) (ops : MapOps Text ℕ text_dec) where
  pub record CircuitBreakers : Type 0 where
    pub breakers : ops.Map
    pub cells : List Breaker
    pub limits : Limits

  unfoldable pub new : CircuitBreakerConfig → CircuitBreakers
  new config = record {
    breakers = ops.empty;
    cells = [];
    limits = record {
      failure_threshold = config.failure_threshold;
      recovery_timeout = config.recovery_timeout_secs * 1_000_000_000;
      half_open_max_requests = config.half_open_max_requests;
    };
  }

  -- `entry(key).or_insert_with(..)`: the position of the cell, made if it is missing.
  unfoldable pub entry : CircuitBreakers → Text → CircuitBreakers × ℕ
  entry c id = elim (ops.get id c.breakers) [
    | some cell ↦ (c, cell)
    | none ↦ (
      record c {
        breakers = ops.insert id (length c.cells) c.breakers;
        cells = c.cells ++ (new_breaker ∷ []);
      },
      length c.cells,
    )
  ]

  abbrev pub breaker_at : CircuitBreakers → ℕ → Breaker
  breaker_at c cell = elim (get_elem? c.cells cell) [ some b ↦ b | none ↦ new_breaker ]

  abbrev pub update_at : CircuitBreakers → ℕ → (Breaker → Breaker) → CircuitBreakers
  update_at c cell f = record c { cells = modify cell f c.cells }

  -- `check`: a guard is the position of the cell that it holds.
  unfoldable pub check : CircuitBreakers → ℕ → Text → CircuitBreakers × CircuitState × Option ℕ
  unfolding entry
  check c now id =
      if fits id
      then (let (c', cell) = entry c id in
          let (b, state, guard) = check_breaker c'.limits now (breaker_at c' cell) in
          (update_at c' cell (λ _. b), state, if guard then some cell else none))
      else (c, opened, none)

  unfoldable pub record_success : CircuitBreakers → Text → CircuitBreakers
  record_success c id = elim (ops.get id c.breakers) [
    | none ↦ c
    | some cell ↦ update_at c cell success_breaker
  ]

  unfoldable pub record_failure : CircuitBreakers → ℕ → Text → CircuitBreakers
  unfolding entry
  record_failure c now id =
      if fits id
      then (let (c', cell) = entry c id in update_at c' cell (failure_breaker c'.limits now))
      else c

  unfoldable pub state : CircuitBreakers → Text → CircuitState
  state c id = elim (ops.get id c.breakers) [
    | some cell ↦ from_u8 (breaker_at c cell).state
    | none ↦ closed
  ]

  unfoldable pub remove_backend : CircuitBreakers → Text → CircuitBreakers
  remove_backend c id = record c { breakers = ops.remove id c.breakers }

  -- Dropping a guard changes the cell that it holds, whatever the map says by then.
  unfoldable pub drop_held : CircuitBreakers → ℕ → CircuitBreakers
  drop_held c cell = update_at c cell drop_guard
