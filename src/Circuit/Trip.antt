-- ===== src/Circuit/Trip.antt =====
-- When a closed breaker opens (`record_failure` and `record_success` of src/circuit.rs): the outcomes of
-- the requests that it let through, against a description that has no counter.
use reduction.Prelude.{
  ◌↔◌, ℕ, ◌+◌, ◌≤◌, ◌<◌, ◌≡◌, refl, sym, ap, subst, ◌∙◌, ◌⊎◌, inl, inr, List, [], ◌∷◌, ◌++◌,
  append_assoc, length, length-append, All, All-append, arith,
}
use reduction.Prelude.Words.{u32_max}
use reduction.Circuit.{
  closed, opened, from_u8, Breaker, Limits, new_breaker, success_breaker, failure_breaker,
}

pub data Outcome : Type 0 where
  success : Outcome
  failure : (now : ℕ) → Outcome

pub record_outcome : Limits → Outcome → Breaker → Breaker
record_outcome l success b = success_breaker b
record_outcome l (failure now) b = failure_breaker l now b

unfoldable pub record_all : Limits → List Outcome → Breaker → Breaker
unfolding record_outcome
record_all l [] b = b
record_all l (o ∷ os) b = record_all l os (record_outcome l o b)

abbrev pub IsFailure : Outcome → Type 0
IsFailure success = ⊥
IsFailure (failure now) = Unit {0}

-- `n` failures in a row, with no success between them.
abbrev pub HasRun : ℕ → List Outcome → Type 0
HasRun n os =
    (before : List Outcome) × (run : List Outcome) × (after : List Outcome) × (os
      ≡ before ++ (run ++ after))
    × All IsFailure run
    × (length run ≡ n)

module _ (l : Limits) (positive : 0 < l.failure_threshold)
    (fits : l.failure_threshold ≤ u32_max) where
  -- A cell that counts: closed below the threshold, or already open.
  abbrev Counts : ℕ → Breaker → Type 0
  Counts k b = (from_u8 b.state ≡ closed) × (b.consecutive_failures ≡ k) × (k < l.failure_threshold)

  abbrev IsOpen : Breaker → Type 0
  IsOpen b = from_u8 b.state ≡ opened

  IsOpen-record_all : (os : List Outcome) (b : Breaker) → IsOpen b → IsOpen (record_all l os b)
  unfolding record_all success_breaker failure_breaker
  IsOpen-record_all [] b h = h
  IsOpen-record_all (success ∷ os) b h = IsOpen-record_all os (success_breaker b) (ground arith)
  IsOpen-record_all (failure t ∷ os) b h =
      IsOpen-record_all os (failure_breaker l t b) (ground arith)

  failure-Counts :
      (t k : ℕ) (b : Breaker)
      → Counts k b
      → Counts (k + 1) (failure_breaker l t b)
        ⊎ (IsOpen (failure_breaker l t b) × (k + 1 ≡ l.failure_threshold))
  unfolding failure_breaker
  failure-Counts t k b h = ground arith

  success-Counts : (k : ℕ) (b : Breaker) → Counts k b → Counts 0 (success_breaker b)
  unfolding success_breaker
  success-Counts k b h = ground arith

  -- A run that ends open holds `failure_threshold` failures in a row; `run` are the last ones seen.
  HasRun-of_opened :
      (run os : List Outcome) (b : Breaker)
      → All IsFailure run
      → Counts (length run) b
      → IsOpen (record_all l os b)
      → HasRun l.failure_threshold (run ++ os)
  unfolding record_all
  HasRun-of_opened run [] b fails c h = absurd (ground arith)
  HasRun-of_opened run (success ∷ os) b fails c h =
      let (before, found, after, split, all_fail, len) =
        HasRun-of_opened [] os (success_breaker b) tt (success-Counts (length run) b c) h in
      (
        run ++ (success ∷ before),
        found,
        after,
        ap (λ r. run ++ (success ∷ r)) split ∙ sym (append_assoc run (success ∷ before) _),
        all_fail,
        len,
      )
  HasRun-of_opened run (failure t ∷ os) b fails c h = elim (failure-Counts t (length run) b c) [
    | inl more ↦ rw (← append_assoc run (failure t ∷ []) os) (
        HasRun-of_opened (run ++ (failure t ∷ [])) os (failure_breaker l t b) longer_fails
          (ground (arith, more, length-append run (failure t ∷ []))) h)
    | inr (opens, full) ↦ (
      [],
      run ++ (failure t ∷ []),
      os,
      sym (append_assoc run (failure t ∷ []) os),
      longer_fails,
      omega (arith, length-append run (failure t ∷ []), full),
    )
  ]
    where
      longer_fails : All IsFailure (run ++ (failure t ∷ []))
      longer_fails = All-append IsFailure run (failure t ∷ []) fails (tt, tt)

  outcome-Counts :
      (o : Outcome) (k : ℕ) (b : Breaker)
      → Counts k b
      → ((k' : ℕ) × Counts k' (record_outcome l o b)) ⊎ IsOpen (record_outcome l o b)
  unfolding record_outcome
  outcome-Counts success k b c = inl (0, success-Counts k b c)
  outcome-Counts (failure t) k b c = elim (failure-Counts t k b c) [
    | inl more ↦ inl (k + 1, more)
    | inr (opens, _) ↦ inr opens
  ]

  -- From a counting cell, enough failures in a row open it, whatever comes after them.
  opened_of_run :
      (run after : List Outcome) (k : ℕ) (b : Breaker)
      → All IsFailure run
      → Counts k b
      → l.failure_threshold ≤ k + length run
      → IsOpen (record_all l (run ++ after) b)
  unfolding record_all
  opened_of_run [] after k b fails c h = absurd (omega arith)
  opened_of_run (success ∷ run) after k b fails c h = absurd fails.0
  opened_of_run (failure t ∷ run) after k b fails c h = elim (failure-Counts t k b c) [
    | inl more ↦ opened_of_run run after (k + 1) (failure_breaker l t b) fails.1 more (omega arith)
    | inr (opens, _) ↦ IsOpen-record_all (run ++ after) (failure_breaker l t b) opens
  ]

  opened_of_HasRun :
      (before run after : List Outcome) (k : ℕ) (b : Breaker)
      → All IsFailure run
      → length run ≡ l.failure_threshold
      → Counts k b
      → IsOpen (record_all l (before ++ (run ++ after)) b)
  unfolding record_all
  opened_of_HasRun [] run after k b fails len c = opened_of_run run after k b fails c (omega arith)
  opened_of_HasRun (o ∷ before) run after k b fails len c = elim (outcome-Counts o k b c) [
    | inl (k', more) ↦ opened_of_HasRun before run after k' (record_outcome l o b) fails len more
    | inr opens ↦ IsOpen-record_all (before ++ (run ++ after)) (record_outcome l o b) opens
  ]

  new-Counts : Counts 0 new_breaker
  unfolding new_breaker
  new-Counts = (refl, refl, positive)

  -- For a threshold from 1 to the largest u32: a new breaker is open after a sequence of outcomes
  -- exactly when that sequence holds `failure_threshold` failures in a row, with no success between
  -- them.
  pub opened_iff-HasRun :
      (os : List Outcome)
      → (from_u8 (record_all l os new_breaker).state ≡ opened) ↔ HasRun l.failure_threshold os
  opened_iff-HasRun os = (
    HasRun-of_opened [] os new_breaker tt new-Counts,
    λ (before, run, after, split, fails, len).
        subst (λ s. IsOpen (record_all l s new_breaker)) (sym split)
          (opened_of_HasRun before run after 0 new_breaker fails len new-Counts),
  )
