-- ===== src/Prelude/Decimal.antt =====
-- The decimal text of a number (`{}` of a usize), and that it determines the number.
use mathlib.Core.List.{foldl, foldl-append}
use reduction.Prelude.Tests.{ltb, Bool-cases}
use reduction.Prelude.Lists.{All, All-append}
use reduction.Prelude.Texts.{Text}
use Prim.Native.Nat.{ℕ, zero, suc, ◌+◌, ◌-◌, ◌*◌, ◌/◌, ◌%◌, ◌<◌, ◌≤◌}
use mathlib.Core.Path.{◌≡◌, refl, sym, ap, ◌∙◌}
use mathlib.Core.Bool.{true, false}
use mathlib.Core.Logic.{inl, inr}
use mathlib.Core.List.{[], ◌∷◌, ◌++◌}
use native.Mathlib.Omega.{arith}

decimal_digits : ℕ → ℕ → Text
decimal_digits zero n = []
decimal_digits (suc fuel) n = elim (ltb n 10) [
  | true ↦ (b'0' + n) ∷ []
  | false ↦ decimal_digits fuel (n / 10) ++ ((b'0' + n % 10) ∷ [])
]

-- A number has fewer digits than its successor, so that fuel is enough (`value-decimal`).
unfoldable pub decimal : ℕ → Text
unfolding decimal_digits
decimal n = decimal_digits (suc n) n

abbrev pub value_step : ℕ → ℕ → ℕ
value_step n c = n * 10 + (c - b'0')

unfoldable pub value : Text → ℕ
value = foldl value_step 0

value-snoc : (s : Text) (c : ℕ) → value (s ++ (c ∷ [])) ≡ value s * 10 + (c - b'0')
unfolding value
value-snoc s c = foldl-append _ 0 s (c ∷ [])

value-digits : (fuel n : ℕ) → n < fuel → value (decimal_digits fuel n) ≡ n
unfolding decimal_digits
value-digits zero n h = elim h [ ]
value-digits (suc fuel) n h = elim (Bool-cases (ltb n 10)) [
  | inl one ↦ rw (one, decimal_digits) (unfold value in ground arith)
  | inr more ↦
      rw (more, decimal_digits)
        (value-snoc (decimal_digits fuel (n / 10)) (b'0' + n % 10)
          ∙ grind (arith, value-digits fuel (n / 10)))
]

pub value-decimal : (n : ℕ) → value (decimal n) ≡ n
unfolding decimal
value-decimal n = value-digits (suc n) n (omega arith)

abbrev pub IsDigit : ℕ → Type 0
IsDigit c = (b'0' ≤ c) × (c ≤ b'9')

digits_All : (fuel n : ℕ) → All IsDigit (decimal_digits fuel n)
unfolding decimal_digits
digits_All zero n = tt
digits_All (suc fuel) n = elim (Bool-cases (ltb n 10)) [
  | inl one ↦ rw (one, decimal_digits) (ground arith)
  | inr more ↦
      rw (more, decimal_digits)
        (All-append IsDigit (decimal_digits fuel (n / 10)) ((b'0' + n % 10) ∷ [])
          (digits_All fuel (n / 10)) (ground arith))
]

pub decimal-All : (n : ℕ) → All IsDigit (decimal n)
unfolding decimal
decimal-All n = digits_All (suc n) n

All-below : (s : Text) → All IsDigit s → All (λ c. c < b':') s
All-below [] h = tt
All-below (c ∷ s) h = (omega (arith, h.0), All-below s h.1)

-- No digit is a colon.
pub decimal_below : (n : ℕ) → All (λ c. c < b':') (decimal n)
decimal_below n = All-below (decimal n) (decimal-All n)

snoc-cons : (s : Text) (c : ℕ) → (d : ℕ) × (t : Text) × (s ++ (c ∷ []) ≡ d ∷ t)
snoc-cons [] c = (c, [], refl)
snoc-cons (d ∷ s) c = (d, s ++ (c ∷ []), refl)

pub decimal-cons : (n : ℕ) → (d : ℕ) × (t : Text) × (decimal n ≡ d ∷ t)
unfolding decimal decimal_digits
decimal-cons n = elim (Bool-cases (ltb n 10)) [
  | inl one ↦ (b'0' + n, [], rw (one, decimal_digits) refl)
  | inr more ↦ rw (more, decimal_digits) (snoc-cons (decimal_digits n (n / 10)) (b'0' + n % 10))
]

pub decimal_inj : (m n : ℕ) → decimal m ≡ decimal n → m ≡ n
decimal_inj m n e = sym (value-decimal m) ∙ (ap value e ∙ value-decimal n)
