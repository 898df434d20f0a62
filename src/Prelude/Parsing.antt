-- ===== src/Prelude/Parsing.antt =====
-- What `str::split`, `str::trim` and `str::parse::<u64>` do on ASCII text.
use mathlib.Core.List.{foldl}
use reduction.Prelude.Tests.{leb, ◌==◌, Bool-cases, if◌then◌else◌}
use reduction.Prelude.Lists.{All, any}
use reduction.Prelude.Texts.{Text}
use reduction.Prelude.Words.{u64_max}
use reduction.Prelude.Decimal.{
  decimal, value, value_step, value-decimal, decimal-All, decimal-cons, IsDigit,
}
use Prim.Native.Nat.{ℕ, ◌+◌, ◌-◌, ◌*◌, ◌<◌, ◌≤◌}
use mathlib.Core.Path.{◌≡◌, refl, ap, ◌∙◌}
use mathlib.Core.Bool.{Bool, false, ◌&&◌, ◌||◌}
use mathlib.Core.Logic.{inl, inr}
use mathlib.Core.Option.{Option, none, some}
use mathlib.Core.List.{List, [], ◌∷◌, ◌++◌}
use native.Mathlib.Omega.{arith}

abbrev pub on_head : ℕ → List Text → List Text
on_head c [] = (c ∷ []) ∷ []
on_head c (p ∷ ps) = (c ∷ p) ∷ ps

-- `str::split` of one character.
abbrev pub split_on : ℕ → Text → List Text
split_on sep [] = [] ∷ []
split_on sep (c ∷ s) = if c == sep then [] ∷ split_on sep s else on_head c (split_on sep s)

-- `char::is_whitespace` below 128.
abbrev pub is_whitespace : ℕ → Bool
is_whitespace c = c == b' ' || leb 9 c && leb c 13

abbrev pub trim_start : Text → Text
trim_start [] = []
trim_start (c ∷ s) = if is_whitespace c then trim_start s else c ∷ s

abbrev pub trim_end : Text → Text
trim_end [] = []
trim_end (c ∷ s) = elim (trim_end s) [
  | [] ↦ if is_whitespace c then [] else c ∷ []
  | d ∷ r ↦ c ∷ d ∷ r
]

abbrev pub trim : Text → Text
trim s = trim_end (trim_start s)

abbrev pub is_digit : ℕ → Bool
is_digit c = leb b'0' c && leb c b'9'

-- One more digit, with `checked_mul` and `checked_add`.
abbrev pub push_digit : Option ℕ → ℕ → Option ℕ
push_digit none c = none
push_digit (some n) c =
    if is_digit c && leb (n * 10 + (c - b'0')) u64_max then some (n * 10 + (c - b'0')) else none

abbrev pub parse_digits : Text → Option ℕ
parse_digits [] = none
parse_digits (c ∷ s) = foldl push_digit (some 0) (c ∷ s)

-- `str::parse::<u64>().ok()`: one `+` is allowed before the digits.
abbrev pub parse_u64 : Text → Option ℕ
parse_u64 [] = none
parse_u64 (c ∷ s) = if c == b'+' then parse_digits s else parse_digits (c ∷ s)

split_on-cons : (sep : ℕ) (s : Text) → (p : Text) × (ps : List Text) × (split_on sep s ≡ p ∷ ps)
split_on-cons sep [] = ([], [], refl)
split_on-cons sep (c ∷ s) =
    let (p, ps, q) = split_on-cons sep s in
    elim (Bool-cases (c == sep)) [
      | inl e ↦ ([], split_on sep s, rw e refl)
      | inr e ↦ (c ∷ p, ps, rw (e, q) refl)
    ]

-- A separator between two texts separates what they split into.
pub split_on-append :
    (sep : ℕ) (a b : Text) → split_on sep (a ++ (sep ∷ b)) ≡ split_on sep a ++ split_on sep b
split_on-append sep [] b = ground arith
split_on-append sep (c ∷ a) b =
    let (p, ps, q) = split_on-cons sep a in
    elim (Bool-cases (c == sep)) [
      | inl e ↦ rw (e, split_on-append sep a b) refl
      | inr e ↦ rw (e, split_on-append sep a b, q) refl
    ]

pub split_on_none : (sep : ℕ) (a : Text) → All (λ c. (c == sep) ≡ false) a → split_on sep a ≡ a ∷ []
split_on_none sep [] h = refl
split_on_none sep (c ∷ a) h = rw (split_on_none sep a h.1, h.0) refl

value_step-le : (s : Text) (n : ℕ) → n ≤ foldl value_step n s
value_step-le [] n = omega arith
value_step-le (c ∷ s) n = omega (arith, value_step-le s (value_step n c))

foldl_push :
    (n c : ℕ)
    → IsDigit c
    → n * 10 + (c - b'0') ≤ u64_max
    → push_digit (some n) c ≡ some (value_step n c)
foldl_push n c d h = ground (arith, d, h)

push-value :
    (s : Text) (n : ℕ)
    → All IsDigit s
    → foldl value_step n s ≤ u64_max
    → foldl push_digit (some n) s ≡ some (foldl value_step n s)
push-value [] n h bound = refl
push-value (c ∷ s) n h bound =
    let m = value_step-le s (value_step n c) in
    let fits = foldl_push n c h.0 (omega (arith, m, bound)) in
    rw fits (push-value s (value_step n c) h.1 bound)

parse_digits-value :
    (d : ℕ) (t : Text)
    → All IsDigit (d ∷ t)
    → value (d ∷ t) ≤ u64_max
    → parse_u64 (d ∷ t) ≡ some (value (d ∷ t))
unfolding value
parse_digits-value d t h bound = rw (push-value (d ∷ t) 0 h bound) (ground (arith, h.0))

-- Parsing undoes printing, for the numbers of the type.
pub parse_u64-decimal : (n : ℕ) → n ≤ u64_max → parse_u64 (decimal n) ≡ some n
parse_u64-decimal n bound =
    let (d, t, e) = decimal-cons n in
    let v = rw e at (value-decimal n) in
    rw e (parse_digits-value d t (rw e at (decimal-All n)) (rw v bound) ∙ ap some v)

abbrev pub IsDark : ℕ → Type 0
IsDark c = is_whitespace c ≡ false

trim_end_dark : (s : Text) → All IsDark s → trim_end s ≡ s
trim_end_dark [] h = refl
trim_end_dark (c ∷ []) h = rw (h.0) refl
trim_end_dark (c ∷ d ∷ s) h = rw (trim_end_dark (d ∷ s) h.1) refl

-- A text with no white space is its own trimming.
pub trim_dark : (s : Text) → All IsDark s → trim s ≡ s
trim_dark [] h = refl
trim_dark (c ∷ s) h = rw (h.0) (trim_end_dark (c ∷ s) h)

digits-IsDark : (s : Text) → All IsDigit s → All IsDark s
digits-IsDark [] h = tt
digits-IsDark (c ∷ s) h = (ground (arith, h.0), digits-IsDark s h.1)

pub decimal-IsDark : (n : ℕ) → All IsDark (decimal n)
decimal-IsDark n = digits-IsDark (decimal n) (decimal-All n)

digits-apart : (sep : ℕ) (s : Text) → sep < b'0' → All IsDigit s → All (λ c. (c == sep) ≡ false) s
digits-apart sep [] h k = tt
digits-apart sep (c ∷ s) h k = (ground (arith, k.0), digits-apart sep s h k.1)

pub decimal-apart : (sep n : ℕ) → sep < b'0' → All (λ c. (c == sep) ≡ false) (decimal n)
decimal-apart sep n h = digits-apart sep (decimal n) h (decimal-All n)

-- A Boolean search for what is not there.
pub All-none : (p : ℕ → Bool) (s : Text) → any p s ≡ false → All (λ c. p c ≡ false) s
All-none p [] h = tt
All-none p (c ∷ s) h = (ground (arith, h), All-none p s (ground (arith, h)))
