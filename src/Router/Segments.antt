-- ===== src/Router/Segments.antt =====
-- The test of src/proxy/router.rs against path segments: it never reads out of range.
use reduction.Prelude.{
  ◌≡◌, refl, sym, ◌∙◌, ◌↔◌, ◌⊎◌, inl, inr, some, Bool, true, false, [], ◌∷◌, ◌++◌, Text, length,
  length-append, get_elem?, starts_with, ends_with, ◌==◌, if◌then◌else◌, arith, Bool-cases,
}
use mathlib.Core.List.{append_cancel_left}
use reduction.Router.{test_route}

abbrev pub StartsSegment : Text → Type 0
StartsSegment [] = ⊥
StartsSegment (c ∷ rest) = c ≡ b'/'

-- `path` is `prefix` itself or lies below it: the prefix ends at a border of segments.
abbrev pub Below : Text → Text → Type 0
Below path prefix =
    (rest : Text) × (path ≡ prefix ++ rest)
    × ((rest ≡ []) ⊎ ((ends_with prefix b'/' ≡ true) ⊎ StartsSegment rest))

starts_with-append : (prefix rest : Text) → starts_with (prefix ++ rest) prefix ≡ true
starts_with-append [] [] = refl
starts_with-append [] (c ∷ rest) = refl
starts_with-append (p ∷ prefix) rest = ground (arith, starts_with-append prefix rest)

rest_of : (s prefix : Text) → starts_with s prefix ≡ true → (rest : Text) × (s ≡ prefix ++ rest)
rest_of s [] h = (s, refl)
rest_of [] (p ∷ prefix) h = absurd (ground arith)
rest_of (c ∷ s) (p ∷ prefix) h =
    let (rest, e) = rest_of s prefix (ground arith) in (rest, ground (arith, e))

get_elem?-append :
    (prefix rest : Text) → get_elem? (prefix ++ rest) (length prefix) ≡ get_elem? rest 0
get_elem?-append [] rest = refl
get_elem?-append (p ∷ prefix) rest = get_elem?-append prefix rest

-- The test without the panic.
abbrev below_test : Text → Text → Bool
below_test prefix [] = true
below_test prefix (c ∷ rest) = if ends_with prefix b'/' then true else c == b'/'

test_route-append :
    (prefix rest : Text) → test_route (prefix ++ rest) prefix ≡ some (below_test prefix rest)
unfolding test_route
test_route-append prefix [] = ground (arith, starts_with-append prefix [], length-append prefix [])
test_route-append prefix (c ∷ rest) = ground (
  arith,
  starts_with-append prefix (c ∷ rest),
  length-append prefix (c ∷ rest),
  get_elem?-append prefix (c ∷ rest),
)

test_route-outside :
    (path prefix : Text) → starts_with path prefix ≡ false → test_route path prefix ≡ some false
unfolding test_route
test_route-outside path prefix h = ground arith

abbrev Border : Text → Text → Type 0
Border prefix rest = (rest ≡ []) ⊎ ((ends_with prefix b'/' ≡ true) ⊎ StartsSegment rest)

below_test→Border : (prefix rest : Text) → below_test prefix rest ≡ true → Border prefix rest
below_test→Border prefix [] h = inl refl
below_test→Border prefix (c ∷ rest) h = inr (ground arith)

Border→below_test : (prefix rest : Text) → Border prefix rest → below_test prefix rest ≡ true
Border→below_test prefix [] h = refl
Border→below_test prefix (c ∷ rest) (inl e) = absurd (cc)
Border→below_test prefix (c ∷ rest) (inr h) = ground arith

-- The loop's test on a route never panics, and it accepts exactly the paths at or below the prefix.
pub test_route_exact :
    (path prefix : Text)
    → (b : Bool) × (test_route path prefix ≡ some b) × ((b ≡ true) ↔ Below path prefix)
test_route_exact path prefix = elim (Bool-cases (starts_with path prefix)) [
  | inr out ↦ (
    false,
    test_route-outside path prefix out,
    (λ e. absurd (cc), λ (rest, e, _). absurd (cc (out, starts_with-append prefix rest, e))),
  )
  | inl starts ↦
      let (rest, e) = rest_of path prefix starts in
      (
        below_test prefix rest,
        rw e (test_route-append prefix rest),
        (
          λ h. (rest, e, below_test→Border prefix rest h),
          λ (rest', e', border).
              rw (append_cancel_left prefix rest rest' (sym e ∙ e'))
                (Border→below_test prefix rest' border),
        ),
      )
]
