-- ===== src/CacheControl/Parse.antt =====
-- What `CacheDirectives::parse` makes of a header (src/cache_control.rs).
use mathlib.Core.List.{foldl, foldl-append}
use reduction.Prelude.{
  ℕ, zero, suc, ◌≤◌, ◌≡◌, refl, ap, ◌∙◌, inl, inr, Bool, true, false, ◌||◌, Option, none, some,
  List, [], ◌∷◌, ◌++◌, arith, ◌==◌, Bool-cases, Option-cases, is_some, length, take, any,
  All-append, Text, codes, eq_ignore_ascii_case,
}
use reduction.Prelude.Parsing.{
  split_on, trim, parse_u64, parse_u64-decimal, split_on_none, split_on-append, IsDark,
  is_whitespace, All-none, trim_dark, decimal-IsDark, decimal-apart,
}
use reduction.Prelude.Decimal.{decimal}
use reduction.Prelude.Words.{u64_max}
use reduction.CacheControl.{CacheDirectives, default, apply_part, parse, strip_prefix_ci}

-- A part names a directive when it is the name but for case and the white space around it.
abbrev pub names : Text → Text → Bool
names name part = eq_ignore_ascii_case (trim part) name

eq_ignore_trans :
    (s a b : Text)
    → eq_ignore_ascii_case s a ≡ true
    → eq_ignore_ascii_case s b ≡ true
    → eq_ignore_ascii_case a b ≡ true
eq_ignore_trans [] [] [] h k = refl
eq_ignore_trans [] [] (y ∷ b) h k = k
eq_ignore_trans [] (x ∷ a) b h k = cc
eq_ignore_trans (c ∷ s) [] b h k = cc
eq_ignore_trans (c ∷ s) (x ∷ a) [] h k = cc
eq_ignore_trans (c ∷ s) (x ∷ a) (y ∷ b) h k = ground (arith, eq_ignore_trans s a b)

-- One part names at most one directive.
names-exclusive :
    (a b part : Text)
    → eq_ignore_ascii_case a b ≡ false
    → names a part ≡ true
    → names b part ≡ false
names-exclusive a b part differ h = elim (Bool-cases (names b part)) [
  | inl k ↦ cc (differ, eq_ignore_trans (trim part) a b h k)
  | inr k ↦ k
]

step-no_store :
    (d : CacheDirectives) (part : Text)
    → (apply_part d part).no_store ≡ (d.no_store || names (codes "no-store") part)
unfolding apply_part
step-no_store d part = ground (arith)

step-no_transform :
    (d : CacheDirectives) (part : Text)
    → (apply_part d part).no_transform ≡ (d.no_transform || names (codes "no-transform") part)
unfolding apply_part
step-no_transform d part =
    ground (arith, names-exclusive (codes "no-store") (codes "no-transform") part refl)

step-is_private :
    (d : CacheDirectives) (part : Text)
    → (apply_part d part).is_private ≡ (d.is_private || names (codes "private") part)
unfolding apply_part
step-is_private d part = ground (
  arith,
  names-exclusive (codes "no-store") (codes "private") part refl,
  names-exclusive (codes "no-transform") (codes "private") part refl,
)

step-is_public :
    (d : CacheDirectives) (part : Text)
    → (apply_part d part).is_public ≡ (d.is_public || names (codes "public") part)
unfolding apply_part
step-is_public d part = ground (
  arith,
  names-exclusive (codes "no-store") (codes "public") part refl,
  names-exclusive (codes "no-transform") (codes "public") part refl,
  names-exclusive (codes "private") (codes "public") part refl,
)

eq_ignore-take :
    (n : ℕ) (s a : Text)
    → eq_ignore_ascii_case s a ≡ true
    → eq_ignore_ascii_case (take n s) (take n a) ≡ true
eq_ignore-take zero s a h = refl
eq_ignore-take (suc n) [] [] h = refl
eq_ignore-take (suc n) [] (y ∷ a) h = cc
eq_ignore-take (suc n) (x ∷ s) [] h = cc
eq_ignore-take (suc n) (x ∷ s) (y ∷ a) h = ground (arith, eq_ignore-take n s a)

eq_ignore-length : (s a : Text) → eq_ignore_ascii_case s a ≡ true → length s ≡ length a
eq_ignore-length [] [] h = refl
eq_ignore-length [] (y ∷ a) h = cc
eq_ignore-length (x ∷ s) [] h = cc
eq_ignore-length (x ∷ s) (y ∷ a) h = ground (arith, eq_ignore-length s a)

-- The text after `max-age=` in a part that has it.
abbrev pub age : Text → Option Text
age part = strip_prefix_ci (trim part) (codes "max-age=")

strip-take :
    (s : Text)
    → is_some (strip_prefix_ci s (codes "max-age=")) ≡ true
    → (8 ≤ length s) × (eq_ignore_ascii_case (take 8 s) (codes "max-age=") ≡ true)
strip-take s h = ground (arith, h)

-- A part that names a directive has no age.
names-age :
    (name part : Text)
    → eq_ignore_ascii_case (take 8 name) (codes "max-age=") ≡ false
    → names name part ≡ true
    → age part ≡ none
names-age name part differ h = elim (Option-cases (age part)) [
  | inl none_ ↦ none_
  | inr (v, e) ↦
      let k = strip-take (trim part) (rw e refl) in
      cc (
        differ,
        eq_ignore_trans (take 8 (trim part)) (take 8 name) (codes "max-age=")
            (eq_ignore-take 8 (trim part) name h) k.1,
      )
]

abbrev pub aged : Option ℕ → Option Text → Option ℕ
aged n none = n
aged n (some v) = parse_u64 (trim v)

step-max_age :
    (d : CacheDirectives) (part : Text) → (apply_part d part).max_age ≡ aged d.max_age (age part)
unfolding apply_part
step-max_age d part = ground (
  arith,
  names-age (codes "no-store") part refl,
  names-age (codes "no-transform") part refl,
  names-age (codes "private") part refl,
  names-age (codes "public") part refl,
)

-- A flag that every part turns on or leaves, over the parts.
fold-flag :
    (flag : CacheDirectives → Bool) (p : Text → Bool)
    → ((d : CacheDirectives) (part : Text) → flag (apply_part d part) ≡ (flag d || p part))
    → (d : CacheDirectives) (parts : List Text)
    → flag (foldl apply_part d parts) ≡ (flag d || any p parts)
fold-flag flag p step d [] = ground arith
fold-flag flag p step d (part ∷ parts) =
    ground (arith, step d part, fold-flag flag p step (apply_part d part) parts)

fold-max_age :
    (d : CacheDirectives) (parts : List Text)
    → (foldl apply_part d parts).max_age ≡ foldl (λ n part. aged n (age part)) d.max_age parts
fold-max_age d [] = refl
fold-max_age d (part ∷ parts) =
    fold-max_age (apply_part d part) parts
    ∙ ap (λ n. foldl (λ m p. aged m (age p)) n parts) (step-max_age d part)

-- A directive is on exactly when some part between the commas names it, whatever the case of its
-- letters, the white space around it and the other parts; and the age is that of the last part that
-- has one.
pub parse_lem :
    (header : Text)
    → ((parse header).no_store ≡ any (names (codes "no-store")) (split_on b',' header))
      × ((parse header).no_transform ≡ any (names (codes "no-transform")) (split_on b',' header))
      × ((parse header).is_private ≡ any (names (codes "private")) (split_on b',' header))
      × ((parse header).is_public ≡ any (names (codes "public")) (split_on b',' header))
      × ((parse header).max_age ≡ foldl (λ n part. aged n (age part)) none (split_on b',' header))
unfolding parse
parse_lem header =
    let parts = split_on b',' header in
    (
      fold-flag (λ d. d.no_store) _ step-no_store default parts,
      fold-flag (λ d. d.no_transform) _ step-no_transform default parts,
      fold-flag (λ d. d.is_private) _ step-is_private default parts,
      fold-flag (λ d. d.is_public) _ step-is_public default parts,
      fold-max_age default parts,
    )

strip-append : (s : Text) → strip_prefix_ci (codes "max-age=" ++ s) (codes "max-age=") ≡ some s
strip-append s = ground arith

age-decimal : (n : ℕ) → age (codes " max-age=" ++ decimal n) ≡ some (decimal n)
age-decimal n =
    let dark =
      All-append IsDark (codes "max-age=") (decimal n)
        (All-none is_whitespace (codes "max-age=") refl) (decimal-IsDark n) in
    rw (trim_dark (codes "max-age=" ++ decimal n) dark) (strip-append (decimal n))

-- An age written in decimal at the end of a header is the age read, for every number of 64 bits and
-- whatever the header holds before it.
max_age_last :
    (header : Text) (n : ℕ)
    → n ≤ u64_max
    → (parse (header ++ (b',' ∷ (codes " max-age=" ++ decimal n)))).max_age ≡ some n
max_age_last header n bound =
    let part = codes " max-age=" ++ decimal n in
    let one = split_on_none b',' part (
      All-append (λ c. (c == b',') ≡ false) (codes " max-age=") (decimal n)
        (All-none (λ c. c == b',') (codes " max-age=") refl)
        (decimal-apart b',' n (omega arith))) in
    let parts = split_on-append b',' header part ∙ ap (λ p. split_on b',' header ++ p) one in
    let (_, _, _, _, oldest) = parse_lem (header ++ (b',' ∷ part)) in
    oldest
    ∙ (ap (foldl (λ m p. aged m (age p)) none) parts
        ∙ (foldl-append _ none (split_on b',' header) (part ∷ [])
            ∙ rw (age-decimal n, trim_dark (decimal n) (decimal-IsDark n))
                (parse_u64-decimal n bound)))
