-- ===== src/CacheControl.antt =====
-- The `Cache-Control` header of a response (src/cache_control.rs). A header value is the text of
-- `HeaderValue::to_str`, which gives visible ASCII, spaces and tabs only.
pub mod Parse
mod Tests
use mathlib.Core.List.{foldl}
use reduction.Prelude.{
  ℕ, zero, suc, ◌+◌, ◌-◌, ◌*◌, ◌/◌, ◌%◌, ◌^◌, ◌≤◌, ◌<◌, min, max, ◌≡◌, refl, sym, ap, ap₂, ◌∙◌,
  subst, fun_ext, ◌≢◌, ◌↔◌, ◌⊎◌, inl, inr, ite, if_pos, if_neg, Bool, true, false, not, ◌&&◌, ◌||◌,
  Option, none, some, List, [], ◌∷◌, ◌++◌, map, append-nil, append_assoc, arith, ltb, leb, ◌==◌,
  if◌then◌else◌, tests, Bool-cases, Option-cases, is_some, is_none, unwrap_or, length, get_elem?,
  take, drop, any, all, retain, length-append, All, All-append, take-length_append,
  drop-length_append, Text, codes, text_eq, text_eq→eq, text_eq_refl, text_eq_iff, text_dec,
  starts_with, ends_with, eq_ignore_ascii_case, to_ascii_lowercase, dec_lt, dec_le, ℕ_discrete,
  length-retain-le,
}
use reduction.Prelude.Parsing.{split_on, trim, parse_u64}

pub record CacheDirectives : Type 0 where
  pub no_store : Bool
  pub no_transform : Bool
  pub is_private : Bool
  pub is_public : Bool
  pub max_age : Option ℕ

-- `CacheDirectives::default()`.
abbrev pub default : CacheDirectives
default = record {
  no_store = false;
  no_transform = false;
  is_private = false;
  is_public = false;
  max_age = none;
}

-- `split_at_checked` at a character's end: at most the length.
abbrev pub split_at_checked : ℕ → Text → Option (Text × Text)
split_at_checked n s = if leb n (length s) then some (take n s, drop n s) else none

abbrev pub strip_prefix_ci : Text → Text → Option Text
strip_prefix_ci s prefix = elim (split_at_checked (length prefix) s) [
  | none ↦ none
  | some (head, rest) ↦ if eq_ignore_ascii_case head prefix then some rest else none
]

-- The body of the loop over the parts.
unfoldable pub apply_part : CacheDirectives → Text → CacheDirectives
apply_part d part =
    let trimmed = trim part in
    if eq_ignore_ascii_case trimmed (codes "no-store")
    then record d { no_store = true }
    else if eq_ignore_ascii_case trimmed (codes "no-transform")
    then record d { no_transform = true }
    else if eq_ignore_ascii_case trimmed (codes "private")
    then record d { is_private = true }
    else if eq_ignore_ascii_case trimmed (codes "public")
    then record d { is_public = true }
    else elim (strip_prefix_ci trimmed (codes "max-age=")) [
      | none ↦ d
      | some value ↦ record d { max_age = parse_u64 (trim value) }
    ]

unfoldable pub parse : Text → CacheDirectives
parse header = foldl apply_part default (split_on b',' header)

-- `from_response`, given the first `cache-control` value and what `to_str` makes of it.
unfoldable pub from_response :
    {Value : Type 0} → (Value → Option Text) → Option Value → CacheDirectives
from_response to_str none = default
from_response to_str (some v) = elim (to_str v) [ none ↦ default | some s ↦ parse s ]
