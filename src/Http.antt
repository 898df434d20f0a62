-- ===== src/Http.antt =====
-- What the program relies on of the `http` crate: a header map keeps the values of each name, in the
-- order of their insertion, and names are compared in lower case. Http/Assoc shows that the laws can be met.
pub mod Assoc
use reduction.Prelude.{
  ℕ, zero, suc, ◌+◌, ◌-◌, ◌*◌, ◌/◌, ◌%◌, ◌^◌, ◌≤◌, ◌<◌, min, max, ◌≡◌, refl, sym, ap, ap₂, ◌∙◌,
  subst, fun_ext, ◌≢◌, ◌↔◌, ◌⊎◌, inl, inr, ite, if_pos, if_neg, Bool, true, false, not, ◌&&◌, ◌||◌,
  Option, none, some, List, [], ◌∷◌, ◌++◌, map, append-nil, append_assoc, arith, ltb, leb, ◌==◌,
  if◌then◌else◌, tests, Bool-cases, Option-cases, is_some, is_none, unwrap_or, length, get_elem?,
  take, drop, any, all, retain, length-append, All, All-append, take-length_append,
  drop-length_append, Text, codes, text_eq, text_eq→eq, text_eq_refl, text_eq_iff, text_dec,
  starts_with, ends_with, eq_ignore_ascii_case, to_ascii_lowercase, dec_lt, dec_le, ℕ_discrete,
  length-retain-le,
}

-- `HeaderMap`; a name is given in lower case, as `HeaderName` keeps it.
pub record HeaderOps : Type 1 where
  pub HeaderMap : Type 0
  pub empty : HeaderMap
  pub get_all : Text → HeaderMap → List Text
  pub insert : Text → Text → HeaderMap → HeaderMap
  pub append : Text → Text → HeaderMap → HeaderMap
  pub remove : Text → HeaderMap → HeaderMap
  pub get_all-empty : (j : Text) → get_all j empty ≡ []
  pub get_all-insert :
      (j k v : Text) (m : HeaderMap)
      → get_all j (insert k v m) ≡ ite (text_dec k j) (v ∷ []) (get_all j m)
  pub get_all-append :
      (j k v : Text) (m : HeaderMap)
      → get_all j (append k v m) ≡ ite (text_dec k j) (get_all j m ++ (v ∷ [])) (get_all j m)
  pub get_all-remove :
      (j k : Text) (m : HeaderMap) → get_all j (remove k m) ≡ ite (text_dec k j) [] (get_all j m)

-- `HeaderMap::get`: the first value.
abbrev pub first : {A : Type 0} → List A → Option A
first [] = none
first (v ∷ vs) = some v

abbrev pub get : (h : HeaderOps) → Text → h.HeaderMap → Option Text
get h k m = first (h.get_all k m)

abbrev pub contains_key : (h : HeaderOps) → Text → h.HeaderMap → Bool
contains_key h k m = is_some (get h k m)
