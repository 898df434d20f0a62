-- ===== src/Cache/Key.antt =====
-- Cache keys (`write_cache_key`, `CacheKey`, `KeyBuf` of src/cache.rs): one encoder writes both the
-- stored key and the key of a lookup, and distinct requests never share a key.
use reduction.Prelude.{
  ◌≡◌, ap, ◌∙◌, Option, none, some, List, [], ◌∷◌, ◌++◌, append_assoc, append-nil, Text, length,
  arith,
}
use reduction.Prelude.Decimal.{decimal}

pub record CacheKeyRef : Type 0 where
  pub method : Text
  pub path : Text
  pub identity : Text

-- `std::fmt::Write`: a piece is appended, or the write fails.
pub record Writer : Type 1 where
  pub Buf : Type 0
  pub write_str : Text → Buf → Option Buf
  pub contents : Buf → Text
  pub write_str_appends :
      (t : Text) (b b' : Buf) → write_str t b ≡ some b' → contents b' ≡ contents b ++ t

pub some_inj : {A : Type 0} {x y : A} → some x ≡ some y → y ≡ x
some_inj e = ground (arith, e)

-- A `String`, which takes every piece.
abbrev pub string_writer : Writer
string_writer = record {
  Buf = Text;
  write_str = λ t s. some (s ++ t);
  contents = λ s. s;
  write_str_appends = λ t b b' e. some_inj e;
}

module _ (w : Writer) where
  unfoldable pub write_pieces : List Text → w.Buf → Option w.Buf
  write_pieces [] b = some b
  write_pieces (t ∷ ts) b = elim (w.write_str t b) [ none ↦ none | some b' ↦ write_pieces ts b' ]

-- The pieces of `"{}:{}{}:{}{}:{}"`.
unfoldable pub key_pieces : CacheKeyRef → List Text
key_pieces k =
    decimal (length k.method)
    ∷ (b':' ∷ [])
    ∷ k.method
    ∷ decimal (length k.path)
    ∷ (b':' ∷ [])
    ∷ k.path
    ∷ decimal (length k.identity)
    ∷ (b':' ∷ [])
    ∷ k.identity
    ∷ []

unfoldable pub write_cache_key : (w : Writer) → CacheKeyRef → w.Buf → Option w.Buf
write_cache_key w k b = write_pieces w (key_pieces k) b

abbrev pub or_empty : Option Text → Text
or_empty none = []
or_empty (some s) = s

-- `CacheKey::from`: the owned key.
unfoldable pub cache_key : CacheKeyRef → Text
unfolding write_cache_key write_pieces
cache_key k = or_empty (write_cache_key string_writer k [])

pub data KeyBuf (Stack : Type 0) : Type 0 where
  stack : Stack → KeyBuf Stack
  heap : Text → KeyBuf Stack

-- `ArrayString::new()` and its writes, which fail past the capacity, are the crate's.
module _ (w : Writer) (new : w.Buf) where
  unfoldable pub build_lookup_key : CacheKeyRef → KeyBuf w.Buf
  build_lookup_key k = elim (write_cache_key w k new) [
    | some b ↦ stack b
    | none ↦ heap (or_empty (write_cache_key string_writer k []))
  ]

  unfoldable pub deref : KeyBuf w.Buf → Text
  deref (stack b) = w.contents b
  deref (heap s) = s

abbrev pub concat : List Text → Text
concat [] = []
concat (t ∷ ts) = t ++ concat ts

string_pieces :
    (ts : List Text) (s : Text) → write_pieces string_writer ts s ≡ some (s ++ concat ts)
unfolding write_pieces
string_pieces [] s = rw append-nil
string_pieces (t ∷ ts) s = string_pieces ts (s ++ t) ∙ ap some (append_assoc s t (concat ts))

pub cache_key-concat : (k : CacheKeyRef) → cache_key k ≡ concat (key_pieces k)
unfolding cache_key
cache_key-concat k = rw (string_pieces (key_pieces k) [])
