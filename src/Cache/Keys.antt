-- ===== src/Cache/Keys.antt =====
-- Distinct requests have distinct cache keys (src/cache.rs), and a lookup finds the stored key.
use reduction.Prelude.{
  ◌<◌, ◌≡◌, refl, sym, ap, ◌∙◌, inl, inr, some, List, [], ◌∷◌, ◌++◌, append-nil, append_assoc,
  arith, Option-cases, length, All, Text,
}
use reduction.Prelude.Decimal.{decimal, decimal_inj, decimal_below}
use reduction.Cache.Key.{
  CacheKeyRef, Writer, some_inj, write_pieces, key_pieces, write_cache_key, cache_key,
  build_lookup_key, deref, concat, cache_key-concat,
}

-- Digits end at the first colon.
split_colon :
    (xs ys r s : Text)
    → All (λ c. c < b':') xs
    → All (λ c. c < b':') ys
    → xs ++ (b':' ∷ r) ≡ ys ++ (b':' ∷ s)
    → (xs ≡ ys) × (r ≡ s)
split_colon [] [] r s h k e = ground arith
split_colon [] (y ∷ ys) r s h k e = ground arith
split_colon (x ∷ xs) [] r s h k e = ground arith
split_colon (x ∷ xs) (y ∷ ys) r s h k e = grind (arith, split_colon xs ys r s)

-- Texts of one length split a concatenation in one way.
split_length : (xs ys r s : Text) → length xs ≡ length ys → xs ++ r ≡ ys ++ s → (xs ≡ ys) × (r ≡ s)
split_length [] [] r s l e = (refl, e)
split_length [] (y ∷ ys) r s l e = ground arith
split_length (x ∷ xs) [] r s l e = ground arith
split_length (x ∷ xs) (y ∷ ys) r s l e = grind (arith, split_length xs ys r s)

split_framed :
    (xs ys r s : Text)
    → decimal (length xs) ++ (b':' ∷ (xs ++ r)) ≡ decimal (length ys) ++ (b':' ∷ (ys ++ s))
    → (xs ≡ ys) × (r ≡ s)
split_framed xs ys r s e =
    let p = split_colon _ _ _ _ (decimal_below (length xs)) (decimal_below (length ys)) e in
    split_length xs ys r s (decimal_inj _ _ p.0) p.1

-- Two requests that share a cache key have the same method, the same path and the same identity.
pub cache_key_inj :
    (j k : CacheKeyRef)
    → cache_key j ≡ cache_key k
    → (j.method ≡ k.method) × (j.path ≡ k.path) × (j.identity ≡ k.identity)
unfolding key_pieces
cache_key_inj j k e =
    let m =
      split_framed j.method k.method _ _ (sym (cache_key-concat j) ∙ (e ∙ cache_key-concat k)) in
    let p = split_framed j.path k.path _ _ m.1 in
    let i = split_framed j.identity k.identity [] [] p.1 in (m.0, p.0, i.0)

write_pieces-contents :
    (w : Writer) (ts : List Text) (b b' : w.Buf)
    → write_pieces w ts b ≡ some b'
    → w.contents b' ≡ w.contents b ++ concat ts
unfolding write_pieces
write_pieces-contents w [] b b' e = rw (append-nil, some_inj e)
write_pieces-contents w (t ∷ ts) b b' e = elim (Option-cases (w.write_str t b)) [
  | inl bad ↦ ground (arith, bad, e)
  | inr (c, good) ↦
      write_pieces-contents w ts c b' (rw (good, write_pieces) at e)
      ∙ (ap (λ s. s ++ concat ts) (w.write_str_appends t b c good)
          ∙ append_assoc (w.contents b) t (concat ts))
]

-- From an empty buffer of any capacity, the text of a lookup's key is the stored key.
pub build_lookup_key_lem :
    (w : Writer) (new : w.Buf) (k : CacheKeyRef)
    → w.contents new ≡ []
    → deref w new (build_lookup_key w new k) ≡ cache_key k
unfolding build_lookup_key deref
build_lookup_key_lem w new k empty = elim (Option-cases (write_cache_key w k new)) [
  | inl full ↦ rw (full, deref, build_lookup_key) (unfold cache_key in refl)
  | inr (b, fits) ↦
      rw (fits, deref, build_lookup_key)
        (write_pieces-contents w (key_pieces k) new b (unfold write_cache_key in fits)
          ∙ rw (empty, cache_key-concat) refl)
]
