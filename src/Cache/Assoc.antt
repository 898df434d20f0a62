-- ===== src/Cache/Assoc.antt =====
-- A bounded store of pairs, the newest first, which meets the laws of `LruOps`.
use reduction.Prelude.{
  ℕ, zero, suc, ◌-◌, ◌≡◌, refl, ◌≢◌, ◌⊎◌, inl, none, some, List, [], ◌∷◌, arith, take, Text,
  text_dec,
}
use reduction.Prelude.Maps.{assoc_get, assoc_remove, assoc_get-remove}
use reduction.Cache.{LruOps}

module _ {V : Type 0} where
  pub assoc_get-take :
      (j : Text) (n : ℕ) (m : List (Text × V))
      → (assoc_get text_dec j (take n m) ≡ none)
        ⊎ (assoc_get text_dec j (take n m) ≡ assoc_get text_dec j m)
  assoc_get-take j zero m = inl refl
  assoc_get-take j (suc n) [] = inl refl
  assoc_get-take j (suc n) ((k, v) ∷ m) = ground (arith, assoc_get-take j n m)

  abbrev pub store_put : Text → V → ℕ × List (Text × V) → ℕ × List (Text × V)
  store_put k v (n, m) = (n, (k, v) ∷ take (n - 1) m)

  pub put_found :
      (k : Text) (v : V) (m : ℕ × List (Text × V))
      → assoc_get text_dec k (store_put k v m).1 ≡ some v
  put_found k v (n, m) = ground arith

  pub put_other :
      (j k : Text) (v : V) (m : ℕ × List (Text × V))
      → j ≢ k
      → (assoc_get text_dec j (store_put k v m).1 ≡ none)
        ⊎ (assoc_get text_dec j (store_put k v m).1 ≡ assoc_get text_dec j m.1)
  put_other j k v (n, m) apart = ground (arith, assoc_get-take j (n - 1) m, apart)

  abbrev pub assoc_lru : LruOps V
  assoc_lru = record {
    Lru = ℕ × List (Text × V);
    new = λ n. (n, []);
    get = λ k m. (assoc_get text_dec k m.1, m);
    pop = λ k m. (m.0, assoc_remove text_dec k m.1);
    put = store_put;
    clear = λ m. (m.0, []);
    peek = λ k m. assoc_get text_dec k m.1;
    peek-new = λ j n. refl;
    get_lem = λ k m. refl;
    peek-get = λ j k m. refl;
    peek-pop = λ j k m. assoc_get-remove text_dec j k m.1;
    peek-put = put_found;
    peek-put_other = put_other;
    peek-clear = λ j m. refl;
  }
