-- ===== src/Cache/Served.antt =====
-- What the response cache serves (src/cache.rs): only what was put under the same request, whole, not
-- too old, and without the headers that a shared cache must not keep.
use reduction.Prelude.{
  ℕ, ◌-◌, ◌≡◌, refl, ◌∙◌, ◌⊎◌, inl, inr, Option, none, some, [], arith, ltb, if◌then◌else◌,
  Bool-cases, Option-cases, unwrap_or, Text,
}
use reduction.Http.{HeaderOps}
use reduction.CacheControl.{CacheDirectives}
use reduction.Cache.Key.{CacheKeyRef, Writer, cache_key, build_lookup_key, deref}
use reduction.Cache.Keys.{build_lookup_key_lem}
use reduction.Cache.Entries.{storable, put_lem}
use reduction.Cache.{
  LruOps, CachedResponse, Response, is_expired, from_secs, ResponseCache, put, get,
  sanitized_for_cache,
}

abbrev pub response_of : {H : Type 0} → CachedResponse H → Response H
response_of e = record { status = e.status; headers = e.headers; body = e.body }

module _ (h : HeaderOps) (lru : LruOps (CachedResponse h.HeaderMap)) (w : Writer)
    (stack : w.Buf) where
  -- What is stored under a request.
  abbrev pub stored : CacheKeyRef → ResponseCache h lru → Option (CachedResponse h.HeaderMap)
  stored key c = lru.peek (cache_key key) c.store

  -- The answer of `get` from what is stored.
  abbrev pub fresh : ℕ → Option (CachedResponse h.HeaderMap) → Option (Response h.HeaderMap)
  fresh now none = none
  fresh now (some e) = if is_expired now e then none else some (response_of e)

  pub get_fresh :
      (now : ℕ) (key : CacheKeyRef) (c : ResponseCache h lru)
      → w.contents stack ≡ []
      → (get h lru w stack now key c).1 ≡ fresh now (stored key c)
  unfolding get
  get_fresh now key c empty =
      let same = build_lookup_key_lem w stack key empty in
      let found = lru.get_lem (cache_key key) c.store in
      elim (Option-cases (stored key c)) [
        | inl absent ↦ rw (same, found ∙ absent, get, absent) refl
        | inr (e, present) ↦ elim (Bool-cases (is_expired now e)) [
          | inl old ↦ rw (same, found ∙ present, get, present, old) refl
          | inr young ↦ rw (same, found ∙ present, get, present, young) refl
        ]
      ]

  -- A put and a later lookup of the same request: the sanitized response until its time is over,
  -- and what was stored before where the response is not storable.
  get-put :
      (now now' : ℕ) (key : CacheKeyRef) (status : ℕ) (headers : h.HeaderMap) (body : Text)
      (d : CacheDirectives) (c : ResponseCache h lru)
      → w.contents stack ≡ []
      → (get h lru w stack now' key (put h lru now key status headers body d c).0).1 ≡ (
          if storable c.config d body
          then if ltb (from_secs (unwrap_or d.max_age c.config.default_ttl_secs)) (now' - now)
            then none
            else some
                (record { status = status; headers = sanitized_for_cache h headers; body = body })
          else fresh now' (stored key c))
  get-put now now' key status headers body d c empty =
      get_fresh now' key (put h lru now key status headers body d c).0 empty
      ∙ elim (Bool-cases (storable c.config d body)) [
        | inl yes_ ↦
            rw (put_lem h lru now key status headers body d c, yes_, lru.peek-put)
              (unfold is_expired in refl)
        | inr no_ ↦ rw (put_lem h lru now key status headers body d c, no_) refl
      ]

  -- A lookup changes nothing that is stored, or drops it.
  pub get_keeps :
      (now : ℕ) (key j : CacheKeyRef) (c : ResponseCache h lru)
      → w.contents stack ≡ []
      → (stored j (get h lru w stack now key c).0 ≡ none)
        ⊎ (stored j (get h lru w stack now key c).0 ≡ stored j c)
  unfolding get
  get_keeps now key j c empty =
      let same = build_lookup_key_lem w stack key empty in
      let found = lru.get_lem (cache_key key) c.store in
      let left = (lru.get (cache_key key) c.store).1 in
      let dropped : (lru.peek (cache_key j) (lru.pop (cache_key key) left) ≡ none)
          ⊎ (lru.peek (cache_key j) (lru.pop (cache_key key) left) ≡ stored j c) =
        ground (
          arith,
          lru.peek-pop (cache_key j) (cache_key key) left,
          lru.peek-get (cache_key j) (cache_key key) c.store,
        ) in
      let kept = lru.peek-get (cache_key j) (cache_key key) c.store in
      elim (Option-cases (stored key c)) [
        | inl absent ↦ rw (same, found ∙ absent, get, same) (inr kept)
        | inr (e, present) ↦ elim (Bool-cases (is_expired now e)) [
          | inl old ↦ rw (same, found ∙ present, get, old, same) dropped
          | inr young ↦ rw (same, found ∙ present, get, young, same) (inr kept)
        ]
      ]

  pub get-config :
      (now : ℕ) (key : CacheKeyRef) (c : ResponseCache h lru)
      → (get h lru w stack now key c).0.config ≡ c.config
  unfolding get
  get-config now key c =
      elim (Option-cases (lru.get (deref w stack (build_lookup_key w stack key)) c.store).0) [
        | inl absent ↦ rw (absent, get) refl
        | inr (e, present) ↦ elim (Bool-cases (is_expired now e)) [
          | inl old ↦ rw (present, get, old) refl
          | inr young ↦ rw (present, get, young) refl
        ]
      ]
