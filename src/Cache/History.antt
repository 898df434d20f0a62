-- ===== src/Cache/History.antt =====
-- What the response cache holds after any sequence of calls (src/cache.rs): a lookup is answered by the
-- last storable put of the same request, and by nothing from before a flush.
use reduction.Prelude.{
  ℕ, ◌≡◌, refl, sym, ap, ◌∙◌, subst, ◌⊎◌, inl, inr, true, false, Option, none, some, List, [], ◌∷◌,
  arith, Bool-cases, any, Text, text_eq, text_dec,
}
use reduction.Http.{HeaderOps}
use reduction.CacheControl.{CacheDirectives}
use reduction.Cache.Key.{some_inj, CacheKeyRef, Writer, cache_key}
use reduction.Cache.Keys.{cache_key_inj}
use reduction.Cache.Entries.{storable, entry_of, put_lem, get_all-sanitized}
use reduction.Cache.Served.{response_of, stored, fresh, get_fresh, get_keeps, get-config}
use reduction.Cache.{
  CacheConfig, LruOps, CachedResponse, Response, is_expired, ResponseCache, new, put, get, clear,
  sanitized_for_cache, uncacheable_headers,
}

pub data Call (HeaderMap : Type 0) : Type 0 where
  write : ℕ → CacheKeyRef → ℕ → HeaderMap → Text → CacheDirectives → Call HeaderMap
  lookup : ℕ → CacheKeyRef → Call HeaderMap
  flush : Call HeaderMap

abbrev pub SameRequest : CacheKeyRef → CacheKeyRef → Type 0
SameRequest j k = (j.method ≡ k.method) × (j.path ≡ k.path) × (j.identity ≡ k.identity)

cache_key_same : (j k : CacheKeyRef) → SameRequest j k → cache_key j ≡ cache_key k
cache_key_same j k (m, p, i) = cc (m, p, i)

module _ (h : HeaderOps) where
  -- The calls, the latest first, in which an entry for a request was stored and is not replaced.
  unfoldable pub Origin :
      CacheConfig → List (Call h.HeaderMap) → CacheKeyRef → CachedResponse h.HeaderMap → Type 0
  Origin config [] key e = ⊥
  Origin config (write now j status headers body d ∷ calls) key e =
      (SameRequest j key
        × (storable config d body ≡ true)
        × (e ≡ entry_of h config now status headers body d))
      ⊎ ((SameRequest j key → storable config d body ≡ false) × Origin config calls key e)
  Origin config (lookup now j ∷ calls) key e = Origin config calls key e
  Origin config (flush ∷ calls) key e = ⊥

module _ (h : HeaderOps) (lru : LruOps (CachedResponse h.HeaderMap)) (w : Writer)
    (stack : w.Buf) where
  unfoldable pub step : Call h.HeaderMap → ResponseCache h lru → ResponseCache h lru
  step (write now key status headers body d) c = (put h lru now key status headers body d c).0
  step (lookup now key) c = (get h lru w stack now key c).0
  step flush c = clear h lru c

  -- The calls, the latest first.
  unfoldable pub run : CacheConfig → List (Call h.HeaderMap) → ResponseCache h lru
  run config [] = new h lru config
  run config (call ∷ calls) = step call (run config calls)

  step-config :
      (call : Call h.HeaderMap) (c : ResponseCache h lru) → (step call c).config ≡ c.config
  unfolding step put get clear
  step-config (write now key status headers body d) c = ground arith
  step-config (lookup now key) c = get-config h lru w stack now key c
  step-config flush c = refl

  run-config :
      (config : CacheConfig) (calls : List (Call h.HeaderMap)) → (run config calls).config ≡ config
  unfolding run
  run-config config [] = unfold new in refl
  run-config config (call ∷ calls) = step-config call (run config calls) ∙ run-config config calls

  write-Origin :
      (now : ℕ) (j key : CacheKeyRef) (status : ℕ) (headers : h.HeaderMap) (body : Text)
      (d : CacheDirectives) (c : ResponseCache h lru) (calls : List (Call h.HeaderMap))
      (e : CachedResponse h.HeaderMap)
      → ((e' : CachedResponse h.HeaderMap)
          → stored h lru w stack key c ≡ some e'
          → Origin h c.config calls key e')
      → stored h lru w stack key (put h lru now j status headers body d c).0 ≡ some e
      → Origin h c.config (write now j status headers body d ∷ calls) key e
  unfolding Origin
  write-Origin now j key status headers body d c calls e ih at_key =
      let put_ = put_lem h lru now j status headers body d c in
      let entry = entry_of h c.config now status headers body d in
      elim (Bool-cases (storable c.config d body)) [
        | inr no_ ↦ inr (λ same. no_, ih e (rw (put_, no_) at at_key))
        | inl yes_ ↦
            let at_put = rw (put_, yes_) at at_key in
            elim (text_dec (cache_key key) (cache_key j)) [
              | yes q ↦ inl (
                cache_key_inj j key (sym q),
                yes_,
                some_inj (
                    sym (lru.peek-put (cache_key j) entry c.store)
                    ∙ (ap (λ k. lru.peek k (lru.put (cache_key j) entry c.store)) (sym q)
                        ∙ at_put)),
              )
              | no n ↦ elim (lru.peek-put_other (cache_key key) (cache_key j) entry c.store n) [
                | inl gone ↦ cc (gone, at_put)
                | inr kept ↦ inr (
                  λ same. elim (n (sym (cache_key_same j key same))) [ ],
                  ih e (sym kept ∙ at_put),
                )
              ]
            ]
      ]

  -- Whatever is stored after the calls has its origin in them.
  pub run-Origin :
      (config : CacheConfig) (calls : List (Call h.HeaderMap)) (key : CacheKeyRef)
      (e : CachedResponse h.HeaderMap)
      → w.contents stack ≡ []
      → stored h lru w stack key (run config calls) ≡ some e
      → Origin h config calls key e
  unfolding run step Origin new clear
  run-Origin config [] key e empty at_key =
      cc (lru.peek-new (cache_key key) config.max_entries, at_key)
  run-Origin config (write now j status headers body d ∷ calls) key e empty at_key =
      let cfg = run-config config calls in
      let ih : (e' : CachedResponse h.HeaderMap)
          → stored h lru w stack key (run config calls) ≡ some e'
          → Origin h (run config calls).config calls key e' =
        λ e' p. rw cfg (run-Origin config calls key e' empty p) in
      subst (λ g. Origin h g (write now j status headers body d ∷ calls) key e) cfg
        (write-Origin now j key status headers body d (run config calls) calls e ih at_key)
  run-Origin config (lookup now j ∷ calls) key e empty at_key =
      elim (get_keeps h lru w stack now j key (run config calls) empty) [
        | inl gone ↦ cc (gone, at_key)
        | inr kept ↦ run-Origin config calls key e empty (sym kept ∙ at_key)
      ]
  run-Origin config (flush ∷ calls) key e empty at_key =
      cc (lru.peek-clear (cache_key key) (run config calls).store, at_key)

  fresh-some :
      (now : ℕ) (o : Option (CachedResponse h.HeaderMap)) (r : Response h.HeaderMap)
      → fresh h lru w stack now o ≡ some r
      → (e : CachedResponse h.HeaderMap) × (o ≡ some e)
        × (is_expired now e ≡ false)
        × (r ≡ response_of e)
  fresh-some now none r answer = cc
  fresh-some now (some e) r answer = elim (Bool-cases (is_expired now e)) [
    | inl old ↦ cc (rw old at answer)
    | inr young ↦ (e, refl, young, some_inj (rw young at answer))
  ]

  -- The answer of a lookup after any calls is the entry of the last storable put of the same method,
  -- path and identity since the last flush, and it is not expired.
  pub get_served :
      (config : CacheConfig) (calls : List (Call h.HeaderMap)) (now : ℕ) (key : CacheKeyRef)
      (r : Response h.HeaderMap)
      → w.contents stack ≡ []
      → (get h lru w stack now key (run config calls)).1 ≡ some r
      → (e : CachedResponse h.HeaderMap) × Origin h config calls key e
        × (is_expired now e ≡ false)
        × (r ≡ response_of e)
  get_served config calls now key r empty answer =
      let c = run config calls in
      let (e, at_key, young, whole) =
        fresh-some now (stored h lru w stack key c) r
          (sym (get_fresh h lru w stack now key c empty) ∙ answer) in
      (e, run-Origin config calls key e empty at_key, young, whole)

module _ (h : HeaderOps) where
  Origin-sanitized :
      (config : CacheConfig) (calls : List (Call h.HeaderMap)) (key : CacheKeyRef)
      (e : CachedResponse h.HeaderMap)
      → Origin h config calls key e
      → (m : h.HeaderMap) × (e.headers ≡ sanitized_for_cache h m)
  unfolding Origin
  Origin-sanitized config [] key e o = elim o [ ]
  Origin-sanitized config (write now j status headers body d ∷ calls) key e (inl (_, _, made)) =
      (headers, ap (λ x. x.headers) made)
  Origin-sanitized config (write now j status headers body d ∷ calls) key e (inr (_, o)) =
      Origin-sanitized config calls key e o
  Origin-sanitized config (lookup now j ∷ calls) key e o = Origin-sanitized config calls key e o
  Origin-sanitized config (flush ∷ calls) key e o = elim o [ ]

module _ (h : HeaderOps) (lru : LruOps (CachedResponse h.HeaderMap)) (w : Writer)
    (stack : w.Buf) where
  -- No answer of a lookup, after any calls, has a header that a shared cache must not keep.
  pub get_sanitized :
      (config : CacheConfig) (calls : List (Call h.HeaderMap)) (now : ℕ) (key : CacheKeyRef)
      (r : Response h.HeaderMap) (name : Text)
      → w.contents stack ≡ []
      → (get h lru w stack now key (run h lru w stack config calls)).1 ≡ some r
      → any (λ u. text_eq u name) uncacheable_headers ≡ true
      → h.get_all name r.headers ≡ []
  get_sanitized config calls now key r name empty answer uncacheable =
      let (e, origin, _, whole) = get_served h lru w stack config calls now key r empty answer in
      let (m, clean) = Origin-sanitized h config calls key e origin in
      ap (λ x. h.get_all name x.headers) whole
      ∙ (ap (h.get_all name) clean ∙ (get_all-sanitized h m name ∙ rw uncacheable refl))
