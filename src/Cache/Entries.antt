-- ===== src/Cache/Entries.antt =====
-- What `put` stores and what it refuses (src/cache.rs).
use reduction.Prelude.{
  ℕ, ◌≡◌, refl, Bool, true, false, not, ◌&&◌, List, [], ◌∷◌, arith, leb, ◌==◌, if◌then◌else◌,
  unwrap_or, length, any, Text, text_eq, text_eq_iff,
}
use reduction.Http.{HeaderOps}
use reduction.CacheControl.{CacheDirectives}
use reduction.Cache.Key.{CacheKeyRef, cache_key}
use reduction.Cache.{
  CacheConfig, LruOps, uncacheable_headers, CachedResponse, remove_all, sanitized_for_cache,
  from_secs, ResponseCache, put,
}

module _ (h : HeaderOps) where
  get_all-remove_all :
      (names : List Text) (m : h.HeaderMap) (j : Text)
      → h.get_all j (remove_all h names m)
        ≡ (if any (λ name. text_eq name j) names then [] else h.get_all j m)
  unfolding remove_all
  get_all-remove_all [] m j = refl
  get_all-remove_all (name ∷ names) m j = ground (
    arith,
    text_eq_iff name j,
    get_all-remove_all names (h.remove name m) j,
    h.get_all-remove j name m,
  )

  -- Of the headers of a response the cache keeps every value, but none of an uncacheable name.
  pub get_all-sanitized :
      (m : h.HeaderMap) (j : Text)
      → h.get_all j (sanitized_for_cache h m)
        ≡ (if any (λ name. text_eq name j) uncacheable_headers then [] else h.get_all j m)
  unfolding sanitized_for_cache
  get_all-sanitized m j = get_all-remove_all uncacheable_headers m j

-- Whether a response may be stored, as the conditions together.
abbrev pub storable : CacheConfig → CacheDirectives → Text → Bool
storable config d body =
    not d.no_store
    && not d.is_private
    && leb (length body) config.max_entry_bytes
    && not (unwrap_or d.max_age config.default_ttl_secs == 0)

module _ (h : HeaderOps) where
  abbrev pub entry_of :
      CacheConfig → ℕ → ℕ → h.HeaderMap → Text → CacheDirectives → CachedResponse h.HeaderMap
  entry_of config now status headers body d = record {
    status = status;
    headers = sanitized_for_cache h headers;
    body = body;
    inserted_at = now;
    ttl = from_secs (unwrap_or d.max_age config.default_ttl_secs);
  }

module _ (h : HeaderOps) (lru : LruOps (CachedResponse h.HeaderMap)) where
  -- A put stores the sanitized response exactly when it is storable, and otherwise says no and
  -- changes nothing.
  pub put_lem :
      (now : ℕ) (key : CacheKeyRef) (status : ℕ) (headers : h.HeaderMap) (body : Text)
      (d : CacheDirectives) (c : ResponseCache h lru)
      → put h lru now key status headers body d c ≡ (
          if storable c.config d body
          then (
            record c {
              store =
                  lru.put (cache_key key) (entry_of h c.config now status headers body d) c.store;
            },
            true,
          )
          else (c, false))
  unfolding put
  put_lem now key status headers body d c = ground arith
