-- ===== src/Cache.antt =====
-- The response cache (`ResponseCache` of src/cache.rs). The store is the `lru` crate's, a parameter
-- with the laws of `LruOps`; the mutex makes every call one step. Times are nanoseconds, and `now` is
-- what `Instant::now()` returns in the call.
pub mod Key
pub mod Keys
pub mod Entries
pub mod Served
pub mod History
pub mod Assoc
mod Tests
use reduction.Prelude.{
  ℕ, zero, suc, ◌+◌, ◌-◌, ◌*◌, ◌/◌, ◌%◌, ◌^◌, ◌≤◌, ◌<◌, min, max, ◌≡◌, refl, sym, ap, ap₂, ◌∙◌,
  subst, fun_ext, ◌≢◌, ◌↔◌, ◌⊎◌, inl, inr, ite, if_pos, if_neg, Bool, true, false, not, ◌&&◌, ◌||◌,
  Option, none, some, List, [], ◌∷◌, ◌++◌, map, append-nil, append_assoc, arith, ltb, leb, ◌==◌,
  if◌then◌else◌, tests, Bool-cases, Option-cases, is_some, is_none, unwrap_or, length, get_elem?,
  take, drop, any, all, retain, length-append, All, All-append, take-length_append,
  drop-length_append, Text, codes, text_eq, text_eq→eq, text_eq_refl, text_eq_iff, text_dec,
  starts_with, ends_with, eq_ignore_ascii_case, to_ascii_lowercase, dec_lt, dec_le, ℕ_discrete,
  length-retain-le,
}
use reduction.Http.{HeaderOps}
use reduction.CacheControl.{CacheDirectives}
use reduction.Cache.Key.{CacheKeyRef, Writer, cache_key, build_lookup_key, deref}

pub record CacheConfig : Type 0 where
  pub enabled : Bool
  pub max_entries : ℕ
  pub max_entry_bytes : ℕ
  pub default_ttl_secs : ℕ

-- `LruCache`: `peek` is what is stored under a key, and a `put` may evict other keys.
pub record LruOps (V : Type 0) : Type 1 where
  pub Lru : Type 0
  pub new : ℕ → Lru
  pub get : Text → Lru → Option V × Lru
  pub pop : Text → Lru → Lru
  pub put : Text → V → Lru → Lru
  pub clear : Lru → Lru
  pub peek : Text → Lru → Option V
  pub peek-new : (j : Text) (n : ℕ) → peek j (new n) ≡ none
  pub get_lem : (k : Text) (m : Lru) → (get k m).0 ≡ peek k m
  pub peek-get : (j k : Text) (m : Lru) → peek j (get k m).1 ≡ peek j m
  pub peek-pop : (j k : Text) (m : Lru) → peek j (pop k m) ≡ ite (text_dec k j) none (peek j m)
  pub peek-put : (k : Text) (v : V) (m : Lru) → peek k (put k v m) ≡ some v
  pub peek-put_other :
      (j k : Text) (v : V) (m : Lru)
      → j ≢ k
      → (peek j (put k v m) ≡ none) ⊎ (peek j (put k v m) ≡ peek j m)
  pub peek-clear : (j : Text) (m : Lru) → peek j (clear m) ≡ none

abbrev pub uncacheable_headers : List Text
uncacheable_headers =
    codes "set-cookie"
    ∷ codes "set-cookie2"
    ∷ codes "connection"
    ∷ codes "keep-alive"
    ∷ codes "proxy-authenticate"
    ∷ codes "proxy-authorization"
    ∷ codes "te"
    ∷ codes "trailer"
    ∷ codes "transfer-encoding"
    ∷ codes "upgrade"
    ∷ []

pub record CachedResponse (HeaderMap : Type 0) : Type 0 where
  pub status : ℕ
  pub headers : HeaderMap
  pub body : Text
  pub inserted_at : ℕ
  pub ttl : ℕ

pub record Response (HeaderMap : Type 0) : Type 0 where
  pub status : ℕ
  pub headers : HeaderMap
  pub body : Text

-- `Duration::from_secs`.
abbrev pub from_secs : ℕ → ℕ
from_secs s = s * 1000000000

-- `elapsed` stops at 0.
unfoldable pub is_expired : {H : Type 0} → ℕ → CachedResponse H → Bool
is_expired now e = ltb e.ttl (now - e.inserted_at)

module _ (h : HeaderOps) where
  unfoldable pub remove_all : List Text → h.HeaderMap → h.HeaderMap
  remove_all [] m = m
  remove_all (name ∷ names) m = remove_all names (h.remove name m)

  unfoldable pub sanitized_for_cache : h.HeaderMap → h.HeaderMap
  unfolding remove_all
  sanitized_for_cache headers = remove_all uncacheable_headers headers

module _ (h : HeaderOps) (lru : LruOps (CachedResponse h.HeaderMap)) where
  pub record ResponseCache : Type 0 where
    pub store : lru.Lru
    pub config : CacheConfig

  unfoldable pub new : CacheConfig → ResponseCache
  new config = record { store = lru.new config.max_entries; config = config }

  unfoldable pub put :
      ℕ
      → CacheKeyRef
      → ℕ
      → h.HeaderMap
      → Text
      → CacheDirectives
      → ResponseCache
      → ResponseCache × Bool
  unfolding sanitized_for_cache
  put now key status headers body directives c =
      if directives.no_store || directives.is_private
      then (c, false)
      else if ltb c.config.max_entry_bytes (length body)
      then (c, false)
      else let ttl_secs = unwrap_or directives.max_age c.config.default_ttl_secs in
        if ttl_secs == 0
        then (c, false)
        else let entry : CachedResponse h.HeaderMap = record {
          status = status;
          headers = sanitized_for_cache h headers;
          body = body;
          inserted_at = now;
          ttl = from_secs ttl_secs;
        } in
          (record c { store = lru.put (cache_key key) entry c.store }, true)

  unfoldable pub clear : ResponseCache → ResponseCache
  clear c = record c { store = lru.clear c.store }

  module _ (w : Writer) (stack : w.Buf) where
    unfoldable pub get :
        ℕ → CacheKeyRef → ResponseCache → ResponseCache × Option (Response h.HeaderMap)
    unfolding is_expired
    get now key c =
        let lookup = deref w stack (build_lookup_key w stack key) in
        let (entry, store) = lru.get lookup c.store in
        elim entry [
          | none ↦ (record c { store = store }, none)
          | some e ↦
              if is_expired now e then (record c { store = lru.pop lookup store }, none) else (
                record c { store = store },
                some (record { status = e.status; headers = e.headers; body = e.body }),
              )
        ]
