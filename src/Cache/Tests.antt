-- ===== src/Cache/Tests.antt =====
-- Runs of the response cache and of its keys (src/cache.rs), with a header map and a store of pairs.
use reduction.Prelude.{◌≡◌, refl, true, false, some, List, [], ◌∷◌, Text, codes, text_dec}
use reduction.Http.Assoc.{assoc_headers}
use reduction.CacheControl.{CacheDirectives}
use reduction.Cache.Key.{
  CacheKeyRef, string_writer, cache_key, build_lookup_key, deref, write_cache_key, write_pieces,
  key_pieces,
}
use reduction.Prelude.Decimal.{decimal}
use reduction.Cache.Keys.{cache_key_inj}
use reduction.Cache.History.{
  Call, write, lookup, flush, run, get_served, get_sanitized, Origin, step,
}
use reduction.Cache.Assoc.{assoc_lru}
use reduction.Cache.{
  CacheConfig, LruOps, CachedResponse, Response, is_expired, new, put, get, clear,
  sanitized_for_cache, remove_all,
}

abbrev Headers : Type 0
Headers = List (Text × Text)

abbrev lru : LruOps (CachedResponse Headers)
lru = assoc_lru

abbrev config : CacheConfig
config = record { enabled = true; max_entries = 2; max_entry_bytes = 16; default_ttl_secs = 60 }

abbrev key_a : CacheKeyRef
key_a = record { method = codes "GET"; path = codes "/a:1"; identity = codes "ab12" }

abbrev cookie : Headers
cookie = (codes "set-cookie", codes "s=1") ∷ (codes "etag", codes "7") ∷ []

abbrev ten_seconds : CacheDirectives
ten_seconds = record {
  no_store = false;
  no_transform = false;
  is_private = false;
  is_public = true;
  max_age = some 10;
}

abbrev calls : List (Call Headers)
calls = lookup 7 key_a ∷ write 5 key_a 200 cookie (codes "body") ten_seconds ∷ flush ∷ []

abbrev answer : Response Headers
answer = record { status = 200; headers = (codes "etag", codes "7") ∷ []; body = codes "body" }

cache_key_inj_example :
    (codes "GET" ≡ codes "GET") × (codes "/a:1" ≡ codes "/a:1") × (codes "ab12" ≡ codes "ab12")
cache_key_inj_example = cache_key_inj key_a key_a refl

served :
    (get assoc_headers lru string_writer [] 8 key_a
      (run assoc_headers lru string_writer [] config calls)).1
    ≡ some answer
unfolding run step put get clear sanitized_for_cache remove_all new is_expired text_dec cache_key
    write_cache_key write_pieces key_pieces decimal build_lookup_key deref
served = refl

get_served_example :
    (e : CachedResponse Headers) × Origin assoc_headers config calls key_a e
    × (is_expired 8 e ≡ false)
    × (answer ≡ record { status = e.status; headers = e.headers; body = e.body })
get_served_example =
    get_served assoc_headers lru string_writer [] config calls 8 key_a answer refl served

get_sanitized_example : assoc_headers.get_all (codes "set-cookie") answer.headers ≡ []
get_sanitized_example =
    get_sanitized assoc_headers lru string_writer [] config calls 8 key_a answer
      (codes "set-cookie") refl served refl
