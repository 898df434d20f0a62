-- ===== src/Proxy/Store.antt =====
-- What is done with the response of a backend that is kept (src/proxy/handler/attempt/respond.rs,
-- `maybe_compress` of src/proxy/handler/policy.rs and `compress_response` of
-- src/proxy/handler/body.rs), and the answers from the cache (src/proxy/handler/cache.rs).
use reduction.Prelude.{
  ℕ, Bool, false, not, ◌&&◌, ◌||◌, Option, none, some, [], ◌∷◌, ltb, leb, ◌==◌, if◌then◌else◌,
  unwrap_or, Text, codes, text_eq, starts_with,
}
use reduction.Prelude.Parsing.{parse_u64}
use reduction.Prelude.Results.{ok, err}
use reduction.Prelude.Words.{u32_max}
use reduction.Cache
use reduction.Cache.Key.{CacheKeyRef}
use reduction.CacheControl.{CacheDirectives}
use reduction.CacheControl
use reduction.Handler.{response_is_encoded}
use reduction.Http.{get, contains_key}
use reduction.Tunnel.Revocation.{PeerIdentity, spki_hex}
use reduction.Proxy.{
  Env, Parts, Response, CompressionConfig, Headers, Server, Settings, RequestCtx, error_body,
}

-- `str::parse::<u32>`.
abbrev pub parse_u32 : Text → Option ℕ
parse_u32 s = elim (parse_u64 s) [ none ↦ none | some n ↦ if leb n u32_max then some n else none ]

-- `str::contains`.
abbrev pub contains_text : Text → Text → Bool
contains_text [] needle = starts_with [] needle
contains_text (c ∷ s) needle = starts_with (c ∷ s) needle || contains_text s needle

abbrev pub read_value :
    {A : Type 0} → (Text → Option Text) → (Text → Option A) → Option Text → Option A
read_value to_str f none = none
read_value to_str f (some v) = elim (to_str v) [ none ↦ none | some t ↦ f t ]

abbrev pub is_true : Option Bool → Bool
is_true none = false
is_true (some b) = b

pub record CacheNegotiation : Type 0 where
  pub is_cacheable_method : Bool
  pub accepts_zstd : Bool
  pub request_is_zstd : Bool
  pub request_has_cookie : Bool
  pub cache_identity_hex : Option Text

module _ (e : Env) where
  abbrev pub Answer : Type 0
  Answer = Response (Headers e) e.Body

  -- `headers.get(name).and_then(to_str)` and what is read from it.
  abbrev pub header_value : {A : Type 0} → Text → (Text → Option A) → Headers e → Option A
  header_value name f headers = read_value e.to_str f (get e.http name headers)

  -- Whether a declared length is below the least that is compressed.
  abbrev pub is_short : ℕ → Headers e → Bool
  is_short min_bytes headers = elim (header_value (codes "content-length") parse_u32 headers) [
    | none ↦ false
    | some len ↦ ltb len min_bytes
  ]

  unfoldable pub compress_response : Answer → ℕ → ℕ → Answer
  compress_response response min_bytes compression_level =
      if is_short min_bytes response.headers
      then response
      else elim (e.compressed compression_level response.body) [
        | none ↦ error_body e 500 (codes "response compression failed")
        | some body ↦ record {
          status = response.status;
          headers =
              e.http.remove (codes "content-length")
                (e.http.insert (codes "content-encoding") (codes "zstd") response.headers);
          body = body;
        }
      ]

  unfoldable pub maybe_compress : Answer → Bool → CacheDirectives → CompressionConfig → Answer
  maybe_compress response accepts_zstd directives config =
      if config.enabled
        && accepts_zstd
        && not (response_is_encoded e.http e.to_str response.headers)
        && not (response.status == 206)
        && not directives.no_transform
      then compress_response response config.min_bytes config.level
      else response

  -- `CacheDirectives::from_response`.
  abbrev pub directives_of : Headers e → CacheDirectives
  directives_of headers =
      CacheControl.from_response e.to_str (get e.http (codes "cache-control") headers)

  -- `uri.path_and_query()`, or the path.
  abbrev pub cache_path : Parts (Headers e) → Text
  cache_path parts = unwrap_or parts.path_and_query parts.path

  abbrev pub key_of : Parts (Headers e) → Text → CacheKeyRef
  key_of parts identity = record {
    method = parts.method;
    path = cache_path parts;
    identity = identity;
  }

  unfoldable pub store_and_respond :
      RequestCtx e → Answer → CacheDirectives → Parts (Headers e) → Server e → Server e × Answer
  store_and_respond ctx response directives req_parts s =
      let (world, collected) = e.collect response.body s.world in
      elim collected [
        | err x ↦ (record s { world = world }, error_body e 502 (codes "failed to read response"))
        | ok bytes ↦
            let (world', now) = e.now world in
            let cache =
              (Cache.put e.http e.lru now (key_of req_parts ctx.cache_identity) response.status
                response.headers bytes directives s.response_cache).0 in
            (
              record s { world = world'; response_cache = cache },
              maybe_compress (record response { body = e.body_of bytes }) ctx.accepts_zstd
                  directives ctx.settings.compression_config,
            )
      ]

  -- A hit, compressed as a fresh response would be.
  abbrev pub served : Bool → CompressionConfig → Option (Cache.Response (Headers e)) → Option Answer
  served accepts_zstd config none = none
  served accepts_zstd config (some cached) = some (
      maybe_compress
        (record { status = cached.status; headers = cached.headers; body = e.body_of cached.body })
        accepts_zstd (directives_of cached.headers) config)

  unfoldable pub try_serve_from_cache :
      Settings e
      → Parts (Headers e)
      → (cache_identity : Text)
      → (accepts_zstd is_cacheable_method request_has_cookie request_has_range : Bool) → Server e
      → Server e × Option Answer
  try_serve_from_cache settings parts cache_identity accepts_zstd is_cacheable_method
        request_has_cookie request_has_range s =
      if not (
        settings.cache_config.enabled
        && is_cacheable_method
        && not request_has_cookie
        && not request_has_range)
      then (s, none)
      else let (world, now) = e.now s.world in
        let (cache, found) =
          Cache.get e.http e.lru e.writer e.stack now (key_of parts cache_identity)
            s.response_cache in
        (
          record s { world = world; response_cache = cache },
          served accepts_zstd settings.compression_config found,
        )

  pub data CacheDecision : Type 0 where
    hit : Answer → CacheDecision
    miss : CacheNegotiation → CacheDecision

  unfoldable pub negotiation : Parts (Headers e) → Option PeerIdentity → CacheNegotiation
  negotiation parts client_identity = record {
    is_cacheable_method = text_eq parts.method (codes "GET") || text_eq parts.method (codes "HEAD");
    accepts_zstd = is_true (
        header_value (codes "accept-encoding") (λ v. some (contains_text v (codes "zstd")))
          parts.headers);
    request_is_zstd = is_true (
        header_value (codes "content-encoding") (λ v. some (text_eq v (codes "zstd")))
          parts.headers);
    request_has_cookie = contains_key e.http (codes "cookie") parts.headers;
    cache_identity_hex = elim client_identity [ none ↦ none | some who ↦ some (spki_hex who) ];
  }

  abbrev pub decide : CacheNegotiation → Option Answer → CacheDecision
  decide n (some response) = hit response
  decide n none = miss n

  unfoldable pub negotiate_cache :
      Settings e → Parts (Headers e) → Option PeerIdentity → Server e → Server e × CacheDecision
  negotiate_cache settings parts client_identity s =
      let n = negotiation parts client_identity in
      let (s', found) =
        try_serve_from_cache settings parts (unwrap_or n.cache_identity_hex []) n.accepts_zstd
          n.is_cacheable_method n.request_has_cookie
          (contains_key e.http (codes "range") parts.headers) s in
      (s', decide n found)
