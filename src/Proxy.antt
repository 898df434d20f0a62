-- ===== src/Proxy.antt =====
-- The course of a request through the handler (src/proxy/handler.rs and src/proxy/handler): what it
-- runs on, its state, and the messages. The outside world is a parameter, `Env`: the backends behind
-- their connections, the clock and the tasks of other requests are the state `World`, which each
-- question to it changes.
pub mod Sample
pub mod Forward
pub mod Gate
pub mod Store
pub mod Attempt
pub mod Replay
pub mod Course
pub mod Guarded
use reduction.Prelude.{
  ℕ, zero, suc, ◌+◌, ◌-◌, ◌*◌, ◌/◌, ◌%◌, ◌^◌, ◌≤◌, ◌<◌, min, max, ◌≡◌, refl, sym, ap, ap₂, ◌∙◌,
  subst, fun_ext, ◌≢◌, ◌↔◌, ◌⊎◌, inl, inr, ite, if_pos, if_neg, Bool, true, false, not, ◌&&◌, ◌||◌,
  Option, none, some, List, [], ◌∷◌, ◌++◌, map, append-nil, append_assoc, arith, ltb, leb, ◌==◌,
  if◌then◌else◌, tests, Bool-cases, Option-cases, is_some, is_none, unwrap_or, length, get_elem?,
  take, drop, any, all, retain, length-append, All, All-append, take-length_append,
  drop-length_append, Text, codes, text_eq, text_eq→eq, text_eq_refl, text_eq_iff, text_dec,
  starts_with, ends_with, eq_ignore_ascii_case, to_ascii_lowercase, dec_lt, dec_le, ℕ_discrete,
  length-retain-le, length-drop, All-retain, retain-All,
}
use reduction.Prelude.Results.{Result, ok, err}
use reduction.Prelude.Maps.{MapOps}
use reduction.Acl.{IpAddr, IpNetOps}
use reduction.Balancer.{F64, BackendConfig, BackendPool}
use reduction.Cache.{LruOps, CachedResponse, ResponseCache, CacheConfig}
use reduction.Cache.Key.{Writer}
use reduction.Circuit.Cells.{CircuitBreakers}
use reduction.Error.{ReductionError}
use reduction.Http.{HeaderOps}
use reduction.Retry.{RetryConfig}
use reduction.Tunnel.Revocation.{PeerIdentity}

-- `Parts` of a request: the URI is its path and, where it has them, its path and query.
pub record Parts (HeaderMap : Type 0) : Type 0 where
  pub method : Text
  pub path : Text
  pub path_and_query : Option Text
  pub headers : HeaderMap

pub record Request (HeaderMap Body : Type 0) : Type 0 where
  pub parts : Parts HeaderMap
  pub body : Body

pub record Response (HeaderMap Body : Type 0) : Type 0 where
  pub status : ℕ
  pub headers : HeaderMap
  pub body : Body

pub record CompressionConfig : Type 0 where
  pub enabled : Bool
  pub level : ℕ
  pub min_bytes : ℕ

pub record TimeoutConfig : Type 0 where
  pub connect_secs : ℕ
  pub handshake_secs : ℕ
  pub request_secs : ℕ
  pub response_idle_secs : ℕ

pub record ProxyConfig : Type 0 where
  pub max_response_body_bytes : ℕ
  pub max_request_body_bytes : ℕ
  pub inline_compress_threshold : ℕ
  pub wake_timeout_secs : ℕ

pub record Env : Type 1 where
  -- The libraries: numbers, header maps and values, maps, the store of the cache.
  pub f64 : F64
  pub of_ratio : ℕ → ℕ → f64.Float
  pub http : HeaderOps
  pub net : IpNetOps
  pub from_str : Text → Option Text
  pub to_str : Text → Option Text
  pub from_bytes : Text → Option Text
  pub counts : MapOps Text ℕ text_dec
  pub lru : LruOps (CachedResponse http.HeaderMap)
  pub writer : Writer
  pub stack : writer.Buf
  pub fits : Text → Bool
  pub show_ip : IpAddr → Text
  pub random_range : ℕ → ℕ
  -- The token buckets of the rate limit.
  pub Buckets : Type 0
  pub check_key : IpAddr → Buckets → Buckets × Bool
  -- Bodies: a body of given bytes, the body under a cap, and the encoder of zstd.
  pub Body : Type 0
  pub body_of : Text → Body
  pub limited : ℕ → Body → Body
  pub compressed : ℕ → Body → Option Body
  -- The first bytes of what the decoder of zstd gives, at most so many, or its failure.
  pub zstd_take : Text → ℕ → Option Text
  -- The world. A body is read to its end, or fails, by its cap or otherwise.
  pub World : Type 0
  pub now : World → World × ℕ
  pub sleep_ms : ℕ → World → World
  pub collect : Body → World → World × Result Bool Text
  pub acquire : BackendConfig f64 → World → World × Option ReductionError
  pub send_request :
      BackendConfig f64
      → ℕ
      → Request http.HeaderMap Body
      → World
      → World × Result ReductionError (Response http.HeaderMap Body)
  -- What the propagator of the traces sets, and whether a woken backend is reachable in time.
  pub trace_pairs : World → List (Text × Text)
  pub woken : BackendConfig f64 → ℕ → World → World × Bool
  -- The parts of the balancer that are numbers only.
  pub rendezvous_score : IpAddr → Text → f64.Float → f64.Float
  pub weight_factor : World → Text → f64.Float

module _ (e : Env) where
  abbrev pub Headers : Type 0
  Headers = e.http.HeaderMap

  abbrev pub Backend : Type 0
  Backend = BackendConfig e.f64

  -- A request on its way to a backend.
  pub record Sent : Type 0 where
    pub backend : Backend
    pub request : Request Headers e.Body

  -- `ProxyState`, as far as a request changes it: the permits that the semaphore of a backend has
  -- left, the breakers, the cache, and the requests sent, the latest first.
  pub record Server : Type 0 where
    pub conn_limits : e.counts.Map
    pub queues : e.counts.Map
    pub circuit_breakers : CircuitBreakers e.fits e.counts
    pub response_cache : ResponseCache e.http e.lru
    pub sent : List Sent
    pub buckets : e.Buckets
    pub world : e.World

  -- `ProxyState`, as far as it is configuration.
  pub record Settings : Type 0 where
    pub timeouts : TimeoutConfig
    pub proxy_config : ProxyConfig
    pub compression_config : CompressionConfig
    pub retry_config : RetryConfig
    pub cache_config : CacheConfig
    pub default_queue_depth : ℕ

  pub record RequestCtx : Type 0 where
    pub settings : Settings
    pub pool : BackendPool e.f64
    pub client_ip : IpAddr
    pub client_identity : Option PeerIdentity
    pub backend_id : Text
    pub cache_identity : Text
    pub max_attempts : ℕ
    pub is_cacheable_method : Bool
    pub request_has_cookie : Bool
    pub accepts_zstd : Bool

  pub record ReplayBody : Type 0 where
    pub body_bytes : Option Text
    pub streaming_body : Option e.Body
    pub req_parts : Parts Headers

  pub record RetryState : Type 0 where
    pub failed_backends : List Text
    pub last_response : Option (Response Headers e.Body)
    pub last_error_msg : Option ReductionError

  abbrev pub error_body : ℕ → Text → Response Headers e.Body
  error_body status message = record {
    status = status;
    headers = e.http.empty;
    body = e.body_of message;
  }
