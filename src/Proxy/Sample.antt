-- ===== src/Proxy/Sample.antt =====
-- A server on concrete parts (src/proxy/handler/state.rs), for the runs of the tests.
use reduction.Prelude.{
  ℕ, ◌+◌, ◌-◌, ◌*◌, Bool, true, false, none, some, [], ◌∷◌, ltb, leb, Text, codes, text_dec,
}
use reduction.Prelude.Maps.{assoc}
use reduction.Prelude.Results.{ok}
use reduction.Acl.{IpNetOps, v4}
use reduction.Admission.{optional}
use reduction.Balancer.{F64, BackendConfig, tcp, https}
use reduction.Cache.Assoc.{assoc_lru}
use reduction.Cache.Key.{string_writer}
use reduction.Circuit.Cells
use reduction.Http.Assoc.{assoc_headers}
use reduction.Proxy.{Env, Server, Settings}
use reduction.Proxy.Course.{ReloadableState}

abbrev pub whole : F64
whole = record {
  Float = ℕ;
  zero_point = 0;
  one_point = 1;
  mul = λ a b. a * b;
  sub = λ a b. a - b;
  clamp = λ x low high. x;
  at_most = leb;
  above = λ a b. ltb b a;
}

abbrev pub no_nets : IpNetOps
no_nets = record {
  Ipv4Net = Unit;
  Ipv6Net = Unit;
  new_v4 = λ a p. none;
  addr_v6 = λ n. 0;
  prefix_len_v6 = λ n. 0;
  contains_v4 = λ n ip. false;
  contains_v6 = λ n ip. false;
}

-- Time passes in milliseconds, and every backend answers 503.
abbrev pub env : Env
env = record {
  f64 = whole;
  of_ratio = λ a b. 0;
  http = assoc_headers;
  net = no_nets;
  from_str = some;
  to_str = some;
  from_bytes = some;
  counts = assoc text_dec;
  lru = assoc_lru;
  writer = string_writer;
  stack = [];
  fits = λ id. true;
  show_ip = λ ip. codes "10.0.0.1";
  random_range = λ n. 0;
  Buckets = ℕ;
  check_key = λ ip n. (n - 1, ltb 0 n);
  Body = Text;
  body_of = λ t. t;
  limited = λ cap b. b;
  compressed = λ level b. none;
  zstd_take = λ t n. none;
  World = ℕ;
  now = λ w. (w, w);
  sleep_ms = λ n w. w + n;
  collect = λ b w. (w, ok b);
  acquire = λ b w. (w, none);
  send_request = λ b t r w. (w + 1, ok (record { status = 503; headers = []; body = [] }));
  trace_pairs = λ w. [];
  woken = λ b n w. (w, false);
  rendezvous_score = λ ip id w. w;
  weight_factor = λ w id. 1;
}

abbrev pub backend : Text → BackendConfig whole
backend id = record {
  id = id;
  pool = codes "web";
  address = record { ip = v4 1; port = 443 };
  host = codes "example.test";
  weight = 1;
  transport = tcp;
  scheme = https;
  max_connections = 8;
  wakeable = false;
}

abbrev pub settings : Settings env
settings = record {
  timeouts = record {
    connect_secs = 1;
    handshake_secs = 1;
    request_secs = 30;
    response_idle_secs = 30;
  };
  proxy_config = record {
    max_response_body_bytes = 100;
    max_request_body_bytes = 100;
    inline_compress_threshold = 10;
    wake_timeout_secs = 30;
  };
  compression_config = record { enabled = false; level = 3; min_bytes = 10 };
  retry_config = record { max_retries = 1; base_delay_ms = 10; max_delay_ms = 100; jitter_ms = 0 };
  cache_config = record {
    enabled = false;
    max_entries = 2;
    max_entry_bytes = 16;
    default_ttl_secs = 60;
  };
  default_queue_depth = 4;
}

abbrev pub serving : Bool → ReloadableState env
serving shutdown = record {
  router = record { path_prefix = codes "/"; backend_id = codes "web"; timeout_secs = none } ∷ [];
  backend_pools =
      (codes "web", record { backends = backend (codes "a") ∷ backend (codes "b") ∷ [] }) ∷ [];
  acl = record { allow = []; deny = [] };
  revocation = record { spki = []; backend_ids = [] };
  client_auth = optional;
  shutdown = shutdown;
}

abbrev pub started : Server env
started = record {
  conn_limits = [];
  queues = [];
  circuit_breakers =
      Cells.new env.fits env.counts
        (record { failure_threshold = 3; recovery_timeout_secs = 60; half_open_max_requests = 2 });
  response_cache = record { store = (2, []); config = settings.cache_config };
  sent = [];
  buckets = 5;
  world = 0;
}
