-- ===== src/Proxy/Course/Tests.antt =====
-- The handler with two backends that answer 503 (src/proxy/handler.rs).
use reduction.Prelude.{
  ℕ, zero, suc, ◌≡◌, refl, sym, ap, ◌⊎◌, true, false, Option, none, some, List, [], ◌∷◌, map, Text,
  codes,
}
use reduction.Acl.{v4}
use reduction.Balancer.{BackendConfig, BackendPool}
use reduction.Proxy.{Request}
use reduction.Proxy.Attempt.Reach.{Sends}
use reduction.Proxy.Course.{ConnectInfo, identity_of, draining, plain, proxy_handler}
use reduction.Proxy.Sample.{whole, env, backend, settings, serving, started}
use reduction.Router.{match_route}
use reduction.Proxy.Attempt.Sends.{Member}
use reduction.Proxy.Course.{resolve_backend_pool}
use reduction.Proxy.Course.Permits.{Settles}
use reduction.Proxy.Course.Released.{queue_of, proxy_handler-Settles}
use reduction.Proxy.Course.Refused.{refusal, proxy_handler_refused}
use reduction.Proxy.Course.Whole.{Faithful, proxy_handler-Sends}
use reduction.Proxy.Replay.{attempts_of}

-- The client claims an identity that it has not proved.
abbrev forged : Request (List (Text × Text)) Text
forged = record {
  parts = record {
    method = codes "GET";
    path = codes "/a";
    path_and_query = some (codes "/a?q=1");
    headers = (codes "x-client-id", codes "admin") ∷ [];
  };
  body = [];
}

abbrev client : ConnectInfo env
client = some (v4 7, none)

abbrev sent_ids : List Text
sent_ids =
    map (λ s. s.backend.id)
      (proxy_handler env settings (serving false) client forged started).0.sent

proxy_handler-Sends_example :
    Sends env
      (Faithful env settings (serving false) (identity_of env client) forged.parts)
      (attempts_of env settings forged.parts)
      started
      (proxy_handler env settings (serving false) client forged started).0
proxy_handler-Sends_example =
    proxy_handler-Sends env settings (serving false) (λ w. (tt, tt)) client forged started

proxy_handler_refused_example :
    let (t, reply) = proxy_handler env settings (serving true) client forged started in
    (reply ≡ plain (draining env))
    × (t ≡ record started { world = t.world; buckets = t.buckets })
    × (((draining env).status ≡ 503)
        ⊎ ((draining env).status ≡ 403)
        ⊎ ((draining env).status ≡ 429))
unfolding refusal
proxy_handler_refused_example =
    proxy_handler_refused env settings (serving true) client forged started (draining env) refl

abbrev two_backends : BackendPool whole
two_backends = record { backends = backend (codes "a") ∷ backend (codes "b") ∷ [] }

abbrev most_of : Option (BackendConfig whole) → ℕ
most_of none = 8
most_of (some b) = b.max_connections

two_backends-capped : (b : BackendConfig whole) → Member env two_backends b → b.max_connections ≡ 8
two_backends-capped b (zero, h) = ap most_of (sym h)
two_backends-capped b (suc zero, h) = ap most_of (sym h)
two_backends-capped b (suc (suc i), h) = ap most_of (sym h)

proxy_handler-Settles_example :
    Settles env
      (λ id. 8)
      (λ id. 4)
      (queue_of env (resolve_backend_pool env (serving false) forged.parts.path))
      started
      (proxy_handler env settings (serving false) client forged started)
unfolding resolve_backend_pool match_route
proxy_handler-Settles_example =
    proxy_handler-Settles env settings (λ id. 8) (serving false) client forged started
      two_backends-capped
