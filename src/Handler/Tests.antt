-- ===== src/Handler/Tests.antt =====
-- Runs of the handler's decisions (src/proxy/handler).
use reduction.Prelude.{
  ◌≡◌, refl, inr, true, none, some, List, [], ◌∷◌, arith, Text, codes, text_dec,
}
use reduction.Http.Assoc.{assoc_headers}
use reduction.Circuit.{Limits, Breaker, from_u8, opened}
use reduction.Handler.{vary_permits_caching, handle_response}
use reduction.Tunnel.Revocation.{PeerIdentity}
use reduction.Handler.Headers.{apply_identity_headers, header_client_id, header_client_spki}
use reduction.Handler.Headers.Stripped.{get_all-apply_identity, proven}
use reduction.Handler.Outcome.{last_failure_counts_twice, rate_limited_never_opens}

abbrev two_varies : List (Text × Text)
two_varies = (codes "vary", codes "Accept-Encoding") ∷ (codes "vary", codes "X-Tenant") ∷ []

-- A response that varies on a header outside the key is let through.
permitted : vary_permits_caching assoc_headers some two_varies ≡ true
unfolding vary_permits_caching text_dec
permitted = refl

abbrev two_failures : Limits
two_failures = record { failure_threshold = 2; recovery_timeout = 60; half_open_max_requests = 1 }

abbrev shut : Breaker
shut = record { state = 0; consecutive_failures = 0; half_open_inflight = 0; opened_at = none }

last_failure_counts_twice_example :
    from_u8 (handle_response two_failures 9 2 3 503 shut).0.state ≡ opened
last_failure_counts_twice_example =
    last_failure_counts_twice two_failures 9 2 3 503 shut (omega arith) (inr refl) refl
      (omega arith) (omega arith)

rate_limited_never_opens_example : (handle_response two_failures 9 2 3 429 shut).0 ≡ shut
rate_limited_never_opens_example =
    rate_limited_never_opens two_failures 9 2 3 shut (omega arith) refl (omega arith) (omega arith)

abbrev debug_headers : List (Text × Text)
debug_headers = (codes "connection", codes "close, x-debug") ∷ (codes "x-debug", codes "1") ∷ []

abbrev forged : List (Text × Text)
forged = (header_client_id, codes "admin") ∷ []

abbrev phone : PeerIdentity
phone = record { common_name = codes "phone"; spki_sha256 = 171 ∷ [] }

get_all-apply_identity_example :
    let r = apply_identity_headers assoc_headers some forged (some phone) in
    (assoc_headers.get_all header_client_id r.0, assoc_headers.get_all header_client_spki r.0, r.1)
    ≡ proven some (some phone)
get_all-apply_identity_example = get_all-apply_identity assoc_headers some (some phone) forged
