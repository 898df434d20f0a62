-- ===== src/Error.antt =====
-- The errors of the program (src/error.rs). An error of another library is the text that it prints.
use reduction.Prelude.{Bool, true, false, Text}

pub data ReductionError : Type 0 where
  config config_parse tls identity io transport : Text → ReductionError
  backend_unavailable queue_full rate_limited access_denied : ReductionError
  forward circuit_open connect_tunnel tunnel no_backend_session ingress acme : Text → ReductionError

unfoldable pub is_transport_miss : ReductionError → Bool
is_transport_miss (no_backend_session _) = true
is_transport_miss backend_unavailable = true
is_transport_miss (forward _) = true
is_transport_miss _ = false
