-- ===== src/Balancer/Tests.antt =====
-- Runs of the balancer (src/balancer/mod.rs), with numbers for weights.
use Prim.Native.Nat.{ℕ, ◌*◌, ◌-◌}
use reduction.Prelude.{◌∷◌, [], if◌then◌else◌, leb, ltb, codes, Text, false}
use reduction.Acl.{v4}
use reduction.Balancer.{F64, tcp, https, BackendConfig, BackendPool}

abbrev whole : F64
whole = record {
  Float = ℕ;
  zero_point = 0;
  one_point = 1;
  mul = λ a b. a * b;
  sub = λ a b. a - b;
  clamp = λ x low high. if◌then◌else◌ (ltb x low) low (if◌then◌else◌ (ltb high x) high x);
  at_most = leb;
  above = λ a b. ltb b a;
}

abbrev backend : Text → ℕ → BackendConfig whole
backend id weight = record {
  id = id;
  pool = codes "web";
  address = record { ip = v4 1; port = 443 };
  host = codes "example.test";
  weight = weight;
  transport = tcp;
  scheme = https;
  max_connections = 8;
  wakeable = false;
}

abbrev two_backends : BackendPool whole
two_backends = record { backends = backend (codes "a") 1 ∷ backend (codes "b") 3 ∷ [] }
