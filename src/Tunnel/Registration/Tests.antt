-- ===== src/Tunnel/Registration/Tests.antt =====
-- A device that registers with an empty registry (src/tunnel/listener/registration.rs).
use reduction.Prelude.{◌≡◌, refl, none, some, [], Text, codes, text_dec, true}
use reduction.Prelude.Maps.{MapOps, assoc}
use reduction.Prelude.Results.{ok, err}
use reduction.Tunnel.Protocol.{register}
use reduction.Tunnel.Registry
use reduction.Tunnel.Registration.{
  TunnelConfig, Link, Listener, tunnel, establish_registration, accepted, negotiate, greet,
  expect_register, and_admit, admit_registration, and_commit, reject_registration,
  handle_tunnel_connection,
}
use reduction.Tunnel.Registration.Sound.{Ends, handle_tunnel_connection-Ends}

abbrev maps : (V : Type 0) → MapOps Text V text_dec
maps V = assoc text_dec

-- The device proves the name `db`, and claims another.
abbrev claims : Text → Link
claims backend_id = record {
  World = Unit;
  accept = λ w. (w, ok (record { common_name = codes "db"; spki_sha256 = [] }));
  read_preamble = λ w. (w, ok 1);
  write_preamble = λ w. (w, none);
  read_frame = λ w. (w, ok (register backend_id (codes "web") []));
  write_frame = λ f w. (w, true);
  reject_and_close = λ msg w. w;
  generate = λ w. (w, some (codes "s1"));
  now = λ w. (w, 5);
  revocation = λ w. record { spki = []; backend_ids = [] };
  remote_addr = [];
  connection = 1;
  control_tx = 1;
}

abbrev config : TunnelConfig
config = record { allowed_backend_ids = []; max_total_sessions = some 10 }

abbrev waiting : (backend_id : Text) → Listener maps (claims backend_id)
waiting backend_id = record {
  registry = Registry.new maps 4;
  pending_registration = true;
  world = tt;
}

handle_tunnel_connection-Ends_example :
    Ends maps
      (claims (codes "db"))
      config
      (waiting (codes "db"))
      (handle_tunnel_connection maps (claims (codes "db")) config (waiting (codes "db")))
unfolding Registry.new
handle_tunnel_connection-Ends_example =
    handle_tunnel_connection-Ends maps (claims (codes "db")) config (waiting (codes "db"))
      (λ w id h b. tt)

-- `test_register_cn_mismatch_is_rejected`: another name than the certificate's.
mismatch :
    (handle_tunnel_connection maps (claims (codes "x")) config (waiting (codes "x"))).1
    ≡ err (tunnel (codes "backend_id does not match certificate CN"))
unfolding handle_tunnel_connection establish_registration accepted negotiate greet expect_register
    and_admit admit_registration and_commit reject_registration
mismatch = refl
