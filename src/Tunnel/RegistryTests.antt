-- ===== src/Tunnel/RegistryTests.antt =====
-- Runs of the registry and of the revocation list (src/tunnel/registry.rs, src/tunnel/revocation.rs).
use reduction.Prelude.{
  ℕ, zero, suc, ◌<◌, ◌≡◌, refl, true, false, none, some, List, [], ◌∷◌, Text, codes, text_dec,
}
use reduction.Prelude.Maps.{MapOps, assoc}
use reduction.Tunnel.Revocation.{
  PeerIdentity, RevocationEntry, RevocationSet, is_revoked, parse, insert, add_entry, add_entries,
  insert_spki, insert_id,
}
use reduction.Tunnel.Registry.{
  note_peer, TunnelSession, TunnelRegistry, new, bucket, is_tunnel_backend, notify_session_waiters,
  register, revoke_matching,
}
use reduction.Prelude.Results.{ok}
use reduction.Tunnel.Revocation.Parse.{is_revoked-parse}
use reduction.Tunnel.Registry.Calls.{Call, registered, step, run}
use reduction.Tunnel.Registry.Sweep.{buckets_bounded, revoked_stays_out, WithinLimit, NoneRevoked}
use reduction.Tunnel.Registry.Waking.{no_lost_wakeup}

abbrev maps : (V : Type 0) → MapOps Text V text_dec
maps V = assoc text_dec

abbrev zeros : ℕ → Text
zeros zero = []
zeros (suc n) = 0 ∷ zeros n

abbrev device : Text → ℕ → PeerIdentity
device name key = record { common_name = name; spki_sha256 = key ∷ zeros 31 }

abbrev session : Text → ℕ → PeerIdentity → TunnelSession
session id connection identity = record {
  session_id = id;
  backend_id = codes "db";
  pool = [];
  remote_addr = [];
  connected_at = 0;
  last_heartbeat = 0;
  control_tx = connection;
  connection = connection;
  identity = identity;
  is_control_peer = false;
}

abbrev good : PeerIdentity
good = device (codes "good") 1

abbrev bad : PeerIdentity
bad = device (codes "bad") 2

abbrev denied : RevocationSet
denied = record { spki = []; backend_ids = codes "bad" ∷ [] }

abbrev two : List Call
two = registered (session (codes "s1") 1 good) ∷ registered (session (codes "s2") 2 bad) ∷ []

buckets_bounded_example :
    WithinLimit 4 (codes "db") (bucket maps (codes "db") (run maps two (new maps 4)))
buckets_bounded_example = buckets_bounded maps 4 two (codes "db")

revoked_stays_out_example : NoneRevoked denied (codes "db") (
    bucket maps (codes "db") (
      run maps
        (registered (session (codes "s3") 3 good) ∷ [])
        (revoke_matching maps denied (run maps two (new maps 4))).0))
unfolding is_revoked
revoked_stays_out_example =
    revoked_stays_out maps denied (run maps two (new maps 4))
      (registered (session (codes "s3") 3 good) ∷ []) (codes "db") (refl, tt)

abbrev parked : TunnelRegistry maps
parked = record {
  sessions = [];
  rr_counter = 0;
  max_sessions_per_backend = 4;
  wake_notify = (codes "db", 7) ∷ [];
  control_peers = [];
  refused = [];
}

present : is_tunnel_backend maps (codes "db") (run maps two parked) ≡ true
unfolding run step register notify_session_waiters note_peer text_dec
present = refl

no_lost_wakeup_example :
    (g : ℕ) × ((maps ℕ).get (codes "db") (run maps two (run maps [] parked)).wake_notify ≡ some g)
    × (7 < g)
unfolding run text_dec
no_lost_wakeup_example = no_lost_wakeup maps (codes "db") parked 7 [] two refl refl present

abbrev full : TunnelRegistry maps
full = record parked {
  sessions = (codes "db", session (codes "s1") 1 good ∷ session (codes "s2") 2 good ∷ []) ∷ [];
  rr_counter = 5;
}

abbrev entry : RevocationEntry
entry = record { spki = none; backend_id = some (codes "bad"); reason = codes "lost" }

parsed : parse (entry ∷ []) ≡ ok denied
unfolding parse add_entries add_entry insert_spki insert_id insert
parsed = refl

is_revoked-parse_example : is_revoked denied bad ≡ true
is_revoked-parse_example = is_revoked-parse (entry ∷ []) denied bad parsed
