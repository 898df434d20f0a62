-- ===== src/RawAuthz/Tests.antt =====
-- Runs of the raw relay's policies (src/proxy/raw_authz.rs).
use reduction.Prelude.{◌≡◌, refl, true, [], ◌∷◌, codes}
use reduction.Prelude.Results.{ok}
use reduction.Tunnel.Revocation.{PeerIdentity}
use reduction.RawAuthz.{
  RawRelayAuthzEntry, RawRelayAuthz, new, is_allowed, index_entries, index_entry, insert_spkis,
  insert_policy,
}
use reduction.RawAuthz.Policies.{is_allowed-new}

abbrev camera_entry : RawRelayAuthzEntry
camera_entry = record {
  backend_id = codes "camera";
  allowed_cns = codes "phone" ∷ [];
  allowed_spkis = [];
}

abbrev phone : PeerIdentity
phone = record { common_name = codes "phone"; spki_sha256 = [] }

abbrev camera_policies : RawRelayAuthz
camera_policies = record {
  by_backend = (codes "camera", record { cns = codes "phone" ∷ []; spkis = [] }) ∷ [];
}

accepted : new (camera_entry ∷ []) (codes "camera" ∷ []) ≡ ok camera_policies
unfolding new index_entries index_entry insert_spkis insert_policy
accepted = refl

is_allowed-new_example : is_allowed camera_policies (codes "camera") phone ≡ true
is_allowed-new_example =
    is_allowed-new (camera_entry ∷ []) (codes "camera" ∷ []) camera_policies accepted
      (codes "camera") phone
