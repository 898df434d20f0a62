-- ===== src/Admission/Tests.antt =====
-- The gates for a client without an identity, whose addresses are never in a list.
use reduction.Prelude.{
  ℕ, ◌-◌, ◌≡◌, Bool, false, not, ◌&&◌, ◌||◌, none, [], ltb, if◌then◌else◌, is_none,
}
use reduction.Acl
use reduction.Acl.{IpAddr, IpNetOps, AccessControl, v4, to_canonical}
use reduction.Tunnel.Revocation.{RevocationSet}
use reduction.Admission.{
  required, optional, allows_anonymous, refuses, revokes, reject_before_routing, check_admission,
}
use reduction.Admission.Gates.{answer_of, admission_parity, admitted_iff}

abbrev no_nets : IpNetOps
no_nets = record {
  Ipv4Net = Unit;
  Ipv6Net = Unit;
  new_v4 = λ a p. none;
  addr_v6 = λ n. 0;
  prefix_len_v6 = λ n. 0;
  contains_v4 = λ n ip. false;
  contains_v6 = λ n ip. false;
}

abbrev open_to_all : AccessControl no_nets
open_to_all = record { allow = []; deny = [] }

-- A bucket holds what its key may still ask for.
abbrev count_down : IpAddr → ℕ → ℕ × Bool
count_down key n = (n - 1, ltb 0 n)

abbrev nothing_revoked : RevocationSet
nothing_revoked = record { spki = []; backend_ids = [] }

admission_parity_example :
    let raw = check_admission no_nets count_down open_to_all (v4 7) 1 none nothing_revoked in
    let http =
      reject_before_routing no_nets count_down open_to_all (v4 7) 1 required none nothing_revoked in
    (http.0 ≡ raw.0) × (http.1 ≡ answer_of raw.1)
admission_parity_example =
    admission_parity no_nets count_down open_to_all (v4 7) 1 none nothing_revoked

admitted_iff_example :
    let allowed = not (refuses (Acl.check no_nets open_to_all (v4 7))) in
    let asked = count_down (to_canonical (v4 7)) 1 in
    let http =
      reject_before_routing no_nets count_down open_to_all (v4 7) 1 optional none nothing_revoked in
    (is_none http.1 ≡ (
      allowed
      && asked.1
      && (false || allows_anonymous optional)
      && not (revokes nothing_revoked none)))
    × (http.0 ≡ (if allowed then asked.0 else 1))
admitted_iff_example =
    admitted_iff no_nets count_down open_to_all (v4 7) 1 optional none nothing_revoked
