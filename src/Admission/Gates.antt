-- ===== src/Admission/Gates.antt =====
-- What the gates let through (src/proxy/handler.rs and src/proxy/raw_relay/admission.rs).
use reduction.Prelude.{
  ◌≡◌, Bool, not, ◌&&◌, ◌||◌, Option, none, some, arith, if◌then◌else◌, is_some, is_none, codes,
}
use reduction.Prelude.Results.{Result, ok, err}
use reduction.Acl
use reduction.Acl.{IpAddr, IpNetOps, AccessControl, to_canonical}
use reduction.Tunnel.Revocation.{PeerIdentity, RevocationSet}
use reduction.Admission.{
  ClientAuthPolicy, required, allows_anonymous, ErrorResponse, error_response, RejectReason,
  refuses, revokes, rate_check, reject_before_routing, check_admission, reject_acl,
  reject_rate_limit, reject_no_identity, reject_revoked,
}

-- What a client of the HTTP path is told where a raw stream is refused.
abbrev pub answer_of : Result RejectReason Unit → Option ErrorResponse
answer_of (ok _) = none
answer_of (err reject_acl) = some (error_response 403 (codes "access denied"))
answer_of (err reject_rate_limit) = some (error_response 429 (codes "rate limited"))
answer_of (err reject_no_identity) = some (error_response 403 (codes "client identity required"))
answer_of (err reject_revoked) = some (error_response 403 (codes "revoked"))

module _ (net : IpNetOps) {Buckets : Type 0} (check_key : IpAddr → Buckets → Buckets × Bool)
    (acl : AccessControl net) (client_ip : IpAddr) (buckets : Buckets) where
  -- Under the policy `required` the HTTP path and the raw relay refuse the same clients for the same
  -- reason, and count the same requests against the rate limit.
  pub admission_parity :
      (identity : Option PeerIdentity) (revocation : RevocationSet)
      → let raw = check_admission net check_key acl client_ip buckets identity revocation in
        let http =
          reject_before_routing net check_key acl client_ip buckets required identity revocation in
        (http.0 ≡ raw.0) × (http.1 ≡ answer_of raw.1)
  unfolding reject_before_routing check_admission allows_anonymous rate_check
  admission_parity none revocation = ground arith
  admission_parity (some who) revocation = ground arith

  -- A client gets past the gates exactly when the access lists allow it, it is within its rate, it has
  -- an identity or the policy asks for none, and its identity is not revoked; and it is counted against
  -- its rate, under its address in canonical form, exactly when the access lists allow it.
  pub admitted_iff :
      (client_auth : ClientAuthPolicy) (identity : Option PeerIdentity) (revocation : RevocationSet)
      → let allowed = not (refuses (Acl.check net acl client_ip)) in
        let asked = check_key (to_canonical client_ip) buckets in
        let http =
          reject_before_routing net check_key acl client_ip buckets client_auth identity
            revocation in
        (is_none http.1 ≡ (
          allowed
          && asked.1
          && (is_some identity || allows_anonymous client_auth)
          && not (revokes revocation identity)))
        × (http.0 ≡ (if allowed then asked.0 else buckets))
  unfolding reject_before_routing rate_check
  admitted_iff client_auth none revocation = ground arith
  admitted_iff client_auth (some who) revocation = ground arith
