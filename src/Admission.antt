-- ===== src/Admission.antt =====
-- The gates that a client passes before its request is routed (`reject_before_routing` of
-- src/proxy/handler.rs) and before its raw stream is relayed (src/proxy/raw_relay/admission.rs), with
-- the rate limit (src/ratelimit.rs) and the policy on client certificates (src/config/types/listener.rs).
-- The buckets of the governor crate are a parameter, a state that each question changes.
pub mod Gates
mod Tests
use reduction.Prelude.{
  ℕ, zero, suc, ◌+◌, ◌-◌, ◌*◌, ◌/◌, ◌%◌, ◌^◌, ◌≤◌, ◌<◌, min, max, ◌≡◌, refl, sym, ap, ap₂, ◌∙◌,
  subst, fun_ext, ◌≢◌, ◌↔◌, ◌⊎◌, inl, inr, ite, if_pos, if_neg, Bool, true, false, not, ◌&&◌, ◌||◌,
  Option, none, some, List, [], ◌∷◌, ◌++◌, map, append-nil, append_assoc, arith, ltb, leb, ◌==◌,
  if◌then◌else◌, tests, Bool-cases, Option-cases, is_some, is_none, unwrap_or, length, get_elem?,
  take, drop, any, all, retain, length-append, All, All-append, take-length_append,
  drop-length_append, Text, codes, text_eq, text_eq→eq, text_eq_refl, text_eq_iff, text_dec,
  starts_with, ends_with, eq_ignore_ascii_case, to_ascii_lowercase, dec_lt, dec_le, ℕ_discrete,
  length-retain-le, length-drop, All-retain, retain-All,
}
use reduction.Prelude.Results.{Result, ok, err}
use reduction.Acl
use reduction.Acl.{IpAddr, IpNetOps, AccessControl, to_canonical}
use reduction.Tunnel.Revocation.{PeerIdentity, RevocationSet, is_revoked}

pub data ClientAuthPolicy : Type 0 where
  required optional disabled : ClientAuthPolicy

unfoldable pub allows_anonymous : ClientAuthPolicy → Bool
allows_anonymous required = false
allows_anonymous optional = true
allows_anonymous disabled = true

unfoldable pub builds_verifier : ClientAuthPolicy → Bool
builds_verifier required = true
builds_verifier optional = true
builds_verifier disabled = false

unfoldable pub is_mandatory : ClientAuthPolicy → Bool
is_mandatory required = true
is_mandatory optional = false
is_mandatory disabled = false

-- A response that is made here: its status, its text, and its `Retry-After` where it has one.
pub record ErrorResponse : Type 0 where
  pub status : ℕ
  pub message : Text
  pub retry_after : Option Text

unfoldable pub error_response : ℕ → Text → ErrorResponse
error_response status message = record { status = status; message = message; retry_after = none }

-- Why a raw stream is refused.
pub data RejectReason : Type 0 where
  reject_acl reject_rate_limit reject_no_identity reject_revoked : RejectReason

-- `AccessControl::check(..).is_err()`.
abbrev pub refuses : Acl.Result → Bool
refuses Acl.ok = false
refuses (Acl.err e) = true

abbrev pub revokes : RevocationSet → Option PeerIdentity → Bool
revokes revocation none = false
revokes revocation (some identity) = is_revoked revocation identity

-- `check_key` is the one of governor: whether a request of the key is within its quota.
module _ (net : IpNetOps) {Buckets : Type 0} (check_key : IpAddr → Buckets → Buckets × Bool) where
  unfoldable pub rate_check : IpAddr → Buckets → Buckets × Bool
  rate_check key buckets = check_key (to_canonical key) buckets

  module _ (acl : AccessControl net) (client_ip : IpAddr) (buckets : Buckets) where
    unfoldable pub reject_before_routing :
        ClientAuthPolicy → Option PeerIdentity → RevocationSet → Buckets × Option ErrorResponse
    reject_before_routing client_auth client_identity revocation =
        if refuses (Acl.check net acl client_ip)
        then (buckets, some (error_response 403 (codes "access denied")))
        else let (counted, within) = rate_check client_ip buckets in
          if not within
          then (counted, some (error_response 429 (codes "rate limited")))
          else if is_none client_identity && not (allows_anonymous client_auth)
          then (counted, some (error_response 403 (codes "client identity required")))
          else if revokes revocation client_identity
          then (counted, some (error_response 403 (codes "revoked")))
          else (counted, none)

    unfoldable pub check_admission :
        Option PeerIdentity → RevocationSet → Buckets × Result RejectReason Unit
    check_admission identity revocation =
        if refuses (Acl.check net acl client_ip)
        then (buckets, err reject_acl)
        else let (counted, within) = rate_check client_ip buckets in
          if not within then (counted, err reject_rate_limit) else elim identity [
            | none ↦ (counted, err reject_no_identity)
            | some who ↦
                if is_revoked revocation who
                then (counted, err reject_revoked)
                else (counted, ok tt)
          ]
