-- ===== src/RawAuthz.antt =====
-- Which devices may open a raw relay to which backend (src/proxy/raw_authz.rs). A `HashSet` is the list
-- of its elements and a `HashMap` a list of pairs, whose first pair of a key counts.
pub mod Policies
mod Tests
use reduction.Prelude.{
  ℕ, zero, suc, ◌+◌, ◌-◌, ◌*◌, ◌/◌, ◌%◌, ◌^◌, ◌≤◌, ◌<◌, min, max, ◌≡◌, refl, sym, ap, ap₂, ◌∙◌,
  subst, fun_ext, ◌≢◌, ◌↔◌, ◌⊎◌, inl, inr, ite, if_pos, if_neg, Bool, true, false, not, ◌&&◌, ◌||◌,
  Option, none, some, List, [], ◌∷◌, ◌++◌, map, append-nil, append_assoc, arith, ltb, leb, ◌==◌,
  if◌then◌else◌, tests, Bool-cases, Option-cases, is_some, is_none, unwrap_or, length, get_elem?,
  take, drop, any, all, retain, length-append, All, All-append, take-length_append,
  drop-length_append, Text, codes, text_eq, text_eq→eq, text_eq_refl, text_eq_iff, text_dec,
  starts_with, ends_with, eq_ignore_ascii_case, to_ascii_lowercase, dec_lt, dec_le, ℕ_discrete,
  length-retain-le, length-drop, All-retain, retain-All,
}
use reduction.Prelude.Results.{Result, ok, err, and_then}
use reduction.Tunnel.Revocation.{PeerIdentity, spki_hex, spki_hex_len, contains, insert}

abbrev lowercase_offset : ℕ
lowercase_offset = b'a' - b'A'

pub record RawRelayAuthzEntry : Type 0 where
  pub backend_id : Text
  pub allowed_cns : List Text
  pub allowed_spkis : List Text

pub record BackendPolicy : Type 0 where
  pub cns : List Text
  pub spkis : List Text

pub record RawRelayAuthz : Type 0 where
  pub by_backend : List (Text × BackendPolicy)

pub data ConfigError : Type 0 where
  unknown_backend no_identity duplicate : Text → ConfigError
  bad_length bad_byte : Text → ℕ → ConfigError

-- `HashMap::get`.
abbrev pub lookup : Text → List (Text × BackendPolicy) → Option BackendPolicy
lookup id [] = none
lookup id ((key, policy) ∷ rest) = if text_eq key id then some policy else lookup id rest

-- The loop over the bytes.
unfoldable pub lowered_bytes : Text → Text → Result ConfigError Text
lowered_bytes [] backend_id = ok []
lowered_bytes (byte ∷ bytes) backend_id =
    let rest = lowered_bytes bytes backend_id in
    if (leb b'0' byte && leb byte b'9') || (leb b'a' byte && leb byte b'f')
    then and_then rest (λ out. ok (byte ∷ out))
    else if leb b'A' byte && leb byte b'F'
    then and_then rest (λ out. ok ((byte + lowercase_offset) ∷ out))
    else err (bad_byte backend_id byte)

unfoldable pub normalize_spki_hex : Text → Text → Result ConfigError Text
normalize_spki_hex hex backend_id =
    if length hex == spki_hex_len
    then lowered_bytes hex backend_id
    else err (bad_length backend_id (length hex))

-- The loop over the hashes of an entry.
unfoldable pub insert_spkis : List Text → Text → List Text → Result ConfigError (List Text)
insert_spkis [] backend_id spkis = ok spkis
insert_spkis (spki ∷ rest) backend_id spkis =
    and_then (normalize_spki_hex spki backend_id)
      (λ key. insert_spkis rest backend_id (insert spkis key))

abbrev pub is_empty : {A : Type 0} → List A → Bool
is_empty [] = true
is_empty (x ∷ xs) = false

-- `by_backend.insert`, which must not find an older policy.
unfoldable pub insert_policy :
    Text
    → BackendPolicy
    → List (Text × BackendPolicy)
    → Result ConfigError (List (Text × BackendPolicy))
insert_policy id policy by_backend =
    if is_some (lookup id by_backend) then err (duplicate id) else ok ((id, policy) ∷ by_backend)

-- The body of the loop over the entries.
unfoldable pub index_entry :
    List Text
    → RawRelayAuthzEntry
    → List (Text × BackendPolicy)
    → Result ConfigError (List (Text × BackendPolicy))
index_entry known_backend_ids entry by_backend =
    if not (contains known_backend_ids entry.backend_id)
    then err (unknown_backend entry.backend_id)
    else if is_empty entry.allowed_cns && is_empty entry.allowed_spkis
    then err (no_identity entry.backend_id)
    else and_then (insert_spkis entry.allowed_spkis entry.backend_id []) (λ spkis.
      insert_policy entry.backend_id (record { cns = entry.allowed_cns; spkis = spkis }) by_backend)

unfoldable pub index_entries :
    List Text
    → List RawRelayAuthzEntry
    → List (Text × BackendPolicy)
    → Result ConfigError (List (Text × BackendPolicy))
index_entries known_backend_ids [] by_backend = ok by_backend
index_entries known_backend_ids (entry ∷ entries) by_backend =
    and_then (index_entry known_backend_ids entry by_backend)
      (index_entries known_backend_ids entries)

unfoldable pub new : List RawRelayAuthzEntry → List Text → Result ConfigError RawRelayAuthz
new entries known_backend_ids =
    and_then (index_entries known_backend_ids entries [])
      (λ by_backend. ok (record { by_backend = by_backend }))

abbrev pub policy_admits : Option BackendPolicy → PeerIdentity → Bool
policy_admits none identity = false
policy_admits (some policy) identity =
    contains policy.cns identity.common_name || contains policy.spkis (spki_hex identity)

unfoldable pub is_allowed : RawRelayAuthz → Text → PeerIdentity → Bool
is_allowed authz backend_id identity = policy_admits (lookup backend_id authz.by_backend) identity

unfoldable pub len : RawRelayAuthz → ℕ
len authz = length authz.by_backend
