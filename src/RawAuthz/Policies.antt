-- ===== src/RawAuthz/Policies.antt =====
-- Whom an accepted list of policies admits (src/proxy/raw_authz.rs).
use reduction.Prelude.{
  ◌≡◌, refl, sym, ap, ◌∙◌, inl, inr, Bool, true, false, not, ◌&&◌, ◌||◌, List, [], ◌∷◌, map, arith,
  if◌then◌else◌, Bool-cases, Option-cases, is_some, any, Text, text_eq, text_eq→eq,
  to_ascii_lowercase,
}
use reduction.Prelude.Results.{Result, ok, err, and_then-ok, ok_inj, Result-cases}
use reduction.Tunnel.Revocation.{PeerIdentity, spki_hex, contains, insert}
use reduction.RawAuthz.{
  RawRelayAuthzEntry, BackendPolicy, RawRelayAuthz, lookup, lowered_bytes, normalize_spki_hex,
  insert_spkis, insert_policy, index_entry, index_entries, new, policy_admits, is_allowed, is_empty,
  unknown_backend, no_identity, duplicate,
}

-- An entry names a device: by its name, or by the hash of its key in either case.
abbrev pub names_device : PeerIdentity → RawRelayAuthzEntry → Bool
names_device identity entry =
    contains entry.allowed_cns identity.common_name
    || any (λ spki. text_eq (spki_hex identity) (map to_ascii_lowercase spki)) entry.allowed_spkis

-- A guard that refuses was not met where the result is there.
guard_false :
    {E A : Type 0} (b : Bool) (x : E) (r : Result E A) (z : A)
    → (if b then err x else r) ≡ ok z
    → (b ≡ false) × (r ≡ ok z)
guard_false true x r z e = cc
guard_false false x r z e = (refl, e)

lowered_bytes_lem :
    (hex id out : Text) → lowered_bytes hex id ≡ ok out → out ≡ map to_ascii_lowercase hex
unfolding lowered_bytes
lowered_bytes_lem [] id out e = cc
lowered_bytes_lem (b ∷ hex) id out e = elim (Result-cases (lowered_bytes hex id)) [
  | inl r ↦ ground (arith, r.1, lowered_bytes_lem hex id r.0 r.1)
  | inr r ↦ ground (arith, r.1)
]

normalize_lem :
    (hex id out : Text) → normalize_spki_hex hex id ≡ ok out → out ≡ map to_ascii_lowercase hex
unfolding normalize_spki_hex
normalize_lem hex id out e = ground (arith, lowered_bytes_lem hex id out)

contains-insert :
    (set : List Text) (t x : Text) → contains (insert set t) x ≡ (text_eq x t || contains set x)
unfolding insert
contains-insert set t x = elim (Bool-cases (contains set t)) [
  | inl h ↦ ground (arith, text_eq→eq x t, ap (λ y. contains set y))
  | inr h ↦ ground arith
]

insert_spkis_lem :
    (spkis : List Text) (id : Text) (set out : List Text) (x : Text)
    → insert_spkis spkis id set ≡ ok out
    → contains out x
      ≡ (any (λ spki. text_eq x (map to_ascii_lowercase spki)) spkis || contains set x)
unfolding insert_spkis
insert_spkis_lem [] id set out x e = cc
insert_spkis_lem (s ∷ spkis) id set out x e =
    let (key, e1, e2) =
      and_then-ok (normalize_spki_hex s id) (λ key. insert_spkis spkis id (insert set key)) out e in
    ground (
      arith,
      insert_spkis_lem spkis id (insert set key) out x e2,
      contains-insert set key x,
      normalize_lem s id key e1,
    )

lookup-none :
    (key id : Text) (m : List (Text × BackendPolicy)) (who : PeerIdentity)
    → is_some (lookup key m) ≡ false
    → text_eq key id ≡ true
    → policy_admits (lookup id m) who ≡ false
lookup-none key id m who f e =
    let same = text_eq→eq key id e in
    elim (Option-cases (lookup key m)) [
      | inl n ↦
          ap (λ k. policy_admits (lookup k m) who) (sym same) ∙ ap (λ o. policy_admits o who) n
      | inr n ↦ cc (f, n.1)
    ]

-- One entry adds its devices to those of its backend, and nothing else.
index_entry_lem :
    (known : List Text) (entry : RawRelayAuthzEntry) (m out : List (Text × BackendPolicy))
    → index_entry known entry m ≡ ok out
    → (id : Text) (who : PeerIdentity)
    → policy_admits (lookup id out) who
      ≡ ((text_eq entry.backend_id id && names_device who entry) || policy_admits (lookup id m) who)
unfolding index_entry insert_policy
index_entry_lem known entry m out e id who =
    let (k, e1) =
      guard_false (not (contains known entry.backend_id)) (unknown_backend entry.backend_id) _ out
        e in
    let (n, e2) =
      guard_false (is_empty entry.allowed_cns && is_empty entry.allowed_spkis)
        (no_identity entry.backend_id) _ out e1 in
    let (spkis, e3, e4) =
      and_then-ok (insert_spkis entry.allowed_spkis entry.backend_id [])
        (λ spkis.
          insert_policy entry.backend_id (record { cns = entry.allowed_cns; spkis = spkis }) m)
        out e2 in
    let (f, e5) =
      guard_false (is_some (lookup entry.backend_id m)) (duplicate entry.backend_id) _ out e4 in
    let added = ok_inj e5 in
    let absent = lookup-none entry.backend_id id m who f in
    let keys = insert_spkis_lem entry.allowed_spkis entry.backend_id [] spkis (spki_hex who) e3 in
    rw (sym added) ground (arith, absent, keys)

index_entries_lem :
    (known : List Text) (entries : List RawRelayAuthzEntry) (m out : List (Text × BackendPolicy))
    → index_entries known entries m ≡ ok out
    → (id : Text) (who : PeerIdentity)
    → policy_admits (lookup id out) who ≡ (
        any (λ entry. text_eq entry.backend_id id && names_device who entry) entries
        || policy_admits (lookup id m) who)
unfolding index_entries
index_entries_lem known [] m out e id who = cc
index_entries_lem known (entry ∷ entries) m out e id who =
    let (m', e1, e2) =
      and_then-ok (index_entry known entry m) (index_entries known entries) out e in
    ground (
      arith,
      index_entries_lem known entries m' out e2 id who,
      index_entry_lem known entry m m' e1 id who,
    )

-- With a list of policies that is accepted, a device may open a relay to a backend exactly when one of
-- the entries for this backend names it: by its name, or by the hash of its key in hexadecimal, in
-- either case. A backend that no entry is for is closed to every device.
pub is_allowed-new :
    (entries : List RawRelayAuthzEntry) (known_backend_ids : List Text) (authz : RawRelayAuthz)
    → new entries known_backend_ids ≡ ok authz
    → (backend_id : Text) (identity : PeerIdentity)
    → is_allowed authz backend_id identity
      ≡ any (λ entry. text_eq entry.backend_id backend_id && names_device identity entry) entries
unfolding new is_allowed
is_allowed-new entries known authz e id who =
    let (m, e1, e2) =
      and_then-ok (index_entries known entries []) (λ by. ok (record { by_backend = by })) authz
        e in
    rw (sym (ok_inj e2)) ground (arith, index_entries_lem known entries [] m e1 id who)
