-- ===== src/Tunnel/Revocation.antt =====
-- The revocation list (src/tunnel/revocation.rs) and the identities it is asked about (`PeerIdentity`
-- of src/tls/identity.rs). A `HashSet` is the list of its elements, and the entries are what the TOML
-- parser made of the file.
pub mod Hex
pub mod Parse
use reduction.Prelude.{
  ℕ, zero, suc, ◌+◌, ◌-◌, ◌*◌, ◌/◌, ◌%◌, ◌^◌, ◌≤◌, ◌<◌, min, max, ◌≡◌, refl, sym, ap, ap₂, ◌∙◌,
  subst, fun_ext, ◌≢◌, ◌↔◌, ◌⊎◌, inl, inr, ite, if_pos, if_neg, Bool, true, false, not, ◌&&◌, ◌||◌,
  Option, none, some, List, [], ◌∷◌, ◌++◌, map, append-nil, append_assoc, arith, ltb, leb, ◌==◌,
  if◌then◌else◌, tests, Bool-cases, Option-cases, is_some, is_none, unwrap_or, length, get_elem?,
  take, drop, any, all, retain, length-append, All, All-append, take-length_append,
  drop-length_append, Text, codes, text_eq, text_eq→eq, text_eq_refl, text_eq_iff, text_dec,
  starts_with, ends_with, eq_ignore_ascii_case, to_ascii_lowercase, dec_lt, dec_le, ℕ_discrete,
  length-retain-le,
}
use reduction.Prelude.Results.{Result, ok, err, and_then}

abbrev pub spki_sha256_len : ℕ
spki_sha256_len = 32

abbrev pub max_backend_id_len : ℕ
max_backend_id_len = 256

abbrev pub spki_hex_len : ℕ
spki_hex_len = spki_sha256_len * 2

pub record PeerIdentity : Type 0 where
  pub common_name : Text
  pub spki_sha256 : Text

abbrev pub hex_alphabet : Text
hex_alphabet = codes "0123456789abcdef"

-- `HEX_ALPHABET[i]`; the two indices of a byte are below 16.
abbrev pub hex_digit : ℕ → ℕ
hex_digit i = unwrap_or (get_elem? hex_alphabet i) 0

unfoldable pub hex_of : Text → Text
hex_of [] = []
hex_of (byte ∷ bytes) = hex_digit (byte / 16) ∷ hex_digit (byte % 16) ∷ hex_of bytes

unfoldable pub spki_hex : PeerIdentity → Text
spki_hex identity = hex_of identity.spki_sha256

pub record RevocationEntry : Type 0 where
  pub spki : Option Text
  pub backend_id : Option Text
  pub reason : Text

pub record RevocationSet : Type 0 where
  pub spki : List Text
  pub backend_ids : List Text

pub data ConfigError : Type 0 where
  names_neither id_too_long : ℕ → ConfigError
  bad_length bad_byte : ℕ → ℕ → ConfigError

-- `HashSet::contains` and `HashSet::insert`.
abbrev pub contains : List Text → Text → Bool
contains set t = any (text_eq t) set

unfoldable pub insert : List Text → Text → List Text
insert set t = if contains set t then set else t ∷ set

unfoldable pub is_revoked : RevocationSet → PeerIdentity → Bool
is_revoked set identity =
    contains set.spki identity.spki_sha256 || contains set.backend_ids identity.common_name

unfoldable pub hex_nibble : ℕ → ℕ → Result ConfigError ℕ
hex_nibble byte index =
    if leb b'0' byte && leb byte b'9'
    then ok (byte - b'0')
    else if leb b'a' byte && leb byte b'f'
    then ok (byte - b'a' + 10)
    else if leb b'A' byte && leb byte b'F'
    then ok (byte - b'A' + 10)
    else err (bad_byte index byte)

-- The loop over the bytes of `out`. Its text has an even length, so the second clause is never met.
unfoldable pub decode_pairs : Text → ℕ → Result ConfigError Text
decode_pairs [] index = ok []
decode_pairs (hi ∷ []) index = ok []
decode_pairs (hi ∷ lo ∷ rest) index =
    let decoded = decode_pairs rest index in
    and_then (hex_nibble hi index)
      (λ h. and_then (hex_nibble lo index) (λ l. and_then decoded (λ out. ok ((h * 16 + l) ∷ out))))

unfoldable pub decode_spki_hex : Text → ℕ → Result ConfigError Text
decode_spki_hex hex index =
    if length hex == spki_hex_len
    then decode_pairs hex index
    else err (bad_length index (length hex))

-- `spki.insert(decode_spki_hex(hex, index)?)`, where there is a hash.
unfoldable pub insert_spki : Option Text → ℕ → List Text → Result ConfigError (List Text)
insert_spki none index set = ok set
insert_spki (some hex) index set = and_then (decode_spki_hex hex index) (λ key. ok (insert set key))

-- `backend_ids.insert(parsed)`, where there is an id; an `ArrayString` holds its capacity at most.
unfoldable pub insert_id : Option Text → ℕ → List Text → Result ConfigError (List Text)
insert_id none index set = ok set
insert_id (some id) index set =
    if ltb max_backend_id_len (length id) then err (id_too_long index) else ok (insert set id)

-- The body of the loop over the entries.
unfoldable pub add_entry : ℕ → RevocationEntry → RevocationSet → Result ConfigError RevocationSet
add_entry index entry set =
    if is_none entry.spki && is_none entry.backend_id
    then err (names_neither index)
    else and_then (insert_spki entry.spki index set.spki) (λ spki.
      and_then (insert_id entry.backend_id index set.backend_ids)
        (λ backend_ids. ok (record { spki = spki; backend_ids = backend_ids })))

unfoldable pub add_entries :
    ℕ → List RevocationEntry → RevocationSet → Result ConfigError RevocationSet
add_entries index [] set = ok set
add_entries index (entry ∷ entries) set =
    and_then (add_entry index entry set) (λ set'. add_entries (index + 1) entries set')

unfoldable pub parse : List RevocationEntry → Result ConfigError RevocationSet
parse revoked = add_entries 0 revoked (record { spki = []; backend_ids = [] })
