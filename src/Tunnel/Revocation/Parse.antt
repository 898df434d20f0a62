-- ===== src/Tunnel/Revocation/Parse.antt =====
-- What the parser of revocation lists makes of the entries (src/tunnel/revocation.rs).
use reduction.Prelude.{
  ℕ, ◌+◌, ◌≡◌, refl, sym, ap, ◌∙◌, inl, inr, Bool, false, ◌&&◌, ◌||◌, Option, none, some, List, [],
  ◌∷◌, arith, ltb, ◌==◌, Bool-cases, is_none, length, any, Text, text_eq, text_eq→eq,
}
use reduction.Prelude.Results.{Result, ok, err, ok_inj, and_then-ok}
use reduction.Tunnel.Revocation.{
  max_backend_id_len, PeerIdentity, RevocationEntry, RevocationSet, ConfigError, contains, insert,
  is_revoked, hex_nibble, decode_pairs, decode_spki_hex, insert_spki, insert_id, add_entry,
  add_entries, parse,
}

contains-insert :
    (set : List Text) (t u : Text) → contains (insert set t) u ≡ (text_eq u t || contains set u)
unfolding insert
contains-insert set t u = elim (Bool-cases (contains set t)) [
  | inr new_ ↦ rw new_ refl
  | inl old ↦ elim (Bool-cases (text_eq u t)) [
    | inr other ↦ rw (old, other) refl
    | inl same ↦ rw (old, same) (ap (contains set) (text_eq→eq u t same) ∙ old)
  ]
]

nibble_index : (b i j v : ℕ) → hex_nibble b i ≡ ok v → hex_nibble b j ≡ ok v
unfolding hex_nibble
nibble_index b i j v e = ground (arith, e)

-- The position of an entry appears in its errors only.
pairs_index : (s : Text) (i j : ℕ) (o : Text) → decode_pairs s i ≡ ok o → decode_pairs s j ≡ ok o
unfolding decode_pairs
pairs_index [] i j o e = ap ok (ok_inj e)
pairs_index (h ∷ []) i j o e = ap ok (ok_inj e)
pairs_index (h ∷ l ∷ s) i j o e =
    let (hi, e1, r1) = and_then-ok (hex_nibble h i) _ o e in
    let (lo, e2, r2) = and_then-ok (hex_nibble l i) _ o r1 in
    let (rest, e3, r3) = and_then-ok (decode_pairs s i) _ o r2 in
    rw (nibble_index h i j hi e1, nibble_index l i j lo e2, pairs_index s i j rest e3)
      (ap ok (ok_inj r3))

decode_index :
    (s : Text) (i j : ℕ) (o : Text) → decode_spki_hex s i ≡ ok o → decode_spki_hex s j ≡ ok o
unfolding decode_spki_hex
decode_index s i j o e = elim (Bool-cases (length s == 64)) [
  | inl right ↦ rw right (pairs_index s i j o (rw right at e))
  | inr wrong ↦ absurd (cc (rw wrong at e))
]

-- Whether one entry names an identity: its key, in any spelling that decodes to it, or its name.
abbrev pub is_key : Result ConfigError Text → Text → Bool
is_key (ok key) k = text_eq k key
is_key (err e) k = false

abbrev pub names_key : Option Text → Text → Bool
names_key none k = false
names_key (some hex) k = is_key (decode_spki_hex hex 0) k

abbrev pub names_id : Option Text → Text → Bool
names_id none n = false
names_id (some id) n = text_eq n id

abbrev pub names : RevocationEntry → PeerIdentity → Bool
names entry identity =
    names_key entry.spki identity.spki_sha256 || names_id entry.backend_id identity.common_name

insert_spki-ok :
    (spki : Option Text) (index : ℕ) (set set' : List Text) (k : Text)
    → insert_spki spki index set ≡ ok set'
    → contains set' k ≡ (names_key spki k || contains set k)
unfolding insert_spki
insert_spki-ok none index set set' k e = ap (λ s. contains s k) (sym (ok_inj e))
insert_spki-ok (some hex) index set set' k e =
    let (key, decoded, inserted) = and_then-ok (decode_spki_hex hex index) _ set' e in
    rw (decode_index hex index 0 key decoded)
      (ap (λ s. contains s k) (sym (ok_inj inserted)) ∙ contains-insert set key k)

insert_id-ok :
    (id : Option Text) (index : ℕ) (set set' : List Text) (n : Text)
    → insert_id id index set ≡ ok set'
    → contains set' n ≡ (names_id id n || contains set n)
unfolding insert_id
insert_id-ok none index set set' n e = ap (λ s. contains s n) (sym (ok_inj e))
insert_id-ok (some id) index set set' n e = elim (Bool-cases (ltb max_backend_id_len (length id))) [
  | inl long ↦ absurd (cc (rw long at e))
  | inr short ↦ ap (λ s. contains s n) (sym (ok_inj (rw short at e))) ∙ contains-insert set id n
]

add_entry-ok :
    (index : ℕ) (entry : RevocationEntry) (set set' : RevocationSet) (identity : PeerIdentity)
    → add_entry index entry set ≡ ok set'
    → is_revoked set' identity ≡ (names entry identity || is_revoked set identity)
unfolding add_entry is_revoked
add_entry-ok index entry set set' identity e =
    elim (Bool-cases (is_none entry.spki && is_none entry.backend_id)) [
      | inl neither ↦ absurd (cc (rw neither at e))
      | inr either ↦
          let (keys, e1, r1) =
            and_then-ok (insert_spki entry.spki index set.spki) _ set' (rw either at e) in
          let (ids, e2, r2) =
            and_then-ok (insert_id entry.backend_id index set.backend_ids) _ set' r1 in
          let made = ok_inj r2 in
          ap
            (λ s.
              contains s.spki identity.spki_sha256 || contains s.backend_ids identity.common_name)
            (sym made)
          ∙ ground (
            arith,
            insert_spki-ok entry.spki index set.spki keys identity.spki_sha256 e1,
            insert_id-ok entry.backend_id index set.backend_ids ids identity.common_name e2,
          )
    ]

add_entries-ok :
    (index : ℕ) (entries : List RevocationEntry) (set set' : RevocationSet)
    (identity : PeerIdentity)
    → add_entries index entries set ≡ ok set'
    → is_revoked set' identity ≡ (any (λ e. names e identity) entries || is_revoked set identity)
unfolding add_entries
add_entries-ok index [] set set' identity e = ap (λ s. is_revoked s identity) (sym (ok_inj e))
add_entries-ok index (entry ∷ entries) set set' identity e =
    let (mid, e1, r1) = and_then-ok (add_entry index entry set) _ set' e in
    ground (
      arith,
      add_entry-ok index entry set mid identity e1,
      add_entries-ok (index + 1) entries mid set' identity r1,
    )

-- A list that is accepted revokes an identity exactly when one of its entries names it: by its name,
-- or by a key in hexadecimal that decodes to the key of the identity.
pub is_revoked-parse :
    (revoked : List RevocationEntry) (set : RevocationSet) (identity : PeerIdentity)
    → parse revoked ≡ ok set
    → is_revoked set identity ≡ any (λ entry. names entry identity) revoked
unfolding parse is_revoked
is_revoked-parse revoked set identity e =
    ground (arith, add_entries-ok 0 revoked (record { spki = []; backend_ids = [] }) set identity e)
