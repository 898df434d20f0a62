-- ===== src/Handler/Headers/Stripped.antt =====
-- What is left of a client's headers on the way to a backend (src/proxy/handler/headers.rs).
use reduction.Prelude.{
  ◌≡◌, sym, ap, ◌∙◌, inl, inr, ite, if_pos, if_neg, Option, none, some, List, [], ◌∷◌,
  if◌then◌else◌, Bool-cases, Text, text_eq, text_eq→eq, text_eq_iff, text_dec,
}
use reduction.Http.{HeaderOps}
use reduction.Tunnel.Revocation.{PeerIdentity, spki_hex}
use reduction.Handler.Headers.{
  insert_identity, apply_identity_headers, header_client_id, header_client_spki, ForwardError,
  invalid_client_id, invalid_client_spki,
}

text_dec-ite :
    {A : Type 0} (j k : Text) (x y : A) → ite (text_dec k j) x y ≡ (if text_eq j k then x else y)
text_dec-ite j k x y = elim (Bool-cases (text_eq j k)) [
  | inl e ↦
      if_pos (text_dec k j) (sym (text_eq→eq j k e)) x y ∙ sym (ap (λ b. if b then x else y) e)
  | inr e ↦
      if_neg (text_dec k j) (λ p. cc (e, (text_eq_iff j k).1 (sym p))) x y
      ∙ sym (ap (λ b. if b then x else y) e)
]

abbrev values_of : Option Text → Option Text → List Text × List Text × Option ForwardError
values_of none spki = ([], [], some invalid_client_id)
values_of (some cn) none = ([], [], some invalid_client_spki)
values_of (some cn) (some spki) = (cn ∷ [], spki ∷ [], none)

-- What the handshake proved of a client, as the values of the two headers and the error.
abbrev pub proven :
    (Text → Option Text) → Option PeerIdentity → List Text × List Text × Option ForwardError
proven from_str none = ([], [], none)
proven from_str (some who) = values_of (from_str who.common_name) (from_str (spki_hex who))

module _ (h : HeaderOps) where
  pub get_all-remove_test :
      (j k : Text) (m : h.HeaderMap)
      → h.get_all j (h.remove k m) ≡ (if text_eq j k then [] else h.get_all j m)
  get_all-remove_test j k m = h.get_all-remove j k m ∙ text_dec-ite j k [] (h.get_all j m)

  pub get_all-insert_test :
      (j k v : Text) (m : h.HeaderMap)
      → h.get_all j (h.insert k v m) ≡ (if text_eq j k then v ∷ [] else h.get_all j m)
  get_all-insert_test j k v m = h.get_all-insert j k v m ∙ text_dec-ite j k (v ∷ []) (h.get_all j m)

  stripped_id :
      (m : h.HeaderMap)
      → h.get_all header_client_id (h.remove header_client_spki (h.remove header_client_id m)) ≡ []
  stripped_id m =
      get_all-remove_test header_client_id header_client_spki (h.remove header_client_id m)
      ∙ get_all-remove_test header_client_id header_client_id m

  stripped_spki :
      (m : h.HeaderMap)
      → h.get_all header_client_spki (h.remove header_client_spki (h.remove header_client_id m))
        ≡ []
  stripped_spki m =
      get_all-remove_test header_client_spki header_client_spki (h.remove header_client_id m)

  -- The values of an inserted header do not depend on the map.
  inserted_id :
      (cn spki : Text) (m : h.HeaderMap)
      → h.get_all header_client_id
          (h.insert header_client_spki spki (h.insert header_client_id cn m))
        ≡ cn ∷ []
  inserted_id cn spki m =
      get_all-insert_test header_client_id header_client_spki spki (h.insert header_client_id cn m)
      ∙ get_all-insert_test header_client_id header_client_id cn m

  inserted_spki :
      (spki : Text) (m : h.HeaderMap)
      → h.get_all header_client_spki (h.insert header_client_spki spki m) ≡ spki ∷ []
  inserted_spki spki m = get_all-insert_test header_client_spki header_client_spki spki m

  insert_identity_lem :
      (m : h.HeaderMap) (cn spki : Option Text)
      → let r =
          insert_identity h (h.remove header_client_spki (h.remove header_client_id m)) cn spki in
        (h.get_all header_client_id r.0, h.get_all header_client_spki r.0, r.1) ≡ values_of cn spki
  unfolding insert_identity
  insert_identity_lem m none spki = cc (stripped_id m, stripped_spki m)
  insert_identity_lem m (some cn) none = cc (stripped_id m, stripped_spki m)
  insert_identity_lem m (some cn) (some spki) =
      let kept = h.remove header_client_spki (h.remove header_client_id m) in
      cc (inserted_id cn spki kept, inserted_spki spki (h.insert header_client_id cn kept))

  -- The values that a backend finds under the two identity headers, for a client whose headers were
  -- `m`: with no identity there are none; with an identity whose name and key make header values there
  -- is exactly one of each, and it is that name or that key; and when one of them makes none, the call
  -- fails with its error and there are none.
  pub get_all-apply_identity :
      (from_str : Text → Option Text) (identity : Option PeerIdentity) (m : h.HeaderMap)
      → let r = apply_identity_headers h from_str m identity in
        (h.get_all header_client_id r.0, h.get_all header_client_spki r.0, r.1)
        ≡ proven from_str identity
  unfolding apply_identity_headers
  get_all-apply_identity from_str none m = cc (stripped_id m, stripped_spki m)
  get_all-apply_identity from_str (some who) m =
      insert_identity_lem m (from_str who.common_name) (from_str (spki_hex who))
