-- ===== src/Handler/Headers.antt =====
-- The headers that are rewritten on the way to a backend (src/proxy/handler/headers.rs). A function that
-- takes `&mut HeaderMap` gives the map it leaves, with its error when it has one; `from_str` is
-- `HeaderValue::from_str`, `to_str` is `HeaderValue::to_str` and `from_bytes` is `HeaderName::from_bytes`.
pub mod Stripped
use reduction.Prelude.{
  ℕ, zero, suc, ◌+◌, ◌-◌, ◌*◌, ◌/◌, ◌%◌, ◌^◌, ◌≤◌, ◌<◌, min, max, ◌≡◌, refl, sym, ap, ap₂, ◌∙◌,
  subst, fun_ext, ◌≢◌, ◌↔◌, ◌⊎◌, inl, inr, ite, if_pos, if_neg, Bool, true, false, not, ◌&&◌, ◌||◌,
  Option, none, some, List, [], ◌∷◌, ◌++◌, map, append-nil, append_assoc, arith, ltb, leb, ◌==◌,
  if◌then◌else◌, tests, Bool-cases, Option-cases, is_some, is_none, unwrap_or, length, get_elem?,
  take, drop, any, all, retain, length-append, All, All-append, take-length_append,
  drop-length_append, Text, codes, text_eq, text_eq→eq, text_eq_refl, text_eq_iff, text_dec,
  starts_with, ends_with, eq_ignore_ascii_case, to_ascii_lowercase, dec_lt, dec_le, ℕ_discrete,
  length-retain-le, length-drop, All-retain, retain-All,
}
use reduction.Prelude.Parsing.{split_on, trim}
use reduction.Http.{HeaderOps}
use reduction.Tunnel.Revocation.{PeerIdentity, spki_hex}

abbrev pub header_client_id : Text
header_client_id = codes "x-reduction-client-id"

abbrev pub header_client_spki : Text
header_client_spki = codes "x-reduction-client-spki"

abbrev pub header_x_forwarded_for : Text
header_x_forwarded_for = codes "x-forwarded-for"

abbrev pub header_x_real_ip : Text
header_x_real_ip = codes "x-real-ip"

abbrev pub hop_by_hop_headers : List Text
hop_by_hop_headers =
    codes "connection"
    ∷ codes "keep-alive"
    ∷ codes "proxy-authenticate"
    ∷ codes "proxy-authorization"
    ∷ codes "proxy-connection"
    ∷ codes "te"
    ∷ codes "trailer"
    ∷ codes "transfer-encoding"
    ∷ codes "upgrade"
    ∷ codes "http2-settings"
    ∷ []

pub data ForwardError : Type 0 where
  invalid_client_id invalid_client_spki invalid_client_ip : ForwardError

abbrev pub filter_map : {A B : Type 0} → (A → Option B) → List A → List B
filter_map f [] = []
filter_map f (x ∷ xs) = elim (f x) [ none ↦ filter_map f xs | some y ↦ y ∷ filter_map f xs ]

abbrev pub flat_map : {A B : Type 0} → (A → List B) → List A → List B
flat_map f [] = []
flat_map f (x ∷ xs) = f x ++ flat_map f xs

module _ (h : HeaderOps) where
  -- The loops of `remove`.
  abbrev pub remove_all : List Text → h.HeaderMap → h.HeaderMap
  remove_all [] headers = headers
  remove_all (name ∷ names) headers = remove_all names (h.remove name headers)

  -- The header values of the name and of the key, inserted.
  unfoldable pub insert_identity :
      h.HeaderMap → (cn spki : Option Text) → h.HeaderMap × Option ForwardError
  insert_identity headers none spki = (headers, some invalid_client_id)
  insert_identity headers (some cn) none = (headers, some invalid_client_spki)
  insert_identity headers (some cn) (some spki) =
      (h.insert header_client_spki spki (h.insert header_client_id cn headers), none)

  module _ (from_str : Text → Option Text) where
    unfoldable pub apply_identity_headers :
        h.HeaderMap → Option PeerIdentity → h.HeaderMap × Option ForwardError
    apply_identity_headers headers identity =
        let stripped = h.remove header_client_spki (h.remove header_client_id headers) in
        elim identity [
          | none ↦ (stripped, none)
          | some who ↦ insert_identity stripped (from_str who.common_name) (from_str (spki_hex who))
        ]

    -- `client_ip` is what `to_string` prints of the address.
    unfoldable pub apply_forwarded_headers : h.HeaderMap → Text → h.HeaderMap × Option ForwardError
    apply_forwarded_headers headers client_ip =
        let stripped =
          remove_all
            (header_x_forwarded_for
              ∷ codes "x-forwarded-proto"
              ∷ codes "x-forwarded-host"
              ∷ codes "forwarded"
              ∷ header_x_real_ip
              ∷ [])
            headers in
        elim (from_str client_ip) [
          | none ↦ (stripped, some invalid_client_ip)
          | some ip ↦
              (h.insert header_x_real_ip ip (h.insert header_x_forwarded_for ip stripped), none)
        ]

  module _ (to_str from_bytes : Text → Option Text) where
    unfoldable pub connection_nominated : h.HeaderMap → List Text
    connection_nominated headers =
        filter_map (λ name. from_bytes (trim name))
          (flat_map (split_on b',') (filter_map to_str (h.get_all (codes "connection") headers)))

    unfoldable pub strip_hop_by_hop_headers : h.HeaderMap → h.HeaderMap
    strip_hop_by_hop_headers headers =
        remove_all (connection_nominated headers) (remove_all hop_by_hop_headers headers)
