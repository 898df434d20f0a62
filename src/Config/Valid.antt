-- ===== src/Config/Valid.antt =====
-- Which listeners of the ingress and which backends a configuration may have (`validate_ingress`,
-- `validate_ingress_caps`, `validate_backend_schemes` and `validate_client_identity` of
-- src/config/types.rs).
use reduction.Prelude.{
  ◌≤◌, ◌≡◌, refl, ◌⊎◌, inl, inr, ◌↔◌, Bool, true, false, not, ◌&&◌, Bool-cases, List, [], ◌∷◌, any,
  All, arith, Text,
}
use reduction.Prelude.Results.{Result, ok}
use reduction.Balancer.{F64}
use reduction.Ingress.{SocketAddr, max_envelope_frame}
use reduction.Config.{
  ConfigError, IngressConfig, contains, is_empty, same_addr, is_private_listen_addr,
  max_udp_datagram_bytes, validate_ingress_caps, check_backend_ids, check_ingress,
}

module _ (f : F64) where
  -- Caps that are not zero, with a datagram in a batch and a batch in a frame.
  abbrev pub Capped : IngressConfig → Type 0
  Capped i =
      (1 ≤ i.max_datagram_bytes)
      × (i.max_datagram_bytes ≤ max_udp_datagram_bytes)
      × (i.max_datagram_bytes ≤ i.batch_max_bytes)
      × (i.batch_max_bytes ≤ max_envelope_frame)
      × (1 ≤ i.batch_max_datagrams)
      × (1 ≤ i.queue_depth_per_backend)
      × (1 ≤ i.recv_buffer_bytes)

  validate_ingress_caps-Capped :
      (i : IngressConfig) (rest : Result ConfigError Unit)
      → validate_ingress_caps f i rest ≡ ok tt
      → Capped i × (rest ≡ ok tt)
  unfolding validate_ingress_caps
  validate_ingress_caps-Capped i rest h = ground arith

  Capped-validate_ingress_caps :
      (i : IngressConfig) (rest : Result ConfigError Unit)
      → Capped i
      → rest ≡ ok tt
      → validate_ingress_caps f i rest ≡ ok tt
  unfolding validate_ingress_caps
  Capped-validate_ingress_caps i rest h k = ground arith

  check_backend_ids-All :
      (id : Text) (quic_ids ids : List Text) (rest : Result ConfigError Unit)
      → check_backend_ids f id quic_ids ids rest ≡ ok tt
      → All (λ b. contains quic_ids b ≡ true) ids × (rest ≡ ok tt)
  unfolding check_backend_ids
  check_backend_ids-All id quic_ids [] rest h = (tt, h)
  check_backend_ids-All id quic_ids (b ∷ ids) rest h =
      ground (arith, check_backend_ids-All id quic_ids ids rest)

  All-check_backend_ids :
      (id : Text) (quic_ids ids : List Text) (rest : Result ConfigError Unit)
      → All (λ b. contains quic_ids b ≡ true) ids
      → rest ≡ ok tt
      → check_backend_ids f id quic_ids ids rest ≡ ok tt
  unfolding check_backend_ids
  All-check_backend_ids id quic_ids [] rest h k = k
  All-check_backend_ids id quic_ids (b ∷ ids) rest h k =
      ground (arith, h.0, All-check_backend_ids id quic_ids ids rest h.1 k)

  module _ (has_allow_list : Bool) (quic_ids : List Text) where
    -- A listener fans out to QUIC backends, one at least, within its caps, and one that is not at a
    -- private address has a list of those it lets in.
    abbrev pub Listens : IngressConfig → Type 0
    Listens i =
        (is_empty i.backend_ids ≡ false)
        × All (λ b. contains quic_ids b ≡ true) i.backend_ids
        × Capped i
        × ((is_private_listen_addr i.listen.ip ≡ true) ⊎ (has_allow_list ≡ true))

    -- Listeners that may stand together, beside those at the addresses seen.
    abbrev pub ListensAll : List SocketAddr → List IngressConfig → Type 0
    ListensAll seen [] = Unit
    ListensAll seen (i ∷ ingress) =
        Listens i × (any (same_addr i.listen) seen ≡ false) × ListensAll (i.listen ∷ seen) ingress

    allowed :
        (p : Bool) → (not p && not has_allow_list) ≡ false → (p ≡ true) ⊎ (has_allow_list ≡ true)
    allowed p h = ground arith

    allowed_back :
        (p : Bool) → (p ≡ true) ⊎ (has_allow_list ≡ true) → (not p && not has_allow_list) ≡ false
    allowed_back p h = ground arith

    check_ingress-ListensAll :
        (seen : List SocketAddr) (ingress : List IngressConfig)
        → check_ingress f has_allow_list quic_ids seen ingress ≡ ok tt
        → ListensAll seen ingress
    unfolding check_ingress
    check_ingress-ListensAll seen [] h = tt
    check_ingress-ListensAll seen (i ∷ ingress) h = elim (Bool-cases (is_empty i.backend_ids)) [
      | inl nothing ↦ cc (rw nothing at h)
      | inr something ↦
          let (quic, h1) =
            check_backend_ids-All i.id quic_ids i.backend_ids _ (rw something at h) in
          let (caps, h2) = validate_ingress_caps-Capped i _ h1 in
          elim (Bool-cases (any (same_addr i.listen) seen)) [
            | inl twice ↦ cc (rw twice at h2)
            | inr once ↦
                elim (Bool-cases (not (is_private_listen_addr i.listen.ip) && not has_allow_list)) [
                  | inl exposed ↦ cc (rw (once, exposed) at h2)
                  | inr gated ↦ (
                    (something, quic, caps, allowed (is_private_listen_addr i.listen.ip) gated),
                    once,
                    check_ingress-ListensAll (i.listen ∷ seen) ingress (rw (once, gated) at h2),
                  )
                ]
          ]
    ]

    ListensAll-check_ingress :
        (seen : List SocketAddr) (ingress : List IngressConfig)
        → ListensAll seen ingress
        → check_ingress f has_allow_list quic_ids seen ingress ≡ ok tt
    unfolding check_ingress
    ListensAll-check_ingress seen [] h = refl
    ListensAll-check_ingress seen (i ∷ ingress) ((something, quic, caps, gate), once, others) =
        rw something (
          All-check_backend_ids i.id quic_ids i.backend_ids _ quic (
            Capped-validate_ingress_caps i _ caps (
              rw (once, allowed_back (is_private_listen_addr i.listen.ip) gate)
                (ListensAll-check_ingress (i.listen ∷ seen) ingress others))))

  -- The listeners of the ingress pass the checks exactly when each fans out to QUIC backends, one at
  -- least, has no cap that is zero, at most 65507 bytes in a datagram, room for a datagram in a batch and
  -- at most 65536 bytes in a batch, and stands at a private address or behind a list of those it lets
  -- in, and when no two stand at one address.
  pub check_ingress_iff :
      (has_allow_list : Bool) (quic_ids : List Text) (ingress : List IngressConfig)
      → (check_ingress f has_allow_list quic_ids [] ingress ≡ ok tt)
        ↔ ListensAll has_allow_list quic_ids [] ingress
  check_ingress_iff has_allow_list quic_ids ingress = (
    check_ingress-ListensAll has_allow_list quic_ids [] ingress,
    ListensAll-check_ingress has_allow_list quic_ids [] ingress,
  )
