-- ===== src/Tunnel/Protocol/Frames.antt =====
-- A frame's bytes and their reading in a buffer (`encode`, `decode` of src/tunnel/protocol.rs).
use reduction.Prelude.{
  ℕ, ◌+◌, ◌^◌, ◌≤◌, ◌<◌, ◌≡◌, refl, ◌∙◌, subst, inl, inr, ◌++◌, arith, length, length-append,
  take-length_append, Text,
}
use reduction.Prelude.Results.{ok, Result-cases, ok_inj}
use reduction.Tunnel.Protocol.{
  TunnelFrame, Codec, to_be_bytes, from_be_bytes, payload_of, encode, decode, safe_decode,
  max_frame_size,
}

-- Four bytes hold every length that a frame may have.
pub bytes_of_len : (n : ℕ) → n < 2 ^ 32 → from_be_bytes (to_be_bytes n) ≡ n
bytes_of_len n h = omega arith

module _ (b : Codec) where
  pub payload-ok :
      (f : TunnelFrame) (payload : Text)
      → payload_of b f ≡ ok payload
      → (payload ≡ b.bitcode_encode f) × (length payload ≤ max_frame_size)
  unfolding payload_of
  payload-ok f payload e = ground (arith, e)

  pub safe_decode-payload :
      (f : TunnelFrame) (payload : Text)
      → payload_of b f ≡ ok payload
      → safe_decode b payload ≡ ok f
  unfolding safe_decode
  safe_decode-payload f payload e =
      let (same, _) = payload-ok f payload e in rw (same, safe_decode, b.decode-encode f) refl

  decode_framed :
      (payload rest : Text)
      → length payload ≤ max_frame_size
      → decode b (to_be_bytes (length payload) ++ (payload ++ rest)) ≡ safe_decode b payload
  unfolding decode
  decode_framed payload rest h =
      let n = bytes_of_len (length payload) (omega (arith, h)) in
      let total = length-append payload rest in
      let whole = take-length_append payload rest in rw (n, whole) (ground (arith, total, h))

  -- What `encode` returns is at most 4 + 65536 bytes, and `decode` reads the frame back from it,
  -- whatever follows it in the buffer.
  decode-encode :
      (f : TunnelFrame) (buf rest : Text)
      → encode b f ≡ ok buf
      → (length buf ≤ 4 + max_frame_size) × (decode b (buf ++ rest) ≡ ok f)
  unfolding encode decode
  decode-encode f buf rest e = elim (Result-cases (payload_of b f)) [
    | inr (bad, no_) ↦ cc (rw no_ at e)
    | inl (payload, made) ↦
        let (same, small) = payload-ok f payload made in
        let made_buf = ok_inj (rw (made) at e) in
        subst (λ x. (length x ≤ 4 + max_frame_size) × (decode b (x ++ rest) ≡ ok f)) made_buf
          (
            omega (arith, small),
            decode_framed payload rest small ∙ safe_decode-payload f payload made,
          )
  ]
