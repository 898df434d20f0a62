-- ===== src/Tunnel/Protocol/Agreement.antt =====
-- The two readers of frames, from a buffer and from a stream, agree (`decode` and `read_frame` of
-- src/tunnel/protocol.rs).
use reduction.Prelude.{
  length-drop, ◌+◌, ◌<◌, ◌≡◌, refl, inl, inr, Option, none, some, arith, ltb, Bool-cases, length,
  take, drop, Text,
}
use reduction.Prelude.Results.{Result, ok, err, and_then, Result-cases}
use reduction.Tunnel.Protocol.{
  TunnelFrame, TunnelError, Codec, AsyncRead, from_be_bytes, decode, safe_decode, max_frame_size,
  read_frame,
}

abbrev pub accepted : {A : Type 0} → Result TunnelError A → Option A
accepted (ok a) = some a
accepted (err e) = none

abbrev pub accepted_frame : {A : Type 0} → Result TunnelError (TunnelFrame × A) → Option TunnelFrame
accepted_frame (ok (f, s)) = some f
accepted_frame (err e) = none

module _ (b : Codec) (r : AsyncRead) where
  accepted-safe_decode :
      (p : Text) (s : r.Stream)
      → accepted_frame (and_then (safe_decode b p) (λ f. ok (f, s))) ≡ accepted (safe_decode b p)
  accepted-safe_decode p s = elim (Result-cases (safe_decode b p)) [
    | inl (f, e) ↦ rw e refl
    | inr (x, e) ↦ rw e refl
  ]

  -- Whatever the bytes are, a stream that carries them yields a frame exactly when a buffer of them
  -- does, and then the same frame.
  pub read_frame-decode :
      (s : r.Stream) → accepted_frame (read_frame b r s) ≡ accepted (decode b (r.bytes s))
  unfolding read_frame decode
  read_frame-decode s = elim (Bool-cases (ltb (length (r.bytes s)) 4)) [
    | inl short ↦
        rw (r.read_exact_short 4 s (ground (arith, short)), read_frame, decode, short) refl
    | inr long ↦
        let (s1, first, left1) = r.read_exact_full 4 s (ground (arith, long)) in
        let size = length-drop 4 (r.bytes s) in
        let len = from_be_bytes (take 4 (r.bytes s)) in
        elim (Bool-cases (ltb max_frame_size len)) [
          | inl large ↦ rw (first, read_frame, large, decode, long) (ground (arith, large))
          | inr fits ↦ elim (Bool-cases (ltb (length (r.bytes s)) (4 + len))) [
            | inl cut ↦
                let short2 : length (r.bytes s1) < len =
                  rw left1 (ground (arith, size, cut, long)) in
                rw (first, read_frame, fits, r.read_exact_short len s1 short2, decode, long, cut)
                  refl
            | inr whole ↦
                let (s2, second, left2) =
                  r.read_exact_full len s1 (rw left1 (ground (arith, size, whole, long))) in
                rw (first, read_frame, fits, second, decode, long, whole, left1)
                  (accepted-safe_decode (take len (drop 4 (r.bytes s))) s2)
          ]
        ]
  ]
