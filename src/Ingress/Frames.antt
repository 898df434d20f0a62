-- ===== src/Ingress/Frames.antt =====
-- The envelopes over a stream and in a buffer (src/ingress/protocol.rs).
use reduction.Prelude.{
  ◌+◌, ◌≤◌, ◌<◌, ◌≡◌, refl, ap, ◌∙◌, inl, inr, false, Option, none, some, [], ◌++◌, arith, ltb,
  Bool-cases, length, take, drop, Text, length-drop,
}
use reduction.Prelude.Results.{Result, ok, err, and_then, Result-cases, and_then-ok}
use reduction.Tunnel.Protocol.{AsyncWrite, AsyncRead, or_error, to_be_bytes, from_be_bytes}
use reduction.Tunnel.Protocol.Frames.{bytes_of_len}
use reduction.Tunnel.Protocol.Streams.{read_split, or_error-ok}
use reduction.Ingress.{
  Envelope, IngressError, write_failed, flush_failed, Codec, encode, decode, safe_decode,
  max_envelope_frame, write_frame, read_frame,
}

abbrev pub outcome : {A : Type 0} → Result IngressError (Envelope × A) → Option Envelope
outcome (ok (e, s)) = some e
outcome (err x) = none

abbrev pub accepted : {A : Type 0} → Result IngressError A → Option A
accepted (ok a) = some a
accepted (err e) = none

module _ (b : Codec) where
  encode-ok :
      (e : Envelope) (buf : Text)
      → encode b e ≡ ok buf
      → (buf ≡ to_be_bytes (length (b.bitcode_encode e)) ++ b.bitcode_encode e)
        × (length (b.bitcode_encode e) ≤ max_envelope_frame)
  unfolding encode
  encode-ok e buf h = ground (arith, h)

  module _ (r : AsyncRead) where
    outcome-safe_decode :
        (p : Text) (s : r.Stream)
        → outcome (and_then (safe_decode b p) (λ f. ok (f, s))) ≡ accepted (safe_decode b p)
    outcome-safe_decode p s = elim (Result-cases (safe_decode b p)) [
      | inl (f, e) ↦ rw e refl
      | inr (x, e) ↦ rw e refl
    ]

    -- Whatever the bytes are, a stream that carries them yields an envelope exactly when a buffer of
    -- them does, and then the same one.
    read_envelope-decode :
        (s : r.Stream) → outcome (read_frame b r s) ≡ accepted (decode b (r.bytes s))
    unfolding read_frame decode
    read_envelope-decode s = elim (Bool-cases (ltb (length (r.bytes s)) 4)) [
      | inl short ↦
          rw (r.read_exact_short 4 s (ground (arith, short)), read_frame, decode, short) refl
      | inr long ↦
          let (s1, first, left1) = r.read_exact_full 4 s (ground (arith, long)) in
          let size = length-drop 4 (r.bytes s) in
          let len = from_be_bytes (take 4 (r.bytes s)) in
          elim (Bool-cases (ltb max_envelope_frame len)) [
            | inl large ↦ rw (first, read_frame, large, decode, long) refl
            | inr fits ↦ elim (Bool-cases (ltb (length (r.bytes s)) (4 + len))) [
              | inl cut ↦
                  let short2 : length (r.bytes s1) < len =
                    rw left1 (ground (arith, size, cut, long)) in
                  rw (first, read_frame, fits, r.read_exact_short len s1 short2, decode, long, cut)
                    refl
              | inr whole ↦
                  let (s2, second, left2) =
                    r.read_exact_full len s1 (rw left1 (ground (arith, size, whole, long))) in
                  rw (first, read_frame, fits, second, decode, long, whole, left1)
                    (outcome-safe_decode (take len (drop 4 (r.bytes s))) s2)
            ]
          ]
    ]

  -- An envelope written to a new stream is read at its other end, and nothing of what follows it is
  -- taken.
  pub envelope_round_trip :
      (w : AsyncWrite) (r : AsyncRead) (e : Envelope) (s s' : w.Stream) (x : r.Stream) (rest : Text)
      → w.sent s ≡ []
      → write_frame b w s e ≡ ok s'
      → r.bytes x ≡ w.sent s' ++ rest
      → (x' : r.Stream) × (read_frame b r x ≡ ok (e, x')) × (r.bytes x' ≡ rest)
  unfolding write_frame read_frame safe_decode
  envelope_round_trip w r e s s' x rest empty written delivered =
      let payload = b.bitcode_encode e in
      let (buf, made, e1) = and_then-ok (encode b e) _ s' written in
      let (s1, first, second) = and_then-ok (or_error (w.write_all buf s) write_failed) _ s' e1 in
      let (same, small) = encode-ok e buf made in
      let p1 = w.sent-write_all buf s s1 (or_error-ok _ write_failed s1 first) in
      let p2 = w.sent-flush s1 s' (or_error-ok _ flush_failed s' second) in
      let sent = p2 ∙ (p1 ∙ (ap (λ t. t ++ buf) empty ∙ same)) in
      let len = bytes_of_len (length payload) (omega (arith, small)) in
      let fits : ltb max_envelope_frame (length payload) ≡ false = ground (arith, small) in
      let (x1, head, left1) =
        read_split r x (to_be_bytes (length payload)) (payload ++ rest)
          (delivered ∙ ap (λ t. t ++ rest) sent) in
      let (x2, body, left2) = read_split r x1 payload rest left1 in
      (x2, rw (head, read_frame, len, fits, body, safe_decode, b.decode-encode e) refl, left2)
