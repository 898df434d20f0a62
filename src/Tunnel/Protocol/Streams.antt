-- ===== src/Tunnel/Protocol/Streams.antt =====
-- Frames and the preamble over a stream (`read_frame`, `write_frame`, `read_preamble`,
-- `write_preamble` of src/tunnel/protocol.rs).
use reduction.Prelude.{
  ℕ, zero, suc, ◌≤◌, ◌≡◌, refl, sym, ap, ◌∙◌, subst, false, Option, none, some, List, [], ◌∷◌, ◌++◌,
  append-nil, append_assoc, arith, ltb, length, take, drop, length-append, All, take-length_append,
  drop-length_append, Text,
}
use reduction.Prelude.Results.{Result, ok, and_then, ok_inj, and_then-ok}
use reduction.Tunnel.Protocol.{
  TunnelFrame, TunnelError, write_failed, flush_failed, Codec, AsyncWrite, AsyncRead, or_error,
  to_be_bytes, payload_of, safe_decode, max_frame_size, write_frame, read_frame,
}
use reduction.Tunnel.Protocol.Frames.{bytes_of_len, payload-ok}

pub or_error-ok : {E A : Type 0} (o : Option A) (x : E) (a : A) → or_error o x ≡ ok a → o ≡ some a
or_error-ok none x a e = cc
or_error-ok (some y) x a e = ap some (ok_inj e)

module _ (b : Codec) where
  -- The bytes of a frame whose payload fits.
  pub framed : TunnelFrame → Text
  framed f = to_be_bytes (length (b.bitcode_encode f)) ++ b.bitcode_encode f

  -- The bytes of the frames of a list.
  pub framed_all : List TunnelFrame → Text
  framed_all [] = []
  framed_all (f ∷ fs) = framed f ++ framed_all fs

module _ (b : Codec) (w : AsyncWrite) where
  -- The frames of a list, written one after the other.
  unfoldable pub write_all_frames : List TunnelFrame → w.Stream → Result TunnelError w.Stream
  write_all_frames [] s = ok s
  write_all_frames (f ∷ fs) s = and_then (write_frame b w s f) (write_all_frames fs)

  sent-write_frame :
      (f : TunnelFrame) (s s' : w.Stream)
      → write_frame b w s f ≡ ok s'
      → (w.sent s' ≡ w.sent s ++ framed b f) × (length (b.bitcode_encode f) ≤ max_frame_size)
  unfolding write_frame framed
  sent-write_frame f s s' e =
      let (payload, made, e1) = and_then-ok (payload_of b f) _ s' e in
      let (s1, first, e2) =
        and_then-ok (or_error (w.write_all (to_be_bytes (length payload)) s) write_failed) _ s'
          e1 in
      let (s2, second, third) =
        and_then-ok (or_error (w.write_all payload s1) write_failed) _ s' e2 in
      let (same, small) = payload-ok b f payload made in
      let p1 = w.sent-write_all _ s s1 (or_error-ok _ write_failed s1 first) in
      let p2 = w.sent-write_all _ s1 s2 (or_error-ok _ write_failed s2 second) in
      let p3 = w.sent-flush s2 s' (or_error-ok _ flush_failed s' third) in
      subst
        (λ x. (w.sent s' ≡ w.sent s ++ (to_be_bytes (length x) ++ x)) × (length x ≤ max_frame_size))
        same
        (
          p3
              ∙ (p2
                  ∙ (ap (λ t. t ++ payload) p1
                      ∙ append_assoc (w.sent s) (to_be_bytes (length payload)) payload)),
          small,
        )

  sent-write_all_frames :
      (fs : List TunnelFrame) (s s' : w.Stream)
      → write_all_frames fs s ≡ ok s'
      → (w.sent s' ≡ w.sent s ++ framed_all b fs)
        × All (λ f. length (b.bitcode_encode f) ≤ max_frame_size) fs
  unfolding write_all_frames framed_all
  sent-write_all_frames [] s s' e = (ap w.sent (sym (ok_inj e)) ∙ sym (append-nil (w.sent s)), tt)
  sent-write_all_frames (f ∷ fs) s s' e =
      let (s1, one, more) = and_then-ok (write_frame b w s f) _ s' e in
      let (sent1, small1) = sent-write_frame f s s1 one in
      let (sent2, small2) = sent-write_all_frames fs s1 s' more in
      (
        sent2
            ∙ (ap (λ t. t ++ framed_all b fs) sent1
                ∙ append_assoc (w.sent s) (framed b f) (framed_all b fs)),
        (small1, small2),
      )

module _ (r : AsyncRead) where
  pub read_split :
      (s : r.Stream) (xs rest : Text)
      → r.bytes s ≡ xs ++ rest
      → (s' : r.Stream) × (r.read_exact (length xs) s ≡ some (xs, s')) × (r.bytes s' ≡ rest)
  read_split s xs rest e =
      let (s1, found, left) =
        r.read_exact_full (length xs) s (rw e (omega (arith, length-append xs rest))) in
      (
        s1,
        found ∙ ap (λ t. some (t, s1)) (ap (take (length xs)) e ∙ take-length_append xs rest),
        left ∙ (ap (drop (length xs)) e ∙ drop-length_append xs rest),
      )

module _ (b : Codec) (r : AsyncRead) where
  -- Frames read one after the other, as many as asked for.
  pub read_frames : ℕ → r.Stream → Result TunnelError (List TunnelFrame × r.Stream)
  read_frames zero s = ok ([], s)
  read_frames (suc n) s =
      and_then (read_frame b r s)
        (λ (f, s1). and_then (read_frames n s1) (λ (fs, s2). ok (f ∷ fs, s2)))

  read_framed :
      (s : r.Stream) (f : TunnelFrame) (rest : Text)
      → length (b.bitcode_encode f) ≤ max_frame_size
      → r.bytes s ≡ to_be_bytes (length (b.bitcode_encode f)) ++ (b.bitcode_encode f ++ rest)
      → (s' : r.Stream) × (read_frame b r s ≡ ok (f, s')) × (r.bytes s' ≡ rest)
  unfolding read_frame safe_decode
  read_framed s f rest small e =
      let payload = b.bitcode_encode f in
      let len = bytes_of_len (length payload) (omega (arith, small)) in
      let fits : ltb max_frame_size (length payload) ≡ false = ground (arith, small) in
      let (s1, first, left1) = read_split r s (to_be_bytes (length payload)) (payload ++ rest) e in
      let (s2, second, left2) = read_split r s1 payload rest left1 in
      (s2, rw (first, read_frame, len, fits, second, safe_decode, b.decode-encode f) refl, left2)

  read_frames_back :
      (fs : List TunnelFrame) (s : r.Stream) (rest : Text)
      → All (λ f. length (b.bitcode_encode f) ≤ max_frame_size) fs
      → r.bytes s ≡ framed_all b fs ++ rest
      → (s' : r.Stream) × (read_frames (length fs) s ≡ ok (fs, s')) × (r.bytes s' ≡ rest)
  unfolding read_frames framed_all framed
  read_frames_back [] s rest small e = (s, refl, e)
  read_frames_back (f ∷ fs) s rest small e =
      let e' = e ∙ append_assoc (framed b f) (framed_all b fs) rest in
      let (s1, one, left1) = read_framed s f (framed_all b fs ++ rest) small.0 e' in
      let (s2, more, left2) = read_frames_back fs s1 rest small.1 left1 in
      (s2, rw (one, read_frames, more) refl, left2)

-- Frames written to a new stream are read at its other end, in their order and complete, whatever
-- follows them.
pub frames_round_trip :
    (b : Codec) (w : AsyncWrite) (r : AsyncRead) (fs : List TunnelFrame) (s s' : w.Stream)
    (x : r.Stream) (rest : Text)
    → w.sent s ≡ []
    → write_all_frames b w fs s ≡ ok s'
    → r.bytes x ≡ w.sent s' ++ rest
    → (x' : r.Stream) × (read_frames b r (length fs) x ≡ ok (fs, x')) × (r.bytes x' ≡ rest)
frames_round_trip b w r fs s s' x rest empty written delivered =
    let (sent, small) = sent-write_all_frames b w fs s s' written in
    read_frames_back b r fs x rest small
      (delivered ∙ ap (λ t. t ++ rest) (sent ∙ ap (λ t. t ++ framed_all b fs) empty))
