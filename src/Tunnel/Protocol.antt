-- ===== src/Tunnel/Protocol.antt =====
-- The frames of the tunnel's control stream (src/tunnel/protocol.rs). The `bitcode` codec and the two
-- ends of a stream are parameters.
pub mod Frames
pub mod Streams
pub mod Agreement
pub mod Preamble
use reduction.Prelude.{
  ℕ, zero, suc, ◌+◌, ◌-◌, ◌*◌, ◌/◌, ◌%◌, ◌^◌, ◌≤◌, ◌<◌, min, max, ◌≡◌, refl, sym, ap, ap₂, ◌∙◌,
  subst, fun_ext, ◌≢◌, ◌↔◌, ◌⊎◌, inl, inr, ite, if_pos, if_neg, Bool, true, false, not, ◌&&◌, ◌||◌,
  Option, none, some, List, [], ◌∷◌, ◌++◌, map, append-nil, append_assoc, arith, ltb, leb, ◌==◌,
  if◌then◌else◌, tests, Bool-cases, Option-cases, is_some, is_none, unwrap_or, length, get_elem?,
  take, drop, any, all, retain, length-append, All, All-append, take-length_append,
  drop-length_append, Text, codes, text_eq, text_eq→eq, text_eq_refl, text_eq_iff, text_dec,
  starts_with, ends_with, eq_ignore_ascii_case, to_ascii_lowercase, dec_lt, dec_le, ℕ_discrete,
  length-retain-le,
}
use reduction.Prelude.Words.{u32_max}
use reduction.Prelude.Results.{Result, ok, err, and_then}

abbrev pub length_prefix_size : ℕ
length_prefix_size = 4

abbrev pub max_frame_size : ℕ
max_frame_size = 64 * 1024

abbrev pub protocol_magic : Text
protocol_magic = codes "RDTN"

abbrev pub protocol_version : ℕ
protocol_version = 1

abbrev pub preamble_len : ℕ
preamble_len = 5

-- A `SessionId` is its bytes.
pub data TunnelFrame : Type 0 where
  register : Text → Text → List Text → TunnelFrame
  register_ack : Text → TunnelFrame
  heartbeat : ℕ → TunnelFrame
  heartbeat_ack : TunnelFrame
  new_stream : ℕ → TunnelFrame
  health : Text → Bool → TunnelFrame
  wake : Text → ℕ → TunnelFrame
  refuse_wake : Text → TunnelFrame
  shutdown : Text → TunnelFrame

pub data TunnelError : Type 0 where
  write_failed flush_failed read_failed : TunnelError
  bad_magic too_short decode_panic decode_error : TunnelError
  payload_too_large frame_too_large : ℕ → TunnelError
  truncated : ℕ → ℕ → TunnelError

-- What `bitcode::decode` does under `catch_unwind`.
pub data Decoded : Type 0 where
  decoded : TunnelFrame → Decoded
  failed panicked : Decoded

pub record Codec : Type 0 where
  pub bitcode_encode : TunnelFrame → Text
  pub bitcode_decode : Text → Decoded
  pub decode-encode : (f : TunnelFrame) → bitcode_decode (bitcode_encode f) ≡ decoded f

-- `AsyncWriteExt`: what is written follows what was sent before.
pub record AsyncWrite : Type 1 where
  pub Stream : Type 0
  pub sent : Stream → Text
  pub write_all : Text → Stream → Option Stream
  pub flush : Stream → Option Stream
  pub sent-write_all : (t : Text) (s s' : Stream) → write_all t s ≡ some s' → sent s' ≡ sent s ++ t
  pub sent-flush : (s s' : Stream) → flush s ≡ some s' → sent s' ≡ sent s

-- `AsyncReadExt`: `bytes` is what the peer sends before the end of the stream.
pub record AsyncRead : Type 1 where
  pub Stream : Type 0
  pub bytes : Stream → Text
  pub read_exact : ℕ → Stream → Option (Text × Stream)
  pub read_exact_full :
      (n : ℕ) (s : Stream)
      → n ≤ length (bytes s)
      → (s' : Stream) × (read_exact n s ≡ some (take n (bytes s), s'))
        × (bytes s' ≡ drop n (bytes s))
  pub read_exact_short : (n : ℕ) (s : Stream) → length (bytes s) < n → read_exact n s ≡ none

abbrev pub to_be_bytes : ℕ → Text
to_be_bytes n = (n / 2 ^ 24 % 256) ∷ (n / 2 ^ 16 % 256) ∷ (n / 2 ^ 8 % 256) ∷ (n % 256) ∷ []

abbrev pub from_be_bytes : Text → ℕ
from_be_bytes (a ∷ b ∷ c ∷ d ∷ []) = a * 2 ^ 24 + b * 2 ^ 16 + c * 2 ^ 8 + d
from_be_bytes _ = 0

-- `map_err` on an operation that may fail.
abbrev pub or_error : {E A : Type 0} → Option A → E → Result E A
or_error (some a) e = ok a
or_error none e = err e

module _ (w : AsyncWrite) where
  unfoldable pub write_preamble : w.Stream → Result TunnelError w.Stream
  write_preamble s =
      and_then (or_error (w.write_all (protocol_magic ++ (protocol_version ∷ [])) s) write_failed)
        (λ s'. or_error (w.flush s') flush_failed)

module _ (r : AsyncRead) where
  unfoldable pub read_preamble : r.Stream → Result TunnelError (ℕ × r.Stream)
  read_preamble s = and_then (or_error (r.read_exact preamble_len s) read_failed) (λ (buf, s').
      if text_eq (take 4 buf) protocol_magic
      then ok (unwrap_or (get_elem? buf 4) 0, s')
      else err bad_magic)

module _ (b : Codec) where
  -- The length check that `encode` and `write_frame` share.
  unfoldable pub payload_of : TunnelFrame → Result TunnelError Text
  payload_of f =
      let payload = b.bitcode_encode f in
      if ltb u32_max (length payload)
      then err (payload_too_large (length payload))
      else if ltb max_frame_size (length payload)
      then err (frame_too_large (length payload))
      else ok payload

  unfoldable pub encode : TunnelFrame → Result TunnelError Text
  encode f = and_then (payload_of f) (λ payload. ok (to_be_bytes (length payload) ++ payload))

  unfoldable pub safe_decode : Text → Result TunnelError TunnelFrame
  safe_decode payload = elim (b.bitcode_decode payload) [
    | decoded f ↦ ok f
    | failed ↦ err decode_error
    | panicked ↦ err decode_panic
  ]

  unfoldable pub decode : Text → Result TunnelError TunnelFrame
  decode buf =
      if ltb (length buf) length_prefix_size
      then err too_short
      else let len = from_be_bytes (take length_prefix_size buf) in
        let expected_total = length_prefix_size + len in
        if ltb (length buf) expected_total
        then err (truncated expected_total (length buf))
        else if ltb max_frame_size len
        then err (frame_too_large len)
        else safe_decode (take len (drop length_prefix_size buf))

  module _ (r : AsyncRead) where
    unfoldable pub read_frame : r.Stream → Result TunnelError (TunnelFrame × r.Stream)
    read_frame s =
        and_then (or_error (r.read_exact length_prefix_size s) read_failed) (λ (len_buf, s1).
          let len = from_be_bytes len_buf in
          if ltb max_frame_size len
          then err (frame_too_large len)
          else and_then (or_error (r.read_exact len s1) read_failed)
              (λ (payload, s2). and_then (safe_decode payload) (λ f. ok (f, s2))))

  module _ (w : AsyncWrite) where
    unfoldable pub write_frame : w.Stream → TunnelFrame → Result TunnelError w.Stream
    write_frame s f = and_then (payload_of f) (λ payload.
        and_then (or_error (w.write_all (to_be_bytes (length payload)) s) write_failed) (λ s1.
          and_then (or_error (w.write_all payload s1) write_failed)
            (λ s2. or_error (w.flush s2) flush_failed)))
