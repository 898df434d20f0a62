-- ===== src/Ingress.antt =====
-- The frames between the ingress and its consumers (src/ingress/protocol.rs). The codec is a parameter;
-- the ends of a stream are those of Tunnel/Protocol.
pub mod Peers
pub mod Frames
pub mod Batch
pub mod Delivery
pub mod Plain
mod Tests
use reduction.Prelude.{
  ℕ, zero, suc, ◌+◌, ◌-◌, ◌*◌, ◌/◌, ◌%◌, ◌^◌, ◌≤◌, ◌<◌, min, max, ◌≡◌, refl, sym, ap, ap₂, ◌∙◌,
  subst, fun_ext, ◌≢◌, ◌↔◌, ◌⊎◌, inl, inr, ite, if_pos, if_neg, Bool, true, false, not, ◌&&◌, ◌||◌,
  Option, none, some, List, [], ◌∷◌, ◌++◌, map, append-nil, append_assoc, arith, ltb, leb, ◌==◌,
  if◌then◌else◌, tests, Bool-cases, Option-cases, is_some, is_none, unwrap_or, length, get_elem?,
  take, drop, any, all, retain, length-append, All, All-append, take-length_append,
  drop-length_append, Text, codes, text_eq, text_eq→eq, text_eq_refl, text_eq_iff, text_dec,
  starts_with, ends_with, eq_ignore_ascii_case, to_ascii_lowercase, dec_lt, dec_le, ℕ_discrete,
  length-retain-le, All-retain, retain-All,
}
use reduction.Prelude.Words.{u32_max}
use reduction.Prelude.Results.{Result, ok, err, and_then}
use reduction.Acl.{IpAddr, v4, v6, to_ipv4_mapped}
use reduction.Tunnel.Protocol.{AsyncRead, AsyncWrite, or_error, to_be_bytes, from_be_bytes}

abbrev pub length_prefix_size : ℕ
length_prefix_size = 4

abbrev pub max_envelope_frame : ℕ
max_envelope_frame = 64 * 1024

abbrev pub protocol_magic : Text
protocol_magic = codes "RDIG"

abbrev pub protocol_version : ℕ
protocol_version = 1

-- The 16 bytes of `ip` are the number that they write in base 256.
pub record Peer : Type 0 where
  pub ip : ℕ
  pub port : ℕ

pub record SocketAddr : Type 0 where
  pub ip : IpAddr
  pub port : ℕ

-- `Ipv4Addr::to_ipv6_mapped`: ::ffff:a.b.c.d.
abbrev pub to_ipv6_mapped : ℕ → ℕ
to_ipv6_mapped a = (2 ^ 16 - 1) * 2 ^ 32 + a

abbrev pub slot : IpAddr → ℕ
slot (v4 a) = to_ipv6_mapped a
slot (v6 a) = a

unfoldable pub from_socket_addr : SocketAddr → Peer
from_socket_addr addr = record { ip = slot addr.ip; port = addr.port }

abbrev pub address : Option ℕ → ℕ → IpAddr
address (some a) v = v4 a
address none v = v6 v

unfoldable pub socket_addr : Peer → SocketAddr
socket_addr peer = record { ip = address (to_ipv4_mapped peer.ip) peer.ip; port = peer.port }

pub record Datagram : Type 0 where
  pub peer : Peer
  pub recv_at_unix_nanos : ℕ
  pub payload : Text

pub data Envelope : Type 0 where
  hello : Text → ℕ → Envelope
  batch : List Datagram → Envelope
  open_ : Peer → Envelope

pub data IngressError : Type 0 where
  write_failed flush_failed read_failed : IngressError
  bad_magic too_short decode_panic decode_error : IngressError
  frame_too_large payload_too_large : ℕ → IngressError
  truncated : ℕ → ℕ → IngressError

-- What `bitcode::decode` does under `catch_unwind`.
pub data Decoded : Type 0 where
  decoded : Envelope → Decoded
  failed panicked : Decoded

pub record Codec : Type 0 where
  pub bitcode_encode : Envelope → Text
  pub bitcode_decode : Text → Decoded
  pub decode-encode : (e : Envelope) → bitcode_decode (bitcode_encode e) ≡ decoded e

module _ (w : AsyncWrite) where
  unfoldable pub write_preamble : w.Stream → Result IngressError w.Stream
  write_preamble s =
      and_then (or_error (w.write_all (protocol_magic ++ (protocol_version ∷ [])) s) write_failed)
        (λ s'. or_error (w.flush s') flush_failed)

module _ (r : AsyncRead) where
  unfoldable pub read_preamble : r.Stream → Result IngressError (ℕ × r.Stream)
  read_preamble s = and_then (or_error (r.read_exact 5 s) read_failed) (λ (buf, s').
      if text_eq (take 4 buf) protocol_magic
      then ok (unwrap_or (get_elem? buf 4) 0, s')
      else err bad_magic)

module _ (b : Codec) where
  unfoldable pub encode : Envelope → Result IngressError Text
  encode e =
      let payload = b.bitcode_encode e in
      if ltb max_envelope_frame (length payload)
      then err (frame_too_large (length payload))
      else if ltb u32_max (length payload)
      then err (payload_too_large (length payload))
      else ok (to_be_bytes (length payload) ++ payload)

  unfoldable pub safe_decode : Text → Result IngressError Envelope
  safe_decode payload = elim (b.bitcode_decode payload) [
    | decoded e ↦ ok e
    | failed ↦ err decode_error
    | panicked ↦ err decode_panic
  ]

  unfoldable pub decode : Text → Result IngressError Envelope
  decode buf =
      if ltb (length buf) length_prefix_size
      then err too_short
      else let len = from_be_bytes (take length_prefix_size buf) in
        if ltb max_envelope_frame len
        then err (frame_too_large len)
        else if ltb (length buf) (length_prefix_size + len)
        then err (truncated (length_prefix_size + len) (length buf))
        else safe_decode (take len (drop length_prefix_size buf))

  module _ (r : AsyncRead) where
    unfoldable pub read_frame : r.Stream → Result IngressError (Envelope × r.Stream)
    read_frame s =
        and_then (or_error (r.read_exact length_prefix_size s) read_failed) (λ (len_buf, s1).
          let len = from_be_bytes len_buf in
          if ltb max_envelope_frame len
          then err (frame_too_large len)
          else and_then (or_error (r.read_exact len s1) read_failed)
              (λ (payload, s2). and_then (safe_decode payload) (λ e. ok (e, s2))))

  module _ (w : AsyncWrite) where
    unfoldable pub write_frame : w.Stream → Envelope → Result IngressError w.Stream
    write_frame s e = and_then (encode e) (λ frame.
        and_then (or_error (w.write_all frame s) write_failed)
          (λ s1. or_error (w.flush s1) flush_failed))
