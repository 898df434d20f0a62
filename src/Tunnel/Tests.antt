-- ===== src/Tunnel/Tests.antt =====
-- Runs of the tunnel's frames over streams in memory (src/tunnel/protocol.rs).
use reduction.Prelude.{◌≡◌, refl, List, [], ◌∷◌, ◌++◌, Text, codes}
use reduction.Prelude.Results.{ok}
use reduction.Tunnel.Plain.{plain, memory_write, memory_read, plain_encode, read_exact}
use reduction.Tunnel.Protocol.{
  TunnelFrame, wake, heartbeat_ack, encode, decode, payload_of, read_frame, write_frame,
  write_preamble, read_preamble,
}
use reduction.Tunnel.Protocol.Streams.{frames_round_trip, write_all_frames, read_frames}
use reduction.Tunnel.Protocol.Agreement.{read_frame-decode, accepted, accepted_frame}

abbrev frame : TunnelFrame
frame = wake (codes "db") 5000

abbrev frame_bytes : Text
frame_bytes = 0 ∷ 0 ∷ 0 ∷ 4 ∷ 6 ∷ 5000 ∷ codes "db"

encoded : encode plain frame ≡ ok frame_bytes
unfolding encode payload_of plain_encode
encoded = refl

abbrev both : List TunnelFrame
both = heartbeat_ack ∷ frame ∷ []

abbrev both_bytes : Text
both_bytes = 0 ∷ 0 ∷ 0 ∷ 1 ∷ 3 ∷ frame_bytes

written : write_all_frames plain memory_write both [] ≡ ok both_bytes
unfolding write_all_frames write_frame payload_of plain_encode
written = refl

frames_round_trip_example :
    (x' : Text) × (read_frames plain memory_read 2 (both_bytes ++ codes "end") ≡ ok (both, x'))
    × (x' ≡ codes "end")
frames_round_trip_example =
    frames_round_trip plain memory_write memory_read both [] both_bytes (both_bytes ++ codes "end")
      (codes "end") refl written refl

read_frame-decode_example :
    accepted_frame (read_frame plain memory_read frame_bytes) ≡ accepted (decode plain frame_bytes)
read_frame-decode_example = read_frame-decode plain memory_read frame_bytes

abbrev preamble : Text
preamble = codes "RDTN" ++ (1 ∷ [])

preamble_written : write_preamble memory_write [] ≡ ok preamble
unfolding write_preamble
preamble_written = refl

preamble_read : read_preamble memory_read (codes "RDTN" ++ (2 ∷ 7 ∷ [])) ≡ ok (2, 7 ∷ [])
unfolding read_preamble read_exact
preamble_read = refl
