-- ===== src/Ingress/Tests.antt =====
-- Runs of the ingress frames and batches (src/ingress/protocol.rs, src/ingress/batch.rs).
use reduction.Prelude.{◌≡◌, refl, List, [], ◌∷◌, ◌++◌, arith, All, Text, codes}
use reduction.Prelude.Results.{ok}
use reduction.Acl.{v4}
use reduction.Tunnel.Plain.{memory_write, memory_read}
use reduction.Ingress.{SocketAddr, Datagram, Envelope, hello, encode, read_frame, write_frame}
use reduction.Ingress.Plain.{plain, plain_encode}
use reduction.Ingress.Frames.{envelope_round_trip}
use reduction.Ingress.Batch.{
  BatchLimits, new, push, fill_flush, arrive, expire, linger_expired, take_all,
}
use reduction.Ingress.Delivery.{
  Event, arrived, ticked, run, react, nothing_lost, within_limits, IsBelow, IsHandedOff, concat,
}

abbrev greeting : Envelope
greeting = hello (codes "in") 3

abbrev greeting_bytes : Text
greeting_bytes = 0 ∷ 0 ∷ 0 ∷ 4 ∷ 0 ∷ 3 ∷ codes "in"

written : write_frame plain memory_write [] greeting ≡ ok greeting_bytes
unfolding write_frame encode plain_encode
written = refl

envelope_round_trip_example :
    (x' : Text) × (read_frame plain memory_read (greeting_bytes ++ codes "end") ≡ ok (greeting, x'))
    × (x' ≡ codes "end")
envelope_round_trip_example =
    envelope_round_trip plain memory_write memory_read greeting [] greeting_bytes
      (greeting_bytes ++ codes "end") (codes "end") refl written refl

abbrev home : SocketAddr
home = record { ip = v4 2130706433; port = 53 }

abbrev limits : BatchLimits
limits = record { max_datagrams = 2; max_bytes = 1000; linger = 5 }

abbrev ping : Text → Datagram
ping s = record { peer = record { ip = 1; port = 2 }; recv_at_unix_nanos = 0; payload = s }

abbrev events : List Event
events =
    arrived 1 (ping (codes "a"))
    ∷ arrived 2 (ping (codes "b"))
    ∷ arrived 3 (ping (codes "c"))
    ∷ ticked 9
    ∷ arrived 10 (ping (codes "d"))
    ∷ []

-- A full batch, a late one, and one in hand.
handed_off :
    (run limits events new).1
    ≡ (ping (codes "a") ∷ ping (codes "b") ∷ []) ∷ (ping (codes "c") ∷ []) ∷ []
unfolding run react arrive expire push fill_flush linger_expired take_all
handed_off = refl

nothing_lost_example :
    concat (run limits events new).1 ++ (run limits events new).0.datagrams
    ≡ ping (codes "a") ∷ ping (codes "b") ∷ ping (codes "c") ∷ ping (codes "d") ∷ []
nothing_lost_example = nothing_lost limits events

within_limits_example :
    IsBelow limits (run limits events new).0 × All (IsHandedOff limits) (run limits events new).1
within_limits_example =
    within_limits limits events (omega arith, omega arith, omega arith)
      (omega arith, (omega arith, (omega arith, (tt, (omega arith, tt)))))
