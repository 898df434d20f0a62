-- ===== src/Ingress/Plain.antt =====
-- A codec of envelopes that meets the hypothesis of src/ingress/protocol.rs on bitcode.
use reduction.Prelude.{
  ℕ, zero, suc, ◌≤◌, ◌≡◌, refl, ap, ap₂, ◌∙◌, List, [], ◌∷◌, ◌++◌, arith, ◌==◌, if◌then◌else◌,
  unwrap_or, length, get_elem?, take, drop, length-append, take-length_append, drop-length_append,
  Text,
}
use reduction.Ingress.{Datagram, Envelope, hello, batch, open_, Decoded, decoded, failed, Codec}

-- A datagram: its peer, its time, and its payload with its length.
pub put_datagrams : List Datagram → Text
put_datagrams [] = []
put_datagrams (d ∷ ds) =
    d.peer.ip
    ∷ d.peer.port
    ∷ d.recv_at_unix_nanos
    ∷ length d.payload
    ∷ (d.payload ++ put_datagrams ds)

pub get_datagrams : ℕ → Text → List Datagram
get_datagrams (suc fuel) (ip ∷ port ∷ at ∷ n ∷ s) =
    record { peer = record { ip = ip; port = port }; recv_at_unix_nanos = at; payload = take n s }
    ∷ get_datagrams fuel (drop n s)
get_datagrams _ _ = []

get_datagrams-put :
    (fuel : ℕ) (ds : List Datagram)
    → length (put_datagrams ds) ≤ fuel
    → get_datagrams fuel (put_datagrams ds) ≡ ds
unfolding put_datagrams get_datagrams
get_datagrams-put zero [] h = refl
get_datagrams-put zero (d ∷ ds) h = ground (arith, h)
get_datagrams-put (suc fuel) [] h = refl
get_datagrams-put (suc fuel) (d ∷ ds) h =
    ap₂ ◌∷◌
      (ap (λ p. record { peer = d.peer; recv_at_unix_nanos = d.recv_at_unix_nanos; payload = p })
        (take-length_append d.payload (put_datagrams ds)))
      (ap (get_datagrams fuel) (drop-length_append d.payload (put_datagrams ds))
        ∙ get_datagrams-put fuel ds (omega (arith, h, length-append d.payload (put_datagrams ds))))

unfoldable pub plain_encode : Envelope → Text
plain_encode (hello id worker) = 0 ∷ worker ∷ id
plain_encode (batch ds) = 1 ∷ put_datagrams ds
plain_encode (open_ p) = 2 ∷ p.ip ∷ p.port ∷ []

pub plain_decode : Text → Decoded
plain_decode [] = failed
plain_decode (tag ∷ s) =
    let first = unwrap_or (get_elem? s 0) 0 in
    if tag == 0
    then decoded (hello (drop 1 s) first)
    else if tag == 1
    then decoded (batch (get_datagrams (length s) s))
    else decoded (open_ (record { ip = first; port = unwrap_or (get_elem? s 1) 0 }))

pub plain_decode-encode : (e : Envelope) → plain_decode (plain_encode e) ≡ decoded e
unfolding plain_decode plain_encode
plain_decode-encode (hello id worker) = refl
plain_decode-encode (batch ds) =
    ap (λ x. decoded (batch x)) (get_datagrams-put (length (put_datagrams ds)) ds (omega arith))
plain_decode-encode (open_ p) = refl

abbrev pub plain : Codec
plain = record {
  bitcode_encode = plain_encode;
  bitcode_decode = plain_decode;
  decode-encode = plain_decode-encode;
}
