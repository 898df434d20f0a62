-- ===== src/Tunnel/Plain.antt =====
-- A codec of tunnel frames and two streams that meet the hypotheses of Tunnel/Protocol.
use reduction.Prelude.{
  ℕ, zero, suc, ◌≤◌, ◌<◌, ◌≡◌, refl, ap, ap₂, ◌∙◌, Bool, true, false, Option, none, some, List, [],
  ◌∷◌, ◌++◌, arith, leb, ◌==◌, if◌then◌else◌, unwrap_or, length, get_elem?, take, drop,
  length-append, take-length_append, drop-length_append, Text,
}
use reduction.Tunnel.Protocol.{
  TunnelFrame, register, register_ack, heartbeat, heartbeat_ack, new_stream, health, wake,
  refuse_wake, shutdown, Codec, Decoded, decoded, failed, AsyncWrite, AsyncRead,
}

unfoldable pub put_texts : List Text → Text
put_texts [] = []
put_texts (t ∷ ts) = length t ∷ (t ++ put_texts ts)

unfoldable pub get_texts : ℕ → Text → List Text
get_texts zero s = []
get_texts (suc fuel) [] = []
get_texts (suc fuel) (n ∷ s) = take n s ∷ get_texts fuel (drop n s)

get_texts-put :
    (fuel : ℕ) (ts : List Text) → length (put_texts ts) ≤ fuel → get_texts fuel (put_texts ts) ≡ ts
unfolding put_texts get_texts
get_texts-put zero [] h = refl
get_texts-put zero (t ∷ ts) h = ground (arith, h)
get_texts-put (suc fuel) [] h = refl
get_texts-put (suc fuel) (t ∷ ts) h = ap₂ ◌∷◌ (take-length_append t (put_texts ts)) (
    ap (get_texts fuel) (drop-length_append t (put_texts ts))
    ∙ get_texts-put fuel ts (omega (arith, h, length-append t (put_texts ts))))

unfoldable pub flag : Bool → ℕ
flag false = 0
flag true = 1

unfoldable pub plain_encode : TunnelFrame → Text
unfolding flag
plain_encode (register b p cs) = 0 ∷ put_texts (b ∷ p ∷ cs)
plain_encode (register_ack i) = 1 ∷ i
plain_encode (heartbeat n) = 2 ∷ n ∷ []
plain_encode heartbeat_ack = 3 ∷ []
plain_encode (new_stream n) = 4 ∷ n ∷ []
plain_encode (health b up) = 5 ∷ flag up ∷ b
plain_encode (wake b n) = 6 ∷ n ∷ b
plain_encode (refuse_wake b) = 7 ∷ b
plain_encode (shutdown r) = 8 ∷ r

unfoldable pub registered : List Text → Decoded
registered (b ∷ p ∷ cs) = decoded (register b p cs)
registered _ = failed

unfoldable pub plain_decode : Text → Decoded
unfolding registered
plain_decode [] = failed
plain_decode (tag ∷ s) =
    let number = unwrap_or (get_elem? s 0) 0 in
    if tag == 0
    then registered (get_texts (length s) s)
    else if tag == 1
    then decoded (register_ack s)
    else if tag == 2
    then decoded (heartbeat number)
    else if tag == 3
    then decoded heartbeat_ack
    else if tag == 4
    then decoded (new_stream number)
    else if tag == 5
    then decoded (health (drop 1 s) (number == 1))
    else if tag == 6
    then decoded (wake (drop 1 s) number)
    else if tag == 7
    then decoded (refuse_wake s)
    else decoded (shutdown s)

pub plain_decode-encode : (f : TunnelFrame) → plain_decode (plain_encode f) ≡ decoded f
unfolding plain_decode plain_encode registered flag
plain_decode-encode (register b p cs) =
    ap registered (get_texts-put (length (put_texts (b ∷ p ∷ cs))) (b ∷ p ∷ cs) (omega arith))
plain_decode-encode (register_ack i) = refl
plain_decode-encode (heartbeat n) = refl
plain_decode-encode heartbeat_ack = refl
plain_decode-encode (new_stream n) = refl
plain_decode-encode (health b true) = refl
plain_decode-encode (health b false) = refl
plain_decode-encode (wake b n) = refl
plain_decode-encode (refuse_wake b) = refl
plain_decode-encode (shutdown r) = refl

abbrev pub plain : Codec
plain = record {
  bitcode_encode = plain_encode;
  bitcode_decode = plain_decode;
  decode-encode = plain_decode-encode;
}

-- A writer that keeps everything, and a reader of a text.
pub some_same : {A : Type 0} {x y : A} → some x ≡ some y → y ≡ x
some_same e = ground (arith, e)

abbrev pub memory_write : AsyncWrite
memory_write = record {
  Stream = Text;
  sent = λ s. s;
  write_all = λ t s. some (s ++ t);
  flush = some;
  sent-write_all = λ t s s' e. some_same e;
  sent-flush = λ s s' e. some_same e;
}

unfoldable pub read_exact : ℕ → Text → Option (Text × Text)
read_exact n s = if leb n (length s) then some (take n s, drop n s) else none

pub read_exact_full :
    (n : ℕ) (s : Text)
    → n ≤ length s
    → (s' : Text) × (read_exact n s ≡ some (take n s, s')) × (s' ≡ drop n s)
unfolding read_exact
read_exact_full n s h = (drop n s, ground (arith, h), refl)

pub read_exact_short : (n : ℕ) (s : Text) → length s < n → read_exact n s ≡ none
unfolding read_exact
read_exact_short n s h = ground (arith, h)

abbrev pub memory_read : AsyncRead
memory_read = record {
  Stream = Text;
  bytes = λ s. s;
  read_exact = read_exact;
  read_exact_full = read_exact_full;
  read_exact_short = read_exact_short;
}
