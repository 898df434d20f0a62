-- ===== src/Tunnel/Protocol/Preamble.antt =====
-- The version preamble (`write_preamble`, `read_preamble` of src/tunnel/protocol.rs).
use reduction.Prelude.{
  ℕ, ◌≤◌, ◌≡◌, refl, sym, ap, ◌∙◌, inl, inr, true, [], ◌∷◌, ◌++◌, arith, Bool-cases, unwrap_or,
  length, get_elem?, take, drop, Text, text_eq, dec_le,
}
use reduction.Prelude.Results.{ok, ok_inj, and_then-ok}
use reduction.Tunnel.Protocol.{
  write_failed, flush_failed, AsyncWrite, AsyncRead, or_error, write_preamble, read_preamble,
  protocol_magic, protocol_version,
}
use reduction.Tunnel.Protocol.Streams.{read_split, or_error-ok}

-- The preamble that one end writes to a new stream is read at the other as the protocol's version,
-- and nothing of what follows it is taken.
preamble_round_trip :
    (w : AsyncWrite) (r : AsyncRead) (s s' : w.Stream) (x : r.Stream) (rest : Text)
    → w.sent s ≡ []
    → write_preamble w s ≡ ok s'
    → r.bytes x ≡ w.sent s' ++ rest
    → (x' : r.Stream) × (read_preamble r x ≡ ok (protocol_version, x')) × (r.bytes x' ≡ rest)
unfolding write_preamble read_preamble
preamble_round_trip w r s s' x rest empty written delivered =
    let preamble = protocol_magic ++ (protocol_version ∷ []) in
    let (s1, first, second) =
      and_then-ok (or_error (w.write_all preamble s) write_failed) _ s' written in
    let p1 = w.sent-write_all preamble s s1 (or_error-ok _ write_failed s1 first) in
    let p2 = w.sent-flush s1 s' (or_error-ok _ flush_failed s' second) in
    let sent = p2 ∙ (p1 ∙ ap (λ t. t ++ preamble) empty) in
    let (x', found, left) = read_split r x preamble rest (delivered ∙ ap (λ t. t ++ rest) sent) in
    (x', rw (found, read_preamble) refl, left)

preamble_of :
    (xs : Text)
    → 5 ≤ length xs
    → text_eq (take 4 (take 5 xs)) protocol_magic ≡ true
    → xs ≡ protocol_magic ++ (unwrap_or (get_elem? (take 5 xs) 4) 0 ∷ drop 5 xs)
preamble_of [] h e = ground arith
preamble_of (a ∷ []) h e = ground arith
preamble_of (a ∷ b ∷ []) h e = ground arith
preamble_of (a ∷ b ∷ c ∷ []) h e = ground arith
preamble_of (a ∷ b ∷ c ∷ d ∷ []) h e = ground arith
preamble_of (a ∷ b ∷ c ∷ d ∷ v ∷ xs) h e = ground (arith, e)

-- Bytes are accepted as a preamble only when they begin with the magic, whose next byte is then the
-- version reported.
read_preamble_sound :
    (r : AsyncRead) (x x' : r.Stream) (v : ℕ)
    → read_preamble r x ≡ ok (v, x')
    → r.bytes x ≡ protocol_magic ++ (v ∷ r.bytes x')
unfolding read_preamble
read_preamble_sound r x x' v e = elim (dec_le 5 (length (r.bytes x))) [
  | no short ↦ absurd (cc (rw (r.read_exact_short 5 x (omega (arith, short)), read_preamble) at e))
  | yes long ↦
      let (y, found, left) = r.read_exact_full 5 x long in
      elim (Bool-cases (text_eq (take 4 (take 5 (r.bytes x))) protocol_magic)) [
        | inr bad ↦ absurd (cc (rw (found, read_preamble, bad) at e))
        | inl magic ↦
            let same = ok_inj (rw (found, read_preamble, magic) at e) in
            preamble_of (r.bytes x) long magic
            ∙ ap (λ t. protocol_magic ++ t)
                (ap (◌∷◌ (unwrap_or (get_elem? (take 5 (r.bytes x)) 4) 0)) (sym left)
                  ∙ ap (λ p. p.0 ∷ r.bytes p.1) same)
      ]
]
