-- ===== src/Tunnel/Revocation/Hex.antt =====
-- The hexadecimal form of a key's hash (`spki_hex` of src/tls/identity.rs, `decode_spki_hex` of
-- src/tunnel/revocation.rs).
use reduction.Prelude.{
  ℕ, zero, suc, ◌*◌, ◌/◌, ◌%◌, ◌<◌, ◌≡◌, refl, ap, [], ◌∷◌, arith, length, All, Text,
}
use reduction.Prelude.Results.{ok}
use reduction.Tunnel.Revocation.{
  PeerIdentity, hex_nibble, decode_pairs, decode_spki_hex, hex_digit, hex_of, spki_hex,
}

digit_nibble : (n index : ℕ) → n < 16 → hex_nibble (hex_digit n) index ≡ ok n
unfolding hex_nibble
digit_nibble zero index h = refl
digit_nibble (suc zero) index h = refl
digit_nibble (suc (suc zero)) index h = refl
digit_nibble (suc (suc (suc zero))) index h = refl
digit_nibble (suc (suc (suc (suc zero)))) index h = refl
digit_nibble (suc (suc (suc (suc (suc zero))))) index h = refl
digit_nibble (suc (suc (suc (suc (suc (suc zero)))))) index h = refl
digit_nibble (suc (suc (suc (suc (suc (suc (suc zero))))))) index h = refl
digit_nibble (suc (suc (suc (suc (suc (suc (suc (suc zero)))))))) index h = refl
digit_nibble (suc (suc (suc (suc (suc (suc (suc (suc (suc zero))))))))) index h = refl
digit_nibble (suc (suc (suc (suc (suc (suc (suc (suc (suc (suc zero)))))))))) index h = refl
digit_nibble (suc (suc (suc (suc (suc (suc (suc (suc (suc (suc (suc zero))))))))))) index h = refl
digit_nibble (suc (suc (suc (suc (suc (suc (suc (suc (suc (suc (suc (suc zero)))))))))))) index h =
    refl
digit_nibble (suc (suc (suc (suc (suc (suc (suc (suc (suc (suc (suc (suc (suc zero)))))))))))))
      index h =
    refl
digit_nibble
      (suc (suc (suc (suc (suc (suc (suc (suc (suc (suc (suc (suc (suc (suc zero)))))))))))))) index
      h =
    refl
digit_nibble
      (suc (suc (suc (suc (suc (suc (suc (suc (suc (suc (suc (suc (suc (suc (suc zero)))))))))))))))
      index h =
    refl
digit_nibble
      (suc
        (suc (suc (suc (suc (suc (suc (suc (suc (suc (suc (suc (suc (suc (suc (suc n))))))))))))))))
      index h =
    ground (arith, h)

decode-hex_of :
    (bytes : Text) (index : ℕ)
    → All (λ b. b < 256) bytes
    → decode_pairs (hex_of bytes) index ≡ ok bytes
unfolding decode_pairs hex_of
decode-hex_of [] index h = refl
decode-hex_of (b ∷ bytes) index h =
    rw
      (
        digit_nibble (b / 16) index (omega (arith, h.0)),
        digit_nibble (b % 16) index (omega arith),
        decode-hex_of bytes index h.1,
      )
      (ap (λ n. ok (n ∷ bytes)) (omega arith))

length-hex_of : (bytes : Text) → length (hex_of bytes) ≡ length bytes * 2
unfolding hex_of
length-hex_of [] = refl
length-hex_of (b ∷ bytes) = omega (arith, length-hex_of bytes)

-- A hash of 32 bytes that is printed for a header is read back from a revocation entry as itself.
decode-spki_hex :
    (identity : PeerIdentity) (index : ℕ)
    → length identity.spki_sha256 ≡ 32
    → All (λ b. b < 256) identity.spki_sha256
    → decode_spki_hex (spki_hex identity) index ≡ ok identity.spki_sha256
unfolding decode_spki_hex spki_hex
decode-spki_hex identity index size bytes =
    rw (length-hex_of identity.spki_sha256, size) (decode-hex_of identity.spki_sha256 index bytes)
