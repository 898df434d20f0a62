-- ===== src/Acl/Tests.antt =====
-- The access lists at concrete networks; the runs are unit tests of src/acl.rs.
use reduction.Prelude.{
  ℕ, ◌+◌, ◌-◌, ◌*◌, ◌/◌, ◌^◌, ◌≤◌, ◌≡◌, refl, min, Bool, not, ◌&&◌, [], ◌∷◌, none, some, ◌==◌, leb,
  if◌then◌else◌, any, arith,
}
use reduction.Acl.{
  v4, v6, IpNetOps, IpNet, net_v4, net_v6, new, check, canonicalize_net, canonicalize_v6, ok, err,
  access_denied, is_empty,
}
use reduction.Acl.Matching.{IpNetSemantics, IpNetLaws, mapped_block, matches, check-matches}

-- Networks as pairs of an address and a prefix length.
abbrev prefix_matches : ℕ → ℕ → ℕ → ℕ → Bool
prefix_matches width addr prefix ip = addr / 2 ^ (width - prefix) == ip / 2 ^ (width - prefix)

abbrev pairs : IpNetOps
pairs = record {
  Ipv4Net = ℕ × ℕ;
  Ipv6Net = ℕ × ℕ;
  new_v4 = λ a p. if leb p 32 then some (a, p) else none;
  addr_v6 = λ n. n.0;
  prefix_len_v6 = λ n. min n.1 128;
  contains_v4 = λ n. prefix_matches 32 n.0 (min n.1 32);
  contains_v6 = λ n. prefix_matches 128 n.0 (min n.1 128);
}

abbrev pair_parts : IpNetSemantics pairs
pair_parts = record { addr_v4 = λ n. n.0; prefix_len_v4 = λ n. min n.1 32 }

new_pair_fits :
    (addr prefix : ℕ)
    → prefix ≤ 32
    → (n : ℕ × ℕ) × (pairs.new_v4 addr prefix ≡ some n) × (n.0 ≡ addr) × (min n.1 32 ≡ prefix)
new_pair_fits addr prefix h = ((addr, prefix), ground arith, refl, omega arith)

pairs-IpNetLaws : IpNetLaws pairs pair_parts
pairs-IpNetLaws = record {
  new_v4_fits = new_pair_fits;
  prefix_len_v4_le = λ n. omega arith;
  prefix_len_v6_le = λ n. omega arith;
  contains_v4_lem = λ n ip. refl;
  contains_v6_lem = λ n ip. refl;
}

-- 10.0.0.0/8, and the same range as ::ffff:10.0.0.0/104.
abbrev ten : IpNet pairs
ten = net_v4 (10 * 2 ^ 24, 8)

abbrev ten_mapped : IpNet pairs
ten_mapped = net_v6 (mapped_block + 10 * 2 ^ 24, 104)

-- `test_config_cidr_in_mapped_notation_matches_bare_v4` and `test_denylist_blocks_ipv4_mapped_ipv6`.
mapped_notation :
    (check pairs (new pairs [] (ten_mapped ∷ [])) (v4 (10 * 2 ^ 24 + 1)) ≡ err access_denied)
    × (check pairs (new pairs [] (ten_mapped ∷ [])) (v4 (11 * 2 ^ 24 + 1)) ≡ ok)
    × (check pairs (new pairs [] (ten ∷ [])) (v6 (mapped_block + 10 * 2 ^ 24 + 1))
        ≡ err access_denied)
    × (check pairs (new pairs (ten ∷ []) []) (v4 5) ≡ err access_denied)
unfolding check new canonicalize_net canonicalize_v6
mapped_notation = (refl, refl, refl, refl)

check-matches_example : check pairs (new pairs (ten ∷ []) (ten_mapped ∷ [])) (v4 7) ≡ (
    if any (matches pairs pair_parts pairs-IpNetLaws (v4 7)) (ten_mapped ∷ [])
    then err access_denied
    else if not (is_empty pairs (ten ∷ []))
        && not (any (matches pairs pair_parts pairs-IpNetLaws (v4 7)) (ten ∷ []))
    then err access_denied
    else ok)
check-matches_example =
    check-matches pairs pair_parts pairs-IpNetLaws (ten ∷ []) (ten_mapped ∷ []) (v4 7)
