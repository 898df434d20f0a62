-- ===== src/Acl/Matching.antt =====
-- The lists of src/acl.rs against one description for both families: an address is a number below
-- 2 ^ 128, where the IPv4 addresses are those of ::ffff:0:0/96, and a network is a prefix of it.
use native.Mathlib.Nat.{
  add-zero, add-suc, mul-one, mul_assoc, pow-suc, mul-add-div_right, one-le-pow,
}
use reduction.Prelude.{
  ℕ, zero, suc, ◌+◌, ◌-◌, ◌*◌, ◌/◌, ◌^◌, ◌≤◌, ◌<◌, ◌≡◌, refl, sym, ap, ap₂, ◌∙◌, Bool, true, false,
  not, ◌&&◌, ◌||◌, List, [], ◌∷◌, map, none, some, ◌==◌, ltb, leb, if◌then◌else◌, any, arith,
  is_some, Bool-cases, Option-cases, inl, inr, ◌⊎◌,
}
use reduction.Acl.{
  IpAddr, v4, v6, to_ipv4_mapped, to_canonical, IpNetOps, IpNet, AccessControl, net_v4, net_v6,
  contains, canonicalize_v6, canonicalize_net, new, check, is_allowed, is_denied, ok, err,
  access_denied, is_empty,
}

pub record IpNetSemantics (net : IpNetOps) : Type 0 where
  pub addr_v4 : net.Ipv4Net → ℕ
  pub prefix_len_v4 : net.Ipv4Net → ℕ

-- The documented behaviour of the ipnet crate that the code relies on.
pub record IpNetLaws (net : IpNetOps) (s : IpNetSemantics net) : Type 0 where
  pub new_v4_fits :
      (addr prefix : ℕ)
      → prefix ≤ 32
      → (n : net.Ipv4Net) × (net.new_v4 addr prefix ≡ some n)
        × (s.addr_v4 n ≡ addr)
        × (s.prefix_len_v4 n ≡ prefix)
  pub prefix_len_v4_le : (n : net.Ipv4Net) → s.prefix_len_v4 n ≤ 32
  pub prefix_len_v6_le : (n : net.Ipv6Net) → net.prefix_len_v6 n ≤ 128
  pub contains_v4_lem :
      (n : net.Ipv4Net) (ip : ℕ)
      → net.contains_v4 n ip
        ≡ (s.addr_v4 n / 2 ^ (32 - s.prefix_len_v4 n) == ip / 2 ^ (32 - s.prefix_len_v4 n))
  pub contains_v6_lem :
      (n : net.Ipv6Net) (ip : ℕ)
      → net.contains_v6 n ip
        ≡ (net.addr_v6 n / 2 ^ (128 - net.prefix_len_v6 n) == ip / 2 ^ (128 - net.prefix_len_v6 n))

abbrev pub mapped_block : ℕ
mapped_block = 0xffff * 2 ^ 32

abbrev pub value : IpAddr → ℕ
value (v4 n) = mapped_block + n
value (v6 n) = n

abbrev pub is_ipv4 : IpAddr → Bool
is_ipv4 (v4 n) = true
is_ipv4 (v6 n) = is_some (to_ipv4_mapped n)

abbrev same : Bool → Bool → Bool
same true b = b
same false b = not b

pow-add : (i j : ℕ) → 2 ^ (i + j) ≡ 2 ^ i * 2 ^ j
pow-add i zero = rw (add-zero, mul-one)
pow-add i (suc j) =
    rw (add-suc, pow-suc 2 (i + j), pow-suc 2 j) (rw (pow-add i j) (mul_assoc (2 ^ i) (2 ^ j) 2))

block_split : (k : ℕ) → k ≤ 32 → 2 ^ 32 ≡ 2 ^ (32 - k) * 2 ^ k
block_split k h =
    let whole : 32 ≡ 32 - k + k = omega arith in ap (λ t. 2 ^ t) whole ∙ pow-add (32 - k) k

block_div : (k a : ℕ) → k ≤ 32 → (mapped_block + a) / 2 ^ k ≡ 0xffff * 2 ^ (32 - k) + a / 2 ^ k
block_div k a h =
    let full : mapped_block + a ≡ 0xffff * 2 ^ (32 - k) * 2 ^ k + a =
      grind (arith, block_split k h) in
    ap (λ (t : ℕ). t / 2 ^ k) full
    ∙ mul-add-div_right {m = 2 ^ k} (one-le-pow k 2 (omega arith)) (0xffff * 2 ^ (32 - k)) a

-- In front of a prefix that takes in the block, the block makes no difference.
block_eq :
    (k a b : ℕ)
    → k ≤ 32
    → ((mapped_block + a) / 2 ^ k == (mapped_block + b) / 2 ^ k) ≡ (a / 2 ^ k == b / 2 ^ k)
block_eq k a b h = ground (arith, block_div k a h, block_div k b h)

mapped_value : (n m : ℕ) → to_ipv4_mapped n ≡ some m → n ≡ mapped_block + m
mapped_value n m h = ground arith

module _ (net : IpNetOps) (s : IpNetSemantics net) (laws : IpNetLaws net s) where
  -- The network as a prefix of 128 bits, and whether it is an IPv4 network.
  abbrev pub base : IpNet net → ℕ
  base (net_v4 n) = mapped_block + s.addr_v4 n
  base (net_v6 n) = net.addr_v6 n

  abbrev pub bits : IpNet net → ℕ
  bits (net_v4 n) = 96 + s.prefix_len_v4 n
  bits (net_v6 n) = net.prefix_len_v6 n

  abbrev pub is_ipv4_net : IpNet net → Bool
  is_ipv4_net (net_v4 n) = true
  is_ipv4_net (net_v6 n) = leb 96 (net.prefix_len_v6 n) && is_some (to_ipv4_mapped (net.addr_v6 n))

  -- A network matches the addresses of its family that agree with it on its prefix.
  abbrev pub matches : IpAddr → IpNet net → Bool
  matches ip n =
      same (is_ipv4_net n) (is_ipv4 ip)
      && (base n / 2 ^ (128 - bits n) == value ip / 2 ^ (128 - bits n))

  contains_v4-matches :
      (n : net.Ipv4Net) (ip : ℕ) → net.contains_v4 n ip ≡ matches (v4 ip) (net_v4 n)
  contains_v4-matches n ip =
      let k = 32 - s.prefix_len_v4 n in
      let e : 128 - (96 + s.prefix_len_v4 n) ≡ k = omega (arith, laws.prefix_len_v4_le n) in
      rw e (laws.contains_v4_lem n ip ∙ sym (block_eq k (s.addr_v4 n) ip (omega arith)))

  matches-to_canonical : (ip : IpAddr) (n : IpNet net) → matches (to_canonical ip) n ≡ matches ip n
  matches-to_canonical (v4 ip) n = refl
  matches-to_canonical (v6 ip) n = elim (Option-cases (to_ipv4_mapped ip)) [
    | inl e ↦ rw (e, to_canonical) (ground (arith, e))
    | inr (m, e) ↦ rw (e, to_canonical) (ground (arith, e, mapped_value ip m e))
  ]

  -- An address that `to_canonical` returns.
  abbrev IsCanonical : IpAddr → Type 0
  IsCanonical (v4 ip) = Unit {0}
  IsCanonical (v6 ip) = to_ipv4_mapped ip ≡ none

  to_canonical-IsCanonical : (ip : IpAddr) → IsCanonical (to_canonical ip)
  to_canonical-IsCanonical (v4 ip) = tt
  to_canonical-IsCanonical (v6 ip) = elim (Option-cases (to_ipv4_mapped ip)) [
    | inl e ↦ rw (e, to_canonical) e
    | inr (m, e) ↦ rw (e, to_canonical) tt
  ]

  -- A V6 network stays as it is, or is folded to the IPv4 network with the same prefix of 128 bits.
  abbrev Folds : net.Ipv6Net → IpNet net → Type 0
  Folds n c =
      (c ≡ net_v6 n) × (is_ipv4_net (net_v6 n) ≡ false)
      ⊎ ((f : net.Ipv4Net) × (c ≡ net_v4 f)
          × (net.addr_v6 n ≡ mapped_block + s.addr_v4 f)
          × (net.prefix_len_v6 n ≡ 96 + s.prefix_len_v4 f)
          × (is_ipv4_net (net_v6 n) ≡ true))

  canonicalize-Folds : (n : net.Ipv6Net) → Folds n (canonicalize_v6 net n)
  unfolding canonicalize_v6
  canonicalize-Folds n = elim (Bool-cases (ltb (net.prefix_len_v6 n) 96)) [
    | inl short ↦ inl (ground arith, ground arith)
    | inr long ↦ elim (Option-cases (to_ipv4_mapped (net.addr_v6 n))) [
      | inl e ↦ inl (ground (arith, e), ground (arith, e))
      | inr (m, e) ↦
          let (f, folded, addr, prefix) =
            laws.new_v4_fits m (net.prefix_len_v6 n - 96)
              (ground (arith, laws.prefix_len_v6_le n)) in
          inr (
            f,
            ground (arith, e, folded),
            ground (arith, mapped_value (net.addr_v6 n) m e, addr),
            ground (arith, prefix),
            ground (arith, e),
          )
    ]
  ]

  contains_v6-matches :
      (n : net.Ipv6Net) (ip : IpAddr)
      → IsCanonical ip
      → contains net (canonicalize_v6 net n) ip ≡ matches ip (net_v6 n)
  contains_v6-matches n (v4 ip) c = elim (canonicalize-Folds n) [
    | inl (e, f) ↦ rw (e, f) refl
    | inr (f, e, addr, prefix, t) ↦ rw (e, t, addr, prefix) (contains_v4-matches f ip)
  ]
  contains_v6-matches n (v6 ip) c = elim (canonicalize-Folds n) [
    | inl (e, f) ↦ rw (e, f, c) (laws.contains_v6_lem n ip)
    | inr (f, e, addr, prefix, t) ↦ rw (e, t, c) refl
  ]

  contains-matches :
      (n : IpNet net) (ip : IpAddr)
      → contains net (canonicalize_net net n) (to_canonical ip) ≡ matches ip n
  unfolding canonicalize_net
  contains-matches (net_v4 n) ip =
      on_v4 (to_canonical ip) (to_canonical-IsCanonical ip) ∙ matches-to_canonical ip (net_v4 n)
    where
      on_v4 : (a : IpAddr) → IsCanonical a → contains net (net_v4 n) a ≡ matches a (net_v4 n)
      on_v4 (v4 a) c = contains_v4-matches n a
      on_v4 (v6 a) c = rw c refl
  contains-matches (net_v6 n) ip =
      contains_v6-matches n (to_canonical ip) (to_canonical-IsCanonical ip)
      ∙ matches-to_canonical ip (net_v6 n)

  any-matches :
      (ns : List (IpNet net)) (ip : IpAddr)
      → any (λ n. contains net n (to_canonical ip)) (map (canonicalize_net net) ns)
        ≡ any (matches ip) ns
  any-matches [] ip = refl
  any-matches (n ∷ ns) ip = ap₂ ◌||◌ (contains-matches n ip) (any-matches ns ip)

  -- For every pair of lists and every address, in either notation: a match in the deny list denies;
  -- otherwise an allow list that is not empty denies what it does not match; all else is admitted.
  pub check-matches :
      (allow deny : List (IpNet net)) (ip : IpAddr)
      → check net (new net allow deny) ip ≡ (
          if any (matches ip) deny
          then err access_denied
          else if not (is_empty net allow) && not (any (matches ip) allow)
          then err access_denied
          else ok)
  unfolding check new is_allowed is_denied
  check-matches allow deny ip =
      ground (arith, any-matches deny ip, any-matches allow ip, empty-map allow)
    where
      empty-map :
          (ns : List (IpNet net)) → is_empty net (map (canonicalize_net net) ns) ≡ is_empty net ns
      empty-map [] = refl
      empty-map (n ∷ ns) = refl

-- A host that connects as ::ffff:a.b.c.d gets the answer that it gets as a.b.c.d, under every pair of
-- lists.
check_mapped :
    (net : IpNetOps) (acl : AccessControl net) (ip : ℕ)
    → ip < 2 ^ 32
    → check net acl (v6 (mapped_block + ip)) ≡ check net acl (v4 ip)
unfolding check is_allowed is_denied
check_mapped net acl ip h =
    let same_host : to_canonical (v6 (mapped_block + ip)) ≡ to_canonical (v4 ip) = ground arith in
    ap
      (λ a.
        if any (λ n. contains net n a) acl.deny
        then err access_denied
        else if not (is_empty net acl.allow) && not (any (λ n. contains net n a) acl.allow)
        then err access_denied
        else ok)
      same_host
