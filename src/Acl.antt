-- ===== src/Acl.antt =====
-- The allow and deny lists (src/acl.rs), over the addresses of the standard library and the networks of
-- the ipnet crate. An IPv4 address is a number below 2 ^ 32, an IPv6 address one below 2 ^ 128.
pub mod Matching
mod Tests
use reduction.Prelude.{
  ℕ, ◌+◌, ◌-◌, ◌*◌, ◌/◌, ◌%◌, ◌^◌, ◌≤◌, ◌<◌, ◌≡◌, Bool, true, false, not, ◌&&◌, List, [], ◌∷◌, map,
  Option, none, some, ◌==◌, ltb, if◌then◌else◌, any,
}

pub data IpAddr : Type 0 where
  v4 v6 : ℕ → IpAddr

-- `Ipv6Addr::to_ipv4_mapped`: the addresses ::ffff:a.b.c.d.
abbrev pub to_ipv4_mapped : ℕ → Option ℕ
to_ipv4_mapped n = if n / 2 ^ 32 == 0xffff then some (n % 2 ^ 32) else none

abbrev pub to_canonical : IpAddr → IpAddr
to_canonical (v4 n) = v4 n
to_canonical (v6 n) = elim (to_ipv4_mapped n) [ some m ↦ v4 m | none ↦ v6 n ]

-- What the code uses of the ipnet crate.
pub record IpNetOps : Type 1 where
  pub Ipv4Net : Type 0
  pub Ipv6Net : Type 0
  pub new_v4 : (addr prefix : ℕ) → Option Ipv4Net
  pub addr_v6 : Ipv6Net → ℕ
  pub prefix_len_v6 : Ipv6Net → ℕ
  pub contains_v4 : Ipv4Net → ℕ → Bool
  pub contains_v6 : Ipv6Net → ℕ → Bool

abbrev pub ipv4_mapped_prefix_bits : ℕ
ipv4_mapped_prefix_bits = 96

pub data ReductionError : Type 0 where
  access_denied : ReductionError

pub data Result : Type 0 where
  ok : Result
  err : ReductionError → Result

module _ (net : IpNetOps) where
  pub data IpNet : Type 0 where
    net_v4 : net.Ipv4Net → IpNet
    net_v6 : net.Ipv6Net → IpNet

  -- `IpNet::contains` matches within a family only.
  abbrev pub contains : IpNet → IpAddr → Bool
  contains (net_v4 n) (v4 ip) = net.contains_v4 n ip
  contains (net_v6 n) (v6 ip) = net.contains_v6 n ip
  contains _ _ = false

  pub canonicalize_v6 : net.Ipv6Net → IpNet
  canonicalize_v6 n =
      if ltb (net.prefix_len_v6 n) ipv4_mapped_prefix_bits
      then net_v6 n
      else elim (to_ipv4_mapped (net.addr_v6 n)) [
        | none ↦ net_v6 n
        | some mapped ↦ elim (net.new_v4 mapped (net.prefix_len_v6 n - ipv4_mapped_prefix_bits)) [
          | some folded ↦ net_v4 folded
          | none ↦ net_v6 n
        ]
      ]

  pub canonicalize_net : IpNet → IpNet
  canonicalize_net (net_v4 n) = net_v4 n
  canonicalize_net (net_v6 n) = canonicalize_v6 n

  pub record AccessControl : Type 0 where
    pub allow : List IpNet
    pub deny : List IpNet

  pub new : List IpNet → List IpNet → AccessControl
  new allow deny = record { allow = map canonicalize_net allow; deny = map canonicalize_net deny }

  pub is_allowed : AccessControl → IpAddr → Bool
  is_allowed acl ip = any (λ n. contains n ip) acl.allow

  pub is_denied : AccessControl → IpAddr → Bool
  is_denied acl ip = any (λ n. contains n ip) acl.deny

  abbrev is_empty : List IpNet → Bool
  is_empty [] = true
  is_empty (_ ∷ _) = false

  unfoldable pub check : AccessControl → IpAddr → Result
  unfolding is_allowed is_denied
  check acl ip =
      let canonical = to_canonical ip in
      if is_denied acl canonical
      then err access_denied
      else if not (is_empty acl.allow) && not (is_allowed acl canonical)
      then err access_denied
      else ok
