-- ===== src/Ingress/Peers.antt =====
-- The address that a peer carries (`Peer` of src/ingress/protocol.rs).
use reduction.Prelude.{ℕ, ◌^◌, ◌<◌, ◌≡◌, refl, ap, Option, none, some, arith}
use reduction.Acl.{IpAddr, v4, v6, to_ipv4_mapped, to_canonical}
use reduction.Ingress.{SocketAddr, slot, address, from_socket_addr, socket_addr}

abbrev pub Fits : IpAddr → Type 0
Fits (v4 a) = a < 2 ^ 32
Fits (v6 a) = a < 2 ^ 128

canonical : (a : ℕ) (o : Option ℕ) → address o a ≡ elim o [ some m ↦ v4 m | none ↦ v6 a ]
canonical a none = refl
canonical a (some m) = refl

-- A peer made of an address gives back that address in canonical form, with its port: an IPv4 address
-- comes back as itself, and so does an IPv6 address that maps none.
socket_addr-from :
    (addr : SocketAddr)
    → Fits addr.ip
    → socket_addr (from_socket_addr addr) ≡ record { ip = to_canonical addr.ip; port = addr.port }
unfolding socket_addr from_socket_addr
socket_addr-from addr fits = ap (λ i. record { ip = i; port = addr.port }) (same addr.ip fits)
  where
    same : (ip : IpAddr) → Fits ip → address (to_ipv4_mapped (slot ip)) (slot ip) ≡ to_canonical ip
    same (v4 a) h = ground (arith, h)
    same (v6 a) h = canonical a (to_ipv4_mapped a)
