-- ===== src/Tunnel.antt =====
-- The tunnel (src/tunnel): the frames of its control stream, the registry of its
-- sessions and the list of revoked identities.
pub mod Protocol
pub mod Plain
pub mod Revocation
pub mod Registry
pub mod Registration
mod Tests
mod RegistryTests
