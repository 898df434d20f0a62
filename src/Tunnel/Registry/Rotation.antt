-- ===== src/Tunnel/Registry/Rotation.antt =====
-- The rotation of `acquire_stream` over the sessions of a backend (src/tunnel/registry.rs).
use reduction.Prelude.{ℕ, zero, suc, Bool, false, Text, text_dec}
use reduction.Prelude.Maps.{MapOps}
use reduction.Tunnel.Registry.{TunnelRegistry, acquire}

abbrev pub all_open : ℕ → Bool
all_open c = false

module _ (maps : (V : Type 0) → MapOps Text V text_dec) (b : Text) where
  -- The registry after a number of acquisitions that find their connection open.
  pub turn : ℕ → TunnelRegistry maps → TunnelRegistry maps
  turn zero r = r
  turn (suc i) r = turn i (acquire maps all_open b r).0
