-- ===== src/Tunnel/Registration.antt =====
-- The registration of a tunnel session (src/tunnel/listener/registration.rs, exceeds_session_cap of
-- src/tunnel/listener.rs). The connection is a parameter, `Link`: the reads and writes on it, with their
-- time limits, the drawing of a session id and the clock change its `World`, in which the revocation
-- list may change as well. Metrics and logs are left out; so is the control loop, which follows.
pub mod Gates
pub mod Buckets
pub mod Sound
mod Tests
use reduction.Prelude.{
  ℕ, ◌==◌, ◌+◌, ◌≤◌, ◌≡◌, refl, sym, ap, ◌∙◌, subst, ite, Bool, true, false, not, ◌&&◌, ◌||◌,
  Option, none, some, List, [], ◌∷◌, ◌++◌, arith, leb, if◌then◌else◌, is_none, length, any, retain,
  All, Text, codes, text_eq, text_eq→eq, text_eq_refl, text_dec, ◌⊎◌, inl, inr, Bool-cases,
  append-nil,
}
use reduction.Prelude.Maps.{MapOps}
use reduction.Prelude.Results.{Result, ok, err}
use reduction.Tunnel.Protocol.{
  TunnelFrame, register, register_ack, heartbeat, heartbeat_ack, new_stream, health, wake,
  refuse_wake, shutdown, protocol_version,
}
use reduction.Tunnel.Registry
use reduction.Tunnel.Registry.{TunnelSession, TunnelFailure, TunnelRegistry, deregister}
use reduction.Tunnel.Revocation.{PeerIdentity, RevocationSet, is_revoked}

-- `TunnelConfig`, as far as a registration reads it.
pub record TunnelConfig : Type 0 where
  pub allowed_backend_ids : List Text
  pub max_total_sessions : Option ℕ

-- The error that is returned: a text of this code, what a read or write failed with, or the registry's.
pub data Refusal : Type 0 where
  tunnel stream : Text → Refusal
  session : TunnelFailure → Refusal

pub record Link : Type 1 where
  pub World : Type 0
  -- The handshake with the identity it proves, and the control stream.
  pub accept : World → World × Result Text PeerIdentity
  pub read_preamble : World → World × Result Text ℕ
  pub write_preamble : World → World × Option Text
  pub read_frame : World → World × Result Text TunnelFrame
  pub write_frame : TunnelFrame → World → World × Bool
  pub reject_and_close : Text → World → World
  pub generate : World → World × Option Text
  pub now : World → World × ℕ
  pub revocation : World → RevocationSet
  pub remote_addr : Text
  pub connection : ℕ
  pub control_tx : ℕ

pub record Established : Type 0 where
  pub identity : PeerIdentity
  pub backend_id : Text
  pub pool : Text
  pub capabilities : List Text

pub record Committed : Type 0 where
  pub backend_id : Text
  pub session_id : Text
  pub is_control_peer : Bool

unfoldable pub exceeds_session_cap : ℕ → Option ℕ → Bool
exceeds_session_cap current_total none = false
exceeds_session_cap current_total (some limit) = leb limit current_total

abbrev pub control_capability : Text
control_capability = codes "control"

module _ (maps : (V : Type 0) → MapOps Text V text_dec) (link : Link) where
  -- The registry, whether the permit of the handshake is held, and the connection.
  pub record Listener : Type 0 where
    pub registry : TunnelRegistry maps
    pub pending_registration : Bool
    pub world : link.World

  abbrev pub Outcome : Type 0 → Type 0
  Outcome A = Listener × Result Refusal A

  unfoldable pub reject_registration : {A : Type 0} → Text → Refusal → Listener → Outcome A
  reject_registration close_msg e s = (
    record s { pending_registration = false; world = link.reject_and_close close_msg s.world },
    err e,
  )

  -- The match on the first frame.
  unfoldable pub expect_register :
      PeerIdentity → Result Text TunnelFrame → Result Refusal Established
  expect_register identity (err e) = err (stream e)
  expect_register identity (ok (register backend_id pool capabilities)) = ok (record {
    identity = identity;
    backend_id = backend_id;
    pool = pool;
    capabilities = capabilities;
  })
  expect_register identity (ok _) = err (tunnel (codes "expected Register frame"))

  -- What follows the server's preamble.
  unfoldable pub greet : PeerIdentity → Listener → Option Text → Outcome Established
  greet identity s (some e) = (s, err (stream e))
  greet identity s none =
      let (world, frame) = link.read_frame s.world in
      (record s { world = world }, expect_register identity frame)

  unfoldable pub negotiate : PeerIdentity → Listener → Result Text ℕ → Outcome Established
  negotiate identity s (err e) = (s, err (stream e))
  negotiate identity s (ok peer_version) =
      if not (peer_version == protocol_version)
      then reject_registration (codes "unsupported protocol version")
          (tunnel (codes "unsupported protocol version")) s
      else let (world, failed) = link.write_preamble s.world in
        greet identity (record s { world = world }) failed

  unfoldable pub accepted : Listener → Result Text PeerIdentity → Outcome Established
  accepted s (err e) = (s, err (tunnel e))
  accepted s (ok identity) =
      let (world, version) = link.read_preamble s.world in
      negotiate identity (record s { world = world }) version

  unfoldable pub establish_registration : Listener → Outcome Established
  establish_registration s =
      let (world, identity) = link.accept s.world in accepted (record s { world = world }) identity

  unfoldable pub admit_registration :
      TunnelConfig → Established → ℕ → Listener → Outcome Established
  admit_registration config established total s =
      if not (text_eq established.backend_id established.identity.common_name)
      then reject_registration (codes "backend_id does not match certificate")
          (tunnel (codes "backend_id does not match certificate CN")) s
      else if is_revoked (link.revocation s.world) established.identity
      then reject_registration (codes "revoked") (tunnel (codes "identity revoked")) s
      else if not (Registry.is_empty config.allowed_backend_ids)
          && not (any (λ id. text_eq id established.backend_id) config.allowed_backend_ids)
      then reject_registration (codes "not in allowlist")
          (tunnel (codes "backend not in allowlist")) s
      else if exceeds_session_cap total config.max_total_sessions
      then reject_registration (codes "at capacity") (tunnel (codes "global session cap reached")) s
      else (s, ok established)

  -- `registry.total_sessions()`.
  unfoldable pub total_sessions : Listener → ℕ
  total_sessions s =
      length (Registry.concat ((maps (List TunnelSession)).values s.registry.sessions))

  unfoldable pub roll_back : Text → Text → Listener → Listener
  roll_back backend_id session_id s = record s {
    registry = (deregister maps backend_id session_id s.registry).0;
  }

  -- The match on the write of the acknowledgement.
  unfoldable pub acknowledged : Committed → Listener → Bool → Outcome Committed
  acknowledged c s false = (
    roll_back c.backend_id c.session_id s,
    err (tunnel (codes "register ack write failed or stalled")),
  )
  acknowledged c s true = (record s { pending_registration = false }, ok c)

  -- What follows the call of `registry.register`.
  unfoldable pub registered :
      PeerIdentity → Committed → Listener → Option TunnelFailure → Outcome Committed
  registered identity c s (some e) = reject_registration (codes "at capacity") (session e) s
  registered identity c s none =
      if is_revoked (link.revocation s.world) identity
      then reject_registration (codes "revoked") (tunnel (codes "identity revoked"))
          (roll_back c.backend_id c.session_id s)
      else let (world, written) = link.write_frame (register_ack c.session_id) s.world in
        acknowledged c (record s { world = world }) written

  abbrev pub session_of : Established → Text → ℕ → TunnelSession
  session_of established session_id now = record {
    session_id = session_id;
    backend_id = established.backend_id;
    pool = established.pool;
    remote_addr = link.remote_addr;
    connected_at = now;
    last_heartbeat = now;
    control_tx = link.control_tx;
    connection = link.connection;
    identity = established.identity;
    is_control_peer = any (λ c. text_eq c control_capability) established.capabilities;
  }

  unfoldable pub commit_session : Established → TunnelSession → Listener → Outcome Committed
  commit_session established new s =
      let (registry, failure) = Registry.register maps new s.registry in
      registered established.identity
        (record {
          backend_id = new.backend_id;
          session_id = new.session_id;
          is_control_peer = new.is_control_peer;
        })
        (record s { registry = registry }) failure

  unfoldable pub commit_with : Established → Listener → Option Text → Outcome Committed
  commit_with established s none = (s, err (tunnel (codes "session id")))
  commit_with established s (some session_id) =
      let (world, now) = link.now s.world in
      commit_session established (session_of established session_id now)
        (record s { world = world })

  unfoldable pub commit_registration : Established → Listener → Outcome Committed
  commit_registration established s =
      let (world, session_id) = link.generate s.world in
      commit_with established (record s { world = world }) session_id

  -- `admit_registration(..).await?` and `commit_registration(..).await?`.
  unfoldable pub and_commit : Outcome Established → Outcome Committed
  and_commit (s, err e) = (s, err e)
  and_commit (s, ok established) = commit_registration established s

  unfoldable pub and_admit : TunnelConfig → Outcome Established → Outcome Committed
  and_admit config (s, err e) = (s, err e)
  and_admit config (s, ok established) =
      and_commit (admit_registration config established (total_sessions s) s)

  -- The pipeline of `handle_tunnel_connection`, up to its control loop.
  unfoldable pub handle_tunnel_connection : TunnelConfig → Listener → Outcome Committed
  handle_tunnel_connection config s = and_admit config (establish_registration s)
