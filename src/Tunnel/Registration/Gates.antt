-- ===== src/Tunnel/Registration/Gates.antt =====
-- What the gates before a registration let through (src/tunnel/listener/registration.rs).
use reduction.Prelude.{
  ℕ, ◌==◌, ◌≡◌, refl, sym, ap, ◌∙◌, Bool, true, false, not, ◌&&◌, Option, none, some, arith,
  if◌then◌else◌, any, Text, text_eq, text_dec,
}
use reduction.Prelude.Maps.{MapOps}
use reduction.Prelude.Results.{Result, ok, err}
use reduction.Tunnel.Protocol.{
  TunnelFrame, register, register_ack, heartbeat, heartbeat_ack, new_stream, health, wake,
  refuse_wake, shutdown, protocol_version,
}
use reduction.Tunnel.Registry
use reduction.Tunnel.Registry.{TunnelSession, TunnelFailure, TunnelRegistry, bucket, deregister}
use reduction.Tunnel.Revocation.{PeerIdentity, is_revoked}
use reduction.Tunnel.Registration.{
  TunnelConfig, Refusal, Link, Established, exceeds_session_cap, Listener, Outcome,
  reject_registration, expect_register, greet, negotiate, accepted, admit_registration,
}

module _ (maps : (V : Type 0) → MapOps Text V text_dec) (link : Link) where
  abbrev identity_or : PeerIdentity → Result Refusal Established → PeerIdentity
  identity_or d (ok est) = est.identity
  identity_or d (err e) = d

  -- The registry is as it was, and the identity of what is established is the proven one.
  abbrev Proves : PeerIdentity → Listener maps link → Outcome maps link Established → Type 0
  Proves identity s r =
      (r.0.registry ≡ s.registry) × ((est : Established) → r.1 ≡ ok est → identity ≡ est.identity)

  expect_register-identity :
      (identity : PeerIdentity) (frame : Result Text TunnelFrame)
      → identity_or identity (expect_register maps link identity frame) ≡ identity
  unfolding expect_register
  expect_register-identity identity (err e) = refl
  expect_register-identity identity (ok (register b p c)) = refl
  expect_register-identity identity (ok (register_ack i)) = refl
  expect_register-identity identity (ok (heartbeat n)) = refl
  expect_register-identity identity (ok heartbeat_ack) = refl
  expect_register-identity identity (ok (new_stream n)) = refl
  expect_register-identity identity (ok (health b a)) = refl
  expect_register-identity identity (ok (wake b n)) = refl
  expect_register-identity identity (ok (refuse_wake b)) = refl
  expect_register-identity identity (ok (shutdown r)) = refl

  greet-Proves :
      (identity : PeerIdentity) (s : Listener maps link) (failed : Option Text)
      → Proves identity s (greet maps link identity s failed)
  unfolding greet
  greet-Proves identity s (some e) = (refl, λ est h. cc h)
  greet-Proves identity s none =
      let frame = (link.read_frame s.world).1 in
      (refl, λ est h. sym (expect_register-identity identity frame) ∙ ap (identity_or identity) h)

  if-Proves :
      (identity : PeerIdentity) (s : Listener maps link) (b : Bool)
      (x y : Outcome maps link Established)
      → Proves identity s x
      → Proves identity s y
      → Proves identity s (if b then x else y)
  if-Proves identity s true x y h k = h
  if-Proves identity s false x y h k = k

  negotiate-Proves :
      (identity : PeerIdentity) (s : Listener maps link) (version : Result Text ℕ)
      → Proves identity s (negotiate maps link identity s version)
  unfolding negotiate reject_registration
  negotiate-Proves identity s (err e) = (refl, λ est h. cc h)
  negotiate-Proves identity s (ok v) =
      let (world, failed) = link.write_preamble s.world in
      if-Proves identity s (not (v == protocol_version)) _
        (greet maps link identity (record s { world = world }) failed) (refl, λ est h. cc h)
        (greet-Proves identity (record s { world = world }) failed)

  -- The identity that the handshake proves.
  abbrev pub Proven : Result Text PeerIdentity → PeerIdentity → Type 0
  Proven r identity = r ≡ ok identity

  pub accepted_lem :
      (s : Listener maps link) (r : Result Text PeerIdentity)
      → let x = accepted maps link s r in
        (x.0.registry ≡ s.registry) × ((est : Established) → x.1 ≡ ok est → Proven r est.identity)
  unfolding accepted
  accepted_lem s (err e) = (refl, λ est h. cc h)
  accepted_lem s (ok identity) =
      let (world, version) = link.read_preamble s.world in
      let (same, proves) = negotiate-Proves identity (record s { world = world }) version in
      (same, λ est h. ap ok (proves est h))

  abbrev refuse : Text × Refusal → Listener maps link → Outcome maps link Established
  refuse (msg, e) s = reject_registration maps link msg e s

  gates_lem :
      (a b c d : Bool) (w x y z : Text × Refusal) (s : Listener maps link)
      (rest : Outcome maps link Established) (est : Established)
      → (if a
          then refuse w s
          else if b
          then refuse x s
          else if c
          then refuse y s
          else if d
          then refuse z s
          else rest).1
        ≡ ok est
      → (a ≡ false) × (b ≡ false) × (c ≡ false) × (d ≡ false) × (rest.1 ≡ ok est)
  unfolding reject_registration
  gates_lem true b c d w x y z s rest est h = cc h
  gates_lem false true c d w x y z s rest est h = cc h
  gates_lem false false true d w x y z s rest est h = cc h
  gates_lem false false false true w x y z s rest est h = cc h
  gates_lem false false false false w x y z s rest est h = (refl, refl, refl, refl, h)

  abbrev established_or : Established → Result Refusal Established → Established
  established_or d (ok est) = est
  established_or d (err e) = d

  -- What the gates have found of a connection.
  pub record Admitted (config : TunnelConfig) (est : Established) (total : ℕ) (w : link.World)
      : Type 0 where
    pub bound : not (text_eq est.backend_id est.identity.common_name) ≡ false
    pub trusted : is_revoked (link.revocation w) est.identity ≡ false
    pub allowed :
        (not (Registry.is_empty config.allowed_backend_ids)
          && not (any (λ id. text_eq id est.backend_id) config.allowed_backend_ids))
        ≡ false
    pub capped : exceeds_session_cap total config.max_total_sessions ≡ false

  pub admit_registration-Admitted :
      (config : TunnelConfig) (est est' : Established) (total : ℕ) (s : Listener maps link)
      → (admit_registration maps link config est total s).1 ≡ ok est'
      → (est ≡ est') × Admitted config est total s.world
  unfolding admit_registration
  admit_registration-Admitted config est est' total s h =
      let (bound, trusted, allowed, capped, h') =
        gates_lem (not (text_eq est.backend_id est.identity.common_name))
          (is_revoked (link.revocation s.world) est.identity)
          (not (Registry.is_empty config.allowed_backend_ids)
            && not (any (λ id. text_eq id est.backend_id) config.allowed_backend_ids))
          (exceeds_session_cap total config.max_total_sessions) (_, _) (_, _) (_, _) (_, _) s
          (s, ok est) est' h in
      (
        ap (established_or est) h',
        record { bound = bound; trusted = trusted; allowed = allowed; capped = capped },
      )

  pub admit_registration-registry :
      (config : TunnelConfig) (est : Established) (total : ℕ) (s : Listener maps link)
      → (admit_registration maps link config est total s).0.registry ≡ s.registry
  unfolding admit_registration reject_registration
  admit_registration-registry config est total s = ground arith
