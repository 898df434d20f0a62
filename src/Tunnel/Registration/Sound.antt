-- ===== src/Tunnel/Registration/Sound.antt =====
-- What a registration leaves behind, however it ends (src/tunnel/listener/registration.rs).
use reduction.Prelude.{
  ◌≡◌, refl, sym, ap, ◌∙◌, subst, Bool, true, false, Option, none, some, List, arith, if◌then◌else◌,
  length, Text, codes, text_eq→eq, text_dec, ◌⊎◌, inl, inr,
}
use reduction.Prelude.Maps.{MapOps}
use reduction.Prelude.Results.{ok, err}
use reduction.Tunnel.Protocol.{register_ack}
use reduction.Tunnel.Registry
use reduction.Tunnel.Registry.{TunnelSession, TunnelFailure, TunnelRegistry, bucket, deregister}
use reduction.Tunnel.Revocation.{is_revoked}
use reduction.Tunnel.Registration.{
  TunnelConfig, Refusal, tunnel, session, Link, Established, Committed, Listener, Outcome,
  reject_registration, accepted, establish_registration, admit_registration, total_sessions,
  roll_back, acknowledged, registered, session_of, commit_session, commit_with, commit_registration,
  and_commit, and_admit, handle_tunnel_connection,
}
use reduction.Tunnel.Registration.Gates.{
  accepted_lem, Admitted, admit_registration-Admitted, admit_registration-registry,
}
use reduction.Tunnel.Registration.Buckets.{Same, Grown, Unused, register_lem, roll_back-Same}

module _ (maps : (V : Type 0) → MapOps Text V text_dec) (link : Link) where
  -- The session that a commit has added, and what held when it was acknowledged.
  pub record IsEntered (est : Established) (r : TunnelRegistry maps) (t : Listener maps link)
      (c : Committed) : Type 0 where
    pub new : TunnelSession
    pub session_id : new.session_id ≡ c.session_id
    pub backend_id : (new.backend_id ≡ c.backend_id) × (c.backend_id ≡ est.backend_id)
    pub identity : new.identity ≡ est.identity
    pub added : Grown maps link new r t.registry
    pub written :
        (w : link.World) × (link.write_frame (register_ack c.session_id) w ≡ (t.world, true))
        × (is_revoked (link.revocation w) est.identity ≡ false)
    pub released : t.pending_registration ≡ false

  -- A refusal leaves the buckets as they were.
  abbrev pub Enters : Established → TunnelRegistry maps → Outcome maps link Committed → Type 0
  Enters est r x =
      ((e : Refusal) × (x.1 ≡ err e) × Same maps link r x.0.registry)
      ⊎ ((c : Committed) × (x.1 ≡ ok c) × IsEntered est r x.0 c)

  -- The session that is new, as the commit made it.
  abbrev Named : Established → Committed → TunnelSession → Type 0
  Named est c new =
      (new.session_id ≡ c.session_id)
      × (new.backend_id ≡ c.backend_id)
      × (c.backend_id ≡ est.backend_id)
      × (new.identity ≡ est.identity)

  module _ (est : Established) (r : TunnelRegistry maps) (new : TunnelSession)
      (unused : Unused maps link new.session_id r) where
    undone :
        (s : Listener maps link) (b id : Text)
        → new.backend_id ≡ b
        → new.session_id ≡ id
        → Grown maps link new r s.registry
        → Same maps link r (roll_back maps link b id s).registry
    undone s b id p q g =
        subst (λ k. Same maps link r (roll_back maps link k id s).registry) p
          (subst (λ i. Same maps link r (roll_back maps link new.backend_id i s).registry) q
            (roll_back-Same maps link new r s unused g))

    acknowledged-Enters :
        (c : Committed) (w : link.World) (s : Listener maps link) (b : Bool)
        → Named est c new
        → Grown maps link new r s.registry
        → is_revoked (link.revocation w) est.identity ≡ false
        → link.write_frame (register_ack c.session_id) w ≡ (s.world, b)
        → Enters est r (acknowledged maps link c s b)
    unfolding acknowledged roll_back
    acknowledged-Enters c w s false n g h k = inl (
      tunnel (codes "register ack write failed or stalled"),
      refl,
      undone s c.backend_id c.session_id n.1 n.0 g,
    )
    acknowledged-Enters c w s true n g h k = inr (
      c,
      refl,
      record {
        new = new;
        session_id = n.0;
        backend_id = (n.1, n.2);
        identity = n.3;
        added = g;
        written = (w, k, h);
        released = refl;
      },
    )

    recheck-Enters :
        (c : Committed) (s : Listener maps link) (b : Bool)
        → Named est c new
        → Grown maps link new r s.registry
        → is_revoked (link.revocation s.world) est.identity ≡ b
        → let sent = link.write_frame (register_ack c.session_id) s.world in
          Enters est r (
            if b
            then reject_registration maps link
                (codes "revoked")
                (tunnel (codes "identity revoked"))
                (roll_back maps link c.backend_id c.session_id s)
            else acknowledged maps link c (record s { world = sent.0 }) sent.1)
    unfolding reject_registration roll_back
    recheck-Enters c s true n g h =
        inl (tunnel (codes "identity revoked"), refl, undone s c.backend_id c.session_id n.1 n.0 g)
    recheck-Enters c s false n g h =
        let sent = link.write_frame (register_ack c.session_id) s.world in
        acknowledged-Enters c s.world (record s { world = sent.0 }) sent.1 n g h refl

    registered-Enters :
        (c : Committed) (s : Listener maps link) (failure : Option TunnelFailure)
        → Named est c new
        → ((e : TunnelFailure) × (failure ≡ some e) × Same maps link r s.registry)
          ⊎ ((failure ≡ none) × Grown maps link new r s.registry)
        → Enters est r (registered maps link est.identity c s failure)
    unfolding registered reject_registration
    registered-Enters c s (some e) n (inl (e', h, same)) = inl (session e, refl, same)
    registered-Enters c s (some e) n (inr (h, g)) = absurd (cc h)
    registered-Enters c s none n (inl (e, h, same)) = absurd (cc h)
    registered-Enters c s none n (inr (h, g)) =
        recheck-Enters c s (is_revoked (link.revocation s.world) est.identity) n g refl

  -- No session of the registry has an id that is drawn.
  abbrev pub Fresh : TunnelRegistry maps → Type 0
  Fresh r = (w : link.World) (id : Text) → (link.generate w).1 ≡ some id → Unused maps link id r

  commit_with-Enters :
      (est : Established) (s : Listener maps link) (o : Option Text)
      → ((id : Text) → o ≡ some id → Unused maps link id s.registry)
      → Enters est s.registry (commit_with maps link est s o)
  unfolding commit_with commit_session
  commit_with-Enters est s none u = inl (tunnel (codes "session id"), refl, λ b. refl)
  commit_with-Enters est s (some id) u =
      let (world, now) = link.now s.world in
      let new = session_of maps link est id now in
      let (registry, failure) = Registry.register maps new s.registry in
      registered-Enters est s.registry new (u id refl)
        (record {
          backend_id = est.backend_id;
          session_id = id;
          is_control_peer = new.is_control_peer;
        })
        (record s { registry = registry; world = world }) failure (refl, refl, refl, refl)
        (register_lem maps link new s.registry)

  -- A device that is registered: by the identity that its handshake proved, under the name of its
  -- certificate, not revoked, allowed by the configuration, and within the limits on sessions.
  pub record IsRegistered (config : TunnelConfig) (s t : Listener maps link) (c : Committed)
      : Type 0 where
    pub est : Established
    pub proven : (link.accept s.world).1 ≡ ok est.identity
    pub named : c.backend_id ≡ est.identity.common_name
    pub admitted : (w : link.World) × Admitted maps link config est (total_sessions maps link s) w
    pub entered : IsEntered est s.registry t c

  -- How a connection ends: refused, with the buckets as they were, or registered.
  abbrev pub Ends : TunnelConfig → Listener maps link → Outcome maps link Committed → Type 0
  Ends config s x =
      ((e : Refusal) × (x.1 ≡ err e) × Same maps link s.registry x.0.registry)
      ⊎ ((c : Committed) × (x.1 ≡ ok c) × IsRegistered config s x.0 c)

  -- What the gates have shown of a connection that passes them.
  abbrev Passed : TunnelConfig → Listener maps link → Established → Type 0
  Passed config s est =
      ((link.accept s.world).1 ≡ ok est.identity)
      × ((w : link.World) × Admitted maps link config est (total_sessions maps link s) w)

  entered-Ends :
      (config : TunnelConfig) (s : Listener maps link) (est : Established)
      (x : Outcome maps link Committed)
      → Passed config s est
      → Enters est s.registry x
      → Ends config s x
  entered-Ends config s est x passed (inl refused) = inl refused
  entered-Ends config s est x (proven, (w, admitted)) (inr (c, done, entered)) = inr (
    c,
    done,
    record {
      est = est;
      proven = proven;
      named =
          entered.backend_id.1
          ∙ text_eq→eq est.backend_id est.identity.common_name (ground (arith, admitted.bound));
      admitted = (w, admitted);
      entered = entered;
    },
  )

  and_commit-Ends :
      (config : TunnelConfig) (s : Listener maps link) (x : Outcome maps link Established)
      → Fresh s.registry
      → x.0.registry ≡ s.registry
      → ((est : Established) → x.1 ≡ ok est → Passed config s est)
      → Ends config s (and_commit maps link x)
  unfolding and_commit commit_registration
  and_commit-Ends config s (t, err e) fresh same passed =
      inl (e, refl, λ b. ap (λ r. bucket maps b r) same)
  and_commit-Ends config s (t, ok est) fresh same passed =
      let (world, id) = link.generate t.world in
      let x = commit_with maps link est (record t { world = world }) id in
      entered-Ends config s est x (passed est refl) (
        subst (λ r. Enters est r x) same
          (commit_with-Enters est (record t { world = world }) id
            (λ i k. subst (λ r. Unused maps link i r) (sym same) (fresh t.world i k))))

  and_admit-Ends :
      (config : TunnelConfig) (s : Listener maps link) (x : Outcome maps link Established)
      → Fresh s.registry
      → x.0.registry ≡ s.registry
      → ((est : Established) → x.1 ≡ ok est → (link.accept s.world).1 ≡ ok est.identity)
      → Ends config s (and_admit maps link config x)
  unfolding and_admit total_sessions
  and_admit-Ends config s (t, err e) fresh same proven =
      inl (e, refl, λ b. ap (λ r. bucket maps b r) same)
  and_admit-Ends config s (t, ok est) fresh same proven =
      let total = λ (r : TunnelRegistry maps).
        length (Registry.concat ((maps (List TunnelSession)).values r.sessions)) in
      and_commit-Ends config s (admit_registration maps link config est (total t.registry) t) fresh
        (admit_registration-registry maps link config est (total t.registry) t ∙ same)
        (λ est' k.
          let (is, admitted) =
            admit_registration-Admitted maps link config est est' (total t.registry) t k in
          (
            proven est refl ∙ ap (λ x. ok x.identity) is,
            (
              t.world,
              subst (λ r. Admitted maps link config est' (total r) t.world) same
                  (subst (λ x. Admitted maps link config x (total t.registry) t.world) is admitted),
            ),
          ))

  -- Where the session ids that are drawn are new: a connection that is refused, at whatever step, leaves
  -- the sessions of every backend as they were; and one that is not is registered as one session more of
  -- its backend, which is below its limit, under the name of the certificate that its handshake proved,
  -- with an identity that was not revoked when it was acknowledged, and within the list of allowed
  -- names and the cap on all sessions.
  pub handle_tunnel_connection-Ends :
      (config : TunnelConfig) (s : Listener maps link)
      → Fresh s.registry
      → Ends config s (handle_tunnel_connection maps link config s)
  unfolding handle_tunnel_connection establish_registration
  handle_tunnel_connection-Ends config s fresh =
      let (world, identity) = link.accept s.world in
      let (same, proven) = accepted_lem maps link (record s { world = world }) identity in
      and_admit-Ends config s (accepted maps link (record s { world = world }) identity) fresh same
        proven
