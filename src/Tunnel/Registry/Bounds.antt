-- ===== src/Tunnel/Registry/Bounds.antt =====
-- What every bucket of the registry satisfies after any calls (src/tunnel/registry.rs).
use reduction.Prelude.{
  ℕ, ◌%◌, ◌<◌, ◌≡◌, refl, ap, ◌∙◌, subst, inl, inr, ite, Bool, not, List, [], ◌∷◌, ◌++◌, arith, leb,
  Bool-cases, Option-cases, unwrap_or, length, get_elem?, retain, All, Text, text_dec,
}
use reduction.Prelude.Maps.{MapOps}
use reduction.Tunnel.Revocation.{RevocationSet, is_revoked}
use reduction.Tunnel.Registry.{
  TunnelSession, array_string, TunnelRegistry, bucket, notify_session_waiters, wake_handle,
  note_refusal, take_refusal, register, deregister, deregister_all, revoke_matching, stamp,
  record_heartbeat, next_counter, acquire, shutdown_all,
}
use reduction.Tunnel.Registry.Calls.{
  Call, registered, deregistered, all_deregistered, swept, stamped, acquired, refused_wake,
  refusal_taken, handle_taken, shut_down, step, run, at-insert, at-remove, at-swept, at-register,
  at-deregister, sessions-notify, max-notify, max-note_peer, max-deregister,
}

-- A property of the buckets that the calls keep, where the sessions registered satisfy `Q`.
pub record IsKept (limit : ℕ) (Q : TunnelSession → Type 0) (P : Text → List TunnelSession → Type 0)
    : Type 0 where
  pub nothing : (b : Text) → P b []
  pub fewer :
      (b : Text) (p : TunnelSession → Bool) (ss : List TunnelSession) → P b ss → P b (retain p ss)
  pub restamped :
      (b : Text) (now : ℕ) (id : Text) (ss : List TunnelSession) → P b ss → P b (stamp now id ss).0
  pub one_more :
      (s : TunnelSession) (ss : List TunnelSession)
      → Q s
      → length ss < limit
      → P s.backend_id ss
      → P s.backend_id (ss ++ (s ∷ []))

abbrev pub Admits : (TunnelSession → Type 0) → Call → Type 0
Admits Q (registered s) = Q s
Admits Q _ = Unit

module _ (maps : (V : Type 0) → MapOps Text V text_dec) (limit : ℕ) (Q : TunnelSession → Type 0)
    (P : Text → List TunnelSession → Type 0) (keeps : IsKept limit Q P) where
  -- Every bucket satisfies the property, and the limit is the one given.
  abbrev pub Holds : TunnelRegistry maps → Type 0
  Holds r = ((b : Text) → P b (bucket maps b r)) × (r.max_sessions_per_backend ≡ limit)

  at_ite :
      (j k : Text) (x y : List TunnelSession) (d : Dec (k ≡ j)) → P k x → P j y → P j (ite d x y)
  at_ite j k x y (yes q) h i = subst (λ z. P z x) q h
  at_ite j k x y (no n) h i = i

  register-Holds :
      (s : TunnelSession) (r : TunnelRegistry maps) → Q s → Holds r → Holds (register maps s r).0
  unfolding register
  register-Holds s r q h =
      let entry = bucket maps s.backend_id r in
      elim (Bool-cases (leb r.max_sessions_per_backend (length entry))) [
        | inl full ↦ (
          λ j.
              rw (at-register maps j s r, full)
                (at_ite j s.backend_id entry (bucket maps j r) (text_dec s.backend_id j)
                  (h.0 s.backend_id) (h.0 j)),
          rw (full, register) h.1,
        )
        | inr room ↦ (
          λ j.
              rw (at-register maps j s r, room)
                (at_ite j s.backend_id (entry ++ (s ∷ [])) (bucket maps j r)
                  (text_dec s.backend_id j)
                  (keeps.one_more s entry q (ground (arith, room, h.1)) (h.0 s.backend_id))
                  (h.0 j)),
          rw (room, register, max-notify, max-note_peer) h.1,
        )
      ]

  deregister-Holds :
      (b id : Text) (r : TunnelRegistry maps) → Holds r → Holds (deregister maps b id r).0
  deregister-Holds b id r h = (
    λ j. rw (at-deregister maps j b id r) (
        at_ite j b _ (bucket maps j r) (text_dec b j) (keeps.fewer b _ (bucket maps b r) (h.0 b))
          (h.0 j)),
    max-deregister maps b id r ∙ h.1,
  )

  all-Holds : (b : Text) (r : TunnelRegistry maps) → Holds r → Holds (deregister_all maps b r).0
  unfolding deregister_all
  all-Holds b r h = elim (Option-cases ((maps (List TunnelSession)).get b r.sessions)) [
    | inl absent ↦ rw (absent, deregister_all) h
    | inr (ss, there) ↦
        rw (there, deregister_all)
          (
            λ j.
                rw (at-remove maps j b r.sessions)
                  (at_ite j b [] (bucket maps j r) (text_dec b j) (keeps.nothing b) (h.0 j)),
            h.1,
          )
  ]

  stamped-Holds :
      (now : ℕ) (b id : Text) (r : TunnelRegistry maps)
      → Holds r
      → Holds (record_heartbeat maps now b id r).0
  unfolding record_heartbeat
  stamped-Holds now b id r h = elim (Option-cases ((maps (List TunnelSession)).get b r.sessions)) [
    | inl absent ↦ rw (absent, record_heartbeat) h
    | inr (ss, there) ↦
        let old : P b ss = subst (λ z. P b z) (ap (λ o. unwrap_or o []) there) (h.0 b) in
        rw (there, record_heartbeat)
          (
            λ j. rw (at-insert maps j b (stamp now id ss).0 r.sessions) (
                at_ite j b (stamp now id ss).0 (bucket maps j r) (text_dec b j)
                  (keeps.restamped b now id ss old) (h.0 j)),
            h.1,
          )
  ]

  swept-Holds :
      (set : RevocationSet) (r : TunnelRegistry maps)
      → Holds r
      → Holds (revoke_matching maps set r).0
  unfolding revoke_matching
  swept-Holds set r h = (
    λ j.
        rw (at-swept maps j (λ s. not (is_revoked set s.identity)) r.sessions)
          (keeps.fewer j _ (bucket maps j r) (h.0 j)),
    h.1,
  )

  acquired-Holds :
      (closed : ℕ → Bool) (b : Text) (r : TunnelRegistry maps)
      → Holds r
      → Holds (acquire maps closed b r).0
  unfolding acquire
  acquired-Holds closed b r h = go (bucket maps b r) refl
    where
      go : (ss : List TunnelSession) → bucket maps b r ≡ ss → Holds (acquire maps closed b r).0
      go [] e = rw (e, acquire) h
      go (first ∷ rest) e =
          let session =
            unwrap_or (get_elem? (first ∷ rest) (r.rr_counter % length (first ∷ rest))) first in
          let counted : TunnelRegistry maps = record r { rr_counter = next_counter r.rr_counter } in
          elim (Bool-cases (closed session.connection)) [
            | inl gone ↦ rw (e, acquire, gone) (deregister-Holds b session.session_id counted h)
            | inr open_ ↦ rw (e, acquire, open_) h
          ]

  notify-Holds :
      (b : Text) (r : TunnelRegistry maps) → Holds r → Holds (notify_session_waiters maps b r)
  notify-Holds b r h = (λ j. rw (sessions-notify maps b r) (h.0 j), max-notify maps b r ∙ h.1)

  refused-Holds : (b : Text) (r : TunnelRegistry maps) → Holds r → Holds (note_refusal maps b r)
  unfolding note_refusal
  refused-Holds b r h = elim (Option-cases (array_string b)) [
    | inl long ↦ rw (long, note_refusal) h
    | inr (id, short) ↦
        rw (short, note_refusal)
          (notify-Holds b (record r { refused = (maps Unit).insert id tt r.refused }) h)
  ]

  handle-Holds : (b : Text) (r : TunnelRegistry maps) → Holds r → Holds (wake_handle maps b r).0
  unfolding wake_handle
  handle-Holds b r h = elim (Option-cases (array_string b)) [
    | inl long ↦ rw (long, wake_handle) h
    | inr (key, short) ↦ elim (Option-cases ((maps ℕ).get key r.wake_notify)) [
      | inl absent ↦ rw (short, wake_handle, absent) h
      | inr (n, there) ↦ rw (short, wake_handle, there) h
    ]
  ]

  pub step-Holds :
      (c : Call) (r : TunnelRegistry maps) → Admits Q c → Holds r → Holds (step maps c r)
  unfolding step
  step-Holds (registered s) r q h = register-Holds s r q h
  step-Holds (deregistered b id) r q h = deregister-Holds b id r h
  step-Holds (all_deregistered b) r q h = all-Holds b r h
  step-Holds (swept set) r q h = swept-Holds set r h
  step-Holds (stamped now b id) r q h = stamped-Holds now b id r h
  step-Holds (acquired closed b) r q h = acquired-Holds closed b r h
  step-Holds (refused_wake b) r q h = refused-Holds b r h
  step-Holds (refusal_taken b) r q h = unfold take_refusal in h
  step-Holds (handle_taken b) r q h = handle-Holds b r h
  step-Holds shut_down r q h =
      unfold shutdown_all in
      (λ j. rw ((maps (List TunnelSession)).get-empty j) (keeps.nothing j), h.1)

  pub run-Holds :
      (cs : List Call) (r : TunnelRegistry maps)
      → All (Admits Q) cs
      → Holds r
      → Holds (run maps cs r)
  unfolding run
  run-Holds [] r q h = h
  run-Holds (c ∷ cs) r q h = run-Holds cs (step maps c r) q.1 (step-Holds c r q.0 h)
