-- ===== src/Tunnel/Registry/Waking.antt =====
-- A request parked on a backend is not forgotten (`wait_for_session` of src/tunnel/registry.rs). The
-- loop arms a `Notified` future, checks for a session and waits: the future, armed at a count, is
-- released once the count of the handle is larger.
use mathlib.Core.Option
use reduction.Prelude.{
  ℕ, suc, ◌%◌, ◌≤◌, ◌<◌, ◌≡◌, refl, ap, ◌∙◌, subst, ◌≢◌, ◌⊎◌, inl, inr, ite, if_pos, if_neg, Bool,
  true, false, not, some, List, [], ◌∷◌, ◌++◌, arith, leb, Bool-cases, Option-cases, unwrap_or,
  length, get_elem?, retain, Text, text_eq, text_dec,
}
use reduction.Prelude.Maps.{MapOps}
use reduction.Tunnel.Revocation.{is_revoked}
use reduction.Tunnel.Registry.{
  note_peer, TunnelSession, array_string, is_empty, TunnelRegistry, bucket, is_tunnel_backend,
  notify_session_waiters, wake_handle, note_refusal, take_refusal, register, deregister,
  deregister_all, revoke_matching, stamp, record_heartbeat, next_counter, acquire, shutdown_all,
}
use reduction.Tunnel.Registry.Calls.{
  Call, registered, deregistered, all_deregistered, swept, stamped, acquired, refused_wake,
  refusal_taken, handle_taken, shut_down, step, run, at, at-insert, at-remove, at-swept,
  at-deregister, sessions-notify, sessions-note_peer, wake-notify, wake-note_peer, wake-deregister,
}

retain_nonempty :
    (p : TunnelSession → Bool) (ss : List TunnelSession)
    → is_empty (retain p ss) ≡ false
    → is_empty ss ≡ false
retain_nonempty p [] e = e
retain_nonempty p (s ∷ ss) e = refl

stamp_nonempty :
    (now : ℕ) (id : Text) (ss : List TunnelSession)
    → is_empty (stamp now id ss).0 ≡ false
    → is_empty ss ≡ false
unfolding stamp
stamp_nonempty now id [] e = e
stamp_nonempty now id (s ∷ ss) e = refl

module _ (maps : (V : Type 0) → MapOps Text V text_dec) (b : Text) where
  is_tunnel_backend-bucket :
      (r : TunnelRegistry maps) → is_tunnel_backend maps b r ≡ not (is_empty (bucket maps b r))
  is_tunnel_backend-bucket r = elim (Option-cases ((maps (List TunnelSession)).get b r.sessions)) [
    | inl e ↦ rw (e, is_tunnel_backend) refl
    | inr (ss, e) ↦ rw (e, is_tunnel_backend) refl
  ]

  -- A call leaves the handle's count as it was and brings no first session, or raises the count.
  abbrev Roused : TunnelRegistry maps → TunnelRegistry maps → Type 0
  Roused r r' =
      (g : ℕ)
      → (maps ℕ).get b r.wake_notify ≡ some g
      → (((maps ℕ).get b r'.wake_notify ≡ some g)
          × (is_empty (bucket maps b r') ≡ false → is_empty (bucket maps b r) ≡ false))
        ⊎ ((maps ℕ).get b r'.wake_notify ≡ some (suc g))

  quiet :
      (r r' : TunnelRegistry maps)
      → r'.wake_notify ≡ r.wake_notify
      → (is_empty (bucket maps b r') ≡ false → is_empty (bucket maps b r) ≡ false)
      → Roused r r'
  quiet r r' same fewer g there = inl (ap ((maps ℕ).get b) same ∙ there, fewer)

  -- The bucket of another backend, or a part of this one's.
  part_of :
      (k : Text) (x y : List TunnelSession) (d : Dec (k ≡ b))
      → (k ≡ b → is_empty x ≡ false → is_empty y ≡ false)
      → is_empty (ite d x y) ≡ false
      → is_empty y ≡ false
  part_of k x y (yes q) h e = h q e
  part_of k x y (no n) h e = e

  quiet_part :
      (k : Text) (x : List TunnelSession) (r r' : TunnelRegistry maps)
      → r'.wake_notify ≡ r.wake_notify
      → bucket maps b r' ≡ ite (text_dec k b) x (bucket maps b r)
      → (k ≡ b → is_empty x ≡ false → is_empty (bucket maps b r) ≡ false)
      → Roused r r'
  quiet_part k x r r' same left part =
      quiet r r' same (λ e. part_of k x (bucket maps b r) (text_dec k b) part (rw left at e))

  deregister-Roused : (k id : Text) (r : TunnelRegistry maps) → Roused r (deregister maps k id r).0
  deregister-Roused k id r = quiet r (deregister maps k id r).0 (wake-deregister maps k id r) (λ e.
      part_of k _ (bucket maps b r) (text_dec k b)
        (λ q h. retain_nonempty _ (bucket maps b r) (
          subst
            (λ i. is_empty (retain (λ s. not (text_eq s.session_id id)) (bucket maps i r)) ≡ false)
            q h))
        (rw (at-deregister maps b k id r) at e))

  notify-Roused :
      (k : Text) (x r : TunnelRegistry maps)
      → x.wake_notify ≡ r.wake_notify
      → (k ≢ b → is_empty (bucket maps b x) ≡ false → is_empty (bucket maps b r) ≡ false)
      → Roused r (notify_session_waiters maps k x)
  notify-Roused k x r same others g there =
      let before = ap ((maps ℕ).get b) same ∙ there in
      elim (text_dec k b) [
        | yes q ↦
            inr
              (wake-notify maps b k x ∙ (if_pos (text_dec k b) q _ _ ∙ ap (Option.map suc) before))
        | no n ↦ inl (
          wake-notify maps b k x ∙ (if_neg (text_dec k b) n _ _ ∙ before),
          λ e. others n (subst (λ m. is_empty (at maps b m) ≡ false) (sessions-notify maps k x) e),
        )
      ]

  register-Roused : (s : TunnelSession) (r : TunnelRegistry maps) → Roused r (register maps s r).0
  unfolding register
  register-Roused s r =
      let k = s.backend_id in
      let entry = bucket maps k r in
      elim (Bool-cases (leb r.max_sessions_per_backend (length entry))) [
        | inl full ↦
            let r' : TunnelRegistry maps = record r {
              sessions = (maps (List TunnelSession)).insert k entry r.sessions;
            } in
            rw (full, register)
              (quiet_part k entry r r' refl (at-insert maps b k entry r.sessions)
                (λ q h. subst (λ i. is_empty (bucket maps i r) ≡ false) q h))
        | inr room ↦
            let x : TunnelRegistry maps = record r {
              sessions = (maps (List TunnelSession)).insert k (entry ++ (s ∷ [])) r.sessions;
            } in
            let left =
              ap (at maps b) (sessions-note_peer maps s x)
              ∙ at-insert maps b k (entry ++ (s ∷ [])) r.sessions in
            rw (room, register)
              (notify-Roused k (note_peer maps s x) r (wake-note_peer maps s x) (λ n e.
                part_of k (entry ++ (s ∷ [])) (bucket maps b r) (text_dec k b) (λ q. absurd (n q))
                  (rw left at e)))
      ]

  all-Roused : (k : Text) (r : TunnelRegistry maps) → Roused r (deregister_all maps k r).0
  unfolding deregister_all
  all-Roused k r = elim (Option-cases ((maps (List TunnelSession)).get k r.sessions)) [
    | inl absent ↦ rw (absent, deregister_all) (quiet r r refl (λ e. e))
    | inr (ss, there) ↦
        let r' : TunnelRegistry maps = record r {
          sessions = (maps (List TunnelSession)).remove k r.sessions;
        } in
        rw (there, deregister_all)
          (quiet_part k [] r r' refl (at-remove maps b k r.sessions) (λ q h. absurd (cc h)))
  ]

  stamped-Roused :
      (now : ℕ) (k id : Text) (r : TunnelRegistry maps)
      → Roused r (record_heartbeat maps now k id r).0
  unfolding record_heartbeat
  stamped-Roused now k id r = elim (Option-cases ((maps (List TunnelSession)).get k r.sessions)) [
    | inl absent ↦ rw (absent, record_heartbeat) (quiet r r refl (λ e. e))
    | inr (ss, there) ↦
        let ss' = (stamp now id ss).0 in
        let r' : TunnelRegistry maps = record r {
          sessions = (maps (List TunnelSession)).insert k ss' r.sessions;
        } in
        let entry = ap (λ o. unwrap_or o []) there in
        rw (there, record_heartbeat)
          (quiet_part k ss' r r' refl (at-insert maps b k ss' r.sessions) (λ q h.
            subst (λ i. is_empty (bucket maps i r) ≡ false) q
              (ap is_empty entry ∙ stamp_nonempty now id ss h)))
  ]

  acquired-Roused :
      (closed : ℕ → Bool) (k : Text) (r : TunnelRegistry maps)
      → Roused r (acquire maps closed k r).0
  unfolding acquire
  acquired-Roused closed k r = go (bucket maps k r) refl
    where
      go : (ss : List TunnelSession) → bucket maps k r ≡ ss → Roused r (acquire maps closed k r).0
      go [] e = rw (e, acquire) (quiet r r refl (λ h. h))
      go (first ∷ rest) e =
          let session =
            unwrap_or (get_elem? (first ∷ rest) (r.rr_counter % length (first ∷ rest))) first in
          let counted : TunnelRegistry maps = record r { rr_counter = next_counter r.rr_counter } in
          elim (Bool-cases (closed session.connection)) [
            | inl gone ↦ rw (e, acquire, gone) (deregister-Roused k session.session_id counted)
            | inr open_ ↦ rw (e, acquire, open_) (quiet r counted refl (λ h. h))
          ]

  notified-Roused :
      (k : Text) (x r : TunnelRegistry maps)
      → x.wake_notify ≡ r.wake_notify
      → x.sessions ≡ r.sessions
      → Roused r (notify_session_waiters maps k x)
  notified-Roused k x r same left =
      notify-Roused k x r same (λ n e. subst (λ m. is_empty (at maps b m) ≡ false) left e)

  refused-Roused : (k : Text) (r : TunnelRegistry maps) → Roused r (note_refusal maps k r)
  unfolding note_refusal
  refused-Roused k r = elim (Option-cases (array_string k)) [
    | inl long ↦ rw (long, note_refusal) (quiet r r refl (λ e. e))
    | inr (id, short) ↦
        let x : TunnelRegistry maps = record r { refused = (maps Unit).insert id tt r.refused } in
        rw (short, note_refusal) (notified-Roused k x r refl refl)
  ]

  handle-Roused : (k : Text) (r : TunnelRegistry maps) → Roused r (wake_handle maps k r).0
  unfolding wake_handle
  handle-Roused k r = elim (Option-cases (array_string k)) [
    | inl long ↦ rw (long, wake_handle) (quiet r r refl (λ e. e))
    | inr (key, short) ↦ elim (Option-cases ((maps ℕ).get key r.wake_notify)) [
      | inr (n, there) ↦ rw (short, wake_handle, there) (quiet r r refl (λ e. e))
      | inl absent ↦
          rw (short, wake_handle, absent)
            (λ g there. inl (
              (maps ℕ).get-insert b key 0 r.wake_notify
                  ∙ (if_neg (text_dec key b)
                        (λ q. cc (ap (λ i. (maps ℕ).get i r.wake_notify) q, absent, there)) _ _
                      ∙ there),
              λ e. e,
            ))
    ]
  ]

  step-Roused : (c : Call) (r : TunnelRegistry maps) → Roused r (step maps c r)
  unfolding step revoke_matching take_refusal shutdown_all
  step-Roused (registered s) r = register-Roused s r
  step-Roused (deregistered k id) r = deregister-Roused k id r
  step-Roused (all_deregistered k) r = all-Roused k r
  step-Roused (swept set) r =
      let kept = λ (s : TunnelSession). not (is_revoked set s.identity) in
      quiet r (step maps (swept set) r) refl (λ e.
        retain_nonempty kept (bucket maps b r)
          (subst (λ x. is_empty x ≡ false) (at-swept maps b kept r.sessions) e))
  step-Roused (stamped now k id) r = stamped-Roused now k id r
  step-Roused (acquired closed k) r = acquired-Roused closed k r
  step-Roused (refused_wake k) r = refused-Roused k r
  step-Roused (refusal_taken k) r = quiet r (step maps (refusal_taken k) r) refl (λ e. e)
  step-Roused (handle_taken k) r = handle-Roused k r
  step-Roused shut_down r =
      quiet r (step maps shut_down r) refl
        (λ e. absurd (cc (rw ((maps (List TunnelSession)).get-empty b) at e)))

  -- The handle's count has reached `n`, and is past it wherever there is a session.
  abbrev Parked : ℕ → TunnelRegistry maps → Type 0
  Parked n r =
      (g : ℕ) × ((maps ℕ).get b r.wake_notify ≡ some g)
      × (n ≤ g)
      × (is_empty (bucket maps b r) ≡ false → n < g)

  step-Parked : (n : ℕ) (c : Call) (r : TunnelRegistry maps) → Parked n r → Parked n (step maps c r)
  step-Parked n c r (g, there, le, past) = elim (step-Roused c r g there) [
    | inl (same, fewer) ↦ (g, same, le, λ e. past (fewer e))
    | inr more ↦ (suc g, more, omega (arith, le), λ e. omega (arith, le))
  ]

  run-Parked :
      (n : ℕ) (cs : List Call) (r : TunnelRegistry maps) → Parked n r → Parked n (run maps cs r)
  unfolding run
  run-Parked n [] r h = h
  run-Parked n (c ∷ cs) r h = run-Parked n cs (step maps c r) (step-Parked n c r h)

  -- The count never falls.
  run-reached :
      (n : ℕ) (cs : List Call) (r : TunnelRegistry maps)
      → (maps ℕ).get b r.wake_notify ≡ some n
      → (g : ℕ) × ((maps ℕ).get b (run maps cs r).wake_notify ≡ some g) × (n ≤ g)
  unfolding run
  run-reached n [] r there = (n, there, omega arith)
  run-reached n (c ∷ cs) r there = elim (step-Roused c r n there) [
    | inl (same, _) ↦ run-reached n cs (step maps c r) same
    | inr more ↦
        let (g, later, le) = run-reached (suc n) cs (step maps c r) more in
        (g, later, omega (arith, le))
  ]

  -- A future armed at count `n` is released by the time there is a session: if after some calls the
  -- check finds no session, and after any further calls there is one, then the count is past `n`.
  pub no_lost_wakeup :
      (r : TunnelRegistry maps) (n : ℕ) (before after : List Call)
      → (maps ℕ).get b r.wake_notify ≡ some n
      → is_tunnel_backend maps b (run maps before r) ≡ false
      → is_tunnel_backend maps b (run maps after (run maps before r)) ≡ true
      → (g : ℕ) × ((maps ℕ).get b (run maps after (run maps before r)).wake_notify ≡ some g)
        × (n < g)
  no_lost_wakeup r n before after armed absent present =
      let checked = run maps before r in
      let (g, there, le) = run-reached n before r armed in
      let none_yet : is_empty (bucket maps b checked) ≡ true =
        ground (arith, absent, is_tunnel_backend-bucket checked) in
      let (g', there', _, past) =
        run-Parked n after checked (g, there, le, λ e. absurd (cc (none_yet, e))) in
      (
        g',
        there',
        past (ground (arith, present, is_tunnel_backend-bucket (run maps after checked))),
      )
