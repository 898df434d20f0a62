-- ===== src/Tunnel/Registry/Calls.antt =====
-- The calls of the registry (src/tunnel/registry.rs), and what each does to the buckets.
use reduction.Prelude.{
  ℕ, suc, ◌≡◌, refl, sym, ap, ◌∙◌, inl, inr, ite, Bool, true, false, not, none, some, List, [], ◌∷◌,
  ◌++◌, arith, leb, if◌then◌else◌, Bool-cases, Option-cases, unwrap_or, length, retain, Text,
  text_eq, text_dec,
}
use mathlib.Core.Option
use reduction.Prelude.Maps.{MapOps, keep}
use reduction.Tunnel.Revocation.{RevocationSet}
use reduction.Tunnel.Registry.{
  note_peer, TunnelSession, is_empty, TunnelRegistry, bucket, notify_session_waiters, wake_handle,
  note_refusal, take_refusal, register, put_back, deregister, deregister_all, revoke_matching,
  record_heartbeat, acquire, shutdown_all,
}

pub data Call : Type 0 where
  registered : TunnelSession → Call
  deregistered : Text → Text → Call
  all_deregistered : Text → Call
  swept : RevocationSet → Call
  stamped : ℕ → Text → Text → Call
  acquired : (ℕ → Bool) → Text → Call
  refused_wake : Text → Call
  refusal_taken : Text → Call
  handle_taken : Text → Call
  shut_down : Call

module _ (maps : (V : Type 0) → MapOps Text V text_dec) where
  unfoldable pub step : Call → TunnelRegistry maps → TunnelRegistry maps
  step (registered s) r = (register maps s r).0
  step (deregistered b id) r = (deregister maps b id r).0
  step (all_deregistered b) r = (deregister_all maps b r).0
  step (swept set) r = (revoke_matching maps set r).0
  step (stamped now b id) r = (record_heartbeat maps now b id r).0
  step (acquired closed b) r = (acquire maps closed b r).0
  step (refused_wake b) r = note_refusal maps b r
  step (refusal_taken b) r = (take_refusal maps b r).0
  step (handle_taken b) r = (wake_handle maps b r).0
  step shut_down r = shutdown_all maps r

  -- The first call first.
  unfoldable pub run : List Call → TunnelRegistry maps → TunnelRegistry maps
  run [] r = r
  run (c ∷ cs) r = run cs (step c r)

  -- A bucket after a change of the map.
  abbrev pub at : Text → (maps (List TunnelSession)).Map → List TunnelSession
  at b m = unwrap_or ((maps (List TunnelSession)).get b m) []

  pub at-insert :
      (j k : Text) (v : List TunnelSession) (m : (maps (List TunnelSession)).Map)
      → at j ((maps (List TunnelSession)).insert k v m) ≡ ite (text_dec k j) v (at j m)
  at-insert j k v m = ground (arith, (maps (List TunnelSession)).get-insert j k v m)

  pub at-remove :
      (j k : Text) (m : (maps (List TunnelSession)).Map)
      → at j ((maps (List TunnelSession)).remove k m) ≡ ite (text_dec k j) [] (at j m)
  at-remove j k m = ground (arith, (maps (List TunnelSession)).get-remove j k m)

  kept_or_empty :
      (ss : List TunnelSession) → unwrap_or (keep (λ xs. not (is_empty xs)) (some ss)) [] ≡ ss
  kept_or_empty [] = refl
  kept_or_empty (x ∷ ss) = refl

  pub at-swept :
      (j : Text) (p : TunnelSession → Bool) (m : (maps (List TunnelSession)).Map)
      → at j (
          (maps (List TunnelSession)).retain
            (λ ss. not (is_empty ss))
            ((maps (List TunnelSession)).alter (retain p) m))
        ≡ retain p (at j m)
  at-swept j p m =
      let M = maps (List TunnelSession) in
      elim (Option-cases (M.get j m)) [
        | inl absent ↦ rw (M.get-retain, M.get-alter, absent) refl
        | inr (ss, there) ↦ rw (M.get-retain, M.get-alter, there) (kept_or_empty (retain p ss))
      ]

  pub sessions-notify :
      (k : Text) (r : TunnelRegistry maps) → (notify_session_waiters maps k r).sessions ≡ r.sessions
  unfolding notify_session_waiters
  sessions-notify k r = elim (Option-cases ((maps ℕ).get k r.wake_notify)) [
    | inl e ↦ rw (e, notify_session_waiters) refl
    | inr (n, e) ↦ rw (e, notify_session_waiters) refl
  ]

  sessions-peer :
      (b : Bool) (peers : (maps ℕ).Map) (r : TunnelRegistry maps)
      → (if b then record r { control_peers = peers } else r).sessions ≡ r.sessions
  sessions-peer true peers r = refl
  sessions-peer false peers r = refl

  max-peer :
      (b : Bool) (peers : (maps ℕ).Map) (r : TunnelRegistry maps)
      → (if b then record r { control_peers = peers } else r).max_sessions_per_backend
        ≡ r.max_sessions_per_backend
  max-peer true peers r = refl
  max-peer false peers r = refl

  pub sessions-note_peer :
      (s : TunnelSession) (r : TunnelRegistry maps) → (note_peer maps s r).sessions ≡ r.sessions
  unfolding note_peer
  sessions-note_peer s r = sessions-peer s.is_control_peer _ r

  pub max-notify :
      (k : Text) (r : TunnelRegistry maps)
      → (notify_session_waiters maps k r).max_sessions_per_backend ≡ r.max_sessions_per_backend
  unfolding notify_session_waiters
  max-notify k r = elim (Option-cases ((maps ℕ).get k r.wake_notify)) [
    | inl e ↦ rw (e, notify_session_waiters) refl
    | inr (n, e) ↦ rw (e, notify_session_waiters) refl
  ]

  pub max-note_peer :
      (s : TunnelSession) (r : TunnelRegistry maps)
      → (note_peer maps s r).max_sessions_per_backend ≡ r.max_sessions_per_backend
  unfolding note_peer
  max-note_peer s r = max-peer s.is_control_peer _ r

  pub at-put_back :
      (j k : Text) (kept : List TunnelSession) (r : TunnelRegistry maps)
      → at j (put_back maps k kept r).sessions ≡ ite (text_dec k j) kept (at j r.sessions)
  unfolding put_back
  at-put_back j k [] r = at-remove j k r.sessions
  at-put_back j k (s ∷ kept) r = at-insert j k (s ∷ kept) r.sessions

  -- The bucket that a registration leaves: one session more, below the limit.
  pub at-register :
      (j : Text) (s : TunnelSession) (r : TunnelRegistry maps)
      → at j (register maps s r).0.sessions
        ≡ ite
            (text_dec s.backend_id j)
            (if leb r.max_sessions_per_backend (length (bucket maps s.backend_id r))
              then bucket maps s.backend_id r
              else bucket maps s.backend_id r ++ (s ∷ []))
            (bucket maps j r)
  unfolding register
  at-register j s r =
      elim (Bool-cases (leb r.max_sessions_per_backend (length (bucket maps s.backend_id r)))) [
        | inl full ↦
            rw (full, register) (at-insert j s.backend_id (bucket maps s.backend_id r) r.sessions)
        | inr room ↦
            rw (room, register, sessions-notify, sessions-note_peer)
              (at-insert j s.backend_id (bucket maps s.backend_id r ++ (s ∷ [])) r.sessions)
      ]

  -- A deregistration takes the session out of its backend's bucket and touches no other.
  pub at-deregister :
      (j b id : Text) (r : TunnelRegistry maps)
      → at j (deregister maps b id r).0.sessions
        ≡ ite
            (text_dec b j)
            (retain (λ s. not (text_eq s.session_id id)) (bucket maps b r))
            (bucket maps j r)
  unfolding deregister
  at-deregister j b id r = elim (Option-cases ((maps (List TunnelSession)).get b r.sessions)) [
    | inl absent ↦ rw (absent, deregister) (absent_kept (text_dec b j) absent)
    | inr (ss, there) ↦
        rw (there, deregister) (at-put_back j b (retain (λ s. not (text_eq s.session_id id)) ss) _)
  ]
    where
      absent_kept :
          (d : Dec (b ≡ j))
          → (maps (List TunnelSession)).get b r.sessions ≡ none
          → at j r.sessions ≡ ite d [] (at j r.sessions)
      absent_kept (yes q) absent =
          ap (λ k. at k r.sessions) (sym q) ∙ ap (λ o. unwrap_or o []) absent
      absent_kept (no n) absent = refl

  max-put_back :
      (k : Text) (kept : List TunnelSession) (r : TunnelRegistry maps)
      → (put_back maps k kept r).max_sessions_per_backend ≡ r.max_sessions_per_backend
  unfolding put_back
  max-put_back k [] r = refl
  max-put_back k (s ∷ kept) r = refl

  pub max-deregister :
      (b id : Text) (r : TunnelRegistry maps)
      → (deregister maps b id r).0.max_sessions_per_backend ≡ r.max_sessions_per_backend
  unfolding deregister
  max-deregister b id r = elim (Option-cases ((maps (List TunnelSession)).get b r.sessions)) [
    | inl absent ↦ rw (absent, deregister) refl
    | inr (ss, there) ↦ rw (there, deregister) (max-put_back b _ _)
  ]

  pub wake-notify :
      (j k : Text) (r : TunnelRegistry maps)
      → (maps ℕ).get j (notify_session_waiters maps k r).wake_notify
        ≡ ite
            (text_dec k j)
            (Option.map suc ((maps ℕ).get j r.wake_notify))
            ((maps ℕ).get j r.wake_notify)
  unfolding notify_session_waiters
  wake-notify j k r = elim (Option-cases ((maps ℕ).get k r.wake_notify)) [
    | inl absent ↦ rw (absent, notify_session_waiters) (unnoticed (text_dec k j) absent)
    | inr (n, there) ↦
        rw (there, notify_session_waiters)
          ((maps ℕ).get-insert j k (suc n) r.wake_notify ∙ noticed n (text_dec k j) there)
  ]
    where
      unnoticed :
          (d : Dec (k ≡ j))
          → (maps ℕ).get k r.wake_notify ≡ none
          → (maps ℕ).get j r.wake_notify
            ≡ ite d (Option.map suc ((maps ℕ).get j r.wake_notify)) ((maps ℕ).get j r.wake_notify)
      unnoticed (yes q) absent =
          let gone = ap (λ i. (maps ℕ).get i r.wake_notify) (sym q) ∙ absent in rw gone refl
      unnoticed (no n) absent = refl

      noticed :
          (n : ℕ) (d : Dec (k ≡ j))
          → (maps ℕ).get k r.wake_notify ≡ some n
          → ite d (some (suc n)) ((maps ℕ).get j r.wake_notify)
            ≡ ite d (Option.map suc ((maps ℕ).get j r.wake_notify)) ((maps ℕ).get j r.wake_notify)
      noticed n (yes q) there =
          let found = ap (λ i. (maps ℕ).get i r.wake_notify) (sym q) ∙ there in rw found refl
      noticed n (no m) there = refl

  wake-peer :
      (b : Bool) (peers : (maps ℕ).Map) (r : TunnelRegistry maps)
      → (if b then record r { control_peers = peers } else r).wake_notify ≡ r.wake_notify
  wake-peer true peers r = refl
  wake-peer false peers r = refl

  pub wake-note_peer :
      (s : TunnelSession) (r : TunnelRegistry maps)
      → (note_peer maps s r).wake_notify ≡ r.wake_notify
  unfolding note_peer
  wake-note_peer s r = wake-peer s.is_control_peer _ r

  wake-put_back :
      (k : Text) (kept : List TunnelSession) (r : TunnelRegistry maps)
      → (put_back maps k kept r).wake_notify ≡ r.wake_notify
  unfolding put_back
  wake-put_back k [] r = refl
  wake-put_back k (s ∷ kept) r = refl

  pub wake-deregister :
      (b id : Text) (r : TunnelRegistry maps)
      → (deregister maps b id r).0.wake_notify ≡ r.wake_notify
  unfolding deregister
  wake-deregister b id r = elim (Option-cases ((maps (List TunnelSession)).get b r.sessions)) [
    | inl absent ↦ rw (absent, deregister) refl
    | inr (ss, there) ↦ rw (there, deregister) (wake-put_back b _ _)
  ]
