-- ===== src/Tunnel/Registration/Buckets.antt =====
-- What a registration and its undoing leave in the registry (src/tunnel/listener/registration.rs).
use reduction.Prelude.{
  ◌<◌, ◌≡◌, refl, ap, ◌∙◌, ite, Bool, false, not, none, some, List, [], ◌∷◌, ◌++◌, arith, leb,
  if◌then◌else◌, length, retain, All, Text, text_eq, text_eq_refl, text_dec, ◌⊎◌, inl, inr,
  Bool-cases,
}
use reduction.Prelude.Maps.{MapOps}
use reduction.Tunnel.Registry
use reduction.Tunnel.Registry.{TunnelSession, TunnelFailure, TunnelRegistry, bucket, deregister}
use reduction.Tunnel.Registry.Calls.{at-register, at-deregister}
use reduction.Tunnel.Registration.{Link, Listener, roll_back}

module _ (maps : (V : Type 0) → MapOps Text V text_dec) (link : Link) where
  -- The buckets are as they were.
  abbrev pub Same : TunnelRegistry maps → TunnelRegistry maps → Type 0
  Same r t = (b : Text) → bucket maps b t ≡ bucket maps b r

  -- One session was added, at the end of its backend's bucket, which had room.
  abbrev pub Grown : TunnelSession → TunnelRegistry maps → TunnelRegistry maps → Type 0
  Grown new r t =
      (length (bucket maps new.backend_id r) < r.max_sessions_per_backend)
      × ((b : Text)
          → bucket maps b t
            ≡ ite (text_dec new.backend_id b) (bucket maps new.backend_id r ++ (new ∷ []))
                (bucket maps b r))

  -- No session of the registry has the id.
  abbrev pub Unused : Text → TunnelRegistry maps → Type 0
  Unused id r = (b : Text) → All (λ x. text_eq x.session_id id ≡ false) (bucket maps b r)

  same_bucket :
      (b k : Text) (r : TunnelRegistry maps) (d : Dec (k ≡ b))
      → ite d (bucket maps k r) (bucket maps b r) ≡ bucket maps b r
  same_bucket b k r (yes q) = ap (λ j. bucket maps j r) q
  same_bucket b k r (no n) = refl

  register-failure :
      (new : TunnelSession) (r : TunnelRegistry maps)
      → (Registry.register maps new r).1 ≡ (
          if leb r.max_sessions_per_backend (length (bucket maps new.backend_id r))
          then some (Registry.max_sessions r.max_sessions_per_backend new.backend_id)
          else none)
  unfolding Registry.register
  register-failure new r = ground arith

  after_register : TunnelSession → TunnelRegistry maps → Text → Bool → List TunnelSession
  after_register new r b full =
      ite (text_dec new.backend_id b)
        (if full then bucket maps new.backend_id r else bucket maps new.backend_id r ++ (new ∷ []))
        (bucket maps b r)

  -- The registry refuses the session and keeps its buckets, or takes it.
  pub register_lem :
      (new : TunnelSession) (r : TunnelRegistry maps)
      → let (t, failure) = Registry.register maps new r in
        ((e : TunnelFailure) × (failure ≡ some e) × Same r t) ⊎ ((failure ≡ none) × Grown new r t)
  unfolding after_register
  register_lem new r =
      let own = bucket maps new.backend_id r in
      let refusal = λ (b : Bool).
        if b
        then some (Registry.max_sessions r.max_sessions_per_backend new.backend_id)
        else none in
      elim (Bool-cases (leb r.max_sessions_per_backend (length own))) [
        | inl full ↦ inl (
          Registry.max_sessions r.max_sessions_per_backend new.backend_id,
          register-failure new r ∙ ap refusal full,
          λ b.
              at-register maps b new r
              ∙ ap (after_register new r b) full
              ∙ same_bucket b new.backend_id r (text_dec new.backend_id b),
        )
        | inr room ↦ inr (
          register-failure new r ∙ ap refusal room,
          (ground (arith, room), λ b. at-register maps b new r ∙ ap (after_register new r b) room),
        )
      ]

  retain_unused :
      (id : Text) (entry : List TunnelSession) (new : TunnelSession)
      → new.session_id ≡ id
      → All (λ x. text_eq x.session_id id ≡ false) entry
      → retain (λ x. not (text_eq x.session_id id)) (entry ++ (new ∷ [])) ≡ entry
  retain_unused id [] new h k = rw (h, text_eq_refl id) refl
  retain_unused id (x ∷ entry) new h (k, ks) =
      rw k (ap (λ l. x ∷ l) (retain_unused id entry new h ks))

  own_bucket : (k : Text) (x y : List TunnelSession) (d : Dec (k ≡ k)) → ite d x y ≡ x
  own_bucket k x y (yes q) = refl
  own_bucket k x y (no n) = absurd (n refl)

  other_bucket :
      (b k : Text) (r t : TunnelRegistry maps) (new : TunnelSession) (d : Dec (k ≡ b))
      → bucket maps b t ≡ ite d (bucket maps k r ++ (new ∷ [])) (bucket maps b r)
      → ite d (bucket maps k r) (bucket maps b t) ≡ bucket maps b r
  other_bucket b k r t new (yes q) h = ap (λ j. bucket maps j r) q
  other_bucket b k r t new (no n) h = h

  -- Where the session is taken out again, the buckets are as they were before it came.
  pub roll_back-Same :
      (new : TunnelSession) (r : TunnelRegistry maps) (s : Listener maps link)
      → Unused new.session_id r
      → Grown new r s.registry
      → Same r (roll_back maps link new.backend_id new.session_id s).registry
  unfolding roll_back
  roll_back-Same new r s unused (room, grown) b =
      let k = new.backend_id in
      let drop = retain (λ x. not (text_eq x.session_id new.session_id)) in
      let own : bucket maps k s.registry ≡ bucket maps k r ++ (new ∷ []) =
        grown k ∙ own_bucket k (bucket maps k r ++ (new ∷ [])) (bucket maps k r) (text_dec k k) in
      at-deregister maps b k new.session_id s.registry
      ∙ ap (λ l. ite (text_dec k b) (drop l) (bucket maps b s.registry)) own
      ∙ ap (λ l. ite (text_dec k b) l (bucket maps b s.registry))
          (retain_unused new.session_id (bucket maps k r) new refl (unused k))
      ∙ other_bucket b k r s.registry new (text_dec k b) (grown b)
