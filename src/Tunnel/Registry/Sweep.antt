-- ===== src/Tunnel/Registry/Sweep.antt =====
-- The limit of the buckets, and what a revocation leaves (src/tunnel/registry.rs).
use reduction.Prelude.{
  ℕ, ◌≤◌, ◌≡◌, refl, inl, inr, false, not, List, [], ◌∷◌, arith, Bool-cases, length, retain,
  length-append, All, All-append, Text, text_eq, text_dec, length-retain-le, All-retain,
}
use reduction.Prelude.Maps.{MapOps}
use reduction.Tunnel.Revocation.{RevocationSet, is_revoked}
use reduction.Tunnel.Registry.{TunnelSession, TunnelRegistry, new, bucket, revoke_matching, stamp}
use reduction.Tunnel.Registry.Calls.{Call, registered, run, at-swept}
use reduction.Tunnel.Registry.Bounds.{IsKept, Admits, run-Holds}

length-stamp :
    (now : ℕ) (id : Text) (ss : List TunnelSession) → length (stamp now id ss).0 ≡ length ss
unfolding stamp
length-stamp now id [] = refl
length-stamp now id (s ∷ ss) = ground (arith, length-stamp now id ss)

stamp-All :
    (P : TunnelSession → Type 0) (now : ℕ) (id : Text) (ss : List TunnelSession)
    → ((s : TunnelSession) → P s → P (record s { last_heartbeat = now }))
    → All P ss
    → All P (stamp now id ss).0
unfolding stamp
stamp-All P now id [] keeps h = tt
stamp-All P now id (s ∷ ss) keeps h = elim (Bool-cases (text_eq s.session_id id)) [
  | inl found ↦ rw found (keeps s h.0, h.1)
  | inr other ↦ rw other (h.0, stamp-All P now id ss keeps h.1)
]

abbrev pub WithinLimit : ℕ → Text → List TunnelSession → Type 0
WithinLimit limit b ss = (length ss ≤ limit) × All (λ s. s.backend_id ≡ b) ss

abbrev pub NoneRevoked : RevocationSet → Text → List TunnelSession → Type 0
NoneRevoked set b ss = All (λ s. is_revoked set s.identity ≡ false) ss

WithinLimit-IsKept : (limit : ℕ) → IsKept limit (λ s. Unit) (WithinLimit limit)
WithinLimit-IsKept limit = record {
  nothing = λ b. (omega arith, tt);
  fewer = λ b p ss h. (omega (arith, h.0, length-retain-le p ss), All-retain _ p ss h.1);
  restamped = λ b now id ss h.
      (omega (arith, h.0, length-stamp now id ss), stamp-All _ now id ss (λ s q. q) h.1);
  one_more = λ s ss q room h.
      (omega (arith, room, length-append ss (s ∷ [])), All-append _ ss (s ∷ []) h.1 (refl, tt));
}

NoneRevoked-IsKept :
    (limit : ℕ) (set : RevocationSet)
    → IsKept limit (λ s. is_revoked set s.identity ≡ false) (NoneRevoked set)
NoneRevoked-IsKept limit set = record {
  nothing = λ b. tt;
  fewer = λ b p ss h. All-retain _ p ss h;
  restamped = λ b now id ss h. stamp-All _ now id ss (λ s q. q) h;
  one_more = λ s ss q room h. All-append _ ss (s ∷ []) h (q, tt);
}

Admits-any : (c : Call) → Admits (λ s. Unit) c
Admits-any (registered s) = tt
Admits-any _ = tt

Admits-All : (cs : List Call) → All (Admits (λ s. Unit)) cs
Admits-All [] = tt
Admits-All (c ∷ cs) = (Admits-any c, Admits-All cs)

denied_gone :
    (set : RevocationSet) (ss : List TunnelSession)
    → All
        (λ s. is_revoked set s.identity ≡ false)
        (retain (λ s. not (is_revoked set s.identity)) ss)
denied_gone set [] = tt
denied_gone set (s ∷ ss) = elim (Bool-cases (is_revoked set s.identity)) [
  | inl denied ↦ rw denied (denied_gone set ss)
  | inr fine ↦ rw fine (fine, denied_gone set ss)
]

module _ (maps : (V : Type 0) → MapOps Text V text_dec) where
  -- After any calls on a new registry, every backend has at most as many sessions as the limit, and
  -- each of them is registered for that backend.
  pub buckets_bounded :
      (limit : ℕ) (cs : List Call) (b : Text)
      → WithinLimit limit b (bucket maps b (run maps cs (new maps limit)))
  unfolding new
  buckets_bounded limit cs b =
      (run-Holds maps limit _ _ (WithinLimit-IsKept limit) cs (new maps limit) (Admits-All cs)
          (λ j. rw (new, (maps (List TunnelSession)).get-empty j) (omega arith, tt), refl)).0
        b

  -- After a sweep, and as long as only identities that the set does not revoke register, no bucket
  -- has a session of a revoked identity, whatever is called.
  pub revoked_stays_out :
      (set : RevocationSet) (r : TunnelRegistry maps) (cs : List Call) (b : Text)
      → All (Admits (λ s. is_revoked set s.identity ≡ false)) cs
      → NoneRevoked set b (bucket maps b (run maps cs (revoke_matching maps set r).0))
  unfolding revoke_matching
  revoked_stays_out set r cs b admitted =
      (run-Holds maps r.max_sessions_per_backend _ _
          (NoneRevoked-IsKept r.max_sessions_per_backend set) cs (revoke_matching maps set r).0
          admitted
          (
            λ j.
                rw (at-swept maps j (λ s. not (is_revoked set s.identity)) r.sessions)
                  (denied_gone set (bucket maps j r)),
            refl,
          )).0
        b
