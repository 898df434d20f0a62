-- ===== src/Proxy/Attempt/Counts.antt =====
-- The permits that a semaphore has left (src/proxy/pool.rs, src/proxy/handler/attempt.rs).
use reduction.Prelude.{
  ℕ, ◌+◌, ◌-◌, ◌≡◌, inl, inr, ite, Bool, true, false, Option, none, some, arith, ltb, Option-cases,
  is_some, unwrap_or, Text, text_dec,
}
use reduction.Proxy.{Env, Server}
use reduction.Proxy.Gate.{release_permit}

-- One permit of the id that is held, if any.
abbrev pub held : Option Text → Text → ℕ
held none id = 0
held (some holder) id = ite (text_dec id holder) 1 0

module _ (e : Env) where
  -- The permits that an id has left, of so many.
  abbrev pub left_of : e.counts.Map → (Text → ℕ) → Text → ℕ
  left_of m most id = unwrap_or (e.counts.get id m) (most id)

  -- From `m` to `n` a permit of the holder was taken, if there is one, and no other; the semaphore of
  -- the holder is there.
  abbrev pub Present : Option Text → e.counts.Map → Type 0
  Present none m = Unit
  Present (some holder) m = is_some (e.counts.get holder m) ≡ true

  abbrev pub Takes : (Text → ℕ) → Option Text → e.counts.Map → e.counts.Map → Type 0
  Takes most holder m n =
      ((id : Text) → left_of n most id + held holder id ≡ left_of m most id) × Present holder n

  abbrev pub taken_by : Text → Bool → Option Text
  taken_by id true = some id
  taken_by id false = none

  insert-Present :
      (holder : Text) (n : ℕ) (b : Bool) (m : e.counts.Map)
      → Present (taken_by holder b) (e.counts.insert holder n m)
  insert-Present holder n true m = grind (arith, e.counts.get-insert holder holder n m)
  insert-Present holder n false m = tt

  pub take_one :
      (most : Text → ℕ) (m : e.counts.Map) (holder : Text) (available : ℕ)
      → available ≡ left_of m most holder
      → Takes most (taken_by holder (ltb 0 available)) m (e.counts.insert holder (available - 1) m)
  take_one most m holder available h = (
    λ id. grind (arith, e.counts.get-insert id holder (available - 1) m),
    insert-Present holder (available - 1) (ltb 0 available) m,
  )

  pub give_back :
      (most : Text → ℕ) (m n : e.counts.Map) (holder : Text) (available : ℕ)
      → Takes most (some holder) m n
      → e.counts.get holder n ≡ some available
      → Takes most none m (e.counts.insert holder (available + 1) n)
  give_back most m n holder available (counted, there) h = (
    λ id.
        grind (arith, e.counts.get-insert id holder (available + 1) n, counted id, counted holder),
    tt,
  )

  pub release_permit-Takes :
      (most : Text → ℕ) (m : e.counts.Map) (id : Text) (s : Server e)
      → Takes most (some id) m s.conn_limits
      → Takes most none m (release_permit e id s).conn_limits
  unfolding release_permit
  release_permit-Takes most m id s h = elim (Option-cases (e.counts.get id s.conn_limits)) [
    | inl k ↦ cc (k, h.1)
    | inr (n, k) ↦
        (let back = give_back most m s.conn_limits id n h k in rw (release_permit, k) back)
  ]
