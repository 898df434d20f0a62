-- ===== src/Proxy/Attempt/Wake.antt =====
-- The wait for a woken backend that is reached directly (`wait_for_reachable_tcp` of
-- src/proxy/handler/attempt/wake.rs), with times in milliseconds. The clock, the timer and the
-- connection are parameters; the loop is on fuel.
mod Tests
use reduction.Prelude.{
  ℕ, zero, suc, ◌+◌, ◌-◌, ◌*◌, ◌/◌, ◌%◌, ◌^◌, ◌≤◌, ◌<◌, min, max, ◌≡◌, refl, sym, ap, ap₂, ◌∙◌,
  subst, fun_ext, ◌≢◌, ◌↔◌, ◌⊎◌, inl, inr, ite, if_pos, if_neg, Bool, true, false, not, ◌&&◌, ◌||◌,
  Option, none, some, List, [], ◌∷◌, ◌++◌, map, append-nil, append_assoc, arith, ltb, leb, ◌==◌,
  if◌then◌else◌, tests, Bool-cases, Option-cases, is_some, is_none, unwrap_or, length, get_elem?,
  take, drop, any, all, retain, length-append, All, All-append, take-length_append,
  drop-length_append, Text, codes, text_eq, text_eq→eq, text_eq_refl, text_eq_iff, text_dec,
  starts_with, ends_with, eq_ignore_ascii_case, to_ascii_lowercase, dec_lt, dec_le, ℕ_discrete,
  length-retain-le, length-drop, All-retain, retain-All,
}

-- The runtime: an instant is read, a connection is tried for a limited time, and a timer is awaited.
pub record Runtime : Type 1 where
  pub World : Type 0
  pub now : World → World × ℕ
  pub connect : ℕ → World → World × Bool
  pub sleep_until : ℕ → World → World

-- Time goes on: `time` is the instant of a world. A timer that ends has reached its instant.
pub record IsMonotonic (r : Runtime) : Type 0 where
  pub time : r.World → ℕ
  pub connect_later : (t : ℕ) (w : r.World) → time w ≤ time (r.connect t w).0
  pub now_between : (w : r.World) → (time w ≤ (r.now w).1) × ((r.now w).1 ≤ time (r.now w).0)
  pub sleep_until_past : (t : ℕ) (w : r.World) → t ≤ time (r.sleep_until t w)

abbrev pub probe_connect_timeout : ℕ
probe_connect_timeout = 500

abbrev pub probe_interval : ℕ
probe_interval = 200

module _ (r : Runtime) where
  -- The rest of the loop after the instant is read, where `again` is its next round.
  unfoldable pub give_up_or :
      (r.World → Option (r.World × Bool)) → ℕ → r.World × ℕ → Option (r.World × Bool)
  give_up_or again deadline (w, now) =
      if leb deadline now
      then some (w, false)
      else again (r.sleep_until (min (now + probe_interval) deadline) w)

  -- The rest of the round after the probe.
  unfoldable pub after_probe :
      (r.World → Option (r.World × Bool)) → ℕ → r.World × Bool → Option (r.World × Bool)
  after_probe again deadline (w, true) = some (w, true)
  after_probe again deadline (w, false) = give_up_or again deadline (r.now w)

  unfoldable pub wait_for_reachable_tcp : ℕ → ℕ → r.World → Option (r.World × Bool)
  wait_for_reachable_tcp zero deadline w = none
  wait_for_reachable_tcp (suc fuel) deadline w =
      after_probe (wait_for_reachable_tcp fuel deadline) deadline
        (r.connect probe_connect_timeout w)

module _ (r : Runtime) (law : IsMonotonic r) (deadline : ℕ) where
  -- The wait ended by a probe that connected, or at the deadline or after it.
  abbrev pub Ends : Option (r.World × Bool) → Type 0
  Ends o =
      (end : r.World × Bool) × (o ≡ some end)
      × (((end.1 ≡ true) × (w : r.World) × (r.connect probe_connect_timeout w ≡ end))
          ⊎ ((end.1 ≡ false) × (deadline ≤ law.time end.0)))

  if-Ends :
      (b : Bool) (x y : Option (r.World × Bool))
      → (b ≡ true → Ends x)
      → (b ≡ false → Ends y)
      → Ends (if b then x else y)
  if-Ends true x y h k = h refl
  if-Ends false x y h k = k refl

  give_up_or-Ends :
      (again : r.World → Option (r.World × Bool)) (w : r.World) (now : ℕ)
      → now ≤ law.time w
      → ((v : r.World)
          → now < deadline
          → min (now + probe_interval) deadline ≤ law.time v
          → Ends (again v))
      → Ends (give_up_or r again deadline (w, now))
  unfolding give_up_or
  give_up_or-Ends again w now h k =
      let next = r.sleep_until (min (now + probe_interval) deadline) w in
      if-Ends (leb deadline now) (some (w, false)) (again next)
        (λ late. ((w, false), refl, inr (refl, ground (arith, h, late))))
        (λ early.
          k next (ground (arith, early))
            (law.sleep_until_past (min (now + probe_interval) deadline) w))

  after_probe-Ends :
      (again : r.World → Option (r.World × Bool)) (v : r.World) (p : r.World × Bool)
      → r.connect probe_connect_timeout v ≡ p
      → Ends (give_up_or r again deadline (r.now p.0))
      → Ends (after_probe r again deadline p)
  unfolding after_probe
  after_probe-Ends again v (w, true) h k = ((w, true), refl, inl (refl, v, h))
  after_probe-Ends again v (w, false) h k = k

  -- A round from a time after which the rest of the loop ends.
  round-Ends :
      (again : r.World → Option (r.World × Bool)) (w : r.World)
      → ((v : r.World) (now : ℕ)
          → law.time w ≤ now
          → now < deadline
          → min (now + probe_interval) deadline ≤ law.time v
          → Ends (again v))
      → Ends (after_probe r again deadline (r.connect probe_connect_timeout w))
  round-Ends again w k =
      let p = r.connect probe_connect_timeout w in
      let (from, to) = law.now_between p.0 in
      after_probe-Ends again w p refl (
        give_up_or-Ends again (r.now p.0).0 (r.now p.0).1 to (λ v early late.
          k v (r.now p.0).1 (omega (arith, from, law.connect_later probe_connect_timeout w)) early
            late))

  too_late :
      (w : r.World) (now : ℕ)
      → deadline ≤ law.time w + 0 * probe_interval
      → law.time w ≤ now
      → now < deadline
      → ⊥
  too_late w now h from early = omega (arith, h, from, early)

  -- The wait ends: from a time that is at most so many intervals before the deadline, one more
  -- probe than that is enough. It says that the backend is reachable only after a probe that
  -- connected, and that it is not only when the deadline has come.
  pub wait_for_reachable_tcp-Ends :
      (n : ℕ) (w : r.World)
      → deadline ≤ law.time w + n * probe_interval
      → Ends (wait_for_reachable_tcp r (suc n) deadline w)
  unfolding wait_for_reachable_tcp
  wait_for_reachable_tcp-Ends zero w h =
      round-Ends (wait_for_reachable_tcp r zero deadline) w
        (λ v now from early late. absurd (too_late w now h from early))
  wait_for_reachable_tcp-Ends (suc n) w h =
      round-Ends (wait_for_reachable_tcp r (suc n) deadline) w
        (λ v now from early late. wait_for_reachable_tcp-Ends n v (omega (arith, h, from, late)))
