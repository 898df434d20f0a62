-- ===== src/Reload/Effects.antt =====
-- What a reload changes in the server (`apply_config_reload` of src/config_reload.rs).
use reduction.Prelude.{
  ◌≡◌, refl, sym, ap, ◌∙◌, ap₂, if_pos, if_neg, subst, inl, inr, Bool, true, false, not, ◌&&◌, ◌||◌,
  Bool-cases, Option, none, List, [], ◌∷◌, map, any, retain, arith, ◌==◌, Text, text_eq, text_eq→eq,
  text_eq_refl, text_dec, if◌then◌else◌,
}
use reduction.Prelude.Results.{Result, ok, err}
use reduction.Acl.{IpAddr, v4, v6}
use reduction.Cache.{clear}
use reduction.Circuit.Cells.{remove_backend}
use reduction.Ingress.{SocketAddr}
use reduction.Acl
use reduction.Balancer
use reduction.Router.{new}
use reduction.Tunnel.Revocation
use reduction.Tunnel.Revocation.{RevocationSet}
use reduction.Proxy.Course.{ReloadableState}
use reduction.Proxy.{Env, Server}
use reduction.Config.{same_ip, same_addr, contains}
use reduction.Config.Build.{Pools, build_backend_pools}
use reduction.Reload.{
  Reloader, Reload, Applied, backend_addresses, has_addr, contains_key, diff_removed_backends,
  republish, clean_up, clean_up_all, flush, routing_changed, apply_config_reload, to_evict,
  send_built, carry_on, stop,
}

module _ {A : Type 0} where
  any-retain :
      (same p : A → Bool) (t : A)
      → ((x : A) → same x ≡ true → p x ≡ p t)
      → (xs : List A) → any same (retain p xs) ≡ (any same xs && p t)
  any-retain same p t h [] = refl
  any-retain same p t h (x ∷ xs) = ground (arith, any-retain same p t h xs, h x)

same_ip→eq : (a b : IpAddr) → same_ip a b ≡ true → a ≡ b
same_ip→eq (v4 a) (v4 b) h = ap v4 (ground arith)
same_ip→eq (v6 a) (v6 b) h = ap v6 (ground arith)
same_ip→eq (v4 a) (v6 b) h = cc
same_ip→eq (v6 a) (v4 b) h = cc

both : (p q : Bool) → (p && q) ≡ true → (p ≡ true) × (q ≡ true)
both true q h = (refl, h)
both false q h = cc

same_addr→eq : (a b : SocketAddr) → same_addr a b ≡ true → a ≡ b
same_addr→eq a b h =
    let (ips, ports) = both (same_ip a.ip b.ip) (a.port == b.port) h in
    ap₂ (λ ip port. record { ip = ip; port = port }) (same_ip→eq a.ip b.ip ips) (ground arith)

two_tests :
    {A : Type 0}
    → (p q : Bool) (x y : A) → (if q then x else (if p then x else y)) ≡ (if p || q then x else y)
two_tests true true x y = refl
two_tests true false x y = refl
two_tests false q x y = refl

module _ (e : Env) (same_weight : e.f64.Float → e.f64.Float → Bool) where
  keys-contains :
      (pools : Pools e.f64) (id : Text)
      → contains (map (λ entry. entry.0) pools) id ≡ contains_key e same_weight pools id
  keys-contains [] id = refl
  keys-contains (entry ∷ pools) id = ap (λ b. text_eq entry.0 id || b) (keys-contains pools id)

  -- A pool that was there and is not.
  abbrev pub is_gone : Pools e.f64 → Pools e.f64 → Text → Bool
  is_gone old new_pools id =
      contains_key e same_weight old id && not (contains_key e same_weight new_pools id)

  diff_removed_backends-is_gone :
      (old new_pools : Pools e.f64) (id : Text)
      → contains (diff_removed_backends e same_weight old new_pools).1 id ≡ is_gone old new_pools id
  unfolding diff_removed_backends
  diff_removed_backends-is_gone old new_pools id =
      any-retain (λ x. text_eq x id) (λ x. not (contains_key e same_weight new_pools x)) id
        (λ x h. ap (λ x. not (contains_key e same_weight new_pools x)) (text_eq→eq x id h))
        (map (λ entry. entry.0) old)
      ∙ ap (λ b. b && not (contains_key e same_weight new_pools id)) (keys-contains old id)

  removed_addrs-contains :
      (old new_pools : Pools e.f64) (addr : SocketAddr)
      → has_addr e same_weight (diff_removed_backends e same_weight old new_pools).0 addr ≡ (
          has_addr e same_weight (backend_addresses e same_weight old) addr
          && not (has_addr e same_weight (backend_addresses e same_weight new_pools) addr))
  unfolding diff_removed_backends
  removed_addrs-contains old new_pools addr =
      any-retain (λ x. same_addr x addr)
        (λ x. not (has_addr e same_weight (backend_addresses e same_weight new_pools) x)) addr
        (λ x h.
          ap (λ x. not (has_addr e same_weight (backend_addresses e same_weight new_pools) x))
            (same_addr→eq x addr h))
        (backend_addresses e same_weight old)

  get-remove_test :
      (x id : Text) (m : e.counts.Map)
      → e.counts.get id (e.counts.remove x m) ≡ (if text_eq x id then none else e.counts.get id m)
  get-remove_test x id m = elim (Bool-cases (text_eq x id)) [
    | inl same ↦
        e.counts.get-remove id x m
        ∙ if_pos (text_dec x id) (text_eq→eq x id same) none (e.counts.get id m)
        ∙ rw same refl
    | inr other ↦
        e.counts.get-remove id x m
        ∙ if_neg (text_dec x id) (λ k. cc (other, text_eq_refl id, k)) none (e.counts.get id m)
        ∙ rw other refl
  ]

  clean_up_all-queues :
      (ids : List Text) (s : Server e) (id : Text)
      → (e.counts.get id (clean_up_all e same_weight ids s).queues
          ≡ (if contains ids id then none else e.counts.get id s.queues))
        × (e.counts.get id (clean_up_all e same_weight ids s).circuit_breakers.breakers
            ≡ (if contains ids id then none else e.counts.get id s.circuit_breakers.breakers))
  unfolding clean_up_all remove_backend
  clean_up_all-queues [] s id = (refl, refl)
  clean_up_all-queues (x ∷ ids) s id =
      let (queues, breakers) = clean_up_all-queues ids (clean_up e same_weight x s) id in
      (
        queues
            ∙ ap (λ g. if contains ids id then none else g) (get-remove_test x id s.queues)
            ∙ two_tests (text_eq x id) (contains ids id) none (e.counts.get id s.queues),
        breakers
            ∙ ap (λ g. if contains ids id then none else g)
                (get-remove_test x id s.circuit_breakers.breakers)
            ∙ two_tests (text_eq x id) (contains ids id) none
                (e.counts.get id s.circuit_breakers.breakers),
      )

  -- What the clean-up leaves alone.
  clean_up_all-rest :
      (ids : List Text) (s : Server e)
      → let t = clean_up_all e same_weight ids s in
        (t.conn_limits ≡ s.conn_limits)
        × (t.circuit_breakers.cells ≡ s.circuit_breakers.cells)
        × (t.response_cache ≡ s.response_cache)
        × (t.sent ≡ s.sent)
  unfolding clean_up_all remove_backend
  clean_up_all-rest [] s = (refl, refl, refl, refl)
  clean_up_all-rest (x ∷ ids) s = clean_up_all-rest ids (clean_up e same_weight x s)

  -- What is dropped with the pools that are gone.
  abbrev Swept : Pools e.f64 → Pools e.f64 → Server e → Server e → Type 0
  Swept old new_pools s t =
      (id : Text)
      → (e.counts.get id t.queues
          ≡ (if is_gone old new_pools id then none else e.counts.get id s.queues))
        × (e.counts.get id t.circuit_breakers.breakers ≡ (
            if is_gone old new_pools id then none else e.counts.get id s.circuit_breakers.breakers))

  -- The responses kept: all, or none where the routing changed.
  abbrev Cached : Bool → Server e → Server e → Type 0
  Cached true s t = (key : Text) → e.lru.peek key t.response_cache.store ≡ none
  Cached false s t = t.response_cache ≡ s.response_cache

  clean_up_all-Swept :
      (old new_pools : Pools e.f64) (s : Server e)
      → Swept old new_pools s
          (clean_up_all e same_weight (diff_removed_backends e same_weight old new_pools).1 s)
  clean_up_all-Swept old new_pools s id =
      let (queues, breakers) =
        clean_up_all-queues (diff_removed_backends e same_weight old new_pools).1 s id in
      let gone = diff_removed_backends-is_gone old new_pools id in
      (
        queues ∙ ap (λ b. if b then none else e.counts.get id s.queues) gone,
        breakers ∙ ap (λ b. if b then none else e.counts.get id s.circuit_breakers.breakers) gone,
      )

  -- The server after a published reload.
  abbrev Cleaned : Pools e.f64 → Pools e.f64 → Bool → Server e → Server e → Type 0
  Cleaned old new_pools changed s t =
      Swept old new_pools s t
      × Cached changed s t
      × (t.conn_limits ≡ s.conn_limits)
      × (t.circuit_breakers.cells ≡ s.circuit_breakers.cells)
      × (t.sent ≡ s.sent)

  clean_up_all-Cleaned :
      (old new_pools : Pools e.f64) (changed : Bool) (s : Server e)
      → Cleaned old new_pools changed s (
          clean_up_all e same_weight
            (diff_removed_backends e same_weight old new_pools).1
            (if changed then flush e same_weight s else s))
  unfolding clear
  clean_up_all-Cleaned old new_pools true s =
      let ids = (diff_removed_backends e same_weight old new_pools).1 in
      let t = flush e same_weight s in
      let (conn, cells, cache, sent) = clean_up_all-rest ids t in
      (
        clean_up_all-Swept old new_pools t,
        (λ key.
            ap (λ c. e.lru.peek key c.store) cache ∙ e.lru.peek-clear key s.response_cache.store),
        conn,
        cells,
        sent,
      )
  clean_up_all-Cleaned old new_pools false s =
      let ids = (diff_removed_backends e same_weight old new_pools).1 in
      let (conn, cells, cache, sent) = clean_up_all-rest ids s in
      (clean_up_all-Swept old new_pools s, cache, conn, cells, sent)

  abbrev uses : Pools e.f64 → SocketAddr → Bool
  uses pools addr = has_addr e same_weight (backend_addresses e same_weight pools) addr

  -- The addresses that will be drained: those of the old pools that no new pool has, nor any pool of
  -- the time when they are drained.
  abbrev Drains : Pools e.f64 → Pools e.f64 → List SocketAddr → Type 0
  Drains old new_pools drained =
      (later : Pools e.f64) (addr : SocketAddr)
      → has_addr e same_weight (to_evict e same_weight drained later) addr
        ≡ ((uses old addr && not (uses new_pools addr)) && not (uses later addr))

  removed_addrs-Drains :
      (old new_pools : Pools e.f64)
      → Drains old new_pools (diff_removed_backends e same_weight old new_pools).0
  unfolding to_evict
  removed_addrs-Drains old new_pools later addr =
      any-retain (λ x. same_addr x addr) (λ x. not (uses later x)) addr
        (λ x h. ap (λ x. not (uses later x)) (same_addr→eq x addr h))
        (diff_removed_backends e same_weight old new_pools).0
      ∙ ap (λ b. b && not (uses later addr)) (removed_addrs-contains old new_pools addr)

  abbrev pub Outcome :
      Reload e same_weight
      → Reloader e same_weight
      → Result Balancer.ReductionError (Pools e.f64)
      → Bool
      → Applied e same_weight
      → Type 0
  Outcome r s (err x) has_receivers a =
      (a.reloader ≡ record s { reloadable = republish e same_weight r.revoked s.reloadable })
      × (a.flow ≡ carry_on)
      × (a.drained ≡ [])
  Outcome r s (ok pools) false a =
      (a.reloader ≡ record s { reloadable = republish e same_weight r.revoked s.reloadable })
      × (a.flow ≡ stop)
      × (a.drained ≡ [])
  Outcome r s (ok pools) true a =
      let old = s.reloadable.backend_pools in
      (a.flow ≡ carry_on)
      × (a.reloader.reloadable.router ≡ new r.config.routes)
      × (a.reloader.reloadable.backend_pools ≡ pools)
      × (a.reloader.reloadable.acl ≡ Acl.new e.net r.access.allow r.access.deny)
      × Cleaned old pools (routing_changed e same_weight r.config s) s.server a.reloader.server
      × Drains old pools a.drained

  republish-pools :
      (revoked : Option (Result Revocation.ConfigError RevocationSet)) (state : ReloadableState e)
      → (republish e same_weight revoked state).backend_pools ≡ state.backend_pools
  unfolding republish
  republish-pools revoked state = ground arith

  send_built-Outcome :
      (r : Reload e same_weight) (s : Reloader e same_weight) (has_receivers : Bool)
      (built : Result Balancer.ReductionError (Pools e.f64))
      → Outcome r s built has_receivers (
          send_built e same_weight r has_receivers
            (record s { reloadable = republish e same_weight r.revoked s.reloadable })
            built)
  unfolding routing_changed
  send_built-Outcome r s has_receivers (err x) = (refl, refl, refl)
  send_built-Outcome r s false (ok pools) = (refl, refl, refl)
  send_built-Outcome r s true (ok pools) = (
    refl,
    refl,
    refl,
    refl,
    subst
        (λ old.
          Cleaned s.reloadable.backend_pools pools (routing_changed e same_weight r.config s)
            s.server
            (clean_up_all e same_weight (diff_removed_backends e same_weight old pools).1 (
              if routing_changed e same_weight r.config s
              then flush e same_weight s.server
              else s.server)))
        (sym (republish-pools r.revoked s.reloadable))
        (clean_up_all-Cleaned s.reloadable.backend_pools pools
          (routing_changed e same_weight r.config s) s.server),
    subst
        (λ old.
          Drains s.reloadable.backend_pools pools (diff_removed_backends e same_weight old pools).0)
        (sym (republish-pools r.revoked s.reloadable))
        (removed_addrs-Drains s.reloadable.backend_pools pools),
  )

  -- A reload whose pools cannot be built, or that no one receives, changes the revocation list at most.
  -- Any other publishes its routes, pools and access lists, drops the queue and the breaker whose key
  -- is a pool that was there and is gone, and no other, empties the cache where routes or backends
  -- changed and keeps it where not, and leaves the connection permits; after the wait it evicts the
  -- addresses that the old pools had and neither the new ones nor those of that time have.
  pub apply_config_reload-Outcome :
      (r : Reload e same_weight) (s : Reloader e same_weight)
      → Outcome r s
          (build_backend_pools e.f64 r.config)
          r.has_receivers
          (apply_config_reload e same_weight r s)
  unfolding apply_config_reload
  apply_config_reload-Outcome r s =
      send_built-Outcome r s r.has_receivers (build_backend_pools e.f64 r.config)
