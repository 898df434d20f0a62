-- ===== src/Reload/Serves.antt =====
-- What a server answers after any reloads (`spawn_config_reload_task` of src/config_reload.rs, from
-- `build_balancing` of src/startup/balancing.rs).
use reduction.Prelude.{sym, none, some, ◌≡◌, refl, ap, Bool, true, false, List, [], ◌∷◌, All, Text}
use reduction.Prelude.Results.{Result, ok, err, ok_inj, and_then-ok}
use reduction.Acl.{AccessControl}
use reduction.Balancer
use reduction.Router.{new}
use reduction.Proxy.{Env}
use reduction.Proxy.Course.{ReloadableState}
use reduction.Config.{ReductionConfig, validate}
use reduction.Config.Build.{Pools, build_backend_pools}
use reduction.Config.Answers.{Leads, resolve_backend_pool-Leads}
use reduction.Reload.{
  Reloader, Reload, Applied, republish, apply_config_reload, send_built, next, initial_reloadable,
  reload_task,
}

module _ (e : Env) (same_weight : e.f64.Float → e.f64.Float → Bool) where
  -- The state was made of a checked configuration.
  abbrev pub Runs : ReductionConfig e.f64 → ReloadableState e → Type 0
  Runs c state =
      (pools : Pools e.f64) × (validate e.f64 c ≡ ok tt)
      × (build_backend_pools e.f64 c ≡ ok pools)
      × (state.router ≡ new c.routes)
      × (state.backend_pools ≡ pools)

  -- The configuration in force: the latest whose pools could be built, while anyone receives it.
  abbrev pub taken :
      Result Balancer.ReductionError (Pools e.f64)
      → (has_receivers : Bool) → (later earlier now : ReductionConfig e.f64) → ReductionConfig e.f64
  taken (err x) has_receivers later earlier now = earlier
  taken (ok pools) true later earlier now = later
  taken (ok pools) false later earlier now = now

  abbrev pub in_force : ReductionConfig e.f64 → List (Reload e same_weight) → ReductionConfig e.f64
  in_force c [] = c
  in_force c (r ∷ reloads) =
      taken (build_backend_pools e.f64 r.config) r.has_receivers (in_force r.config reloads)
        (in_force c reloads) c

  republish-Runs :
      (c : ReductionConfig e.f64) (revoked : _) (state : ReloadableState e)
      → Runs c state
      → Runs c (republish e same_weight revoked state)
  unfolding republish
  republish-Runs c none state h = h
  republish-Runs c (some (err x)) state h = h
  republish-Runs c (some (ok set)) state h = h

  module _ (reloads : List (Reload e same_weight)) where
    abbrev Later : Type 0
    Later =
        (c : ReductionConfig e.f64) (s : Reloader e same_weight)
        → Runs c s.reloadable
        → Runs (in_force c reloads) (reload_task e same_weight reloads s).reloadable

    abbrev after : Applied e same_weight → ReloadableState e
    after a =
        (next e same_weight a.flow (reload_task e same_weight reloads a.reloader)
          a.reloader).reloadable

    send_built-Runs :
        (c : ReductionConfig e.f64) (r : Reload e same_weight) (has_receivers : Bool)
        (s : Reloader e same_weight) (built : Result Balancer.ReductionError (Pools e.f64))
        → Later
        → Runs c s.reloadable
        → validate e.f64 r.config ≡ ok tt
        → build_backend_pools e.f64 r.config ≡ built
        → Runs
            (taken built has_receivers (in_force r.config reloads) (in_force c reloads) c)
            (after (send_built e same_weight r has_receivers s built))
    send_built-Runs c r has_receivers s (err x) later h valid made = later c s h
    send_built-Runs c r true s (ok pools) later h valid made =
        later r.config _ (pools, valid, made, refl, refl)
    send_built-Runs c r false s (ok pools) later h valid made = h

  reload_task-Runs :
      (reloads : List (Reload e same_weight)) (c : ReductionConfig e.f64)
      (s : Reloader e same_weight)
      → All (λ r. validate e.f64 r.config ≡ ok tt) reloads
      → Runs c s.reloadable
      → Runs (in_force c reloads) (reload_task e same_weight reloads s).reloadable
  unfolding reload_task apply_config_reload
  reload_task-Runs [] c s valid h = h
  reload_task-Runs (r ∷ reloads) c s valid h =
      send_built-Runs reloads c r r.has_receivers _ (build_backend_pools e.f64 r.config)
        (λ c s. reload_task-Runs reloads c s valid.1) (republish-Runs c r.revoked s.reloadable h)
        valid.0 refl

  initial_reloadable-Runs :
      (c : ReductionConfig e.f64) (access : AccessControl e.net) (rest state : ReloadableState e)
      → validate e.f64 c ≡ ok tt
      → initial_reloadable e same_weight c access rest ≡ ok state
      → Runs c state
  unfolding initial_reloadable
  initial_reloadable-Runs c access rest state valid start =
      let (pools, made, built) = and_then-ok _ _ state start in
      let same = ok_inj built in
      (pools, valid, made, sym (ap (λ t. t.router) same), sym (ap (λ t. t.backend_pools) same))

  module _ (c : ReductionConfig e.f64) (access : AccessControl e.net) (rest : ReloadableState e)
      (s : Reloader e same_weight) (reloads : List (Reload e same_weight))
      (valid : validate e.f64 c ≡ ok tt)
      (start : initial_reloadable e same_weight c access rest ≡ ok s.reloadable)
      (later : All (λ r. validate e.f64 r.config ≡ ok tt) reloads) where
    abbrev pub now : ReloadableState e
    now = (reload_task e same_weight reloads s).reloadable

    now-Runs : Runs (in_force c reloads) now
    now-Runs =
        reload_task-Runs reloads c s later
          (initial_reloadable-Runs c access rest s.reloadable valid start)

    -- From a start with a checked configuration and through any reloads of checked ones: a path gets
    -- the answer 404 exactly of the routes in force, where none of their prefixes is at or above it,
    -- and otherwise goes to the pool of the longest such prefix, which holds every backend that names
    -- the pool and at least one; the answer that there is no pool is never given. The routes in force
    -- are those of the latest configuration whose pools could be built, up to the first that no one
    -- receives.
    pub reload_task-Leads : (path : Text) → Leads e (in_force c reloads) now path
    reload_task-Leads path =
        let (pools, valid_now, built, router, kept) = now-Runs in
        resolve_backend_pool-Leads e (in_force c reloads) pools now path valid_now built router kept
