-- ===== src/Balancer.antt =====
-- The balancer (src/balancer/mod.rs). The type f64 and its operations are a parameter, and so are the
-- score of a weight (`rendezvous_score`, for one client), the pressure on a backend and the factor of
-- the health state. A pool has at most `max_backends` backends, so that its weights fit an `ArrayVec`.
pub mod Selection
mod Tests
use reduction.Prelude.{
  ℕ, zero, suc, ◌+◌, ◌-◌, ◌*◌, ◌/◌, ◌%◌, ◌^◌, ◌≤◌, ◌<◌, min, max, ◌≡◌, refl, sym, ap, ap₂, ◌∙◌,
  subst, fun_ext, ◌≢◌, ◌↔◌, ◌⊎◌, inl, inr, ite, if_pos, if_neg, Bool, true, false, not, ◌&&◌, ◌||◌,
  Option, none, some, List, [], ◌∷◌, ◌++◌, map, append-nil, append_assoc, arith, ltb, leb, ◌==◌,
  if◌then◌else◌, tests, Bool-cases, Option-cases, is_some, is_none, unwrap_or, length, get_elem?,
  take, drop, any, all, retain, length-append, All, All-append, take-length_append,
  drop-length_append, Text, codes, text_eq, text_eq→eq, text_eq_refl, text_eq_iff, text_dec,
  starts_with, ends_with, eq_ignore_ascii_case, to_ascii_lowercase, dec_lt, dec_le, ℕ_discrete,
  length-retain-le, length-drop, All-retain, retain-All,
}
use mathlib.Core.Option
use reduction.Ingress.{SocketAddr}
use reduction.Prelude.Results.{Result, ok, err}

abbrev pub max_backends : ℕ
max_backends = 256

pub record F64 : Type 1 where
  pub Float : Type 0
  pub zero_point : Float
  pub one_point : Float
  pub mul : Float → Float → Float
  pub sub : Float → Float → Float
  pub clamp : Float → Float → Float → Float
  -- `<=` and `>`.
  pub at_most : Float → Float → Bool
  pub above : Float → Float → Bool

pub data TransportKind : Type 0 where
  tcp quic : TransportKind

pub data BackendScheme : Type 0 where
  https http : BackendScheme

pub data ReductionError : Type 0 where
  too_many over_hard_limit : ℕ → ReductionError

module _ (f : F64) where
  pub record BackendConfig : Type 0 where
    pub id : Text
    pub pool : Text
    pub address : SocketAddr
    pub host : Text
    pub weight : f.Float
    pub transport : TransportKind
    pub scheme : BackendScheme
    pub max_connections : ℕ
    pub wakeable : Bool

  pub record BackendPool : Type 0 where
    pub backends : List BackendConfig

  unfoldable pub with_max : List BackendConfig → ℕ → Result ReductionError BackendPool
  with_max backends max_count =
      if ltb max_count (length backends)
      then err (too_many (length backends))
      else if ltb max_backends (length backends)
      then err (over_hard_limit (length backends))
      else ok (record { backends = backends })

  -- The best backend so far, with its score, after a backend that is not skipped.
  unfoldable pub better :
      BackendConfig → f.Float → Option (BackendConfig × f.Float) → Option (BackendConfig × f.Float)
  better b score none = some (b, score)
  better b score (some (held, best_score)) =
      if f.above score best_score then some (b, score) else some (held, best_score)

  module _ (weight_factor : Text → f.Float) (pressure_fn : BackendConfig → f.Float) where
    -- One entry of `scored_weights`.
    unfoldable pub scored_weight : BackendConfig → f.Float
    scored_weight b =
        let health_weight = f.mul b.weight (weight_factor b.id) in
        let pressure = f.clamp (pressure_fn b) f.zero_point f.one_point in
        f.mul health_weight (f.sub f.one_point pressure)

    module _ (rendezvous_score : Text → f.Float → f.Float) (excluded : List Text) where
      unfoldable pub is_skipped : BackendConfig → Bool
      is_skipped b = f.at_most (scored_weight b) f.zero_point || any (λ e. text_eq e b.id) excluded

      -- The body of the loop.
      unfoldable pub consider :
          BackendConfig → Option (BackendConfig × f.Float) → Option (BackendConfig × f.Float)
      consider b best =
          if is_skipped b then best else better b (rendezvous_score b.id (scored_weight b)) best

      unfoldable pub best_of :
          List BackendConfig → Option (BackendConfig × f.Float) → Option (BackendConfig × f.Float)
      best_of [] best = best
      best_of (b ∷ bs) best = best_of bs (consider b best)

      unfoldable pub select_with_pressure_excluding : BackendPool → Option BackendConfig
      select_with_pressure_excluding pool = Option.map (λ held. held.0) (best_of pool.backends none)
