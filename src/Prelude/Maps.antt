-- ===== src/Prelude/Maps.antt =====
-- What the program relies on of the concurrent map it takes from the `dashmap` crate (and of the
-- standard `HashMap`): reads after writes. `assoc` shows that the laws can be met.
use mathlib.Core.Path.{◌≡◌, refl}
use mathlib.Core.Logic.{ite, inl, inr}
use mathlib.Core.Bool.{Bool}
use reduction.Prelude.Tests.{if◌then◌else◌, Bool-cases}
use mathlib.Core.List.{List, [], ◌∷◌, map}
use mathlib.Core.Option
use mathlib.Core.Option.{Option, none, some}
use native.Mathlib.Omega.{arith}

-- `Option::filter`.
abbrev pub keep : {V : Type 0} → (V → Bool) → Option V → Option V
keep p none = none
keep p (some v) = if p v then some v else none

pub record MapOps (K V : Type 0) (dec : Discrete K) : Type 1 where
  pub Map : Type 0
  pub empty : Map
  pub get : K → Map → Option V
  pub insert : K → V → Map → Map
  pub remove : K → Map → Map
  -- `iter_mut` with an in-place change of every value.
  pub alter : (V → V) → Map → Map
  -- `retain`, by the value.
  pub retain : (V → Bool) → Map → Map
  -- What an iteration visits.
  pub values : Map → List V
  pub get-empty : (k : K) → get k empty ≡ none
  pub get-insert :
      (j k : K) (v : V) (m : Map) → get j (insert k v m) ≡ ite (dec k j) (some v) (get j m)
  pub get-remove : (j k : K) (m : Map) → get j (remove k m) ≡ ite (dec k j) none (get j m)
  pub get-alter : (j : K) (f : V → V) (m : Map) → get j (alter f m) ≡ Option.map f (get j m)
  pub get-retain : (j : K) (p : V → Bool) (m : Map) → get j (retain p m) ≡ keep p (get j m)

module _ {K V : Type 0} (dec : Discrete K) where
  abbrev pub assoc_get : K → List (K × V) → Option V
  assoc_get k [] = none
  assoc_get k ((j, v) ∷ m) = ite (dec j k) (some v) (assoc_get k m)

  abbrev pub assoc_remove : K → List (K × V) → List (K × V)
  assoc_remove k [] = []
  assoc_remove k ((j, v) ∷ m) = ite (dec j k) (assoc_remove k m) ((j, v) ∷ assoc_remove k m)

  abbrev pub assoc_alter : (V → V) → List (K × V) → List (K × V)
  assoc_alter f [] = []
  assoc_alter f ((j, v) ∷ m) = (j, f v) ∷ assoc_alter f m

  abbrev pub assoc_retain : (V → Bool) → List (K × V) → List (K × V)
  assoc_retain p [] = []
  assoc_retain p ((j, v) ∷ m) =
      if p v then (j, v) ∷ assoc_retain p m else assoc_remove j (assoc_retain p m)

  pub assoc_get-remove :
      (j k : K) (m : List (K × V))
      → assoc_get j (assoc_remove k m) ≡ ite (dec k j) none (assoc_get j m)
  assoc_get-remove j k [] = ground arith
  assoc_get-remove j k ((i, v) ∷ m) = ground (arith, assoc_get-remove j k m)

  pub assoc_get-insert :
      (j k : K) (v : V) (m : List (K × V))
      → assoc_get j ((k, v) ∷ assoc_remove k m) ≡ ite (dec k j) (some v) (assoc_get j m)
  assoc_get-insert j k v m = ground (arith, assoc_get-remove j k m)

  pub assoc_get-alter :
      (j : K) (f : V → V) (m : List (K × V))
      → assoc_get j (assoc_alter f m) ≡ Option.map f (assoc_get j m)
  assoc_get-alter j f [] = refl
  assoc_get-alter j f ((i, v) ∷ m) = ground (arith, assoc_get-alter j f m)

  pub assoc_get-retain :
      (j : K) (p : V → Bool) (m : List (K × V))
      → assoc_get j (assoc_retain p m) ≡ keep p (assoc_get j m)
  assoc_get-retain j p [] = refl
  assoc_get-retain j p ((i, v) ∷ m) = elim (Bool-cases (p v)) [
    | inl kept ↦ rw kept (ground (arith, kept, assoc_get-retain j p m))
    | inr gone ↦
        rw gone
          (ground (arith, gone, assoc_get-remove j i (assoc_retain p m), assoc_get-retain j p m))
  ]

  abbrev pub assoc : MapOps K V dec
  assoc = record {
    Map = List (K × V);
    empty = [];
    get = assoc_get;
    insert = λ k v m. (k, v) ∷ assoc_remove k m;
    remove = assoc_remove;
    alter = assoc_alter;
    retain = assoc_retain;
    values = map (λ kv. kv.1);
    get-empty = λ k. refl;
    get-insert = assoc_get-insert;
    get-remove = assoc_get-remove;
    get-alter = assoc_get-alter;
    get-retain = assoc_get-retain;
  }
