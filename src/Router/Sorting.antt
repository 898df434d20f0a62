-- ===== src/Router/Sorting.antt =====
-- The order of the routes (`Router::new` of src/proxy/router.rs): the first route of the sorted list that
-- passes a test is the longest that does, and among those the one configured first.
use reduction.Prelude.{
  ℕ, ◌≤◌, ◌<◌, ◌≡◌, refl, sym, ap, subst, All-append, ◌∙◌, Option-cases, Option, none, some, Bool,
  true, false, ◌&&◌, List, [], ◌∷◌, ◌++◌, length, leb, if◌then◌else◌, All, arith, Bool-cases, inl,
  inr,
}
use reduction.Router.{Route, insert_by_len, sort_by_len}

abbrev len : Route → ℕ
len r = length r.path_prefix

module _ (test : Route → Bool) where
  unfoldable pub find : List Route → Option Route
  find [] = none
  find (r ∷ rs) = if test r then some r else find rs

  -- The winner among a route and the winner of those configured after it.
  prefer : Route → Option Route → Option Route
  prefer r none = if test r then some r else none
  prefer r (some s) = if test r && leb (len s) (len r) then some r else some s

  abbrev Sorted : List Route → Type 0
  Sorted [] = Unit {0}
  Sorted (r ∷ rs) = All (λ s. len s ≤ len r) rs × Sorted rs

  All-insert :
      (n : ℕ) (r : Route) (rs : List Route)
      → len r ≤ n
      → All (λ s. len s ≤ n) rs
      → All (λ s. len s ≤ n) (insert_by_len r rs)
  unfolding insert_by_len
  All-insert n r [] h k = (h, tt)
  All-insert n r (s ∷ rs) h k = ground (arith, All-insert n r rs h k.1)

  All-mono : (m n : ℕ) (rs : List Route) → m ≤ n → All (λ s. len s ≤ m) rs → All (λ s. len s ≤ n) rs
  All-mono m n [] h k = tt
  All-mono m n (s ∷ rs) h k = (omega arith, All-mono m n rs h k.1)

  insert-Sorted : (r : Route) (rs : List Route) → Sorted rs → Sorted (insert_by_len r rs)
  unfolding insert_by_len
  insert-Sorted r [] k = (tt, tt)
  insert-Sorted r (s ∷ rs) k =
      ground
        (arith, insert-Sorted r rs k.1, All-insert (len s) r rs, All-mono (len s) (len r) rs, k.0)

  sort-Sorted : (rs : List Route) → Sorted (sort_by_len rs)
  unfolding sort_by_len
  sort-Sorted [] = tt
  sort-Sorted (r ∷ rs) = insert-Sorted r (sort_by_len rs) (sort-Sorted rs)

  find-le :
      (n : ℕ) (rs : List Route) (s : Route) → All (λ r. len r ≤ n) rs → find rs ≡ some s → len s ≤ n
  unfolding find
  find-le n [] s k e = absurd (cc)
  find-le n (r ∷ rs) s k e = elim (Bool-cases (test r)) [
    | inl hit ↦ ground arith
    | inr miss ↦ find-le n rs s k.1 (ground arith)
  ]

  find-insert :
      (r : Route) (rs : List Route) → Sorted rs → find (insert_by_len r rs) ≡ prefer r (find rs)
  unfolding find insert_by_len prefer
  find-insert r [] k = refl
  find-insert r (s ∷ rs) k = elim (Option-cases (find rs)) [
    | inl e ↦ ground (arith, find-insert r rs k.1, e)
    | inr (y, e) ↦ ground (arith, find-insert r rs k.1, e, find-le (len s) rs y k.0 e)
  ]

  -- The route that wins, without sorting.
  best : List Route → Option Route
  best [] = none
  best (r ∷ rs) = prefer r (best rs)

  find-sort : (rs : List Route) → find (sort_by_len rs) ≡ best rs
  unfolding sort_by_len best
  find-sort [] = unfold find in refl
  find-sort (r ∷ rs) =
      find-insert r (sort_by_len rs) (sort-Sorted rs) ∙ ap (prefer r) (find-sort rs)

  abbrev pub Rejects : Route → Type 0
  Rejects r = test r ≡ false

  -- `s` passes, everything before it that passes is shorter, and nothing after it that passes is longer.
  abbrev pub Wins : List Route → Route → Type 0
  Wins rs s =
      (before : List Route) × (after : List Route) × (rs ≡ before ++ (s ∷ after))
      × (test s ≡ true)
      × All (λ r. test r ≡ true → len r < len s) before
      × All (λ r. test r ≡ true → len r ≤ len s) after

  best-none : (rs : List Route) → best rs ≡ none → All Rejects rs
  unfolding best prefer
  best-none [] e = tt
  best-none (r ∷ rs) e = elim (Option-cases (best rs)) [
    | inl e' ↦ (ground arith, best-none rs e')
    | inr (s, e') ↦ absurd (ground arith)
  ]

  rejected_le : (n : ℕ) (rs : List Route) → All Rejects rs → All (λ r. test r ≡ true → len r ≤ n) rs
  rejected_le n [] h = tt
  rejected_le n (r ∷ rs) h = ((λ t. absurd (cc (t, h.0))), rejected_le n rs h.1)

  lt_relax :
      (m n : ℕ) (rs : List Route)
      → m ≤ n
      → All (λ r. test r ≡ true → len r < m) rs
      → All (λ r. test r ≡ true → len r ≤ n) rs
  lt_relax m n [] h k = tt
  lt_relax m n (r ∷ rs) h k = ((λ t. omega (arith, k.0 t)), lt_relax m n rs h k.1)

  le_relax :
      (m n : ℕ) (rs : List Route)
      → m ≤ n
      → All (λ r. test r ≡ true → len r ≤ m) rs
      → All (λ r. test r ≡ true → len r ≤ n) rs
  le_relax m n [] h k = tt
  le_relax m n (r ∷ rs) h k = ((λ t. omega (arith, k.0 t)), le_relax m n rs h k.1)

  Wins-le :
      (n : ℕ) (rs : List Route) (s : Route)
      → Wins rs s
      → len s ≤ n
      → All (λ r. test r ≡ true → len r ≤ n) rs
  Wins-le n rs s (before, after, split, passes, b, a) h = rw split (
      All-append (λ r. test r ≡ true → len r ≤ n) before (s ∷ after) (lt_relax (len s) n before h b)
        ((λ _. h), le_relax (len s) n after h a))

  best-some : (rs : List Route) (s : Route) → best rs ≡ some s → Wins rs s
  unfolding best prefer
  best-some [] s e = absurd (cc)
  best-some (r ∷ rs) s e = elim (Option-cases (best rs)) [
    | inl e' ↦
        subst (Wins (r ∷ rs)) (ground (arith, e))
          ([], rs, refl, ground (arith, e), tt, rejected_le (len r) rs (best-none rs e'))
    | inr (y, e') ↦ elim (Bool-cases (test r && leb (len y) (len r))) [
      | inl over ↦
          subst (Wins (r ∷ rs)) (ground (arith, e)) (
            [],
            rs,
            refl,
            ground arith,
            tt,
            Wins-le (len r) rs y (best-some rs y e') (ground arith),
          )
      | inr under ↦
          let (before, after, split, passes, b, a) = best-some rs y e' in
          subst (Wins (r ∷ rs)) (ground (arith, e))
            (r ∷ before, after, ap (◌∷◌ r) split, passes, ((λ t. ground arith), b), a)
    ]
  ]

  -- What a scan of the sorted routes finds, in terms of the routes as configured.
  pub find-sort_none : (rs : List Route) → find (sort_by_len rs) ≡ none → All Rejects rs
  find-sort_none rs e = best-none rs (sym (find-sort rs) ∙ e)

  pub find-sort_some : (rs : List Route) (s : Route) → find (sort_by_len rs) ≡ some s → Wins rs s
  find-sort_some rs s e = best-some rs s (sym (find-sort rs) ∙ e)
