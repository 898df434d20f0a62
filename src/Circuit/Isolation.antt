-- ===== src/Circuit/Isolation.antt =====
-- Calls for one backend and the state of another (`CircuitBreakers` of src/circuit.rs).
use reduction.Prelude.{
  ℕ, zero, suc, ◌<◌, ◌≡◌, refl, ap, ◌∙◌, ◌≢◌, Bool, Option, none, some, List, [], ◌∷◌, ◌++◌, Text,
  text_dec, length, length-append, get_elem?, if◌then◌else◌, arith, Bool-cases, Option-cases, inl,
  inr,
}
use reduction.Prelude.Maps.{MapOps}
use reduction.Circuit.{Breaker, new_breaker, drop_guard}
use reduction.Circuit.Cells.{
  CircuitBreakerConfig, CircuitBreakers, new, modify, entry, update_at, check, record_success,
  record_failure, remove_backend, drop_held,
}

get_elem?-modify_ne {ℓ} :
    {A : Type ℓ} (i j : ℕ) (f : A → A) (xs : List A)
    → i ≢ j
    → get_elem? (modify i f xs) j ≡ get_elem? xs j
get_elem?-modify_ne i j f [] h = refl
get_elem?-modify_ne zero zero f (x ∷ xs) h = absurd (h refl)
get_elem?-modify_ne zero (suc j) f (x ∷ xs) h = refl
get_elem?-modify_ne (suc i) zero f (x ∷ xs) h = refl
get_elem?-modify_ne (suc i) (suc j) f (x ∷ xs) h = get_elem?-modify_ne i j f xs (λ e. h (ap suc e))

length-modify {ℓ} :
    {A : Type ℓ} (i : ℕ) (f : A → A) (xs : List A) → length (modify i f xs) ≡ length xs
length-modify i f [] = refl
length-modify zero f (x ∷ xs) = refl
length-modify (suc i) f (x ∷ xs) = ap suc (length-modify i f xs)

get_elem?-append_lt {ℓ} :
    {A : Type ℓ} (i : ℕ) (xs ys : List A) → i < length xs → get_elem? (xs ++ ys) i ≡ get_elem? xs i
get_elem?-append_lt i [] ys h = elim h [ ]
get_elem?-append_lt zero (x ∷ xs) ys h = refl
get_elem?-append_lt (suc i) (x ∷ xs) ys h = get_elem?-append_lt i xs ys (omega arith)

module _ (fits : Text → Bool) (ops : MapOps Text ℕ text_dec) where
  -- Every entry leads to a cell of the store, and two backends never share one.
  pub record IsValid (c : CircuitBreakers fits ops) : Type 0 where
    pub inside : (id : Text) (cell : ℕ) → ops.get id c.breakers ≡ some cell → cell < length c.cells
    pub apart :
        (id id' : Text) (cell cell' : ℕ)
        → ops.get id c.breakers ≡ some cell
        → ops.get id' c.breakers ≡ some cell'
        → id ≢ id'
        → cell ≢ cell'

  -- The cell that a backend's entry leads to.
  abbrev pub cell_of : CircuitBreakers fits ops → Text → Option Breaker
  cell_of c id = elim (ops.get id c.breakers) [ some cell ↦ get_elem? c.cells cell | none ↦ none ]

  module _ (c : CircuitBreakers fits ops) (v : IsValid c) where
    entry-IsValid : (id : Text) → IsValid (entry fits ops c id).0
    unfolding entry
    entry-IsValid id = elim (Option-cases (ops.get id c.breakers)) [
      | inr (cell, e) ↦ rw (e, entry) v
      | inl e ↦
          rw (e, entry)
            (record {
              inside = λ j cell h. ground (
                arith,
                ops.get-insert j id (length c.cells) c.breakers,
                v.inside j cell,
                length-append c.cells (new_breaker ∷ []),
              );
              apart = λ j k cell cell' h h' ne. ground (
                arith,
                ops.get-insert j id (length c.cells) c.breakers,
                ops.get-insert k id (length c.cells) c.breakers,
                v.inside j cell,
                v.inside k cell',
                v.apart j k cell cell',
              );
            })
    ]

    entry-get :
        (id : Text) → ops.get id (entry fits ops c id).0.breakers ≡ some (entry fits ops c id).1
    unfolding entry
    entry-get id = elim (Option-cases (ops.get id c.breakers)) [
      | inr (cell, e) ↦ rw (e, entry) e
      | inl e ↦ rw (e, entry) (ground (arith, ops.get-insert id id (length c.cells) c.breakers))
    ]

    entry-cell_of : (id id' : Text) → id ≢ id' → cell_of (entry fits ops c id).0 id' ≡ cell_of c id'
    unfolding entry
    entry-cell_of id id' ne = elim (Option-cases (ops.get id c.breakers)) [
      | inr (cell, e) ↦ rw (e, entry) refl
      | inl e ↦
          rw (e, entry)
            (elim (Option-cases (ops.get id' c.breakers)) [
              | inl e' ↦ ground (arith, ops.get-insert id' id (length c.cells) c.breakers)
              | inr (cell', e') ↦ ground (
                arith,
                ops.get-insert id' id (length c.cells) c.breakers,
                get_elem?-append_lt cell' c.cells (new_breaker ∷ []) (v.inside id' cell' e'),
              )
            ])
    ]

    update_at-IsValid : (cell : ℕ) (f : Breaker → Breaker) → IsValid (update_at fits ops c cell f)
    update_at-IsValid cell f = record {
      inside = λ j k h. rw (length-modify cell f c.cells) (v.inside j k h);
      apart = v.apart;
    }

    update_at-cell_of :
        (id id' : Text) (cell : ℕ) (f : Breaker → Breaker)
        → ops.get id c.breakers ≡ some cell
        → id ≢ id'
        → cell_of (update_at fits ops c cell f) id' ≡ cell_of c id'
    update_at-cell_of id id' cell f e ne = elim (Option-cases (ops.get id' c.breakers)) [
      | inl e' ↦ rw (e', cell_of) refl
      | inr (cell', e') ↦
          rw (e', cell_of)
            (get_elem?-modify_ne cell cell' f c.cells (v.apart id id' cell cell' e e' ne))
    ]

  pub data Call : Type 0 where
    check_at failure_at : (now : ℕ) → Call
    success_of remove : Call

  unfoldable pub call : CircuitBreakers fits ops → Call → Text → CircuitBreakers fits ops
  call c (check_at now) id = (check fits ops c now id).0
  call c (failure_at now) id = record_failure fits ops c now id
  call c success_of id = record_success fits ops c id
  call c remove id = remove_backend fits ops c id

  abbrev Isolated : CircuitBreakers fits ops → Text → CircuitBreakers fits ops → Type 0
  Isolated c id c' = IsValid c' × ((id' : Text) → id ≢ id' → cell_of c' id' ≡ cell_of c id')

  update_entry-Isolated :
      (c : CircuitBreakers fits ops) (id : Text) (f : Breaker → Breaker)
      → IsValid c
      → Isolated c id (update_at fits ops (entry fits ops c id).0 (entry fits ops c id).1 f)
  update_entry-Isolated c id f v = (
    update_at-IsValid (entry fits ops c id).0 (entry-IsValid c v id) (entry fits ops c id).1 f,
    λ id' ne.
        update_at-cell_of (entry fits ops c id).0 (entry-IsValid c v id) id id'
          (entry fits ops c id).1 f (entry-get c v id) ne
        ∙ entry-cell_of c v id id' ne,
  )

  check-Isolated :
      (c : CircuitBreakers fits ops) (now : ℕ) (id : Text)
      → IsValid c
      → Isolated c id (check fits ops c now id).0
  unfolding check
  check-Isolated c now id v = elim (Bool-cases (fits id)) [
    | inl ok ↦ rw (ok, check, if◌then◌else◌) (update_entry-Isolated c id _ v)
    | inr long ↦ rw (long, check, if◌then◌else◌) (v, λ id' ne. refl)
  ]

  failure-Isolated :
      (c : CircuitBreakers fits ops) (now : ℕ) (id : Text)
      → IsValid c
      → Isolated c id (record_failure fits ops c now id)
  unfolding record_failure
  failure-Isolated c now id v = elim (Bool-cases (fits id)) [
    | inl ok ↦ rw (ok, record_failure, if◌then◌else◌) (update_entry-Isolated c id _ v)
    | inr long ↦ rw (long, record_failure, if◌then◌else◌) (v, λ id' ne. refl)
  ]

  success-Isolated :
      (c : CircuitBreakers fits ops) (id : Text)
      → IsValid c
      → Isolated c id (record_success fits ops c id)
  unfolding record_success
  success-Isolated c id v = elim (Option-cases (ops.get id c.breakers)) [
    | inl e ↦ rw (e, record_success) (v, λ id' ne. refl)
    | inr (cell, e) ↦
        rw (e, record_success)
          (update_at-IsValid c v cell _, λ id' ne. update_at-cell_of c v id id' cell _ e ne)
  ]

  remove-Isolated :
      (c : CircuitBreakers fits ops) (id : Text)
      → IsValid c
      → Isolated c id (remove_backend fits ops c id)
  unfolding remove_backend
  remove-Isolated c id v = (
    record {
      inside = λ j cell h. ground (arith, ops.get-remove j id c.breakers, v.inside j cell);
      apart = λ j k cell cell' h h' ne. ground (
        arith,
        ops.get-remove j id c.breakers,
        ops.get-remove k id c.breakers,
        v.apart j k cell cell',
      );
    },
    λ id' ne. ground (arith, ops.get-remove id' id c.breakers),
  )

  -- No call for one backend (a check, a success, a failure or a removal) changes the cell of another,
  -- and each keeps the store well formed: entries lead into the store, and no two share a cell.
  pub call-Isolated :
      (c : CircuitBreakers fits ops) (k : Call) (id : Text)
      → IsValid c
      → IsValid (call c k id)
        × ((id' : Text) → id ≢ id' → cell_of (call c k id) id' ≡ cell_of c id')
  unfolding call
  call-Isolated c (check_at now) id v = check-Isolated c now id v
  call-Isolated c (failure_at now) id v = failure-Isolated c now id v
  call-Isolated c success_of id v = success-Isolated c id v
  call-Isolated c remove id v = remove-Isolated c id v

  check-guard :
      (c : CircuitBreakers fits ops) (now : ℕ) (id : Text) (guard : ℕ)
      → IsValid c
      → (check fits ops c now id).2 ≡ some guard
      → ops.get id (check fits ops c now id).0.breakers ≡ some guard
  unfolding check
  check-guard c now id guard v h = elim (Bool-cases (fits id)) [
    | inl ok ↦ ground (arith, entry-get c v id)
    | inr long ↦ absurd (ground arith)
  ]

  -- A guard that is dropped after its backend was removed changes no backend's cell.
  removed_guard_harmless :
      (c : CircuitBreakers fits ops) (now : ℕ) (id id' : Text) (guard : ℕ)
      → IsValid c
      → (check fits ops c now id).2 ≡ some guard
      → let removed = remove_backend fits ops (check fits ops c now id).0 id in
        cell_of (drop_held fits ops removed guard) id' ≡ cell_of removed id'
  unfolding remove_backend drop_held
  removed_guard_harmless c now id id' guard v h = elim (text_dec id id') [
    | yes same ↦ ground (arith, ops.get-remove id' id (check fits ops c now id).0.breakers)
    | no ne ↦
        let c' = (check fits ops c now id).0 in
        let v' : IsValid c' = (check-Isolated c now id v).0 in
        let kept : ops.get id' (ops.remove id c'.breakers) ≡ ops.get id' c'.breakers =
          ground (arith, ops.get-remove id' id c'.breakers) in
        rw (kept, cell_of)
          (update_at-cell_of c' v' id id' guard drop_guard (check-guard c now id guard v h) ne)
  ]

  pub new-IsValid : (config : CircuitBreakerConfig) → IsValid (new fits ops config)
  unfolding new
  new-IsValid config = record {
    inside = λ j cell h. cc (ops.get-empty j);
    apart = λ j k cell cell' h h' ne. cc (ops.get-empty j);
  }
