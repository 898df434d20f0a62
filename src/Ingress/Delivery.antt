-- ===== src/Ingress/Delivery.antt =====
-- What the batches of the receive loop keep and hand off, whatever arrives and whenever the timer fires
-- (src/ingress/batch.rs, src/ingress/udp.rs).
use reduction.Prelude.{
  ℕ, ◌+◌, ◌^◌, ◌≤◌, ◌<◌, ◌≡◌, refl, sym, ap, ◌∙◌, inl, inr, true, false, not, Option, none, some,
  List, [], ◌∷◌, ◌++◌, append-nil, append_assoc, arith, if◌then◌else◌, Bool-cases, Option-cases,
  is_some, length, length-append, All, All-append,
}
use reduction.Ingress.{Datagram}
use reduction.Ingress.Batch.{
  FlushReason, BatchLimits, Batch, is_empty, new, push, fill_flush, linger_expired, take_all,
  arrive, expire,
}

pub data Event : Type 0 where
  arrived : ℕ → Datagram → Event
  ticked : ℕ → Event

unfoldable pub react : BatchLimits → Event → Batch → Batch × List (List Datagram)
react l (arrived now d) b = arrive l now d b
react l (ticked now) b = expire l now b

-- The batch left and the batches handed off by events, the first event first.
unfoldable pub run : BatchLimits → List Event → Batch → Batch × List (List Datagram)
run l [] b = (b, [])
run l (e ∷ es) b = let rest = run l es (react l e b).0 in (rest.0, (react l e b).1 ++ rest.1)

abbrev pub arrivals : List Event → List Datagram
arrivals [] = []
arrivals (arrived now d ∷ es) = d ∷ arrivals es
arrivals (ticked now ∷ es) = arrivals es

abbrev pub concat : {A : Type 0} → List (List A) → List A
concat [] = []
concat (xs ∷ xss) = xs ++ concat xss

concat-append :
    {A : Type 0} (xss yss : List (List A)) → concat (xss ++ yss) ≡ concat xss ++ concat yss
concat-append [] yss = refl
concat-append (xs ∷ xss) yss =
    ap (λ z. xs ++ z) (concat-append xss yss) ∙ sym (append_assoc xs (concat xss) (concat yss))

abbrev pub total : List Datagram → ℕ
total [] = 0
total (d ∷ ds) = length d.payload + total ds

total-append : (xs ys : List Datagram) → total (xs ++ ys) ≡ total xs + total ys
total-append [] ys = omega arith
total-append (d ∷ xs) ys = omega (arith, total-append xs ys)

arrive_room :
    (l : BatchLimits) (now : ℕ) (d : Datagram) (b : Batch)
    → fill_flush l (push now d b) ≡ none
    → arrive l now d b ≡ (push now d b, [])
unfolding arrive
arrive_room l now d b room = rw (room, arrive) refl

arrive_full :
    (l : BatchLimits) (now : ℕ) (d : Datagram) (b : Batch) (reason : FlushReason)
    → fill_flush l (push now d b) ≡ some reason
    → arrive l now d b ≡ ((take_all (push now d b)).0, (take_all (push now d b)).1 ∷ [])
unfolding arrive
arrive_full l now d b reason full = rw (full, arrive) refl

react-keeps :
    (l : BatchLimits) (e : Event) (b : Batch)
    → concat (react l e b).1 ++ (react l e b).0.datagrams ≡ b.datagrams ++ arrivals (e ∷ [])
unfolding react arrive expire take_all push
react-keeps l (arrived now d) b =
    let kept = λ (x : Batch × List (List Datagram)). concat x.1 ++ x.0.datagrams in
    elim (Option-cases (fill_flush l (push now d b))) [
      | inl room ↦ ap kept (arrive_room l now d b room)
      | inr (reason, full) ↦
          ap kept (arrive_full l now d b reason full)
          ∙ (append-nil ((b.datagrams ++ (d ∷ [])) ++ []) ∙ append-nil (b.datagrams ++ (d ∷ [])))
    ]
react-keeps l (ticked now) b = elim (Bool-cases (linger_expired l now b)) [
  | inl due ↦ rw due (append-nil (b.datagrams ++ []))
  | inr early ↦ rw early (sym (append-nil b.datagrams))
]

arrivals-cons : (e : Event) (es : List Event) → arrivals (e ∷ es) ≡ arrivals (e ∷ []) ++ arrivals es
arrivals-cons (arrived now d) es = refl
arrivals-cons (ticked now) es = refl

run-keeps :
    (l : BatchLimits) (es : List Event) (b : Batch)
    → concat (run l es b).1 ++ (run l es b).0.datagrams ≡ b.datagrams ++ arrivals es
unfolding run
run-keeps l [] b = sym (append-nil b.datagrams)
run-keeps l (e ∷ es) b =
    let one = react l e b in
    let rest = run l es one.0 in
    ap (λ z. z ++ rest.0.datagrams) (concat-append one.1 rest.1)
    ∙ (append_assoc (concat one.1) (concat rest.1) rest.0.datagrams
        ∙ (ap (λ z. concat one.1 ++ z) (run-keeps l es one.0)
            ∙ (sym (append_assoc (concat one.1) one.0.datagrams (arrivals es))
                ∙ (ap (λ z. z ++ arrivals es) (react-keeps l e b)
                    ∙ (append_assoc b.datagrams (arrivals (e ∷ [])) (arrivals es)
                        ∙ ap (λ z. b.datagrams ++ z) (sym (arrivals-cons e es)))))))

-- The batches handed off and the batch in hand are the datagrams that arrived: none is lost, doubled or
-- out of order, whatever the limits and whenever the timer fires.
pub nothing_lost :
    (l : BatchLimits) (es : List Event)
    → concat (run l es new).1 ++ (run l es new).0.datagrams ≡ arrivals es
nothing_lost l es = run-keeps l es new

abbrev pub IsPlausible : BatchLimits → Type 0
IsPlausible l = (0 < l.max_datagrams) × (0 < l.max_bytes) × (l.max_bytes < 2 ^ 32)

-- A batch below both limits, with its true size, and a clock exactly when it has a datagram.
pub record IsBelow (l : BatchLimits) (b : Batch) : Type 0 where
  pub few : length b.datagrams < l.max_datagrams
  pub small : b.payload_bytes < l.max_bytes
  pub exact : b.payload_bytes ≡ total b.datagrams
  pub clocked : is_some b.opened_at ≡ not (is_empty b.datagrams)

abbrev pub IsHandedOff : BatchLimits → List Datagram → Type 0
IsHandedOff l ds = (0 < length ds) × (length ds ≤ l.max_datagrams)

abbrev pub ArrivesSmall : Event → Type 0
ArrivesSmall (arrived now d) = length d.payload < 2 ^ 32
ArrivesSmall (ticked now) = Unit

nonempty_snoc : (ds : List Datagram) (d : Datagram) → is_empty (ds ++ (d ∷ [])) ≡ false
nonempty_snoc [] d = refl
nonempty_snoc (x ∷ ds) d = refl

clock_set :
    (now : ℕ) (o : Option ℕ) (ds : List Datagram)
    → is_some o ≡ not (is_empty ds)
    → is_some (if is_empty ds then some now else o) ≡ true
clock_set now o [] e = refl
clock_set now o (d ∷ ds) e = e

below_flush :
    (l : BatchLimits) (b : Batch)
    → is_empty b.datagrams ≡ false
    → fill_flush l b ≡ none
    → (length b.datagrams < l.max_datagrams) × (b.payload_bytes < l.max_bytes)
unfolding fill_flush
below_flush l b some_ room = ground (arith, some_, room)

push-IsBelow :
    (l : BatchLimits) (now : ℕ) (d : Datagram) (b : Batch)
    → IsBelow l b
    → IsPlausible l
    → length d.payload < 2 ^ 32
    → fill_flush l (push now d b) ≡ none
    → IsBelow l (push now d b)
unfolding push
push-IsBelow l now d b h p small room =
    let below = below_flush l (push now d b) (nonempty_snoc b.datagrams d) room in
    record {
      few = below.0;
      small = below.1;
      exact = ground (arith, h.exact, h.small, p, small, total-append b.datagrams (d ∷ []));
      clocked =
          clock_set now b.opened_at b.datagrams h.clocked
          ∙ ap not (sym (nonempty_snoc b.datagrams d));
    }

push-IsHandedOff :
    (l : BatchLimits) (now : ℕ) (d : Datagram) (b : Batch)
    → IsBelow l b
    → IsHandedOff l (push now d b).datagrams
unfolding push
push-IsHandedOff l now d b h = (
  omega (arith, length-append b.datagrams (d ∷ [])),
  omega (arith, length-append b.datagrams (d ∷ []), h.few),
)

taken-IsBelow : (l : BatchLimits) (b : Batch) → IsPlausible l → IsBelow l (take_all b).0
unfolding take_all
taken-IsBelow l b p = record { few = p.0; small = p.1; exact = refl; clocked = refl }

expire_early :
    (l : BatchLimits) (now : ℕ) (b : Batch)
    → linger_expired l now b ≡ false
    → expire l now b ≡ (b, [])
unfolding expire
expire_early l now b early = rw (early, expire) refl

expire_due :
    (l : BatchLimits) (now : ℕ) (b : Batch)
    → linger_expired l now b ≡ true
    → expire l now b ≡ ((take_all b).0, (take_all b).1 ∷ [])
unfolding expire
expire_due l now b due = rw (due, expire) refl

expired_some :
    (l : BatchLimits) (now : ℕ) (b : Batch)
    → linger_expired l now b ≡ true
    → is_some b.opened_at ≡ true
unfolding linger_expired
expired_some l now b due = elim (Option-cases b.opened_at) [
  | inl never ↦ absurd (cc (rw (linger_expired, never) at due))
  | inr (t, opened) ↦ rw opened refl
]

expired-IsHandedOff :
    (l : BatchLimits) (now : ℕ) (b : Batch)
    → IsBelow l b
    → linger_expired l now b ≡ true
    → IsHandedOff l (take_all b).1
unfolding take_all
expired-IsHandedOff l now b h due =
    (positive b.datagrams (sym h.clocked ∙ expired_some l now b due), omega (arith, h.few))
  where
    positive : (ds : List Datagram) → not (is_empty ds) ≡ true → 0 < length ds
    positive [] e = ground arith
    positive (d ∷ ds) e = omega arith

react-IsBelow :
    (l : BatchLimits) (e : Event) (b : Batch)
    → IsBelow l b
    → IsPlausible l
    → ArrivesSmall e
    → IsBelow l (react l e b).0 × All (IsHandedOff l) (react l e b).1
unfolding react
react-IsBelow l (arrived now d) b h p small = elim (Option-cases (fill_flush l (push now d b))) [
  | inl room ↦ rw (arrive_room l now d b room) (push-IsBelow l now d b h p small room, tt)
  | inr (reason, full) ↦
      rw (arrive_full l now d b reason full)
        (taken-IsBelow l (push now d b) p, (unfold take_all in push-IsHandedOff l now d b h, tt))
]
react-IsBelow l (ticked now) b h p small = elim (Bool-cases (linger_expired l now b)) [
  | inr early ↦ rw (expire_early l now b early) (h, tt)
  | inl due ↦
      rw (expire_due l now b due) (taken-IsBelow l b p, (expired-IsHandedOff l now b h due, tt))
]

run-IsBelow :
    (l : BatchLimits) (es : List Event) (b : Batch)
    → IsBelow l b
    → IsPlausible l
    → All ArrivesSmall es
    → IsBelow l (run l es b).0 × All (IsHandedOff l) (run l es b).1
unfolding run
run-IsBelow l [] b h p small = (h, tt)
run-IsBelow l (e ∷ es) b h p small =
    let one = react-IsBelow l e b h p small.0 in
    let rest = run-IsBelow l es (react l e b).0 one.0 p small.1 in
    (rest.0, All-append _ (react l e b).1 (run l es (react l e b).0).1 one.1 rest.1)

-- Under limits above 0 and datagrams of u32 lengths, whatever arrives and whenever the timer fires:
-- the batch in hand stays below both limits, its byte count is exact and its clock runs exactly when it
-- is not empty; and every batch handed off has between 1 and `max_datagrams` datagrams.
pub within_limits :
    (l : BatchLimits) (es : List Event)
    → IsPlausible l
    → All ArrivesSmall es
    → IsBelow l (run l es new).0 × All (IsHandedOff l) (run l es new).1
within_limits l es p small =
    run-IsBelow l es new (record { few = p.0; small = p.1; exact = refl; clocked = refl }) p small
