-- ===== src/Ingress/Batch.antt =====
-- The batches of datagrams (src/ingress/batch.rs), and how the receive loop drives one (`dispatch` of
-- src/ingress/udp.rs: a push, and a flush at once where the batch is full). Times are ticks.
use reduction.Prelude.{
  ℕ, ◌+◌, ◌-◌, Bool, true, false, Option, none, some, List, [], ◌∷◌, ◌++◌, leb, if◌then◌else◌,
  length,
}
use reduction.Prelude.Words.{saturating_add}
use reduction.Ingress.{Datagram}

pub data FlushReason : Type 0 where
  count bytes linger : FlushReason

pub record BatchLimits : Type 0 where
  pub max_datagrams : ℕ
  pub max_bytes : ℕ
  pub linger : ℕ

pub record Batch : Type 0 where
  pub datagrams : List Datagram
  pub payload_bytes : ℕ
  pub opened_at : Option ℕ

abbrev pub is_empty : {A : Type 0} → List A → Bool
is_empty [] = true
is_empty (x ∷ xs) = false

abbrev pub new : Batch
new = record { datagrams = []; payload_bytes = 0; opened_at = none }

unfoldable pub push : ℕ → Datagram → Batch → Batch
push now d b = record {
  datagrams = b.datagrams ++ (d ∷ []);
  payload_bytes = saturating_add b.payload_bytes (length d.payload);
  opened_at = if is_empty b.datagrams then some now else b.opened_at;
}

unfoldable pub fill_flush : BatchLimits → Batch → Option FlushReason
fill_flush l b =
    if is_empty b.datagrams
    then none
    else if leb l.max_datagrams (length b.datagrams)
    then some count
    else if leb l.max_bytes b.payload_bytes
    then some bytes
    else none

-- `duration_since` stops at 0.
unfoldable pub linger_expired : BatchLimits → ℕ → Batch → Bool
linger_expired l now b = elim b.opened_at [
  | none ↦ false
  | some opened ↦ leb l.linger (now - opened)
]

unfoldable pub linger_deadline : BatchLimits → Batch → Option ℕ
linger_deadline l b = elim b.opened_at [ none ↦ none | some opened ↦ some (opened + l.linger) ]

-- The batch after the hand-off is a new one.
unfoldable pub take_all : Batch → Batch × List Datagram
take_all b = (record b { payload_bytes = 0; opened_at = none; datagrams = [] }, b.datagrams)

-- A datagram arrives; the batches handed off, in their order.
unfoldable pub arrive : BatchLimits → ℕ → Datagram → Batch → Batch × List (List Datagram)
arrive l now d b =
    let pushed = push now d b in
    elim (fill_flush l pushed) [
      | none ↦ (pushed, [])
      | some reason ↦ ((take_all pushed).0, (take_all pushed).1 ∷ [])
    ]

-- The timer of the loop.
unfoldable pub expire : BatchLimits → ℕ → Batch → Batch × List (List Datagram)
expire l now b = if linger_expired l now b then ((take_all b).0, (take_all b).1 ∷ []) else (b, [])
