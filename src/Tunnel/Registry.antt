-- ===== src/Tunnel/Registry.antt =====
-- The registry of tunnel sessions (src/tunnel/registry.rs): every call on its maps as one step. A
-- `Notify` is the number of its `notify_waiters` calls, since a `Notified` future is released by the
-- first such call after its creation; channels and connections are their names.
pub mod Calls
pub mod Waking
pub mod Bounds
pub mod Sweep
pub mod Rotation
use reduction.Prelude.{
  ℕ, zero, suc, ◌+◌, ◌-◌, ◌*◌, ◌/◌, ◌%◌, ◌^◌, ◌≤◌, ◌<◌, min, max, ◌≡◌, refl, sym, ap, ap₂, ◌∙◌,
  subst, fun_ext, ◌≢◌, ◌↔◌, ◌⊎◌, inl, inr, ite, if_pos, if_neg, Bool, true, false, not, ◌&&◌, ◌||◌,
  Option, none, some, List, [], ◌∷◌, ◌++◌, map, append-nil, append_assoc, arith, ltb, leb, ◌==◌,
  if◌then◌else◌, tests, Bool-cases, Option-cases, is_some, is_none, unwrap_or, length, get_elem?,
  take, drop, any, all, retain, length-append, All, All-append, take-length_append,
  drop-length_append, Text, codes, text_eq, text_eq→eq, text_eq_refl, text_eq_iff, text_dec,
  starts_with, ends_with, eq_ignore_ascii_case, to_ascii_lowercase, dec_lt, dec_le, ℕ_discrete,
  length-retain-le,
}
use reduction.Prelude.Maps.{MapOps}
use reduction.Tunnel.Protocol.{TunnelFrame, shutdown}
use reduction.Tunnel.Revocation.{PeerIdentity, RevocationSet, is_revoked}

pub record TunnelSession : Type 0 where
  pub session_id : Text
  pub backend_id : Text
  pub pool : Text
  pub remote_addr : Text
  pub connected_at : ℕ
  pub last_heartbeat : ℕ
  pub control_tx : ℕ
  pub connection : ℕ
  pub identity : PeerIdentity
  pub is_control_peer : Bool

pub data TunnelFailure : Type 0 where
  max_sessions : ℕ → Text → TunnelFailure
  no_backend_session : Text → TunnelFailure
  connection_closed : TunnelFailure

-- `ArrayString::<256>::from`.
abbrev pub array_string : Text → Option Text
array_string s = if leb (length s) 256 then some s else none

abbrev pub is_empty : {A : Type 0} → List A → Bool
is_empty [] = true
is_empty (x ∷ xs) = false

abbrev pub concat : {A : Type 0} → List (List A) → List A
concat [] = []
concat (xs ∷ xss) = xs ++ concat xss

abbrev pub revoked_frame : TunnelFrame
revoked_frame = shutdown (codes "revoked")

-- `find` and the change of what it finds.
unfoldable pub stamp : ℕ → Text → List TunnelSession → List TunnelSession × Bool
stamp now id [] = ([], false)
stamp now id (s ∷ ss) =
    let rest = stamp now id ss in
    if text_eq s.session_id id
    then (record s { last_heartbeat = now } ∷ ss, true)
    else (s ∷ rest.0, rest.1)

-- `fetch_add(1)` of an `AtomicUsize`.
abbrev pub next_counter : ℕ → ℕ
next_counter n = (n + 1) % 2 ^ 64

-- `maps V` is the `DashMap` from ids to `V`, and `values` is its iteration.
module _ (maps : (V : Type 0) → MapOps Text V text_dec) where
  pub record TunnelRegistry : Type 0 where
    pub sessions : (maps (List TunnelSession)).Map
    pub rr_counter : ℕ
    pub max_sessions_per_backend : ℕ
    pub wake_notify : (maps ℕ).Map
    pub control_peers : (maps ℕ).Map
    pub refused : (maps Unit).Map

  unfoldable pub new : ℕ → TunnelRegistry
  new max_ = record {
    sessions = (maps (List TunnelSession)).empty;
    rr_counter = 0;
    max_sessions_per_backend = max_;
    wake_notify = (maps ℕ).empty;
    control_peers = (maps ℕ).empty;
    refused = (maps Unit).empty;
  }

  -- The bucket of a backend, empty where there is none.
  abbrev pub bucket : Text → TunnelRegistry → List TunnelSession
  bucket b r = unwrap_or ((maps (List TunnelSession)).get b r.sessions) []

  abbrev pub is_tunnel_backend : Text → TunnelRegistry → Bool
  is_tunnel_backend b r = elim ((maps (List TunnelSession)).get b r.sessions) [
    | none ↦ false
    | some ss ↦ not (is_empty ss)
  ]

  abbrev pub session_count : Text → TunnelRegistry → ℕ
  session_count b r = length (bucket b r)

  unfoldable pub notify_session_waiters : Text → TunnelRegistry → TunnelRegistry
  notify_session_waiters b r = elim ((maps ℕ).get b r.wake_notify) [
    | none ↦ r
    | some n ↦ record r { wake_notify = (maps ℕ).insert b (suc n) r.wake_notify }
  ]

  -- The registry with the handle in it, and the handle's present count.
  unfoldable pub wake_handle : Text → TunnelRegistry → TunnelRegistry × Option ℕ
  wake_handle b r = elim (array_string b) [
    | none ↦ (r, none)
    | some key ↦ elim ((maps ℕ).get key r.wake_notify) [
      | some n ↦ (r, some n)
      | none ↦ (record r { wake_notify = (maps ℕ).insert key 0 r.wake_notify }, some 0)
    ]
  ]

  unfoldable pub note_refusal : Text → TunnelRegistry → TunnelRegistry
  note_refusal b r = elim (array_string b) [
    | none ↦ r
    | some id ↦ notify_session_waiters b (record r { refused = (maps Unit).insert id tt r.refused })
  ]

  unfoldable pub take_refusal : Text → TunnelRegistry → TunnelRegistry × Bool
  take_refusal b r =
      (record r { refused = (maps Unit).remove b r.refused }, is_some ((maps Unit).get b r.refused))

  -- `control_peers.insert(session_id, conn)`, where the peer is one.
  unfoldable pub note_peer : TunnelSession → TunnelRegistry → TunnelRegistry
  note_peer s r =
      if s.is_control_peer
      then record r { control_peers = (maps ℕ).insert s.session_id s.connection r.control_peers }
      else r

  -- `entry(backend_id).or_default()` leaves an empty bucket behind where the limit is 0.
  unfoldable pub register : TunnelSession → TunnelRegistry → TunnelRegistry × Option TunnelFailure
  register s r =
      let entry = bucket s.backend_id r in
      if leb r.max_sessions_per_backend (length entry)
      then (
        record r { sessions = (maps (List TunnelSession)).insert s.backend_id entry r.sessions },
        some (max_sessions r.max_sessions_per_backend s.backend_id),
      )
      else let pushed : TunnelRegistry = record r {
        sessions = (maps (List TunnelSession)).insert s.backend_id (entry ++ (s ∷ [])) r.sessions;
      } in
        (notify_session_waiters s.backend_id (note_peer s pushed), none)

  -- The bucket put back, or dropped when it is empty.
  unfoldable pub put_back : Text → List TunnelSession → TunnelRegistry → TunnelRegistry
  put_back b kept r =
      if is_empty kept
      then record r { sessions = (maps (List TunnelSession)).remove b r.sessions }
      else record r { sessions = (maps (List TunnelSession)).insert b kept r.sessions }

  unfoldable pub deregister : Text → Text → TunnelRegistry → TunnelRegistry × Bool
  deregister b id r =
      let known : TunnelRegistry = record r {
        control_peers = (maps ℕ).remove id r.control_peers;
      } in
      elim ((maps (List TunnelSession)).get b r.sessions) [
        | none ↦ (known, false)
        | some entry ↦
            let kept = retain (λ s. not (text_eq s.session_id id)) entry in
            (put_back b kept known, ltb (length kept) (length entry))
      ]

  unfoldable pub deregister_all : Text → TunnelRegistry → TunnelRegistry × ℕ
  deregister_all b r = elim ((maps (List TunnelSession)).get b r.sessions) [
    | none ↦ (r, 0)
    | some ss ↦ (record r { sessions = (maps (List TunnelSession)).remove b r.sessions }, length ss)
  ]

  -- The registry after the sweep, and the sessions swept: each is counted and is sent the frame
  -- `revoked_frame` on its channel, as far as the channel takes it.
  unfoldable pub revoke_matching :
      RevocationSet → TunnelRegistry → TunnelRegistry × List TunnelSession
  revoke_matching set r =
      let denied = λ (s : TunnelSession). is_revoked set s.identity in
      let swept = (maps (List TunnelSession)).alter (retain (λ s. not (denied s))) r.sessions in
      (
        record r { sessions = (maps (List TunnelSession)).retain (λ ss. not (is_empty ss)) swept },
        retain denied (concat ((maps (List TunnelSession)).values r.sessions)),
      )

  unfoldable pub record_heartbeat : ℕ → Text → Text → TunnelRegistry → TunnelRegistry × Bool
  record_heartbeat now b id r = elim ((maps (List TunnelSession)).get b r.sessions) [
    | none ↦ (r, false)
    | some entry ↦ (
      record r {
        sessions = (maps (List TunnelSession)).insert b (stamp now id entry).0 r.sessions;
      },
      (stamp now id entry).1,
    )
  ]

  -- The choice of `acquire_stream`: the connection to open a stream on. `closed` tells whether a
  -- connection has a close reason.
  unfoldable pub acquire : (ℕ → Bool) → Text → TunnelRegistry → TunnelRegistry × (ℕ ⊎ TunnelFailure)
  acquire closed b r = elim (bucket b r) [
    | [] ↦ (r, inr (no_backend_session b))
    | first ∷ rest ↦
        let idx = r.rr_counter % length (first ∷ rest) in
        let counted : TunnelRegistry = record r { rr_counter = next_counter r.rr_counter } in
        let session = unwrap_or (get_elem? (first ∷ rest) idx) first in
        if closed session.connection
        then ((deregister b session.session_id counted).0, inr connection_closed)
        else (counted, inl session.connection)
  ]

  -- `shutdown_all`, after the frames and the closes.
  unfoldable pub shutdown_all : TunnelRegistry → TunnelRegistry
  shutdown_all r = record r { sessions = (maps (List TunnelSession)).empty }
