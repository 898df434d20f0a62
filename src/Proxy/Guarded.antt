-- ===== src/Proxy/Guarded.antt =====
-- The body of a streamed response (src/proxy/guarded_body.rs). The body inside, whose polls change its
-- state, is a parameter; so is the time of each poll. The guards are dropped with the body; they are no
-- part of the model.
pub mod Frames
mod Tests
use reduction.Prelude.{
  ℕ, ◌+◌, Bool, true, false, ◌||◌, Option, none, some, List, [], ◌∷◌, leb, if◌then◌else◌,
}
use reduction.Prelude.Results.{Result, ok, err}

pub data Poll (A : Type 0) : Type 0 where
  ready : A → Poll A
  pending : Poll A

pub data GuardedBodyError (E : Type 0) : Type 0 where
  inner_error : E → GuardedBodyError E
  idle_timeout_error : ℕ → GuardedBodyError E

-- What `poll_frame` gives: a frame, an error, the end, or nothing yet.
abbrev pub FramePoll : Type 0 → Type 0 → Type 0
FramePoll E Frame = Poll (Option (Result E Frame))

module _ {B E Frame : Type 0} (poll_inner : B → B × FramePoll E Frame) where
  -- `idle` is the instant at which the timer fires.
  pub record GuardedBody : Type 0 where
    pub inner : B
    pub idle : ℕ
    pub idle_timeout : ℕ
    pub done : Bool

  unfoldable pub new : B → ℕ → ℕ → GuardedBody
  new b idle_timeout now = record {
    inner = b;
    idle = now + idle_timeout;
    idle_timeout = idle_timeout;
    done = false;
  }

  abbrev pub Polled : Type 0
  Polled = GuardedBody × FramePoll (GuardedBodyError E) Frame

  -- The match on the poll of the body inside, which is `b` after it.
  unfoldable pub answer : ℕ → GuardedBody → B × FramePoll E Frame → Polled
  answer now g (b, ready (some (ok frame))) =
      (record g { inner = b; idle = now + g.idle_timeout }, ready (some (ok frame)))
  answer now g (b, ready (some (err e))) =
      (record g { inner = b; done = true }, ready (some (err (inner_error e))))
  answer now g (b, ready none) = (record g { inner = b; done = true }, ready none)
  answer now g (b, pending) =
      if leb g.idle now
      then (
        record g { inner = b; done = true },
        ready (some (err (idle_timeout_error g.idle_timeout))),
      )
      else (record g { inner = b }, pending)

  unfoldable pub poll_frame : ℕ → GuardedBody → Polled
  poll_frame now g = if g.done then (g, ready none) else answer now g (poll_inner g.inner)

  unfoldable pub is_end_stream : GuardedBody → Bool
  is_end_stream g = g.done
