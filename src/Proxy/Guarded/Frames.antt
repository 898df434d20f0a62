-- ===== src/Proxy/Guarded/Frames.antt =====
-- The frames that a streamed body delivers (src/proxy/guarded_body.rs).
use reduction.Prelude.{
  ℕ, ◌+◌, ◌≡◌, refl, sym, subst, ap, Bool, true, false, ◌||◌, none, some, List, [], ◌∷◌, ◌++◌, leb,
  if◌then◌else◌, ◌⊎◌, inl, inr,
}
use reduction.Prelude.Results.{ok, err}
use reduction.Proxy.Guarded.{
  ready, pending, GuardedBodyError, idle_timeout_error, FramePoll, GuardedBody, Polled, answer,
  poll_frame,
}

-- The frame of a poll before the others, and whether one of the polls is an error.
abbrev pub add_frame : {E Frame : Type 0} → FramePoll E Frame → List Frame → List Frame
add_frame (ready (some (ok frame))) frames = frame ∷ frames
add_frame (ready (some (err e))) frames = frames
add_frame (ready none) frames = frames
add_frame pending frames = frames

abbrev pub is_error : {E Frame : Type 0} → FramePoll E Frame → Bool
is_error (ready (some (err e))) = true
is_error (ready (some (ok frame))) = false
is_error (ready none) = false
is_error pending = false

abbrev pub frames_of : {E Frame : Type 0} → List (FramePoll E Frame) → List Frame
frames_of [] = []
frames_of (p ∷ polls) = add_frame p (frames_of polls)

abbrev pub has_error : {E Frame : Type 0} → List (FramePoll E Frame) → Bool
has_error [] = false
has_error (p ∷ polls) = is_error p || has_error polls

module _ {B E Frame : Type 0} (poll_inner : B → B × FramePoll E Frame) where
  -- Polls at the given times.
  unfoldable pub run : List ℕ → GuardedBody poll_inner → List (FramePoll (GuardedBodyError E) Frame)
  run [] g = []
  run (now ∷ times) g = let (g', polled) = poll_frame poll_inner now g in polled ∷ run times g'

  -- The specification: the frames of the body inside, up to its end, with as many polls.
  unfoldable pub continue_with : (B → List Frame) → B × FramePoll E Frame → List Frame
  continue_with rest (b, ready (some (ok frame))) = frame ∷ rest b
  continue_with rest (b, ready (some (err e))) = []
  continue_with rest (b, ready none) = []
  continue_with rest (b, pending) = rest b

  unfoldable pub bare_frames : List ℕ → B → List Frame
  bare_frames [] b = []
  bare_frames (now ∷ times) b = continue_with (bare_frames times) (poll_inner b)

  -- The polls deliver the frames, or a first part of them and an error.
  abbrev pub Delivers : List Frame → List (FramePoll (GuardedBodyError E) Frame) → Type 0
  Delivers frames polls =
      (rest : List Frame) × (frames_of polls ++ rest ≡ frames)
      × ((rest ≡ []) ⊎ (has_error polls ≡ true))

  poll_frame-if :
      (now : ℕ) (g : GuardedBody poll_inner) (b : Bool)
      → g.done ≡ b
      → poll_frame poll_inner now g
        ≡ (if b then (g, ready none) else answer poll_inner now g (poll_inner g.inner))
  unfolding poll_frame
  poll_frame-if now g b h =
      ap (λ (c : Bool). if c then (g, ready none) else answer poll_inner now g (poll_inner g.inner))
        h

  -- A body that is done gives its end at each poll.
  run-done :
      (times : List ℕ) (g : GuardedBody poll_inner) → g.done ≡ true → frames_of (run times g) ≡ []
  unfolding run
  run-done [] g h = refl
  run-done (now ∷ times) g h =
      subst (λ (x : Polled poll_inner). add_frame x.1 (frames_of (run times x.0)) ≡ [])
        (sym (poll_frame-if now g true h)) (run-done times g h)

  -- A body that ends with this poll.
  ended :
      (times : List ℕ) (g : GuardedBody poll_inner)
      → g.done ≡ true
      → frames_of (run times g) ++ [] ≡ []
  ended times g h = ap (λ l. l ++ []) (run-done times g h)

  idle-Delivers :
      (times : List ℕ) (late : Bool) (g g' : GuardedBody poll_inner)
      → g.done ≡ true
      → Delivers (bare_frames times g.inner) (run times g')
      → let polled : Polled poll_inner =
          if late
          then (g, ready (some (err (idle_timeout_error g.idle_timeout))))
          else (g', pending) in
        Delivers (bare_frames times g.inner) (polled.1 ∷ run times polled.0)
  idle-Delivers times true g g' h d = (
    bare_frames times g.inner,
    ap (λ l. l ++ bare_frames times g.inner) (run-done times g h),
    inr refl,
  )
  idle-Delivers times false g g' h d = d

  answer-Delivers :
      (times : List ℕ) (now : ℕ) (g : GuardedBody poll_inner) (p : B × FramePoll E Frame)
      → g.done ≡ false
      → ((g' : GuardedBody poll_inner)
          → g'.done ≡ false
          → Delivers (bare_frames times g'.inner) (run times g'))
      → let (g', polled) = answer poll_inner now g p in
        Delivers (continue_with (bare_frames times) p) (polled ∷ run times g')
  unfolding answer continue_with
  answer-Delivers times now g (b, ready (some (ok frame))) h ih =
      let g' : GuardedBody poll_inner = record g { inner = b; idle = now + g.idle_timeout } in
      let (rest, all_of, whole) = ih g' h in (rest, ap (λ l. frame ∷ l) all_of, whole)
  answer-Delivers times now g (b, ready (some (err e))) h ih =
      ([], ended times (record g { inner = b; done = true }) refl, inr refl)
  answer-Delivers times now g (b, ready none) h ih =
      ([], ended times (record g { inner = b; done = true }) refl, inl refl)
  answer-Delivers times now g (b, pending) h ih =
      idle-Delivers times (leb g.idle now) (record g { inner = b; done = true })
        (record g { inner = b }) refl (ih (record g { inner = b }) h)

  -- Whatever the body inside does and whenever it is polled, the wrapped body delivers the frames that
  -- the body inside gives up to its end, complete and in their order, or else a first part of them and an
  -- error: it never ends before the body inside without one.
  pub run-Delivers :
      (times : List ℕ) (g : GuardedBody poll_inner)
      → g.done ≡ false
      → Delivers (bare_frames times g.inner) (run times g)
  unfolding run bare_frames
  run-Delivers [] g h = ([], refl, inl refl)
  run-Delivers (now ∷ times) g h =
      let one = answer-Delivers times now g (poll_inner g.inner) h (run-Delivers times) in
      subst
        (λ (x : Polled poll_inner).
          Delivers (bare_frames (now ∷ times) g.inner) (x.1 ∷ run times x.0))
        (sym (poll_frame-if now g false h)) one
