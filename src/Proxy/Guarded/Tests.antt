-- ===== src/Proxy/Guarded/Tests.antt =====
-- A body of two frames that stalls after the first (src/proxy/guarded_body.rs).
use reduction.Prelude.{◌≡◌, refl, some, none, List, [], ◌∷◌, Text, codes}
use reduction.Prelude.Results.{ok, err}
use reduction.Proxy.Guarded.{
  FramePoll, ready, pending, idle_timeout_error, GuardedBody, new, poll_frame, answer,
}
use reduction.Proxy.Guarded.Frames.{run, bare_frames, Delivers, run-Delivers}

-- The state is what the body gives at its polls to come.
abbrev scripted : List (FramePoll Text Text) → List (FramePoll Text Text) × FramePoll Text Text
scripted [] = ([], ready none)
scripted (p ∷ polls) = (polls, p)

abbrev stalling : GuardedBody scripted
stalling =
    new scripted
      (ready (some (ok (codes "a"))) ∷ pending ∷ pending ∷ ready (some (ok (codes "b"))) ∷ []) 10 0

-- The first frame comes at 5; nothing has come since at 14, nor at 15.
stalled :
    run scripted (5 ∷ 14 ∷ 15 ∷ 16 ∷ []) stalling
    ≡ ready (some (ok (codes "a")))
      ∷ pending
      ∷ ready (some (err (idle_timeout_error 10)))
      ∷ ready none
      ∷ []
unfolding run new poll_frame answer
stalled = refl

run-Delivers_example :
    Delivers scripted
      (bare_frames scripted (5 ∷ 14 ∷ 15 ∷ 16 ∷ []) stalling.inner)
      (run scripted (5 ∷ 14 ∷ 15 ∷ 16 ∷ []) stalling)
unfolding new
run-Delivers_example = run-Delivers scripted (5 ∷ 14 ∷ 15 ∷ 16 ∷ []) stalling refl
