-- ===== src/Resume/Examples.antt =====
-- A pane and a client that loses its connection (src/daemon/rivtd.cpp, src/remote/remote_client.cpp).
-- The snapshot of the examples is all that was written.
use rivt.Base.{ℕ, ◌^◌, ◌<◌, ◌≡◌, refl, List, [], ◌∷◌, ◌++◌, some, length, arith}
use rivt.Base.Bytes.{Bytes, le_bytes, le_value}
use rivt.Resume.{
  PaneRef, on_output, out_frame, resume_frame, attach_pane, attach_blob, process_frame, Event,
  start, step, run,
}
use rivt.Resume.Link.{up}
use rivt.Resume.Event.{writes, arrives, breaks, dials, answers}
use rivt.Resume.Ring.{IsRing, on_output-IsRing}
use rivt.Resume.Replica.{Current, Caught}
use rivt.Resume.Runs.{run-Current, run-Caught, attach_pane-replay}

abbrev whole : Bytes → ℕ → Bytes
whole h lines = h

abbrev whole_hi : ℕ → Bytes
whole_hi lines = b'h' ∷ b'i' ∷ []

-- Output, an attach with its two frames, more output, of which the client takes one piece before the
-- connection breaks.
abbrev broken : List Event
broken =
    writes (b'a' ∷ [])
    ∷ dials
    ∷ answers
    ∷ arrives
    ∷ arrives
    ∷ writes (b'b' ∷ [])
    ∷ writes (b'c' ∷ [])
    ∷ arrives
    ∷ breaks
    ∷ writes (b'd' ∷ [])
    ∷ []

-- And the client comes back.
abbrev back_again : List Event
back_again = broken ++ (dials ∷ answers ∷ arrives ∷ arrives ∷ [])

broken_client :
    (run whole broken start).client
    ≡ record { off = some 2; loaded = some (b'a' ∷ []); since = b'b' ∷ [] }
unfolding run step on_output attach_pane attach_blob process_frame le_bytes le_value
broken_client = refl

back_client :
    (run whole back_again start).client
    ≡ record { off = some 4; loaded = some (b'a' ∷ []); since = b'b' ∷ b'c' ∷ b'd' ∷ [] }
unfolding run step on_output attach_pane attach_blob process_frame le_bytes le_value
back_client = refl

broken_short : length (run whole broken start).history < 2 ^ 64
unfolding run step on_output attach_pane attach_blob process_frame le_bytes le_value
broken_short = omega arith

back_short : length (run whole back_again start).history < 2 ^ 64
unfolding run step on_output attach_pane attach_blob process_frame le_bytes le_value
back_short = omega arith

back_drained : (run whole back_again start).link ≡ up []
unfolding run step on_output attach_pane attach_blob process_frame le_bytes le_value
back_drained = refl

-- The ring of a pane that has written two bytes.
abbrev ref_hi : PaneRef
ref_hi = record { ring = b'h' ∷ b'i' ∷ []; ring_end = 2 }

ref_hi-IsRing : IsRing (b'h' ∷ b'i' ∷ []) ref_hi
ref_hi-IsRing = record { ring_ok = refl; end_ok = refl }

run-Current_example :
    Current whole
      (run whole broken start).history
      (run whole broken start).client.off
      (run whole broken start).client
run-Current_example = run-Current whole broken broken_short

run-Caught_example :
    Caught whole (run whole back_again start).history (run whole back_again start).client
run-Caught_example = run-Caught whole back_again back_short back_drained

on_output-IsRing_example : IsRing (b'h' ∷ b'i' ∷ b'!' ∷ []) (on_output (b'!' ∷ []) ref_hi)
on_output-IsRing_example = on_output-IsRing (b'h' ∷ b'i' ∷ []) (b'!' ∷ []) ref_hi ref_hi-IsRing

attach_pane-replay_example :
    attach_pane whole_hi ref_hi (some 1) ≡ resume_frame 1 ∷ out_frame (b'i' ∷ []) ∷ []
attach_pane-replay_example =
    attach_pane-replay whole_hi (b'h' ∷ b'i' ∷ []) ref_hi 1 ref_hi-IsRing (omega arith)
      (omega arith) (omega arith)
