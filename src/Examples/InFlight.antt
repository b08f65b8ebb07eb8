-- ===== src/Examples/InFlight.antt =====
-- Frames in flight: two requests to one dock point, the first of them sent.
use emulation_lib.Prelude.{◌+◌, ◌*◌, ◌≤◌, [], ◌∷◌, arith}
use emulation_lib.Bdp.Types.{bdp_retry_max}
use emulation_lib.Bdp.Frames.Pass.{frame_pass}
use emulation_lib.Bdp.Frames.Exclusive.{active_count, frame_pass-active_count}
use emulation_lib.Bdp.Frames.Budget.{passes, seq_count, passes_bounded}
use emulation_lib.Examples.Data.{two_frames}

active_count_example : active_count 3 (frame_pass (λ i. 100 * i) two_frames).frames.nodes ≤ 1
active_count_example = frame_pass-active_count (λ i. 100 * i) two_frames 3 (omega arith)

passes_example :
    seq_count 1 (passes ((λ i. 100 * i) ∷ (λ i. 1000 + i) ∷ []) two_frames).transmitted
    ≤ (bdp_retry_max + 1) * seq_count 1 two_frames.nodes
passes_example = passes_bounded ((λ i. 100 * i) ∷ (λ i. 1000 + i) ∷ []) two_frames 1
