-- ===== src/Bdp/Frames/Budget.antt =====
-- How often a frame is sent.
use emulation_lib.Prelude.{
  ℕ, ◌+◌, ◌-◌, ◌*◌, ◌≤◌, List, [], ◌∷◌, ◌++◌, ◌≡◌, arith, if◌then◌else◌, ◌==◌,
}
use emulation_lib.Bdp.Types.{hdr_seq, bdp_retry_max}
use emulation_lib.Bdp.Frames.{FrameInfo, Frames}
use emulation_lib.Bdp.Frames.Pass.{
  Visit, PassResult, keep, count_kept, visit, pass_from, frame_pass,
}

-- Passes one after the other, each with its own clock; all that they send, in order.
pub passes : List (ℕ → ℕ) → Frames → PassResult
passes [] fs = record { transmitted = []; frames = fs }
passes (clock ∷ clocks) fs =
    let first = frame_pass clock fs in
    let rest = passes clocks first.frames in
    record rest { transmitted = first.transmitted ++ rest.transmitted }

-- The frames of a list that carry a sequence number.
abbrev pub seq_count : ℕ → List FrameInfo → ℕ
seq_count seq [] = 0
seq_count seq (n ∷ nodes) = (if hdr_seq n.frame == seq then 1 else 0) + seq_count seq nodes

-- How often a frame may still be sent.
budget : FrameInfo → ℕ
budget n = if n.active then bdp_retry_max - n.retry else bdp_retry_max + 1

abbrev total : ℕ → List FrameInfo → ℕ
total seq [] = 0
total seq (n ∷ nodes) = (if hdr_seq n.frame == seq then budget n else 0) + total seq nodes

total-append :
    (seq : ℕ) (xs ys : List FrameInfo) → total seq (xs ++ ys) ≡ total seq xs + total seq ys
total-append seq [] ys = omega arith
total-append seq (x ∷ xs) ys = omega (arith, total-append seq xs ys)

seq_count-append :
    (seq : ℕ) (xs ys : List FrameInfo)
    → seq_count seq (xs ++ ys) ≡ seq_count seq xs + seq_count seq ys
seq_count-append seq [] ys = omega arith
seq_count-append seq (x ∷ xs) ys = omega (arith, seq_count-append seq xs ys)

visit-budget :
    (now time_sent seq : ℕ) (others : List FrameInfo) (n : FrameInfo)
    → let v = visit now time_sent others n in
      (if v.sent then seq_count seq (n ∷ []) else 0) + total seq (keep v.kept) ≤ total seq (n ∷ [])
unfolding visit budget
visit-budget now time_sent seq others n = ground arith

pass_from-budget :
    (clock : ℕ → ℕ) (i seq : ℕ) (passed : List FrameInfo) (active_frames : ℕ)
    (left : List FrameInfo)
    → let r = pass_from clock i passed active_frames left in
      seq_count seq r.transmitted + total seq r.frames.nodes ≤ total seq passed + total seq left
unfolding pass_from
pass_from-budget clock i seq passed active_frames [] = omega arith
pass_from-budget clock i seq passed active_frames (n ∷ left) = ground (
  arith,
  visit-budget (clock i) (clock (i + 1)) seq (passed ++ left) n,
  total-append seq passed (keep v.kept),
  pass_from-budget clock (i + 2) seq (passed ++ keep v.kept) (count_kept v.kept active_frames) left,
)
  where
    v : Visit
    v = visit (clock i) (clock (i + 1)) (passed ++ left) n

frame_pass-budget :
    (clock : ℕ → ℕ) (fs : Frames) (seq : ℕ)
    → seq_count seq (frame_pass clock fs).transmitted + total seq (frame_pass clock fs).frames.nodes
      ≤ total seq fs.nodes
unfolding frame_pass
frame_pass-budget clock fs seq =
    omega (arith, pass_from-budget clock 0 seq [] fs.active_frames fs.nodes)

passes-budget :
    (clocks : List (ℕ → ℕ)) (fs : Frames) (seq : ℕ)
    → seq_count seq (passes clocks fs).transmitted + total seq (passes clocks fs).frames.nodes
      ≤ total seq fs.nodes
unfolding passes
passes-budget [] fs seq = omega arith
passes-budget (clock ∷ clocks) fs seq = omega (
  arith,
  frame_pass-budget clock fs seq,
  seq_count-append seq (frame_pass clock fs).transmitted
      (passes clocks (frame_pass clock fs).frames).transmitted,
  passes-budget clocks (frame_pass clock fs).frames seq,
)

total-le :
    (seq : ℕ) (nodes : List FrameInfo) → total seq nodes ≤ (bdp_retry_max + 1) * seq_count seq nodes
unfolding budget
total-le seq [] = omega arith
total-le seq (n ∷ nodes) = ground (arith, total-le seq nodes)

-- Over any number of passes, whatever the clock reads, the frames with a sequence number are sent at
-- most three times for each of them in the list: once, and BDP_RETRY_MAX times again.
pub passes_bounded :
    (clocks : List (ℕ → ℕ)) (fs : Frames) (seq : ℕ)
    → seq_count seq (passes clocks fs).transmitted ≤ (bdp_retry_max + 1) * seq_count seq fs.nodes
passes_bounded clocks fs seq = omega (arith, passes-budget clocks fs seq, total-le seq fs.nodes)
