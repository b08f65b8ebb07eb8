-- ===== src/Bdp/Frames/Exclusive.antt =====
-- A device never has two frames in flight.
use emulation_lib.Prelude.{
  ℕ, ◌+◌, ◌≤◌, false, ◌&&◌, List, [], ◌∷◌, ◌++◌, ◌≡◌, arith, refl, if◌then◌else◌, ◌==◌,
}
use emulation_lib.Bdp.Frames.{FrameInfo, Frames}
use emulation_lib.Bdp.Frames.Pass.{
  Visit, keep, count_kept, device_busy, visit, pass_from, frame_pass,
}

-- The active frames of a device.
abbrev pub active_count : ℕ → List FrameInfo → ℕ
active_count dev [] = 0
active_count dev (n ∷ nodes) =
    (if n.active && (n.dev_num == dev) then 1 else 0) + active_count dev nodes

active_count-append :
    (dev : ℕ) (xs ys : List FrameInfo)
    → active_count dev (xs ++ ys) ≡ active_count dev xs + active_count dev ys
active_count-append dev [] ys = omega arith
active_count-append dev (x ∷ xs) ys = omega (arith, active_count-append dev xs ys)

not_busy :
    (nodes : List FrameInfo) (dev : ℕ) → device_busy nodes dev ≡ false → active_count dev nodes ≡ 0
unfolding device_busy
not_busy [] dev h = refl
not_busy (n ∷ nodes) dev h = ground (arith, not_busy nodes dev)

visit-active_count :
    (now time_sent dev : ℕ) (others : List FrameInfo) (n : FrameInfo)
    → active_count dev (n ∷ others) ≤ 1
    → active_count dev (keep (visit now time_sent others n).kept) + active_count dev others ≤ 1
unfolding visit
visit-active_count now time_sent dev others n h = ground (arith, not_busy others n.dev_num)

pass_from-active_count :
    (clock : ℕ → ℕ) (i dev : ℕ) (passed : List FrameInfo) (active_frames : ℕ)
    (left : List FrameInfo)
    → active_count dev (passed ++ left) ≤ 1
    → active_count dev (pass_from clock i passed active_frames left).frames.nodes ≤ 1
unfolding pass_from
pass_from-active_count clock i dev passed active_frames [] h =
    omega (arith, active_count-append dev passed [])
pass_from-active_count clock i dev passed active_frames (n ∷ left) h =
    pass_from-active_count clock (i + 2) dev (passed ++ keep v.kept)
      (count_kept v.kept active_frames) left
      (omega (
        arith,
        h,
        active_count-append dev (passed ++ keep v.kept) left,
        active_count-append dev passed (keep v.kept),
        active_count-append dev passed left,
        active_count-append dev passed (n ∷ left),
        visit-active_count (clock i) (clock (i + 1)) dev (passed ++ left) n (
            omega (
              arith,
              h,
              active_count-append dev passed left,
              active_count-append dev passed (n ∷ left),
            )),
      ))
  where
    v : Visit
    v = visit (clock i) (clock (i + 1)) (passed ++ left) n

-- A pass of the frame thread never leaves two frames in flight to one device where there was at most
-- one before it, whatever the clock reads.
pub frame_pass-active_count :
    (clock : ℕ → ℕ) (fs : Frames) (dev : ℕ)
    → active_count dev fs.nodes ≤ 1
    → active_count dev (frame_pass clock fs).frames.nodes ≤ 1
unfolding frame_pass
frame_pass-active_count clock fs dev h =
    pass_from-active_count clock 0 dev [] fs.active_frames fs.nodes h
