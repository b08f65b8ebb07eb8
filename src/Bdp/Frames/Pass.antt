-- ===== src/Bdp/Frames/Pass.antt =====
-- svsBdpFrameThread in src/svsBdp.c: one pass over the list, which the thread makes every 10 ms.
use emulation_lib.Prelude.{
  ℕ, ◌+◌, Bool, true, false, ◌&&◌, ◌||◌, not, Option, none, some, List, [], ◌∷◌, ◌++◌,
  if◌then◌else◌, ◌==◌, ltb, leb, bit_and,
}
use emulation_lib.Bdp.Types.{hdr_flags, bdp_num_all, bdp_retry_max}
use emulation_lib.Bdp.Frames.{FrameInfo, Frames, one_less}

abbrev pub bdp_msg_frame_flag_no_ack : ℕ
bdp_msg_frame_flag_no_ack = 1

-- The inner loop: whether another frame is active for the same device.
unfoldable pub device_busy : List FrameInfo → ℕ → Bool
device_busy [] dev_num = false
device_busy (temp ∷ others) dev_num =
    if temp.active && (temp.dev_num == dev_num) then true else device_busy others dev_num

-- What becomes of a node: whether its frame is sent, and the node as it stays in the list, if it does.
pub record Visit : Type 0 where
  pub sent : Bool
  pub kept : Option FrameInfo

-- The frame is sent for the first time; those that expect no response leave the list.
unfoldable pub send_first : ℕ → FrameInfo → Visit
send_first time_sent n =
    if n.dev_num == bdp_num_all
    then record { sent = true; kept = none }
    else if not (bit_and (hdr_flags n.frame) bdp_msg_frame_flag_no_ack == 0) || (n.timeout_ms == 0)
    then record { sent = true; kept = none }
    else record {
      sent = true;
      kept = some (record n { active = true; tsent_ms = time_sent; retry = 0 });
    }

-- An active frame whose time is over is sent again, or given up.
unfoldable pub check_timeout : ℕ → ℕ → FrameInfo → Visit
check_timeout now time_sent n =
    if leb (n.tsent_ms + n.timeout_ms) now
    then (if ltb n.retry bdp_retry_max
        then record {
          sent = true;
          kept = some (record n { tsent_ms = time_sent; retry = n.retry + 1 });
        }
        else record { sent = false; kept = none })
    else record { sent = false; kept = some n }

-- The body of the loop at a node, among the other nodes of the list. `now` and `time_sent` are the two
-- readings of the clock.
unfoldable pub visit : ℕ → ℕ → List FrameInfo → FrameInfo → Visit
unfolding send_first check_timeout device_busy
visit now time_sent others n =
    if not n.active
    then (if device_busy others n.dev_num
        then record { sent = false; kept = some n }
        else send_first time_sent n)
    else check_timeout now time_sent n

-- What a pass has done: the frames sent, in order, the nodes and the counter.
pub record PassResult : Type 0 where
  pub transmitted : List FrameInfo
  pub frames : Frames

abbrev pub keep : Option FrameInfo → List FrameInfo
keep none = []
keep (some n) = n ∷ []

abbrev pub count_kept : Option FrameInfo → ℕ → ℕ
count_kept none active_frames = one_less active_frames
count_kept (some n) active_frames = active_frames

-- The loop, with the nodes that it has passed and those that are left. The clock gives its successive
-- readings, two for each node.
unfoldable pub pass_from : (ℕ → ℕ) → ℕ → List FrameInfo → ℕ → List FrameInfo → PassResult
pass_from clock i passed active_frames [] = record {
  transmitted = [];
  frames = record { nodes = passed; active_frames = active_frames };
}
pass_from clock i passed active_frames (n ∷ left) =
    let v = visit (clock i) (clock (i + 1)) (passed ++ left) n in
    let rest =
      pass_from clock (i + 2) (passed ++ keep v.kept) (count_kept v.kept active_frames) left in
    record rest { transmitted = if v.sent then n ∷ rest.transmitted else rest.transmitted }

unfoldable pub frame_pass : (ℕ → ℕ) → Frames → PassResult
unfolding pass_from visit
frame_pass clock fs = pass_from clock 0 [] fs.active_frames fs.nodes
