-- ===== src/Bdp/Frames.antt =====
-- The frames in flight, in src/svsBdp.c: the list behind `bdp_node_head`, which both ends of the server
-- work on under one mutex. The list is linked both ways with a head that holds no data; here it is
-- the frames in that order. `malloc` does not fail.
pub mod Pass
pub mod Exclusive
pub mod Budget
pub mod Counter
use emulation_lib.Prelude.{
  ℕ, ◌+◌, ◌-◌, ◌%◌, ◌^◌, Bool, true, false, Option, none, some, List, [], ◌∷◌, ◌++◌, if◌then◌else◌,
  ◌==◌, ltb,
}
use emulation_lib.Err.{Err, pass, fail}
use emulation_lib.Bdp.Types.{hdr_seq, bdp_num_all}

-- bdp_frame_info_t; `active` is `state == 1`, and `callback` is 0 for a null pointer.
pub record FrameInfo : Type 0 where
  pub dev_num : ℕ
  pub active : Bool
  pub tsent_client_ms : ℕ
  pub timeout_client_ms : ℕ
  pub tsent_ms : ℕ
  pub timeout_ms : ℕ
  pub retry : ℕ
  pub bcast : Bool
  pub callback : ℕ
  pub frame : List ℕ

-- The list, and `bdp_dev_info.active_frames`.
pub record Frames : Type 0 where
  pub nodes : List FrameInfo
  pub active_frames : ℕ

-- svsSocketMsgHeader_t, as far as the BDP server reads it; its `u.bdphdr` too.
pub record SocketHeader : Type 0 where
  pub dev_num : ℕ
  pub len : ℕ
  pub tsent_ms : ℕ
  pub timeout_ms : ℕ
  pub msg_id : ℕ
  pub flags : ℕ
  pub callback : ℕ
  pub bdp_timeout_ms : ℕ

unfoldable pub svs_bdp_node_add_from_tail : Frames → FrameInfo → Frames
svs_bdp_node_add_from_tail fs d = record fs {
  nodes = fs.nodes ++ (d ∷ []);
  active_frames = fs.active_frames + 1;
}

-- The frame is the header and the payload behind it.
unfoldable pub svs_bdp_frame_add : Frames → SocketHeader → List ℕ → Frames
unfolding svs_bdp_node_add_from_tail
svs_bdp_frame_add fs hdr frame = svs_bdp_node_add_from_tail fs (record {
  dev_num = hdr.dev_num;
  active = false;
  tsent_client_ms = hdr.tsent_ms;
  timeout_client_ms = hdr.timeout_ms;
  tsent_ms = 0;
  timeout_ms = hdr.bdp_timeout_ms;
  retry = 0;
  bcast = hdr.dev_num == bdp_num_all;
  callback = hdr.callback;
  frame = frame;
})

-- The counter after the removal of a node.
unfoldable pub one_less : ℕ → ℕ
one_less active_frames = if ltb 0 active_frames then active_frames - 1 else active_frames

-- svsBdpNodeFind: the first frame with the sequence number.
unfoldable pub svs_bdp_node_find : List FrameInfo → ℕ → Option FrameInfo
svs_bdp_node_find [] seq = none
svs_bdp_node_find (n ∷ nodes) seq =
    if hdr_seq n.frame == seq then some n else svs_bdp_node_find nodes seq

-- svsBdpNodeRemove at the node that svsBdpNodeFind has found.
unfoldable pub remove_found : List FrameInfo → ℕ → List FrameInfo
remove_found [] seq = []
remove_found (n ∷ nodes) seq = if hdr_seq n.frame == seq then nodes else n ∷ remove_found nodes seq

unfoldable pub found_and_removed : Option FrameInfo → Frames → ℕ → Err × Option FrameInfo × Frames
found_and_removed none fs seq = (fail, none, fs)
found_and_removed (some n) fs seq = (
  pass,
  some n,
  record fs { nodes = remove_found fs.nodes seq; active_frames = one_less fs.active_frames },
)

unfoldable pub svs_bdp_frame_find_and_remove : Frames → ℕ → Err × Option FrameInfo × Frames
unfolding found_and_removed svs_bdp_node_find remove_found one_less
svs_bdp_frame_find_and_remove fs seq = found_and_removed (svs_bdp_node_find fs.nodes seq) fs seq
