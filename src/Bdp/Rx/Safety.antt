-- ===== src/Bdp/Rx/Safety.antt =====
-- The receiver's indices stay inside its buffers, whatever bytes come in.
use emulation_lib.Prelude.{
  ◌⊎◌, ℕ, ◌+◌, ◌≤◌, ◌<◌, List, ◌≡◌, arith, refl, set, length, length-set, get_or-set_ne,
}
use emulation_lib.Err.{Err}
use emulation_lib.Bdp.Types.{
  FrameState, idle, preamble, sof, frame, Bus, Link, inc, hdr_len, frame_size, header_size,
  bdp_frame_preamble_size, bdp_msg_payload_max,
}
use emulation_lib.Bdp.Rx.{
  rx_preamble, rx_idle, rx_sof, rx_frame, rx_switch, rx_byte, store_byte, check_length, check_whole,
}

-- Where a frame is being received there is room for the next byte, and once the length fields are
-- complete they bound it. Where the preamble is being received, the index stands inside it.
pub record IsSafe (bus : Bus) : Type 0 where
  pub buffer : length bus.frame_rx ≡ frame_size
  pub in_frame : bus.frame_rx_state ≡ frame → bus.frame_rx_index < frame_size
  pub bounded :
      bus.frame_rx_state ≡ frame
      → 7 ≤ bus.frame_rx_index
      → (hdr_len bus.frame_rx ≤ bdp_msg_payload_max)
        × (bus.frame_rx_index < hdr_len bus.frame_rx + header_size)
  pub in_preamble : bus.frame_rx_state ≡ preamble → bus.preamble_rx_index < bdp_frame_preamble_size
  pub preamble_start : bus.frame_rx_state ≡ preamble → bus.frame_rx_index ≡ 0
  pub sof_start : bus.frame_rx_state ≡ sof → bus.frame_rx_index ≡ 0

rx_preamble-IsSafe :
    (link : Link) (bus : Bus) (byte : ℕ)
    → bus.frame_rx_state ≡ preamble
    → IsSafe bus
    → IsSafe (rx_preamble link bus byte)
unfolding rx_preamble
rx_preamble-IsSafe link bus byte e v = record {
  buffer = ground arith;
  in_frame = ground arith;
  bounded = ground arith;
  in_preamble = ground arith;
  preamble_start = ground arith;
  sof_start = ground arith;
}

rx_idle-IsSafe : (bus : Bus) → IsSafe bus → IsSafe (rx_idle bus)
unfolding rx_idle
rx_idle-IsSafe bus v = record {
  buffer = ground arith;
  in_frame = ground arith;
  bounded = ground arith;
  in_preamble = ground arith;
  preamble_start = ground arith;
  sof_start = ground arith;
}

rx_sof-IsSafe :
    (link : Link) (bus : Bus) (byte : ℕ)
    → bus.frame_rx_state ≡ sof
    → IsSafe bus
    → IsSafe (rx_sof link bus byte)
unfolding rx_sof
rx_sof-IsSafe link bus byte e v = record {
  buffer = ground arith;
  in_frame = ground arith;
  bounded = ground arith;
  in_preamble = ground arith;
  preamble_start = ground arith;
  sof_start = ground arith;
}

-- After the byte is stored the index may have reached the end.
record IsStored (bus : Bus) : Type 0 where
  buffer : length bus.frame_rx ≡ frame_size
  state : bus.frame_rx_state ≡ frame
  index : bus.frame_rx_index ≤ frame_size
  bounded :
      8 ≤ bus.frame_rx_index
      → (hdr_len bus.frame_rx ≤ bdp_msg_payload_max)
        × (bus.frame_rx_index ≤ hdr_len bus.frame_rx + header_size)

hdr_len-set : (bytes : List ℕ) (i byte : ℕ) → 7 ≤ i → hdr_len (set bytes i byte) ≡ hdr_len bytes
hdr_len-set bytes i byte h = omega (
  arith,
  get_or-set_ne bytes i 2 byte 0 (omega arith),
  get_or-set_ne bytes i 3 byte 0 (omega arith),
)

store_byte-IsStored :
    (link : Link) (bus : Bus) (byte : ℕ)
    → bus.frame_rx_state ≡ frame
    → IsSafe bus
    → IsStored (store_byte link bus byte)
unfolding store_byte
store_byte-IsStored link bus byte e v = record {
  buffer = ground (arith, length-set bus.frame_rx bus.frame_rx_index byte);
  state = ground arith;
  index = ground (arith, v.in_frame e);
  bounded =
      ground (arith, v.in_frame e, v.bounded e, hdr_len-set bus.frame_rx bus.frame_rx_index byte);
}

-- The test of the length lets only bounded frames go on.
record IsChecked (bus : Bus) : Type 0 where
  buffer : length bus.frame_rx ≡ frame_size
  going_on : (bus.frame_rx_state ≡ frame) ⊎ (bus.frame_rx_state ≡ idle)
  index : bus.frame_rx_index ≤ frame_size
  bounded :
      bus.frame_rx_state ≡ frame
      → 7 ≤ bus.frame_rx_index
      → (hdr_len bus.frame_rx ≤ bdp_msg_payload_max)
        × (bus.frame_rx_index ≤ hdr_len bus.frame_rx + header_size)

check_length-IsChecked : (bus : Bus) (rc : Err) → IsStored bus → IsChecked (check_length bus rc).0
unfolding check_length
check_length-IsChecked bus rc v = record {
  buffer = ground arith;
  going_on = ground arith;
  index = ground arith;
  bounded = ground arith;
}

check_whole-IsSafe : (bus : Bus) (rc : Err) → IsChecked bus → IsSafe (check_whole bus rc).0
unfolding check_whole
check_whole-IsSafe bus rc v = record {
  buffer = ground arith;
  in_frame = ground arith;
  bounded = ground arith;
  in_preamble = ground arith;
  preamble_start = ground arith;
  sof_start = ground arith;
}

rx_idle-state : (bus : Bus) → (rx_idle bus).frame_rx_state ≡ preamble
unfolding rx_idle
rx_idle-state bus = refl

rx_switch-IsSafe :
    (state : FrameState) (link : Link) (bus : Bus) (rc : Err) (byte : ℕ)
    → bus.frame_rx_state ≡ state
    → IsSafe bus
    → IsSafe (rx_switch state link bus rc byte).0
unfolding rx_switch rx_frame
rx_switch-IsSafe idle link bus rc byte e v =
    rx_preamble-IsSafe link (rx_idle bus) byte (rx_idle-state bus) (rx_idle-IsSafe bus v)
rx_switch-IsSafe preamble link bus rc byte e v = rx_preamble-IsSafe link bus byte e v
rx_switch-IsSafe sof link bus rc byte e v = rx_sof-IsSafe link bus byte e v
rx_switch-IsSafe frame link bus rc byte e v =
    check_whole-IsSafe _ _ (check_length-IsChecked _ rc (store_byte-IsStored link bus byte e v))

-- Every byte keeps the receiver's indices inside its buffers: the frame index below the size of the
-- frame, so that each store is in bounds, and the preamble index below the preamble's size.
pub rx_byte-IsSafe :
    (link : Link) (bus : Bus) (rc : Err) (byte : ℕ)
    → IsSafe bus
    → IsSafe (rx_byte link bus rc byte).0
unfolding rx_byte
rx_byte-IsSafe link bus rc byte v = rx_switch-IsSafe bus.frame_rx_state link _ rc byte refl counted
  where
    counted : IsSafe (record bus {
      bus_stats = record (bus.bus_stats) { rx_byte_cnt = inc bus.bus_stats.rx_byte_cnt };
    })
    counted = record {
      buffer = v.buffer;
      in_frame = v.in_frame;
      bounded = v.bounded;
      in_preamble = v.in_preamble;
      preamble_start = v.preamble_start;
      sof_start = v.sof_start;
    }
