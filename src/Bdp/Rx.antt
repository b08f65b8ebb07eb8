-- ===== src/Bdp/Rx.antt =====
-- svsBdpRx in src/svsBdp.c, the switch of its loop: the state machine that one byte drives.
pub mod Safety
pub mod Receiving
pub mod Steps
pub mod Start
use emulation_lib.Prelude.{
  ℕ, ◌+◌, ◌-◌, ◌%◌, ◌^◌, true, false, not, [], ◌∷◌, get_or, set, if◌then◌else◌, ◌==◌, ltb, leb,
}
use emulation_lib.Crc.Crc16.{crc16_resume_compute}
use emulation_lib.Err.{Err, pass, crc_fail, len_fail, len_too_long}
use emulation_lib.Bdp.Types.{
  FrameState, idle, preamble, sof, frame, Bus, Link, inc, hdr_crc, hdr_len, hdr_len_inv,
  header_size, bdp_frame_preamble_size, bdp_msg_payload_max,
}

-- case BDP_FRAME_STATE_PREAMBLE
unfoldable pub rx_preamble : Link → Bus → ℕ → Bus
rx_preamble link bus byte =
    if byte == get_or link.preamble_bytes bus.preamble_rx_index 0
    then (let index = (bus.preamble_rx_index + 1) % 2 ^ 16 in
        record bus {
          preamble_rx_index = index;
          frame_rx_state = if leb bdp_frame_preamble_size index then sof else bus.frame_rx_state;
        })
    else record bus { frame_rx_state = idle }

-- case BDP_FRAME_STATE_IDLE, before it falls through
unfoldable pub rx_idle : Bus → Bus
rx_idle bus = record bus {
  frame_rx_crc = 0;
  frame_rx_index = 0;
  preamble_rx_index = 0;
  frame_done = false;
  frame_rx_state = preamble;
}

-- case BDP_FRAME_STATE_SOF
unfoldable pub rx_sof : Link → Bus → ℕ → Bus
rx_sof link bus byte =
    if byte == link.sof_byte
    then record bus { frame_rx_state = frame }
    else (let stats = bus.bus_stats in
        record bus {
          frame_rx_state = idle;
          bus_stats = record stats { rx_err_no_sof = inc stats.rx_err_no_sof };
        })

-- The byte goes into the frame, and into the sum once it is behind the CRC field.
unfoldable pub store_byte : Link → Bus → ℕ → Bus
store_byte link bus byte =
    let index = (bus.frame_rx_index + 1) % 2 ^ 16 in
    record bus {
      frame_rx = set bus.frame_rx bus.frame_rx_index byte;
      frame_rx_index = index;
      frame_rx_crc =
          if ltb 2 index
          then crc16_resume_compute link.crc_table bus.frame_rx_crc (byte ∷ [])
          else bus.frame_rx_crc;
    }

-- The test of the length fields, made once they are complete (`~len_inv & 0xFFFF` is 0xFFFF - len_inv).
unfoldable pub check_length : Bus → Err → Bus × Err
check_length bus rc =
    if bus.frame_rx_index == 2 + 2 + 2 + 1
    then (let stats = bus.bus_stats in
        if not (hdr_len bus.frame_rx == 0xFFFF - hdr_len_inv bus.frame_rx)
        then (
          record bus {
            frame_rx_state = idle;
            bus_stats = record stats { rx_err_length = inc stats.rx_err_length };
          },
          len_fail,
        )
        else if ltb bdp_msg_payload_max (hdr_len bus.frame_rx)
        then (
          record bus {
            frame_rx_state = idle;
            bus_stats = record stats { rx_err_length_too_long = inc stats.rx_err_length_too_long };
          },
          len_too_long,
        )
        else (bus, rc))
    else (bus, rc)

-- The test of the sum, made once the whole frame is there.
unfoldable pub check_whole : Bus → Err → Bus × Err
check_whole bus rc =
    if bus.frame_rx_index == hdr_len bus.frame_rx + header_size
    then (let stats = bus.bus_stats in
        if not (bus.frame_rx_crc == hdr_crc bus.frame_rx)
        then (
          record bus {
            frame_rx_state = idle;
            bus_stats = record stats { rx_err_crc = inc stats.rx_err_crc };
          },
          crc_fail,
        )
        else (
          record bus {
            frame_rx_state = idle;
            frame_done = true;
            bus_stats = record stats { rx_frame_cnt = inc stats.rx_frame_cnt };
          },
          pass,
        ))
    else (bus, rc)

-- case BDP_FRAME_STATE_FRAME
unfoldable pub rx_frame : Link → Bus → Err → ℕ → Bus × Err
unfolding store_byte check_length check_whole
rx_frame link bus rc byte =
    let (checked, rc') = check_length (store_byte link bus byte) rc in check_whole checked rc'

unfoldable pub rx_switch : FrameState → Link → Bus → Err → ℕ → Bus × Err
rx_switch idle link bus rc byte = (rx_preamble link (rx_idle bus) byte, rc)
rx_switch preamble link bus rc byte = (rx_preamble link bus byte, rc)
rx_switch sof link bus rc byte = (rx_sof link bus byte, rc)
rx_switch frame link bus rc byte = rx_frame link bus rc byte

-- STATS_INC(rx_byte_cnt)
abbrev pub count_byte : Bus → Bus
count_byte bus =
    let stats = bus.bus_stats in
    record bus { bus_stats = record stats { rx_byte_cnt = inc stats.rx_byte_cnt } }

-- The byte is counted, then the switch is taken. Its default case is for values that the enumeration
-- does not have.
unfoldable pub rx_byte : Link → Bus → Err → ℕ → Bus × Err
unfolding rx_switch
rx_byte link bus rc byte = rx_switch bus.frame_rx_state link (count_byte bus) rc byte
