-- ===== src/Bdp/Rx/Start.antt =====
-- The preamble and the start byte, up to an empty frame.
use emulation_lib.Prelude.{ℕ, ◌+◌, ◌<◌, false, [], ◌≡◌, arith, refl, length, get_or}
use emulation_lib.Crc.Crc16.{crc16_compute}
use emulation_lib.Bdp.Types.{FrameState, preamble, sof, Bus, Link, frame_size}
use emulation_lib.Bdp.Rx.{rx_idle, rx_preamble, rx_sof, count_byte}
use emulation_lib.Bdp.Rx.Receiving.{Receiving}

-- The first `k` bytes of the preamble are in.
pub record AtPreamble (k : ℕ) (state : FrameState) (bus : Bus) : Type 0 where
  pub state_is : bus.frame_rx_state ≡ state
  pub preamble_index : bus.preamble_rx_index ≡ k
  pub room : length bus.frame_rx ≡ frame_size
  pub index : bus.frame_rx_index ≡ 0
  pub sum : bus.frame_rx_crc ≡ 0
  pub not_done : bus.frame_done ≡ false

pub rx_idle-AtPreamble :
    (bus : Bus) → length bus.frame_rx ≡ frame_size → AtPreamble 0 preamble (rx_idle bus)
unfolding rx_idle
rx_idle-AtPreamble bus h = record {
  state_is = refl;
  preamble_index = refl;
  room = h;
  index = refl;
  sum = refl;
  not_done = refl;
}

pub counted-AtPreamble :
    (k : ℕ) (state : FrameState) (bus : Bus)
    → AtPreamble k state bus
    → AtPreamble k state (count_byte bus)
counted-AtPreamble k state bus a = record {
  state_is = a.state_is;
  preamble_index = a.preamble_index;
  room = a.room;
  index = a.index;
  sum = a.sum;
  not_done = a.not_done;
}

module _ (link : Link) where
  abbrev preamble_byte : ℕ → ℕ
  preamble_byte k = get_or link.preamble_bytes k 0

  pub rx_preamble_more :
      (k : ℕ) (bus : Bus)
      → k < 6
      → AtPreamble k preamble bus
      → AtPreamble (k + 1) preamble (rx_preamble link bus (preamble_byte k))
  unfolding rx_preamble
  rx_preamble_more k bus h a = record {
    state_is = ground arith;
    preamble_index = ground arith;
    room = ground arith;
    index = ground arith;
    sum = ground arith;
    not_done = ground arith;
  }

  pub rx_preamble_last :
      (bus : Bus)
      → AtPreamble 6 preamble bus
      → AtPreamble 7 sof (rx_preamble link bus (preamble_byte 6))
  unfolding rx_preamble
  rx_preamble_last bus a = record {
    state_is = ground arith;
    preamble_index = ground arith;
    room = ground arith;
    index = ground arith;
    sum = ground arith;
    not_done = ground arith;
  }

  pub rx_sof-Receiving :
      (bus : Bus)
      → AtPreamble 7 sof bus
      → Receiving link [] bus.frame_rx (rx_sof link bus link.sof_byte)
  unfolding rx_sof crc16_compute
  rx_sof-Receiving bus a = record {
    state = ground arith;
    contents = ground arith;
    room = a.room;
    index = ground arith;
    sum = ground arith;
    not_done = ground arith;
  }
