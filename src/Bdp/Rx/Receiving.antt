-- ===== src/Bdp/Rx/Receiving.antt =====
-- What the receiver holds while a frame comes in: the bytes so far, and their sum.
use emulation_lib.Prelude.{
  ℕ, ◌+◌, ◌-◌, ◌≤◌, ◌<◌, true, false, List, [], ◌∷◌, ◌++◌, ◌≡◌, ◌≢◌, arith, refl, sym, ◌∙◌, ap, set,
  length, length-append, set-append, drop, get_or-append_left,
}
use mathlib.Core.List.{append_assoc}
use emulation_lib.Crc.Crc16.{crc16_resume_compute, crc16_compute}
use emulation_lib.Crc.Detection.{resume_compute-append}
use emulation_lib.Err.{Err, pass}
use emulation_lib.Bdp.Types.{
  idle, frame, Bus, Link, u16_at, hdr_len, hdr_crc, hdr_len_inv, frame_size, header_size,
  bdp_msg_payload_max,
}
use emulation_lib.Bdp.Rx.{store_byte, check_length, check_whole}

-- A frame that a sender may put on the bus: its length fields agree with each other and with its size,
-- and its first two bytes are the sum of all the others.
pub record IsFrame (table : List ℕ) (bytes : List ℕ) : Type 0 where
  pub size : length bytes ≡ hdr_len bytes + header_size
  pub payload_fits : hdr_len bytes ≤ bdp_msg_payload_max
  pub inverse : hdr_len bytes ≡ 0xFFFF - hdr_len_inv bytes
  pub sum : hdr_crc bytes ≡ crc16_compute table (drop 2 bytes)

-- The bytes `got` are in; `rest` is what the buffer held behind them.
pub record Receiving (link : Link) (got rest : List ℕ) (bus : Bus) : Type 0 where
  pub state : bus.frame_rx_state ≡ frame
  pub contents : bus.frame_rx ≡ got ++ rest
  pub room : length (got ++ rest) ≡ frame_size
  pub index : bus.frame_rx_index ≡ length got
  pub sum : bus.frame_rx_crc ≡ crc16_compute link.crc_table (drop 2 got)
  pub not_done : bus.frame_done ≡ false

drop-append :
    (got : List ℕ) (b : ℕ) → 2 ≤ length got → drop 2 (got ++ (b ∷ [])) ≡ drop 2 got ++ (b ∷ [])
drop-append [] b h = absurd (omega arith)
drop-append (x ∷ []) b h = absurd (omega arith)
drop-append (x ∷ y ∷ got) b h = refl

drop_short : (got : List ℕ) → length got ≤ 2 → drop 2 got ≡ []
drop_short [] h = refl
drop_short (x ∷ []) h = refl
drop_short (x ∷ y ∷ []) h = refl
drop_short (x ∷ y ∷ z ∷ got) h = absurd (omega arith)

sum_more :
    (table got : List ℕ) (b : ℕ)
    → 2 ≤ length got
    → crc16_compute table (drop 2 (got ++ (b ∷ [])))
      ≡ crc16_resume_compute table (crc16_compute table (drop 2 got)) (b ∷ [])
unfolding crc16_compute
sum_more table got b h =
    ap (crc16_resume_compute table 0) (drop-append got b h)
    ∙ resume_compute-append table 0 (drop 2 got) (b ∷ [])

sum_none :
    (table got : List ℕ) (b : ℕ)
    → length got ≤ 1
    → crc16_compute table (drop 2 (got ++ (b ∷ []))) ≡ crc16_compute table (drop 2 got)
sum_none table got b h = ap (crc16_compute table) (
    drop_short (got ++ (b ∷ [])) (omega (arith, length-append got (b ∷ [])))
    ∙ sym (drop_short got (omega arith)))

pub store_byte-Receiving :
    (link : Link) (got rest : List ℕ) (y b : ℕ) (bus : Bus)
    → Receiving link got (y ∷ rest) bus
    → Receiving link (got ++ (b ∷ [])) rest (store_byte link bus b)
unfolding store_byte
store_byte-Receiving link got rest y b bus r = record {
  state = r.state;
  contents =
      ap (λ f. set f bus.frame_rx_index b) r.contents
      ∙ ap (λ (i : ℕ). set (got ++ (y ∷ rest)) i b) r.index
      ∙ set-append got y b rest
      ∙ sym (append_assoc got (b ∷ []) rest);
  room = omega (
    arith,
    r.room,
    length-append got (y ∷ rest),
    length-append (got ++ (b ∷ [])) rest,
    length-append got (b ∷ []),
  );
  index = omega (arith, r.room, r.index, length-append got (y ∷ rest), length-append got (b ∷ []));
  sum = ground (
    arith,
    r.room,
    length-append got (y ∷ rest),
    sum_more link.crc_table got b,
    sum_none link.crc_table got b,
  );
  not_done = r.not_done;
}

-- The length fields of the whole frame are those of the bytes so far, once they are in.
pub u16_at-append :
    (got rest : List ℕ) (i : ℕ) → i + 1 < length got → u16_at (got ++ rest) i ≡ u16_at got i
u16_at-append got rest i h =
    omega (
      arith,
      get_or-append_left got rest i 0 (omega arith),
      get_or-append_left got rest (i + 1) 0 h,
    )

pub check_length_agrees :
    (bus : Bus) (rc : Err)
    → (bus.frame_rx_index ≡ 7
        → (hdr_len bus.frame_rx ≡ 0xFFFF - hdr_len_inv bus.frame_rx)
          × (hdr_len bus.frame_rx ≤ bdp_msg_payload_max))
    → check_length bus rc ≡ (bus, rc)
unfolding check_length
check_length_agrees bus rc h = ground arith

pub check_whole_early :
    (bus : Bus) (rc : Err)
    → bus.frame_rx_index ≢ hdr_len bus.frame_rx + header_size
    → check_whole bus rc ≡ (bus, rc)
unfolding check_whole
check_whole_early bus rc h = ground arith

-- The frame that was received, as the receiver leaves it.
pub record IsReceived (bytes rest : List ℕ) (result : Bus × Err) : Type 0 where
  pub returns : result.1 ≡ pass
  pub done : result.0.frame_done ≡ true
  pub waits : result.0.frame_rx_state ≡ idle
  pub contents : result.0.frame_rx ≡ bytes ++ rest

pub check_whole_last :
    (bytes rest : List ℕ) (bus : Bus) (rc : Err)
    → bus.frame_rx_index ≡ hdr_len bus.frame_rx + header_size
    → bus.frame_rx_crc ≡ hdr_crc bus.frame_rx
    → bus.frame_rx ≡ bytes ++ rest
    → IsReceived bytes rest (check_whole bus rc)
unfolding check_whole
check_whole_last bytes rest bus rc e c h = record {
  returns = ground arith;
  done = ground arith;
  waits = ground arith;
  contents = ground arith;
}
