-- ===== src/Bdp/Tx.antt =====
-- svsBdpTx in src/svsBdp.c: a client's request becomes a frame, which joins the list of frames in flight.
pub mod Built
pub mod Seq
pub mod Queued
use emulation_lib.Prelude.{
  ℕ, ◌+◌, ◌-◌, ◌/◌, ◌%◌, ◌^◌, Option, none, some, List, [], ◌∷◌, ◌++◌, take, if◌then◌else◌, ◌==◌,
  leb, bit_and,
}
use emulation_lib.Err.{Err, pass, fail, busy}
use emulation_lib.Crc.Crc16.{crc16_compute, crc16_resume_compute}
use emulation_lib.Bdp.Types.{Link, bdp_num_all}
use emulation_lib.Bdp.Arp.{Table, svs_bdp_virtual_to_physical}
use emulation_lib.Bdp.Frames.{Frames, SocketHeader, svs_bdp_frame_add}

-- The fields of a packed structure, low byte first.
abbrev pub le16 : ℕ → List ℕ
le16 n = n % 256 ∷ n / 256 % 256 ∷ []

abbrev pub le32 : ℕ → List ℕ
le32 n = le16 n ++ le16 (n / 2 ^ 16)

-- The state that a transmission works on: `seq_num` is that of bdp_dev_info_t.
pub record TxState : Type 0 where
  pub table : Table
  pub frames : Frames
  pub seq_num : ℕ

-- svsMsgBdpFrameHeader_t behind its `crc`, in the order of the structure. `~len` is 0xFFFF - len.
abbrev pub after_crc : SocketHeader → List ℕ → ℕ → ℕ → ℕ → List ℕ
after_crc hdr addr sock_fd seq now =
    le16 hdr.len
    ++ (le16 (0xFFFF - hdr.len)
        ++ (addr
            ++ (hdr.msg_id % 256 ∷ (le32 sock_fd ++ (hdr.flags % 256 ∷ (le16 seq ++ le16 now))))))

-- Sequence 0 is kept for the frames that devices send on their own.
unfoldable pub next_seq : ℕ → ℕ
next_seq seq = let n = bit_and ((seq + 1) % 2 ^ 16) 0xFF in if n == 0 then 1 else n

-- The bit pattern of -1 for a broadcast, so that no client gets the responses.
unfoldable pub reply_fd : ℕ → ℕ → ℕ
reply_fd dev_num sock_fd = if dev_num == bdp_num_all then 0xFFFFFFFF else sock_fd

-- The header with its sum, and the payload.
unfoldable pub built_frame : Link → SocketHeader → List ℕ → ℕ → ℕ → ℕ → List ℕ → List ℕ
built_frame link hdr addr sock_fd seq now payload =
    let fields = after_crc hdr addr sock_fd seq now in
    let bytes = take hdr.len payload in
    let crc = crc16_resume_compute link.crc_table (crc16_compute link.crc_table fields) bytes in
    le16 crc ++ (fields ++ bytes)

unfoldable pub queue_frame :
    Link → TxState → ℕ → ℕ → SocketHeader → List ℕ → Err × Option (List ℕ) → Err × TxState
queue_frame link st sock_fd now hdr payload (rc, none) = (rc, st)
queue_frame link st sock_fd now hdr payload (rc, some addr) =
    let bytes = built_frame link hdr addr (reply_fd hdr.dev_num sock_fd) st.seq_num now payload in
    (
      rc,
      record st { frames = svs_bdp_frame_add st.frames hdr bytes; seq_num = next_seq st.seq_num },
    )

-- `now` is svsTimeGet_ms(), of which the header keeps the low 16 bits; `payload` is what its pointer
-- points to.
unfoldable pub svs_bdp_tx : Link → TxState → ℕ → ℕ → Option SocketHeader → List ℕ → Err × TxState
unfolding queue_frame
svs_bdp_tx link st sock_fd now none payload = (fail, st)
svs_bdp_tx link st sock_fd now (some hdr) payload =
    if leb 255 st.frames.active_frames
    then (busy, st)
    else queue_frame link st sock_fd now hdr payload
        (svs_bdp_virtual_to_physical link.addr_broadcast st.table hdr.dev_num)
