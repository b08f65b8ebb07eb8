-- ===== src/Bdp/Tx/Queued.antt =====
-- What a transmission changes: the list of frames in flight and the sequence number, or nothing.
use emulation_lib.Prelude.{
  ℕ, ◌+◌, ◌^◌, ◌≤◌, ◌<◌, false, Option, none, some, List, [], ◌∷◌, ◌++◌, ◌≡◌, ◌≢◌, arith, refl, sym,
  ap, ◌∙◌, subst, length, get_or, take, drop, ◌*◌, ◌%◌, ◌==◌, if◌then◌else◌,
}
use emulation_lib.Err.{Err, pass}
use emulation_lib.Bdp.Types.{
  Link, bdp_msg_payload_max, hdr_len, hdr_addr, hdr_seq, hdr_msg_id, hdr_sock_fd, hdr_flags,
  header_size, bdp_msg_addr_length,
}
use emulation_lib.Bdp.Rx.Receiving.{IsFrame}
use emulation_lib.Bdp.Arp.{svs_bdp_virtual_to_physical}
use emulation_lib.Bdp.Frames.{FrameInfo, SocketHeader, svs_bdp_frame_add}
use emulation_lib.Bdp.Tx.{TxState, reply_fd, next_seq, queue_frame, svs_bdp_tx}
use emulation_lib.Bdp.Tx.Built.{
  built-IsFrame, built_len, built_addr, built_seq, built_msg_id, built_sock_fd, built_flags,
  built_time, built-payload,
}

-- The request is the last of the list, as an idle node whose frame is good and carries its fields and its payload.
pub record IsQueued (link : Link) (st : TxState) (sock_fd now : ℕ) (hdr : SocketHeader)
    (addr payload : List ℕ) (r : Err × TxState) : Type 0 where
  pub node : FrameInfo
  pub returns : r.0 ≡ pass
  pub nodes : r.1.frames.nodes ≡ st.frames.nodes ++ (node ∷ [])
  pub counted : r.1.frames.active_frames ≡ st.frames.active_frames + 1
  pub next : r.1.seq_num ≡ next_seq st.seq_num
  pub device : node.dev_num ≡ hdr.dev_num
  pub waiting : node.active ≡ false
  pub good : IsFrame link.crc_table node.frame
  pub len : hdr_len node.frame ≡ hdr.len
  pub destination : hdr_addr node.frame ≡ addr
  pub seq : hdr_seq node.frame ≡ st.seq_num
  pub msg_id : hdr_msg_id node.frame ≡ hdr.msg_id
  pub reply : hdr_sock_fd node.frame ≡ (if hdr.dev_num == 0xFF then 0xFFFFFFFF else sock_fd)
  pub flags : hdr_flags node.frame ≡ hdr.flags % 256
  pub time : get_or node.frame 22 0 + 256 * get_or node.frame 23 0 ≡ now % 2 ^ 16
  pub bytes : drop header_size node.frame ≡ take hdr.len payload
  pub tsent_client : node.tsent_client_ms ≡ hdr.tsent_ms
  pub timeout_client : node.timeout_client_ms ≡ hdr.timeout_ms
  pub timeout : node.timeout_ms ≡ hdr.bdp_timeout_ms
  pub not_sent : node.tsent_ms ≡ 0
  pub no_retry : node.retry ≡ 0
  pub to_all : node.bcast ≡ (hdr.dev_num == 0xFF)
  pub callback : node.callback ≡ hdr.callback

reply_fd-lt : (dev_num sock_fd : ℕ) → sock_fd < 2 ^ 32 → reply_fd dev_num sock_fd < 2 ^ 32
unfolding reply_fd
reply_fd-lt dev_num sock_fd h = ground arith

queue_frame-IsQueued :
    (link : Link) (st : TxState) (sock_fd now : ℕ) (hdr : SocketHeader) (addr payload : List ℕ)
    → length addr ≡ bdp_msg_addr_length
    → hdr.len ≤ bdp_msg_payload_max
    → hdr.len ≤ length payload
    → hdr.msg_id < 2 ^ 8
    → st.seq_num < 2 ^ 16
    → sock_fd < 2 ^ 32
    → IsQueued link st sock_fd now hdr addr payload
        (queue_frame link st sock_fd now hdr payload (pass, some addr))
unfolding queue_frame svs_bdp_frame_add reply_fd
queue_frame-IsQueued link st sock_fd now hdr addr payload a f p m s d = record {
  node = _;
  returns = refl;
  nodes = refl;
  counted = refl;
  next = refl;
  device = refl;
  waiting = refl;
  good = built-IsFrame link hdr addr fd st.seq_num now payload a f p;
  len = built_len link hdr addr fd st.seq_num now payload a f p;
  destination = built_addr link hdr addr fd st.seq_num now payload a f p;
  seq = built_seq link hdr addr fd st.seq_num now payload a f p s;
  msg_id = omega (arith, built_msg_id link hdr addr fd st.seq_num now payload a f p);
  reply =
      built_sock_fd link hdr addr fd st.seq_num now payload a f p
        (reply_fd-lt hdr.dev_num sock_fd d);
  flags = built_flags link hdr addr fd st.seq_num now payload a f p;
  time = built_time link hdr addr fd st.seq_num now payload a f p;
  bytes = built-payload link hdr addr fd st.seq_num now payload a f p;
  tsent_client = refl;
  timeout_client = refl;
  timeout = refl;
  not_sent = refl;
  no_retry = refl;
  to_all = refl;
  callback = refl;
}
  where
    fd : ℕ
    fd = reply_fd hdr.dev_num sock_fd

tx_asks :
    (link : Link) (st : TxState) (sock_fd now : ℕ) (hdr : SocketHeader) (payload : List ℕ)
    → st.frames.active_frames < 255
    → svs_bdp_tx link st sock_fd now (some hdr) payload
      ≡ queue_frame link st sock_fd now hdr payload
          (svs_bdp_virtual_to_physical link.addr_broadcast st.table hdr.dev_num)
unfolding svs_bdp_tx
tx_asks link st sock_fd now hdr payload h = ground arith

-- With fewer than 255 frames in flight, a request to a known device (or to all), whose payload is there
-- and fits in a frame, is accepted. It joins the end of the list, idle, not yet sent and without a retry, and
-- the list's node has the device, the two times, the frame timeout and the callback that the client gave, and
-- whether it is for all. The frame has the client's length, message identifier, low byte of the flags and
-- payload, the device's address, the socket (0xFFFFFFFF where it is for all), the current sequence number and
-- the low 16 bits of the time, and its length fields and sum are those that a receiver tests; the next
-- sequence number is taken.
pub svs_bdp_tx-IsQueued :
    (link : Link) (st : TxState) (sock_fd now : ℕ) (hdr : SocketHeader) (addr payload : List ℕ)
    → st.frames.active_frames < 255
    → svs_bdp_virtual_to_physical link.addr_broadcast st.table hdr.dev_num ≡ (pass, some addr)
    → length addr ≡ bdp_msg_addr_length
    → hdr.len ≤ bdp_msg_payload_max
    → hdr.len ≤ length payload
    → hdr.msg_id < 2 ^ 8
    → st.seq_num < 2 ^ 16
    → sock_fd < 2 ^ 32
    → IsQueued link st sock_fd now hdr addr payload
        (svs_bdp_tx link st sock_fd now (some hdr) payload)
svs_bdp_tx-IsQueued link st sock_fd now hdr addr payload h e a f p m s d =
    subst (IsQueued link st sock_fd now hdr addr payload)
      (sym (
        tx_asks link st sock_fd now hdr payload h
        ∙ ap (queue_frame link st sock_fd now hdr payload) e))
      (queue_frame-IsQueued link st sock_fd now hdr addr payload a f p m s d)

-- A transmission that is refused, whatever the reason, leaves the list and the sequence number as they were.
pub svs_bdp_tx_refused :
    (link : Link) (st : TxState) (sock_fd now : ℕ) (hdr : Option SocketHeader) (payload : List ℕ)
    → (svs_bdp_tx link st sock_fd now hdr payload).0 ≢ pass
    → (svs_bdp_tx link st sock_fd now hdr payload).1 ≡ st
unfolding svs_bdp_tx queue_frame svs_bdp_virtual_to_physical
svs_bdp_tx_refused link st sock_fd now none payload h = refl
svs_bdp_tx_refused link st sock_fd now (some hdr) payload h = ground arith
