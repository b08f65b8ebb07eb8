-- ===== src/Bdp/Server.antt =====
-- svsBdpRx in src/svsBdp.c: the bytes of one read, and what is done with each frame that they complete.
pub mod Body
pub mod Wire
pub mod Effect
use emulation_lib.Prelude.{
  ℕ, ◌+◌, ◌-◌, ◌%◌, ◌^◌, ◌≤◌, Bool, true, false, ◌&&◌, not, Option, none, some, List, [], ◌∷◌, ◌++◌,
  get_or, set, take, drop, replicate, if◌then◌else◌, ◌==◌, ltb, leb,
}
use emulation_lib.Err.{Err, pass, fail, comms_timeout, file_desc, passed}
use emulation_lib.Bdp.Types.{
  FrameState, idle, Bus, Link, inc, hdr_len, hdr_addr, hdr_msg_id, hdr_sock_fd, hdr_seq, payload,
  bdp_msg_addr_length, msg_id_bdp_max, msg_id_bdp_addr_get, msg_id_bdp_ack,
  bdp_max_inter_byte_duration_us,
}
use emulation_lib.Bdp.Rx.{rx_byte}
use emulation_lib.Bdp.Arp.{
  BdpState, IdDataAddr, Table, blank, svs_bdp_addr_match, svs_bdp_arp_table_update,
  svs_bdp_physical_to_virtual,
}
use emulation_lib.Bdp.Frames.{FrameInfo, Frames, svs_bdp_frame_find_and_remove}

-- What the server hands to its clients: svsSocketSendCallback and svsSocketSendBdp, with the device,
-- the message, the callback or the client's socket, and the payload.
pub data Output : Type 0 where
  to_callback : ℕ → ℕ → ℕ → List ℕ → Output
  to_client : ℕ → ℕ → ℕ → List ℕ → Output

-- What the outside answers while a frame is handled: the clock, and the results of the two sends.
pub record Env : Type 0 where
  pub time_ms : ℕ
  pub callback_result : Output → Err
  pub client_result : Output → Err

-- The state that the receiving thread of one bus works on. `bdp_num` is the local variable, which
-- is written only where a device is found.
pub record RxState : Type 0 where
  pub bus : Bus
  pub rc : Err
  pub table : Table
  pub frames : Frames
  pub outputs : List Output

-- The response goes to the buffer of its message, if that has its length. The result is the new `rc`.
store_in : Bool → ℕ → List ℕ → IdDataAddr → Err × IdDataAddr
store_in loopback len bytes slot = elim slot.rsp [
  | none ↦ (fail, slot)
  | some old ↦
      if len == slot.rsp_len
      then (pass, record slot { rsp = some (take len bytes) })
      else if loopback
      then (pass, slot)
      else (fail, slot)
]

-- The entry of the device, with its response and its count of frames.
unfoldable pub store_response : Bool → List ℕ → BdpState → Err × BdpState
unfolding store_in
store_response loopback frame s =
    let msg_id = hdr_msg_id frame in
    let (rc, slot) = store_in loopback (hdr_len frame) (payload frame) (s.id_data_addr msg_id) in
    (
      rc,
      record s {
        id_data_addr = λ id. if id == msg_id then slot else s.id_data_addr id;
        rx_cnt = inc s.rx_cnt;
      },
    )

unfoldable pub emit : Err → Output → RxState → RxState
emit rc out st = record st { rc = rc; outputs = st.outputs ++ (out ∷ []) }

-- The tests between a response and the client that waits for it, in the order of the source.
unfoldable pub answer : Env → ℕ → FrameInfo → RxState → RxState
unfolding emit
answer env bdp_num n st =
    let frame = st.bus.frame_rx in
    let msg_id = hdr_msg_id frame in
    let bytes = take (hdr_len frame) (payload frame) in
    let callback = to_callback bdp_num msg_id n.callback bytes in
    let client = to_client bdp_num msg_id (hdr_sock_fd frame) bytes in
    if not (hdr_msg_id n.frame == msg_id) && not (msg_id == msg_id_bdp_ack)
    then record st { rc = fail }
    else if (n.timeout_ms == 0) && (n.callback == 0)
    then record st { rc = fail }
    else if not (n.callback == 0)
    then emit (env.callback_result callback) callback st
    else if leb (n.tsent_client_ms + n.timeout_client_ms) env.time_ms
    then record st { rc = fail }
    else emit (env.client_result client) client st

unfoldable pub answer_found : Env → ℕ → Err × Option FrameInfo × Frames → RxState → RxState
answer_found env bdp_num (rc, none, frames) st = record st { rc = fail; frames = frames }
answer_found env bdp_num (rc, some n, frames) st =
    answer env bdp_num n (record st { rc = rc; frames = frames })

-- The frame goes to a waiting client, to the callback server, or nowhere: by the sign of its socket.
unfoldable pub dispatch : Env → ℕ → RxState → RxState
unfolding answer_found answer emit
dispatch env bdp_num st =
    let frame = st.bus.frame_rx in
    let sock_fd = hdr_sock_fd frame in
    let event = to_callback bdp_num (hdr_msg_id frame) 0 (take (hdr_len frame) (payload frame)) in
    if ltb 0 sock_fd && ltb sock_fd (2 ^ 31)
    then answer_found env bdp_num (svs_bdp_frame_find_and_remove st.frames (hdr_seq frame)) st
    else if sock_fd == 0
    then emit (env.callback_result event) event st
    else record st { rc = fail }

-- The eight bytes of the address, overwritten.
unfoldable pub set_addr : List ℕ → List ℕ → List ℕ
set_addr frame addr = take 6 frame ++ (addr ++ drop 14 frame)

-- In loopback the broadcast address is replaced.
unfoldable pub loop_back : Link → Bus → Bus
unfolding set_addr
loop_back link bus =
    if link.loopback_enable
      && passed (svs_bdp_addr_match (hdr_addr bus.frame_rx) link.addr_broadcast)
    then record bus { frame_rx = set_addr bus.frame_rx (replicate bdp_msg_addr_length 0xDD) }
    else bus

from_device : Env → Link → Err × Option ℕ → RxState → RxState
from_device env link (rc, none) st = record st { rc = fail }
from_device env link (rc, some bdp_num) st =
    let (stored, entry) =
      store_response link.loopback_enable st.bus.frame_rx
        (get_or st.table.bdp_state bdp_num blank) in
    let st' = record st {
      rc = stored;
      table = record (st.table) { bdp_state = set st.table.bdp_state bdp_num entry };
    } in
    if passed stored then dispatch env bdp_num st' else st'

addressed : Env → Link → ℕ → RxState → RxState
addressed env link bus_num st =
    let addr = some (hdr_addr st.bus.frame_rx) in
    if hdr_msg_id st.bus.frame_rx == msg_id_bdp_addr_get
    then (let (rc, table) = svs_bdp_arp_table_update link.addr_broadcast st.table bus_num addr in
        record st { rc = rc; table = table })
    else from_device env link (svs_bdp_physical_to_virtual link.addr_broadcast st.table addr) st

-- What follows `frame_done`.
unfoldable pub deliver : Env → Link → ℕ → RxState → RxState
unfolding addressed from_device dispatch store_response loop_back
deliver env link bus_num st =
    let bus = record (st.bus) { frame_done = false } in
    if leb msg_id_bdp_max (hdr_msg_id bus.frame_rx)
    then record st { bus = bus; rc = fail }
    else addressed env link bus_num (record st { bus = loop_back link bus })

-- The body of the loop over the bytes that were read.
unfoldable pub rx_step : Env → Link → ℕ → RxState → ℕ → RxState
rx_step env link bus_num st byte =
    let (bus, rc) = rx_byte link st.bus st.rc byte in
    let st' = record st { bus = bus; rc = rc } in
    if bus.frame_done then deliver env link bus_num st' else st'

unfoldable pub rx_loop : Env → Link → ℕ → RxState → List ℕ → RxState
rx_loop env link bus_num st [] = st
rx_loop env link bus_num st (byte ∷ bytes) =
    rx_loop env link bus_num (rx_step env link bus_num st byte) bytes

-- What `read` gives: some bytes, none, or an error with its `errno`.
pub data Errno : Type 0 where
  eagain ebadf other : Errno

pub data ReadResult : Type 0 where
  bytes_read : List ℕ → ReadResult
  read_error : Errno → ReadResult

read_failed : Errno → Err
read_failed eagain = comms_timeout
read_failed ebadf = file_desc
read_failed other = fail

is_idle : FrameState → Bool
is_idle idle = true
is_idle _ = false

-- A silence inside a frame sends the machine back to its start. `now` and `later` are the two readings
-- of the clock.
unfoldable pub check_silence : ℕ → ℕ → Bus → Bus
unfolding is_idle
check_silence now later bus =
    let stats = bus.bus_stats in
    if ltb (bus.timestamp_rx_activity_us + bdp_max_inter_byte_duration_us) now
      && not (is_idle bus.frame_rx_state)
    then record bus {
      frame_rx_state = idle;
      bus_stats = record stats { rx_err_timeout = inc stats.rx_err_timeout };
      timestamp_rx_activity_us = later;
    }
    else record bus { timestamp_rx_activity_us = later }

-- The state starts with `rc` at ERR_PASS; the result's `rc` is what the function returns.
unfoldable pub svs_bdp_rx : Env → Link → ℕ → ℕ → ℕ → RxState → ReadResult → RxState
unfolding rx_loop rx_step check_silence read_failed
svs_bdp_rx env link bus_num now later st (read_error e) = record st { rc = read_failed e }
svs_bdp_rx env link bus_num now later st (bytes_read []) = record st { rc = pass }
svs_bdp_rx env link bus_num now later st (bytes_read (byte ∷ bytes)) =
    rx_loop env link bus_num (record st { rc = pass; bus = check_silence now later st.bus })
      (byte ∷ bytes)
