-- ===== src/Bdp/Types.antt =====
-- The data of src/svsBdp.h and src/svsBdpMsg.h. A packed frame is the list of its bytes, and a header
-- field is read from its place there, low byte first.
use emulation_lib.Prelude.{ℕ, ◌+◌, ◌*◌, ◌%◌, ◌^◌, Bool, List, get_or, take, drop, replicate}

-- Constants.

abbrev pub bdp_msg_addr_length : ℕ
bdp_msg_addr_length = 8

abbrev pub bdp_msg_payload_max : ℕ
bdp_msg_payload_max = 1024

abbrev pub bdp_frame_preamble_size : ℕ
bdp_frame_preamble_size = 7

abbrev pub bdp_frame_sof : ℕ
bdp_frame_sof = 0xAB

abbrev pub bdp_num_all : ℕ
bdp_num_all = 0xFF

abbrev pub bdp_num_invalid : ℕ
bdp_num_invalid = 0xFEFE

abbrev pub bdp_max : ℕ
bdp_max = 256

abbrev pub bdp_retry_max : ℕ
bdp_retry_max = 2

-- BDP_BYTE_TIME_US * 1000 at the default bit rate
abbrev pub bdp_max_inter_byte_duration_us : ℕ
bdp_max_inter_byte_duration_us = 86 * 1000

abbrev pub msg_id_bdp_addr_get : ℕ
msg_id_bdp_addr_get = 1

abbrev pub msg_id_bdp_ack : ℕ
msg_id_bdp_ack = 6

abbrev pub msg_id_bdp_max : ℕ
msg_id_bdp_max = 49

-- svsMsgBdpFrameHeader_t: the fields of a frame that starts with its 24 header bytes.

abbrev pub header_size : ℕ
header_size = 24

-- sizeof(svsMsgBdpFrame_t)
abbrev pub frame_size : ℕ
frame_size = header_size + bdp_msg_payload_max

abbrev pub u16_at : List ℕ → ℕ → ℕ
u16_at frame i = get_or frame i 0 + 256 * get_or frame (i + 1) 0

abbrev pub hdr_crc : List ℕ → ℕ
hdr_crc frame = u16_at frame 0

abbrev pub hdr_len : List ℕ → ℕ
hdr_len frame = u16_at frame 2

abbrev pub hdr_len_inv : List ℕ → ℕ
hdr_len_inv frame = u16_at frame 4

abbrev pub hdr_addr : List ℕ → List ℕ
hdr_addr frame = take bdp_msg_addr_length (drop 6 frame)

abbrev pub hdr_msg_id : List ℕ → ℕ
hdr_msg_id frame = get_or frame 14 0

-- The bit pattern of the `int32_t`.
abbrev pub hdr_sock_fd : List ℕ → ℕ
hdr_sock_fd frame = u16_at frame 15 + 2 ^ 16 * u16_at frame 17

abbrev pub hdr_flags : List ℕ → ℕ
hdr_flags frame = get_or frame 19 0

abbrev pub hdr_seq : List ℕ → ℕ
hdr_seq frame = u16_at frame 20

abbrev pub payload : List ℕ → List ℕ
payload frame = drop header_size frame

-- bdp_frame_state_t
pub data FrameState : Type 0 where
  idle preamble sof frame : FrameState

-- bdp_bus_stats_t
pub record BusStats : Type 0 where
  pub tx_backoff_cnt : ℕ
  pub tx_backoff_delay_max : ℕ
  pub tx_err_backoff : ℕ
  pub tx_frame_cnt : ℕ
  pub rx_byte_cnt : ℕ
  pub rx_frame_cnt : ℕ
  pub rx_err_length : ℕ
  pub rx_err_length_too_long : ℕ
  pub rx_err_crc : ℕ
  pub rx_err_timeout : ℕ
  pub rx_err_no_sof : ℕ

-- STATS_INC on a `uint32_t`
abbrev pub inc : ℕ → ℕ
inc n = (n + 1) % 2 ^ 32

-- bdp_bus_dev_info_t. `pframe_rx` always points to `frame_rx`; the device's name and baud rate are
-- set once at start.
pub record Bus : Type 0 where
  pub dev_fd_open : Bool
  pub bus_bdp_max : ℕ
  pub frame_rx : List ℕ
  pub preamble_rx_index : ℕ
  pub frame_rx_crc : ℕ
  pub frame_rx_index : ℕ
  pub frame_rx_state : FrameState
  pub frame_done : Bool
  pub timestamp_rx_activity_us : ℕ
  pub timestamp_tx_activity_us : ℕ
  pub bus_stats : BusStats

-- The fields of bdp_dev_info_t that are set once at start, and the table of `crc16_init`.
pub record Link : Type 0 where
  pub preamble_bytes : List ℕ
  pub sof_byte : ℕ
  pub addr_broadcast : List ℕ
  pub loopback_enable : Bool
  pub crc_table : List ℕ

-- The values that svsBdpServerInit gives them.
abbrev pub server_link : List ℕ → Bool → Link
server_link table loopback = record {
  preamble_bytes = replicate bdp_frame_preamble_size 0xAA;
  sof_byte = bdp_frame_sof;
  addr_broadcast = replicate bdp_msg_addr_length 0xFF;
  loopback_enable = loopback;
  crc_table = table;
}
