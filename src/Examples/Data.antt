-- ===== src/Examples/Data.antt =====
-- The inputs that the examples share: addresses, tables, requests and buses.
use emulation_lib.Prelude.{
  ℕ, zero, suc, ◌+◌, ◌/◌, ◌%◌, ◌<◌, ◌≤◌, Bool, true, false, some, List, [], ◌∷◌, ◌++◌, ◌≡◌, refl,
  arith, subst, ap, sym, ◌∙◌, get_or, length, replicate, set, if◌then◌else◌, ◌==◌,
}
use emulation_lib.Err.{pass}
use emulation_lib.Crc.Crc16.{crc16_init}
use emulation_lib.Bdp.Types.{Link, Bus, BusStats, idle, server_link, frame_size, bdp_max}
use emulation_lib.Bdp.Arp.{
  BdpState, Table, blank, no_data, zero_addr, addr_at, invalid_addr, memcmp_eq, with_entry,
  find_addr, svs_bdp_arp_table_update,
}
use emulation_lib.Bdp.Arp.Valid.{IsValid, svs_bdp_arp_table_update-IsValid}
use emulation_lib.Bdp.Frames.{FrameInfo, Frames, SocketHeader}
use emulation_lib.Bdp.Server.{Env, RxState}
use emulation_lib.Bdp.Tx.{TxState}

abbrev pub all : List ℕ
all = replicate 8 0xFF

abbrev pub dock : List ℕ
dock = 1 ∷ 2 ∷ 3 ∷ 4 ∷ 5 ∷ 6 ∷ 7 ∷ 8 ∷ []

abbrev pub other_dock : List ℕ
other_dock = 9 ∷ 2 ∷ 3 ∷ 4 ∷ 5 ∷ 6 ∷ 7 ∷ 8 ∷ []

abbrev pub link : Link
link = server_link crc16_init false

abbrev pub no_docks : Table
no_docks = record { bdp_state = replicate bdp_max blank; count = 0; bus_count = λ b. 0 }

blank_at : (n i : ℕ) → addr_at (replicate n blank) i ≡ zero_addr
blank_at zero i = refl
blank_at (suc n) zero = refl
blank_at (suc n) (suc i) = blank_at n i

pub no_docks-IsValid : IsValid all no_docks
no_docks-IsValid = record {
  size = refl;
  fits = omega arith;
  unused = λ i h. blank_at bdp_max i;
  used = λ i h. absurd (omega arith);
  distinct = λ i j hi hj e. absurd (omega arith);
}

abbrev pub one_dock : Table
one_dock = record {
  bdp_state = set no_docks.bdp_state 0 (record {
    bdp_addr = dock;
    bdp_bus = 1;
    tx_cnt = 0;
    rx_cnt = 0;
    id_data_addr = λ id. no_data;
  });
  count = 1;
  bus_count = λ b. if b == 1 then 1 else 0;
}

-- It is what registering the dock leaves.
pub one_dock-update : svs_bdp_arp_table_update all no_docks 1 (some dock) ≡ (pass, one_dock)
unfolding svs_bdp_arp_table_update invalid_addr memcmp_eq with_entry find_addr
one_dock-update = refl

pub one_dock-IsValid : IsValid all one_dock
one_dock-IsValid =
    subst (IsValid all) (ap (λ r. r.1) one_dock-update)
      (svs_bdp_arp_table_update-IsValid all no_docks 1 (some dock) no_docks-IsValid)

-- A table in which every number is taken.

abbrev pub numbered : ℕ → List ℕ
numbered i = (i / 2 + 1) ∷ (i % 2) ∷ replicate 6 0

abbrev numbered_entry : ℕ → BdpState
numbered_entry i = record {
  bdp_addr = numbered i;
  bdp_bus = 0;
  tx_cnt = 0;
  rx_cnt = 0;
  id_data_addr = λ id. no_data;
}

unfoldable pub entries : ℕ → ℕ → List BdpState
entries zero i = []
entries (suc n) i = numbered_entry i ∷ entries n (i + 1)

length-entries : (n i : ℕ) → length (entries n i) ≡ n
unfolding entries
length-entries zero i = refl
length-entries (suc n) i = ap suc (length-entries n (i + 1))

addr_at-entries : (n i k : ℕ) → k < n → addr_at (entries n i) k ≡ numbered (i + k)
unfolding entries
addr_at-entries zero i k h = absurd (omega arith)
addr_at-entries (suc n) i zero h = ap numbered (omega arith)
addr_at-entries (suc n) i (suc k) h =
    addr_at-entries n (i + 1) k (omega arith) ∙ ap numbered (omega arith)

addr_at-behind : (n i k : ℕ) → n ≤ k → addr_at (entries n i) k ≡ zero_addr
unfolding entries
addr_at-behind zero i k h = refl
addr_at-behind (suc n) i zero h = absurd (omega arith)
addr_at-behind (suc n) i (suc k) h = addr_at-behind n (i + 1) k (omega arith)

numbered-injective : (i j : ℕ) → numbered i ≡ numbered j → i ≡ j
numbered-injective i j e = omega (arith, ap (λ a. get_or a 0 0) e, ap (λ a. get_or a 1 0) e)

numbered-valid : (i : ℕ) → invalid_addr all (numbered i) ≡ false
unfolding invalid_addr memcmp_eq
numbered-valid i = ground arith

abbrev pub full_table : Table
full_table = record { bdp_state = entries bdp_max 0; count = bdp_max; bus_count = λ b. bdp_max }

pub addr_at-full_table : (i : ℕ) → i < bdp_max → addr_at full_table.bdp_state i ≡ numbered i
addr_at-full_table i h = addr_at-entries bdp_max 0 i h ∙ ap numbered (omega arith)

pub full_table-IsValid : IsValid all full_table
full_table-IsValid = record {
  size = length-entries bdp_max 0;
  fits = omega arith;
  unused = λ i h. addr_at-behind bdp_max 0 i h;
  used = λ i h. ap (invalid_addr all) (addr_at-full_table i h) ∙ numbered-valid i;
  distinct = λ i j hi hj e.
      numbered-injective i j (sym (addr_at-full_table i hi) ∙ e ∙ addr_at-full_table j hj);
}

-- A request to dock point 0, and the server that it comes to.

abbrev pub request : SocketHeader
request = record {
  dev_num = 0;
  len = 2;
  tsent_ms = 900;
  timeout_ms = 5000;
  msg_id = 7;
  flags = 0;
  callback = 0;
  bdp_timeout_ms = 200;
}

abbrev pub request_payload : List ℕ
request_payload = 1 ∷ 2 ∷ []

abbrev pub sender : TxState
sender = record { table = one_dock; frames = record { nodes = []; active_frames = 0 }; seq_num = 1 }

abbrev pub full_sender : TxState
full_sender = record sender { frames = record { nodes = []; active_frames = 255 } }

-- Two frames to dock point 3 with the numbers 1 and 2, of which the first has been sent.

abbrev numbered_frame : ℕ → List ℕ
numbered_frame seq = replicate 20 0 ++ (seq ∷ 0 ∷ 0 ∷ 0 ∷ [])

abbrev node : ℕ → Bool → FrameInfo
node seq active = record {
  dev_num = 3;
  active = active;
  tsent_client_ms = 0;
  timeout_client_ms = 5000;
  tsent_ms = 0;
  timeout_ms = 200;
  retry = 0;
  bcast = false;
  callback = 0;
  frame = numbered_frame seq;
}

abbrev pub two_frames : Frames
two_frames = record { nodes = node 1 true ∷ node 2 false ∷ []; active_frames = 2 }

-- A bus on which nothing has come in, and its receiver.

abbrev no_stats : BusStats
no_stats = record {
  tx_backoff_cnt = 0;
  tx_backoff_delay_max = 0;
  tx_err_backoff = 0;
  tx_frame_cnt = 0;
  rx_byte_cnt = 0;
  rx_frame_cnt = 0;
  rx_err_length = 0;
  rx_err_length_too_long = 0;
  rx_err_crc = 0;
  rx_err_timeout = 0;
  rx_err_no_sof = 0;
}

abbrev pub quiet_bus : Bus
quiet_bus = record {
  dev_fd_open = true;
  bus_bdp_max = 1;
  frame_rx = replicate frame_size 0;
  preamble_rx_index = 0;
  frame_rx_crc = 0;
  frame_rx_index = 0;
  frame_rx_state = idle;
  frame_done = false;
  timestamp_rx_activity_us = 0;
  timestamp_tx_activity_us = 0;
  bus_stats = no_stats;
}

abbrev pub receiver : RxState
receiver = record {
  bus = quiet_bus;
  rc = pass;
  table = one_dock;
  frames = two_frames;
  outputs = [];
}

abbrev pub outside : Env
outside = record { time_ms = 1000; callback_result = λ out. pass; client_result = λ out. pass }
