-- ===== src/Bdp/Send.antt =====
-- Sending a frame in src/svsBdp.c: svsBdpBackoff, svsBdpWakeup, svsBdpFrameSendBus and svsBdpFrameSend.
-- What the receiving thread and the device do meanwhile is an argument of the functions.
pub mod Backoff
pub mod Written
use emulation_lib.Prelude.{
  ℕ, zero, suc, ◌+◌, ◌-◌, ◌*◌, ◌/◌, ◌^◌, Bool, true, false, ◌&&◌, not, List, [], ◌∷◌, ◌++◌, length,
  take, drop, replicate, get_or, if◌then◌else◌, ◌==◌, ltb, leb,
}
use emulation_lib.Err.{Err, pass, fail, passed}
use emulation_lib.Bdp.Types.{Bus, BusStats, Link, inc, header_size, bdp_num_all}
use emulation_lib.Bdp.DevWrite.{Write, WriteResult, write_error, wrote, svs_dev_write}
use emulation_lib.Bdp.Arp.{BdpState, blank}

abbrev pub bdp_min_listen_us : ℕ
bdp_min_listen_us = 5000

abbrev pub bdp_inter_frame_gap_us : ℕ
bdp_inter_frame_gap_us = 2000

abbrev pub bdp_frame_avg_time_us : ℕ
bdp_frame_avg_time_us = 5000

abbrev pub bdp_time_to_sleep_ms : ℕ
bdp_time_to_sleep_ms = 10000

abbrev pub bdp_wakeup_time_ms : ℕ
bdp_wakeup_time_ms = 10

-- What is read from the outside while a frame is sent on one bus: the clock before the gap, at each
-- test of the line, before the wakeup and at the end; at each test the time stamp that the receiving thread
-- has left; the random numbers; and the results of the `write` calls for the four
-- parts.
pub record Line : Type 0 where
  pub gap_clock : ℕ
  pub test_clock : ℕ → ℕ
  pub test_rx_activity : ℕ → ℕ
  pub random : ℕ → ℕ
  pub wakeup_clock : ℕ
  pub end_clock : ℕ
  pub wakeup_write : ℕ → Write
  pub preamble_write : ℕ → Write
  pub header_write : ℕ → Write
  pub payload_write : ℕ → Write

-- The delay of round `j` of the backoff.
unfoldable pub backoff_delay : ℕ → ℕ → ℕ → ℕ
backoff_delay rand_max random j =
    let delay = random * (20 * 1000) / rand_max * 2 ^ j + bdp_frame_avg_time_us in
    if ltb delay (50 * 1000) then delay else 50 * 1000

-- The test of the loop: the line was active a short time ago.
unfoldable pub line_busy : Line → ℕ → Bool
line_busy line j = ltb (line.test_clock j) (line.test_rx_activity j + bdp_min_listen_us)

unfoldable pub count_backoff : ℕ → BusStats → BusStats
count_backoff delay stats = record stats {
  tx_backoff_cnt = inc stats.tx_backoff_cnt;
  tx_backoff_delay_max =
      if ltb stats.tx_backoff_delay_max delay then delay else stats.tx_backoff_delay_max;
}

-- What a backoff does: its result, the statistics and the delays that it sleeps.
pub record BackoffResult : Type 0 where
  pub rc : Err
  pub stats : BusStats
  pub sleeps : List ℕ

-- The loop from round `j`. It ends by itself after the 17th test; the first argument, 17 for the whole
-- loop, only has to be as large as the tests that are left.
unfoldable pub backoff_loop : ℕ → ℕ → Line → ℕ → BusStats → BackoffResult
backoff_loop zero rand_max line j stats = record { rc = pass; stats = stats; sleeps = [] }
backoff_loop (suc n) rand_max line j stats =
    let delay = backoff_delay rand_max (line.random j) j in
    let counted = count_backoff delay stats in
    let rest = backoff_loop n rand_max line (j + 1) counted in
    if line_busy line j
    then (if ltb 16 (j + 1)
        then record {
          rc = fail;
          stats = record counted { tx_err_backoff = inc counted.tx_err_backoff };
          sleeps = [];
        }
        else record rest { sleeps = delay ∷ rest.sleeps })
    else record { rc = pass; stats = stats; sleeps = [] }

-- The gap between two frames: the smaller of the times since the last activities, made up to the gap.
unfoldable pub gap_sleep : ℕ → Bus → List ℕ
gap_sleep now bus =
    let tx = bus.timestamp_tx_activity_us in
    let rx = bus.timestamp_rx_activity_us in
    let last = if ltb rx tx then tx else rx in
    if ltb now (last + bdp_inter_frame_gap_us)
    then (last + bdp_inter_frame_gap_us - now) ∷ []
    else []

unfoldable pub svs_bdp_backoff : ℕ → Bool → Line → Bus → BackoffResult
svs_bdp_backoff rand_max loopback line bus =
    if loopback
    then record { rc = pass; stats = bus.bus_stats; sleeps = [] }
    else (let loop = backoff_loop 17 rand_max line 0 bus.bus_stats in
        record loop { sleeps = gap_sleep line.gap_clock bus ++ loop.sleeps })

-- The bytes that the device has taken, and whether these are all.
unfoldable pub write_part : WriteResult → List ℕ → Bool × List ℕ
write_part (write_error n) bytes = (false, take n bytes)
write_part (wrote n) bytes = (n == length bytes, take n bytes)

-- The devices sleep after ten seconds of silence. A short write of the three bytes is not an error.
unfoldable pub write_wakeup : WriteResult → Err × List ℕ
write_wakeup (write_error n) = (fail, take n (replicate 3 0))
write_wakeup (wrote n) = (pass, take n (replicate 3 0))

unfoldable pub svs_bdp_wakeup : Line → Bus → Err × List ℕ
svs_bdp_wakeup line bus =
    if ltb (bus.timestamp_tx_activity_us + bdp_time_to_sleep_ms * 1000) line.wakeup_clock
      && ltb (bus.timestamp_rx_activity_us + bdp_time_to_sleep_ms * 1000) line.wakeup_clock
    then write_wakeup (svs_dev_write line.wakeup_write (replicate 3 0))
    else (pass, [])

-- The writes one after the other, up to the first that is not complete.
unfoldable pub write_parts : List (List ℕ × WriteResult) → Err × List ℕ
write_parts [] = (pass, [])
write_parts ((bytes, result) ∷ parts) =
    let (whole, out) = write_part result bytes in
    let (rc, more) = write_parts parts in if whole then (rc, out ++ more) else (fail, out)

-- What a sending does on one bus: its result, the bus and the bytes on the wire.
pub record SendResult : Type 0 where
  pub rc : Err
  pub bus : Bus
  pub wire : List ℕ

abbrev pub written_by : (ℕ → Write) → List ℕ → List ℕ × WriteResult
written_by calls bytes = (bytes, svs_dev_write calls bytes)

unfoldable pub send_parts : Line → Link → List ℕ → Err × List ℕ
send_parts line link frame = write_parts (
    written_by line.preamble_write (link.preamble_bytes ++ (link.sof_byte ∷ []))
    ∷ written_by line.header_write (take header_size frame)
    ∷ written_by line.payload_write (drop header_size frame)
    ∷ [])

-- After the backoff: the wakeup, the writes and the time stamp.
unfoldable pub send_awake : Line → Link → List ℕ → Bus → SendResult
send_awake line link frame bus =
    let (woken, dummy) = svs_bdp_wakeup line bus in
    let (rc, out) = send_parts line link frame in
    if passed woken
    then record {
      rc = rc;
      bus = if passed rc then record bus { timestamp_tx_activity_us = line.end_clock } else bus;
      wire = dummy ++ out;
    }
    else record { rc = woken; bus = bus; wire = dummy }

unfoldable pub svs_bdp_frame_send_bus : ℕ → Line → Link → List ℕ → Bus → SendResult
svs_bdp_frame_send_bus rand_max line link frame bus =
    let backoff = svs_bdp_backoff rand_max link.loopback_enable line bus in
    let waited = record bus { bus_stats = backoff.stats } in
    if not bus.dev_fd_open
    then record { rc = fail; bus = bus; wire = [] }
    else if passed backoff.rc
    then send_awake line link frame waited
    else record { rc = backoff.rc; bus = waited; wire = [] }

-- A broadcast goes to both buses; the error of the second hides that of the first.
unfoldable pub svs_bdp_frame_send :
    ℕ → (ℕ → Line) → Link → List BdpState → ℕ → List ℕ → (ℕ → Bus) → Err × (ℕ → SendResult)
svs_bdp_frame_send rand_max lines link state dev_num frame buses =
    let on = λ (b : ℕ). svs_bdp_frame_send_bus rand_max (lines b) link frame (buses b) in
    let unused : ℕ → SendResult = λ b. record { rc = pass; bus = buses b; wire = [] } in
    let home = (get_or state dev_num blank).bdp_bus in
    if dev_num == bdp_num_all
    then (if passed (on 1).rc then (on 0).rc else (on 1).rc, on)
    else ((on home).rc, λ b. if b == home then on b else unused b)
