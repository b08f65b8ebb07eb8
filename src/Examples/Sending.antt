-- ===== src/Examples/Sending.antt =====
-- A frame on a bus that has been silent for a minute, and a line that is never free.
use emulation_lib.Prelude.{
  ℕ, ◌+◌, ◌*◌, ◌≤◌, false, List, [], ◌∷◌, ◌≡◌, ◌↔◌, refl, arith, length, if◌then◌else◌, ◌==◌, ltb,
  zero, suc, ◌≢◌,
}
use emulation_lib.Err.{pass, fail}
use emulation_lib.Bdp.DevWrite.{
  Write, some_bytes, try_again, broken, wrote, svs_dev_write, dev_write_loop, dev_write_step,
}
use emulation_lib.Bdp.DevWrite.Complete.{taken, svs_dev_write_whole}
use emulation_lib.Bdp.Send.{
  Line, svs_bdp_backoff, svs_bdp_frame_send_bus, backoff_loop, line_busy, gap_sleep, send_awake,
  svs_bdp_wakeup, write_wakeup, send_parts, write_parts, write_part,
}
use emulation_lib.Bdp.Send.Backoff.{BusyFrom, svs_bdp_backoff_fails_iff}
use emulation_lib.Bdp.Send.Written.{IsSent, svs_bdp_frame_send_bus-IsSent}
use emulation_lib.Examples.Data.{link, quiet_bus}

abbrev minute : ℕ
minute = 60 * 1000 * 1000

abbrev bytes : List ℕ
bytes = 1 ∷ 2 ∷ 3 ∷ []

-- The device is busy at first, then takes so many bytes.
abbrev after_busy : ℕ → ℕ → Write
after_busy n retry = if retry == 0 then try_again else some_bytes n

abbrev free_line : Line
free_line = record {
  gap_clock = minute;
  test_clock = λ j. minute;
  test_rx_activity = λ j. 0;
  random = λ j. 12345;
  wakeup_clock = minute;
  end_clock = minute + 20000;
  wakeup_write = after_busy 3;
  preamble_write = after_busy 8;
  header_write = after_busy 3;
  payload_write = after_busy 0;
}

abbrev busy_line : Line
busy_line = record free_line { test_rx_activity = λ j. minute }

sent : (svs_bdp_frame_send_bus 2147483647 free_line link bytes quiet_bus).rc ≡ pass
unfolding svs_bdp_frame_send_bus svs_bdp_backoff backoff_loop line_busy gap_sleep send_awake
    svs_bdp_wakeup write_wakeup send_parts write_parts write_part svs_dev_write dev_write_loop
    dev_write_step
sent = refl

frame_send_bus-IsSent_example :
    IsSent free_line link bytes quiet_bus
      (svs_bdp_frame_send_bus 2147483647 free_line link bytes quiet_bus)
frame_send_bus-IsSent_example =
    svs_bdp_frame_send_bus-IsSent 2147483647 free_line link bytes quiet_bus sent

backoff_fails_iff_example :
    ((svs_bdp_backoff 2147483647 false busy_line quiet_bus).rc ≡ fail) ↔ BusyFrom 0 busy_line
backoff_fails_iff_example = svs_bdp_backoff_fails_iff 2147483647 busy_line quiet_bus

-- One byte at each of the first three calls, and none behind them.
abbrev one_by_one : ℕ → Write
one_by_one retry =
    if retry == 0
    then some_bytes 1
    else if retry == 1
    then some_bytes 1
    else if retry == 2
    then some_bytes 1
    else some_bytes 0

taken-one_by_one : (k : ℕ) → taken one_by_one k ≡ (if ltb k 3 then k else 3)
taken-one_by_one zero = refl
taken-one_by_one (suc k) = ground (arith, taken-one_by_one k)

one_by_one-le : (k : ℕ) → taken one_by_one k ≤ length bytes
one_by_one-le k = ground (arith, taken-one_by_one k)

one_by_one-ne-broken : (k : ℕ) → one_by_one k ≢ broken
one_by_one-ne-broken k e = ground arith

dev_write_whole_example : svs_dev_write one_by_one bytes ≡ wrote (length bytes)
dev_write_whole_example =
    svs_dev_write_whole one_by_one bytes 3 one_by_one-le one_by_one-ne-broken refl (omega arith)
