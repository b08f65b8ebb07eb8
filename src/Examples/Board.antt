-- ===== src/Examples/Board.antt =====
-- A board whose door is opened and whose button is pressed.
use emulation_lib.Prelude.{
  ℕ, ◌+◌, ◌^◌, true, false, List, [], ◌∷◌, ◌≡◌, ◌≢◌, refl, if◌then◌else◌, ◌==◌, map,
}
use emulation_lib.Prelude.Integers.{pos}
use emulation_lib.Dio.{
  Dio, gpio_dir_bank_0, gpio_dir_bank_1, gpio_dir_bank_2, gpio_dir_bank_3, gpio_in_bank_0,
  gpio_in_bank_2,
}
use emulation_lib.Dio.Ports.{
  BoardOutput, green_led, red_led, modem_power, get_of, set_of, reading_after, set_of-get_of,
}
use emulation_lib.Dio.Monitor.{
  dio_open_fpga, dio_monitor, monitor_loop, gpio_changed, input_changed,
}
use emulation_lib.Dio.Start.{opened, dio_open_fpga-IsOff}
use emulation_lib.Dio.Changes.{changes, levels, dio_monitor-changes}

abbrev board : ℕ → ℕ → Dio
board bank_0 bank_2 = record {
  fpga = true;
  words =
      λ (i : ℕ). if i == gpio_in_bank_0 then bank_0 else if i == gpio_in_bank_2 then bank_2 else 0;
}

abbrev unmapped_board : Dio
unmapped_board = record { fpga = false; words = λ (i : ℕ). 0 }

-- At rest, the door open for two turns, the button pressed as well, the door closed again.
abbrev turns : List Dio
turns =
    board 0x300 0x200 ∷ board 0x200 0x200 ∷ board 0x200 0x200 ∷ board 0x200 0 ∷ board 0x300 0 ∷ []

set_of-get_of_example :
    ((set_of modem_power (board 0x300 0x200) 1).0 ≡ pos 0)
    × (get_of modem_power (set_of modem_power (board 0x300 0x200) 1).1
        ≡ reading_after modem_power 1)
    × ((q : BoardOutput)
        → modem_power ≢ q
        → get_of q (set_of modem_power (board 0x300 0x200) 1).1 ≡ get_of q (board 0x300 0x200))
set_of-get_of_example = set_of-get_of modem_power (board 0x300 0x200) 1 refl

dio_monitor-changes_example : dio_monitor true turns ≡ changes 0 (map levels turns)
dio_monitor-changes_example =
    dio_monitor-changes true turns (refl, (refl, (refl, (refl, (refl, tt)))))

reported : dio_monitor true turns ≡ 1 ∷ 5 ∷ 4 ∷ []
unfolding dio_monitor monitor_loop gpio_changed input_changed
reported = refl

opened_example :
    ((dio_open_fpga true unmapped_board).0 ≡ pos 0)
    × ((opened unmapped_board).fpga ≡ true)
    × ((p : BoardOutput)
        → p ≢ green_led
        → p ≢ red_led
        → get_of p (opened unmapped_board) ≡ reading_after p 0)
    × ((opened unmapped_board).words gpio_dir_bank_0 ≡ 2 ^ 0 + 2 ^ 1 + 2 ^ 2)
    × ((opened unmapped_board).words gpio_dir_bank_1 ≡ 0)
    × ((opened unmapped_board).words gpio_dir_bank_2 ≡ 2 ^ 5 + 2 ^ 7 + 2 ^ 8)
    × ((opened unmapped_board).words gpio_dir_bank_3 ≡ 0)
opened_example = dio_open_fpga-IsOff unmapped_board
