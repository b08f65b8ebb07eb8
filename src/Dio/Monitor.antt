-- ===== src/Dio/Monitor.antt =====
-- The inputs, gpio_changed and dio_monitor of dio/dio.c, and the start, dio_open_fpga.
use emulation_lib.Prelude.{
  ℕ, ◌-◌, ◌^◌, bit_and, bit_or, Bool, true, false, ◌&&◌, not, List, [], ◌∷◌, if◌then◌else◌, ◌==◌,
}
use emulation_lib.Prelude.Digits.{digit}
use emulation_lib.Prelude.Integers.{ℤ, pos, negsuc}
use emulation_lib.Dio.{
  Dio, gpio_in_bank_0, gpio_in_bank_2, gpio_out_bank_0, gpio_out_bank_2, gpio_dir_bank_0,
  gpio_dir_bank_1, gpio_dir_bank_2, gpio_dir_bank_3, bit_bdpa_pos, bit_bdpb_pos, bit_5v_pos,
  bit_modem_pos, bit_wim_pos, bit_spare_pos, bit_door_pos, bit_sparesw_pos, bit_button_pos,
  write_word, set_mask, clear_mask,
}

-- DOOR_OPEN, SPARE_ACTIVE and TPB_ACTIVE, as the positions of their bits.
abbrev pub door_open : ℕ
door_open = 0

abbrev pub spare_active : ℕ
spare_active = 1

abbrev pub tpb_active : ℕ
tpb_active = 2

-- One input of gpio_changed, by its level: the state, and whether a change was detected.
unfoldable pub input_changed : ℕ → ℕ → ℕ × ℕ → ℕ × ℕ
input_changed level k (state, changed) =
    if (level == 0) && (bit_and state (2 ^ k) == 0)
    then (bit_or state (2 ^ k), 1)
    else if not (level == 0) && not (bit_and state (2 ^ k) == 0)
    then (bit_and state (2 ^ 8 - 1 - 2 ^ k), 1)
    else (state, changed)

-- The state after it, and change_detected.
unfoldable pub gpio_changed : Dio → ℕ → ℕ × ℕ
gpio_changed d state = input_changed (digit bit_button_pos (d.words gpio_in_bank_2)) tpb_active (
    input_changed (digit bit_sparesw_pos (d.words gpio_in_bank_0)) spare_active
      (input_changed (digit bit_door_pos (d.words gpio_in_bank_0)) door_open (state, 0)))

-- The loop of dio_monitor over what the registers hold at each turn: the states that the callback gets, if one
-- is registered.
unfoldable pub monitor_loop : Bool → List Dio → ℕ → List ℕ
monitor_loop registered [] state = []
monitor_loop registered (d ∷ ds) state =
    let now = gpio_changed d state in
    let rest = monitor_loop registered ds now.0 in
    if not (now.1 == 0) && registered then now.0 ∷ rest else rest

unfoldable pub dio_monitor : Bool → List Dio → List ℕ
dio_monitor registered readings = monitor_loop registered readings 0

-- All GPIO as inputs.
unfoldable pub all_inputs : Dio → Dio
all_inputs d =
    write_word
      (write_word (write_word (write_word d gpio_dir_bank_3 0) gpio_dir_bank_2 0) gpio_dir_bank_1 0)
      gpio_dir_bank_0 0

unfoldable pub set_directions : Dio → Dio
set_directions d = clear_mask gpio_dir_bank_2 bit_button_pos (
    clear_mask gpio_dir_bank_0 bit_sparesw_pos (
      clear_mask gpio_dir_bank_0 bit_door_pos (
        set_mask gpio_dir_bank_2 bit_spare_pos (
          set_mask gpio_dir_bank_2 bit_wim_pos (
            set_mask gpio_dir_bank_2 bit_modem_pos (
              set_mask gpio_dir_bank_0 bit_5v_pos (
                set_mask gpio_dir_bank_0 bit_bdpb_pos
                  (set_mask gpio_dir_bank_0 bit_bdpa_pos d))))))))

unfoldable pub disable_outputs : Dio → Dio
disable_outputs d = set_mask gpio_out_bank_2 bit_spare_pos (
    set_mask gpio_out_bank_2 bit_wim_pos (
      set_mask gpio_out_bank_2 bit_modem_pos (
        clear_mask gpio_out_bank_0 bit_5v_pos
          (clear_mask gpio_out_bank_0 bit_bdpb_pos (clear_mask gpio_out_bank_0 bit_bdpa_pos d)))))

-- dio_open_fpga, by whether /dev/mem opens; the mapping does not fail.
unfoldable pub dio_open_fpga : Bool → Dio → ℤ × Dio
dio_open_fpga false d = (negsuc 0, d)
dio_open_fpga true d =
    (pos 0, disable_outputs (set_directions (all_inputs (record d { fpga = true }))))
