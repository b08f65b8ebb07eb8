-- ===== src/Dio.antt =====
-- dio/dio.c: the digital inputs and outputs of the board, as built with SCU_BUILD and USE_BITMASK.
pub mod Registers
pub mod Ports
pub mod Monitor
pub mod Changes
pub mod Start
use emulation_lib.Prelude.{
  ℕ, ◌+◌, ◌-◌, ◌*◌, ◌/◌, ◌%◌, ◌^◌, bit_and, bit_or, Bool, true, false, ◌&&◌, not, List, [], ◌∷◌,
  if◌then◌else◌, ◌==◌,
}
use emulation_lib.Prelude.Digits.{digit}
use emulation_lib.Prelude.Integers.{ℤ, pos, negsuc}

-- The registers, as words of 16 bits by their index, and whether they are mapped.
pub record Dio : Type 0 where
  pub fpga : Bool
  pub words : ℕ → ℕ

abbrev pub gpio_in_bank_0 : ℕ
gpio_in_bank_0 = 16

abbrev pub gpio_in_bank_2 : ℕ
gpio_in_bank_2 = 24

abbrev pub gpio_out_bank_0 : ℕ
gpio_out_bank_0 = 17

abbrev pub gpio_out_bank_2 : ℕ
gpio_out_bank_2 = 25

abbrev pub gpio_dir_bank_0 : ℕ
gpio_dir_bank_0 = 18

abbrev pub gpio_dir_bank_1 : ℕ
gpio_dir_bank_1 = 22

abbrev pub gpio_dir_bank_2 : ℕ
gpio_dir_bank_2 = 26

abbrev pub gpio_dir_bank_3 : ℕ
gpio_dir_bank_3 = 30

-- The word of misc_reg, at offset 0x10.
abbrev pub misc_reg : ℕ
misc_reg = 8

abbrev pub bit_bdpa_pos : ℕ
bit_bdpa_pos = 0

abbrev pub bit_bdpb_pos : ℕ
bit_bdpb_pos = 1

abbrev pub bit_5v_pos : ℕ
bit_5v_pos = 2

abbrev pub bit_modem_pos : ℕ
bit_modem_pos = 8

abbrev pub bit_wim_pos : ℕ
bit_wim_pos = 7

abbrev pub bit_spare_pos : ℕ
bit_spare_pos = 5

abbrev pub bit_door_pos : ℕ
bit_door_pos = 8

abbrev pub bit_sparesw_pos : ℕ
bit_sparesw_pos = 9

abbrev pub bit_button_pos : ℕ
bit_button_pos = 9

-- The fields of misc_reg.
abbrev pub red_led_pos : ℕ
red_led_pos = 14

abbrev pub grn_led_pos : ℕ
grn_led_pos = 15

unfoldable pub write_word : Dio → ℕ → ℕ → Dio
write_word d r w = record d { words = λ (i : ℕ). if i == r then w else d.words i }

-- data[r] |= MASK and data[r] &= ~MASK.
unfoldable pub set_mask : ℕ → ℕ → Dio → Dio
set_mask r k d = write_word d r (bit_or (d.words r) (2 ^ k))

unfoldable pub clear_mask : ℕ → ℕ → Dio → Dio
clear_mask r k d = write_word d r (bit_and (d.words r) (2 ^ 16 - 1 - 2 ^ k))

-- A bit of a register is set or cleared; without registers, -1.
unfoldable pub drive : Dio → ℕ → ℕ → Bool → ℤ × Dio
drive d r k on =
    if d.fpga then (pos 0, if on then set_mask r k d else clear_mask r k d) else (negsuc 0, d)

-- (data[r] & MASK) >> POS, as a condition.
unfoldable pub sense : Dio → ℕ → ℕ → Bool
sense d r k = not (bit_and (d.words r) (2 ^ k) / 2 ^ k == 0)

unfoldable pub sense_high : Dio → ℕ → ℕ → ℕ
sense_high d r k = if d.fpga then (if sense d r k then 1 else 0) else 0

unfoldable pub sense_low : Dio → ℕ → ℕ → ℕ
sense_low d r k = if d.fpga then (if sense d r k then 0 else 1) else 0

-- A field of one bit keeps the lowest bit of what is stored.
unfoldable pub dio_green_led_set : Dio → ℕ → ℤ × Dio
dio_green_led_set d enable = drive d misc_reg grn_led_pos (not (enable % 2 == 0))

unfoldable pub dio_green_led_get : Dio → ℕ
dio_green_led_get d = sense_high d misc_reg grn_led_pos

unfoldable pub dio_red_led_set : Dio → ℕ → ℤ × Dio
dio_red_led_set d enable = drive d misc_reg red_led_pos (not (enable % 2 == 0))

unfoldable pub dio_red_led_get : Dio → ℕ
dio_red_led_get d = sense_high d misc_reg red_led_pos

unfoldable pub dio_bdp_bus_a_set : Dio → ℕ → ℤ × Dio
dio_bdp_bus_a_set d enable = drive d gpio_out_bank_0 bit_bdpa_pos (not (enable == 0))

unfoldable pub dio_bdp_bus_a_get : Dio → ℕ
dio_bdp_bus_a_get d = sense_low d gpio_out_bank_0 bit_bdpa_pos

unfoldable pub dio_bdp_bus_b_set : Dio → ℕ → ℤ × Dio
dio_bdp_bus_b_set d enable = drive d gpio_out_bank_0 bit_bdpb_pos (not (enable == 0))

unfoldable pub dio_bdp_bus_b_get : Dio → ℕ
dio_bdp_bus_b_get d = sense_low d gpio_out_bank_0 bit_bdpb_pos

unfoldable pub dio_5v_set : Dio → ℕ → ℤ × Dio
dio_5v_set d enable = drive d gpio_out_bank_0 bit_5v_pos (not (enable == 0))

unfoldable pub dio_5v_get : Dio → ℕ
dio_5v_get d = sense_high d gpio_out_bank_0 bit_5v_pos

-- Active low.
unfoldable pub dio_modem_power_set : Dio → ℕ → ℤ × Dio
dio_modem_power_set d enable = drive d gpio_out_bank_2 bit_modem_pos (enable == 0)

unfoldable pub dio_modem_power_get : Dio → ℕ
dio_modem_power_get d = sense_low d gpio_out_bank_2 bit_modem_pos

unfoldable pub dio_wim_power_set : Dio → ℕ → ℤ × Dio
dio_wim_power_set d enable = drive d gpio_out_bank_2 bit_wim_pos (enable == 0)

unfoldable pub dio_wim_power_get : Dio → ℕ
dio_wim_power_get d = sense_low d gpio_out_bank_2 bit_wim_pos

unfoldable pub dio_spare_power_set : Dio → ℕ → ℤ × Dio
dio_spare_power_set d enable = drive d gpio_out_bank_2 bit_spare_pos (enable == 0)

unfoldable pub dio_spare_power_get : Dio → ℕ
dio_spare_power_get d = sense_low d gpio_out_bank_2 bit_spare_pos

unfoldable pub dio_door_get : Dio → ℕ
dio_door_get d = sense_low d gpio_in_bank_0 bit_door_pos

unfoldable pub dio_spare_get : Dio → ℕ
dio_spare_get d = sense_low d gpio_in_bank_0 bit_sparesw_pos

unfoldable pub dio_pushbutton_get : Dio → ℕ
dio_pushbutton_get d = sense_low d gpio_in_bank_2 bit_button_pos
