-- ===== src/Dio/Start.antt =====
-- The state of the registers after dio_open_fpga.
use emulation_lib.Prelude.{◌+◌, ◌^◌, bit_and, bit_or, true, ◌≡◌, ◌≢◌, refl, arith}
use emulation_lib.Prelude.Integers.{pos}
use emulation_lib.Prelude.Digits.{digit, digit-bit_and, digit-bit_or}
use emulation_lib.Dio.{
  Dio, gpio_out_bank_0, gpio_out_bank_2, gpio_dir_bank_0, gpio_dir_bank_1, gpio_dir_bank_2,
  gpio_dir_bank_3, write_word, set_mask, clear_mask, dio_bdp_bus_a_get, dio_bdp_bus_b_get,
  dio_5v_get, dio_modem_power_get, dio_wim_power_get, dio_spare_power_get,
}
use emulation_lib.Dio.Registers.{sense_high-digit, sense_low-digit}
use emulation_lib.Dio.Ports.{
  BoardOutput, green_led, red_led, bus_a, bus_b, aux_5v, modem_power, wim_power, spare_power,
  get_of, reading_after,
}
use emulation_lib.Dio.Monitor.{all_inputs, set_directions, disable_outputs, dio_open_fpga}

module _ (d : Dio) where
  abbrev pub opened : Dio
  opened = (dio_open_fpga true d).1

  opened_mapped : opened.fpga ≡ true
  unfolding dio_open_fpga disable_outputs set_directions all_inputs set_mask clear_mask write_word
  opened_mapped = refl

  out_bank_0 :
      opened.words gpio_out_bank_0 ≡ bit_and (bit_and (bit_and (d.words 17) 65534) 65533) 65531
  unfolding dio_open_fpga disable_outputs set_directions all_inputs set_mask clear_mask write_word
  out_bank_0 = refl

  out_bank_2 : opened.words gpio_out_bank_2 ≡ bit_or (bit_or (bit_or (d.words 25) 256) 128) 32
  unfolding dio_open_fpga disable_outputs set_directions all_inputs set_mask clear_mask write_word
  out_bank_2 = refl

  -- The bits of the outputs, which are cleared where they are active high and set where they are active low.
  low :
      (digit 0 (opened.words gpio_out_bank_0) ≡ 0)
      × (digit 1 (opened.words gpio_out_bank_0) ≡ 0)
      × (digit 2 (opened.words gpio_out_bank_0) ≡ 0)
  low =
      let w1 = bit_and (d.words 17) 65534 in
      let w2 = bit_and w1 65533 in
      rw out_bank_0 (
        omega (
          arith,
          digit-bit_and 0 w2 65531,
          digit-bit_and 0 w1 65533,
          digit-bit_and 0 (d.words 17) 65534,
        ),
        omega (arith, digit-bit_and 1 w2 65531, digit-bit_and 1 w1 65533),
        omega (arith, digit-bit_and 2 w2 65531),
      )

  high :
      (digit 8 (opened.words gpio_out_bank_2) ≡ 1)
      × (digit 7 (opened.words gpio_out_bank_2) ≡ 1)
      × (digit 5 (opened.words gpio_out_bank_2) ≡ 1)
  high =
      let w1 = bit_or (d.words 25) 256 in
      let w2 = bit_or w1 128 in
      rw out_bank_2 (
        omega (arith, digit-bit_or 8 w2 32, digit-bit_or 8 w1 128, digit-bit_or 8 (d.words 25) 256),
        omega (arith, digit-bit_or 7 w2 32, digit-bit_or 7 w1 128),
        omega (arith, digit-bit_or 5 w2 32),
      )

  opened-get_of :
      (p : BoardOutput) → p ≢ green_led → p ≢ red_led → get_of p opened ≡ reading_after p 0
  unfolding dio_bdp_bus_a_get dio_bdp_bus_b_get dio_5v_get dio_modem_power_get dio_wim_power_get
      dio_spare_power_get
  opened-get_of green_led g r = absurd (g refl)
  opened-get_of red_led g r = absurd (r refl)
  opened-get_of bus_a g r =
      omega (arith, sense_low-digit opened opened_mapped gpio_out_bank_0 0, low.0)
  opened-get_of bus_b g r =
      omega (arith, sense_low-digit opened opened_mapped gpio_out_bank_0 1, low.1)
  opened-get_of aux_5v g r =
      omega (arith, sense_high-digit opened opened_mapped gpio_out_bank_0 2, low.2)
  opened-get_of modem_power g r =
      omega (arith, sense_low-digit opened opened_mapped gpio_out_bank_2 8, high.0)
  opened-get_of wim_power g r =
      omega (arith, sense_low-digit opened opened_mapped gpio_out_bank_2 7, high.1)
  opened-get_of spare_power g r =
      omega (arith, sense_low-digit opened opened_mapped gpio_out_bank_2 5, high.2)

  -- When /dev/mem opens, dio_open_fpga returns 0, with mapped registers; every output but the LEDs is then read as
  -- after it was set to 0, and exactly the bits 0, 1 and 2 of the first bank of directions and 5, 7 and 8 of the
  -- third are outputs.
  pub dio_open_fpga-IsOff :
      ((dio_open_fpga true d).0 ≡ pos 0)
      × (opened.fpga ≡ true)
      × ((p : BoardOutput) → p ≢ green_led → p ≢ red_led → get_of p opened ≡ reading_after p 0)
      × (opened.words gpio_dir_bank_0 ≡ 2 ^ 0 + 2 ^ 1 + 2 ^ 2)
      × (opened.words gpio_dir_bank_1 ≡ 0)
      × (opened.words gpio_dir_bank_2 ≡ 2 ^ 5 + 2 ^ 7 + 2 ^ 8)
      × (opened.words gpio_dir_bank_3 ≡ 0)
  unfolding dio_open_fpga disable_outputs set_directions all_inputs set_mask clear_mask write_word
  dio_open_fpga-IsOff = (refl, opened_mapped, opened-get_of, refl, refl, refl, refl)
