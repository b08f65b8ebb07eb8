-- ===== src/Dio/Ports.antt =====
-- The outputs of the board: what is set is what is read, and no other output is touched.
use emulation_lib.Prelude.{
  ℕ, ◌-◌, ◌%◌, ◌<◌, Bool, true, false, not, ◌≡◌, ◌≢◌, refl, sym, ap, ap₂, ◌∙◌, if-else, arith,
  if◌then◌else◌, ◌==◌,
}
use emulation_lib.Prelude.Integers.{ℤ, pos, negsuc}
use emulation_lib.Prelude.Digits.{digit}
use emulation_lib.Dio.{
  Dio, misc_reg, gpio_out_bank_0, gpio_out_bank_2, drive, sense_high, sense_low, dio_green_led_set,
  dio_green_led_get, dio_red_led_set, dio_red_led_get, dio_bdp_bus_a_set, dio_bdp_bus_a_get,
  dio_bdp_bus_b_set, dio_bdp_bus_b_get, dio_5v_set, dio_5v_get, dio_modem_power_set,
  dio_modem_power_get, dio_wim_power_set, dio_wim_power_get, dio_spare_power_set,
  dio_spare_power_get,
}
use emulation_lib.Dio.Registers.{
  IsOther, digit-drive, drive_others, drive_ok, sense_high-digit, sense_low-digit,
}

pub data BoardOutput : Type 0 where
  green_led red_led bus_a bus_b aux_5v modem_power wim_power spare_power : BoardOutput

abbrev pub set_of : BoardOutput → Dio → ℕ → ℤ × Dio
set_of green_led = dio_green_led_set
set_of red_led = dio_red_led_set
set_of bus_a = dio_bdp_bus_a_set
set_of bus_b = dio_bdp_bus_b_set
set_of aux_5v = dio_5v_set
set_of modem_power = dio_modem_power_set
set_of wim_power = dio_wim_power_set
set_of spare_power = dio_spare_power_set

abbrev pub get_of : BoardOutput → Dio → ℕ
get_of green_led = dio_green_led_get
get_of red_led = dio_red_led_get
get_of bus_a = dio_bdp_bus_a_get
get_of bus_b = dio_bdp_bus_b_get
get_of aux_5v = dio_5v_get
get_of modem_power = dio_modem_power_get
get_of wim_power = dio_wim_power_get
get_of spare_power = dio_spare_power_get

-- What the get functions give after a value was set: the lowest bit for the LEDs; for the buses 0 where
-- they were switched on and 1 where they were switched off; for the others 1 where they were switched on.
abbrev pub reading_after : BoardOutput → ℕ → ℕ
reading_after green_led enable = enable % 2
reading_after red_led enable = enable % 2
reading_after bus_a enable = if enable == 0 then 1 else 0
reading_after bus_b enable = if enable == 0 then 1 else 0
reading_after _ enable = if enable == 0 then 0 else 1

-- The register and the bit of an output.
abbrev pub register_of : BoardOutput → ℕ
register_of green_led = misc_reg
register_of red_led = misc_reg
register_of bus_a = gpio_out_bank_0
register_of bus_b = gpio_out_bank_0
register_of aux_5v = gpio_out_bank_0
register_of _ = gpio_out_bank_2

abbrev pub bit_of : BoardOutput → ℕ
bit_of green_led = 15
bit_of red_led = 14
bit_of bus_a = 0
bit_of bus_b = 1
bit_of aux_5v = 2
bit_of modem_power = 8
bit_of wim_power = 7
bit_of spare_power = 5

-- The level that setting a value drives.
abbrev level_of : BoardOutput → ℕ → Bool
level_of green_led enable = not (enable % 2 == 0)
level_of red_led enable = not (enable % 2 == 0)
level_of bus_a enable = not (enable == 0)
level_of bus_b enable = not (enable == 0)
level_of aux_5v enable = not (enable == 0)
level_of _ enable = enable == 0

set_of-drive :
    (p : BoardOutput) (d : Dio) (enable : ℕ)
    → set_of p d enable ≡ drive d (register_of p) (bit_of p) (level_of p enable)
unfolding dio_green_led_set dio_red_led_set dio_bdp_bus_a_set dio_bdp_bus_b_set dio_5v_set
    dio_modem_power_set dio_wim_power_set dio_spare_power_set
set_of-drive green_led d enable = refl
set_of-drive red_led d enable = refl
set_of-drive bus_a d enable = refl
set_of-drive bus_b d enable = refl
set_of-drive aux_5v d enable = refl
set_of-drive modem_power d enable = refl
set_of-drive wim_power d enable = refl
set_of-drive spare_power d enable = refl

bit_of-lt : (p : BoardOutput) → bit_of p < 16
bit_of-lt p = ground arith

-- The output at a place.
abbrev output_at : ℕ → ℕ → BoardOutput
output_at r b =
    if r == 8
    then (if b == 15 then green_led else red_led)
    else if r == 17
    then (if b == 0 then bus_a else if b == 1 then bus_b else aux_5v)
    else if b == 8
    then modem_power
    else if b == 7
    then wim_power
    else spare_power

output_at_place : (p : BoardOutput) → output_at (register_of p) (bit_of p) ≡ p
output_at_place green_led = refl
output_at_place red_led = refl
output_at_place bus_a = refl
output_at_place bus_b = refl
output_at_place aux_5v = refl
output_at_place modem_power = refl
output_at_place wim_power = refl
output_at_place spare_power = refl

places-IsOther :
    (p q : BoardOutput) → p ≢ q → IsOther (register_of p) (bit_of p) (register_of q) (bit_of q)
places-IsOther p q h r b = h (sym (output_at_place p) ∙ sym (ap₂ output_at r b) ∙ output_at_place q)

-- What a get function makes of the bit of its output.
abbrev value_of : BoardOutput → ℕ → ℕ
value_of green_led n = n
value_of red_led n = n
value_of aux_5v n = n
value_of _ n = 1 - n

get_of-digit :
    (p : BoardOutput) (d : Dio)
    → d.fpga ≡ true
    → get_of p d ≡ value_of p (digit (bit_of p) (d.words (register_of p)))
unfolding dio_green_led_get dio_red_led_get dio_bdp_bus_a_get dio_bdp_bus_b_get dio_5v_get
    dio_modem_power_get dio_wim_power_get dio_spare_power_get
get_of-digit green_led d m = sense_high-digit d m _ _
get_of-digit red_led d m = sense_high-digit d m _ _
get_of-digit bus_a d m = sense_low-digit d m _ _
get_of-digit bus_b d m = sense_low-digit d m _ _
get_of-digit aux_5v d m = sense_high-digit d m _ _
get_of-digit modem_power d m = sense_low-digit d m _ _
get_of-digit wim_power d m = sense_low-digit d m _ _
get_of-digit spare_power d m = sense_low-digit d m _ _

value_of-level :
    (p : BoardOutput) (enable : ℕ)
    → value_of p (if level_of p enable then 1 else 0) ≡ reading_after p enable
value_of-level green_led enable = ground arith
value_of-level red_led enable = ground arith
value_of-level bus_a enable = ground arith
value_of-level bus_b enable = ground arith
value_of-level aux_5v enable = ground arith
value_of-level modem_power enable = ground arith
value_of-level wim_power enable = ground arith
value_of-level spare_power enable = ground arith

-- With mapped registers, each set function returns 0, its get function then gives the value of
-- `reading_after`, which for the two buses is inverted, and what every other get function gives is as before.
pub set_of-get_of :
    (p : BoardOutput) (d : Dio) (enable : ℕ)
    → d.fpga ≡ true
    → ((set_of p d enable).0 ≡ pos 0)
      × (get_of p (set_of p d enable).1 ≡ reading_after p enable)
      × ((q : BoardOutput) → p ≢ q → get_of q (set_of p d enable).1 ≡ get_of q d)
set_of-get_of p d enable m =
    let r = register_of p in
    let k = bit_of p in
    let on = level_of p enable in
    let ok = drive_ok d m r k on in
    rw (set_of-drive p d enable) (
      ok.0,
      get_of-digit p (drive d r k on).1 ok.1
          ∙ ap (λ (n : ℕ). value_of p n) (digit-drive d m r k on (bit_of-lt p))
          ∙ value_of-level p enable,
      λ q h.
          get_of-digit q (drive d r k on).1 ok.1
          ∙ ap (λ (n : ℕ). value_of q n)
              (drive_others d m r k on (register_of q) (bit_of q) (bit_of-lt p) (bit_of-lt q)
                (places-IsOther p q h))
          ∙ sym (get_of-digit q d m),
    )

-- Without mapped registers each set function returns -1 and changes nothing, and each get function gives 0.
pub set_of-unmapped :
    (p : BoardOutput) (d : Dio) (enable : ℕ)
    → d.fpga ≡ false
    → (set_of p d enable ≡ (negsuc 0, d)) × (get_of p d ≡ 0)
unfolding drive dio_green_led_get dio_red_led_get dio_bdp_bus_a_get dio_bdp_bus_b_get dio_5v_get
    dio_modem_power_get dio_wim_power_get dio_spare_power_get sense_high sense_low
set_of-unmapped p d enable h = (set_of-drive p d enable ∙ if_unmapped, gets p)
  where
    if_unmapped : drive d (register_of p) (bit_of p) (level_of p enable) ≡ (negsuc 0, d)
    if_unmapped = if-else (λ (x : ℤ × Dio). x ≡ (negsuc 0, d)) d.fpga _ _ h refl

    gets : (q : BoardOutput) → get_of q d ≡ 0
    gets green_led = if-else (λ (n : ℕ). n ≡ 0) d.fpga _ 0 h refl
    gets red_led = if-else (λ (n : ℕ). n ≡ 0) d.fpga _ 0 h refl
    gets bus_a = if-else (λ (n : ℕ). n ≡ 0) d.fpga _ 0 h refl
    gets bus_b = if-else (λ (n : ℕ). n ≡ 0) d.fpga _ 0 h refl
    gets aux_5v = if-else (λ (n : ℕ). n ≡ 0) d.fpga _ 0 h refl
    gets modem_power = if-else (λ (n : ℕ). n ≡ 0) d.fpga _ 0 h refl
    gets wim_power = if-else (λ (n : ℕ). n ≡ 0) d.fpga _ 0 h refl
    gets spare_power = if-else (λ (n : ℕ). n ≡ 0) d.fpga _ 0 h refl
