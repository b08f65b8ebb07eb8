-- ===== src/Crc/Crc16.antt =====
-- src/crc.c: the CRC-16 table and the two routines that run over a buffer. The static `table` is an
-- argument of the routines, since they read whatever `crc16_init` has left in it.
use emulation_lib.Prelude.{
  ℕ, zero, suc, ◌+◌, ◌/◌, ◌%◌, ◌^◌, List, [], ◌∷◌, bit_and, bit_xor, if◌then◌else◌, ◌==◌, not,
  get_or,
}

abbrev pub polynomial : ℕ
polynomial = 0xA001

-- One turn of the loop over `j`: the new `value`.
unfoldable pub next_value : ℕ → ℕ → ℕ
next_value value temp =
    if not (bit_and (bit_xor value temp) 0x0001 == 0)
    then bit_xor (value / 2) polynomial % 2 ^ 16
    else value / 2

-- The loop over `j`, with that many turns left; the result is the final `value`.
unfoldable pub table_entry : ℕ → ℕ → ℕ → ℕ
table_entry zero value temp = value
table_entry (suc j) value temp = table_entry j (next_value value temp) (temp / 2)

-- The loop over `i`, with that many entries left.
unfoldable pub fill : ℕ → ℕ → List ℕ
fill zero i = []
fill (suc n) i = table_entry 8 0 i ∷ fill n (i + 1)

unfoldable pub crc16_init : List ℕ
unfolding fill table_entry next_value
crc16_init = fill 256 0

-- The body of the loop over the buffer, which both routines have.
unfoldable pub crc16_update : List ℕ → ℕ → ℕ → ℕ
crc16_update table crc byte =
    let index = bit_xor crc byte % 2 ^ 8 in bit_xor (crc / 2 ^ 8) (get_or table index 0) % 2 ^ 16

unfoldable pub crc16_resume_compute : List ℕ → ℕ → List ℕ → ℕ
crc16_resume_compute table crc [] = crc
crc16_resume_compute table crc (byte ∷ bytes) =
    crc16_resume_compute table (crc16_update table crc byte) bytes

unfoldable pub crc16_compute : List ℕ → List ℕ → ℕ
unfolding crc16_resume_compute crc16_update
crc16_compute table bytes = crc16_resume_compute table 0 bytes
