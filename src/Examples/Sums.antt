-- ===== src/Examples/Sums.antt =====
-- The CRC-16.
use emulation_lib.Prelude.{some, false, ℕ, List, [], ◌∷◌, ◌++◌, ◌≡◌, refl, arith, IsBytes}
use emulation_lib.Err.{pass}
use emulation_lib.Crc.File.{crc16_file, crc16_file-crc16_compute}
use emulation_lib.Crc.Crc16.{
  crc16_init, crc16_update, crc16_resume_compute, crc16_compute, fill, table_entry, next_value,
}
use emulation_lib.Crc.Register.{register, resume_compute-register}
use emulation_lib.Crc.Detection.{crc16_compute_burst}

-- The check value of this CRC.
check_value :
    crc16_compute crc16_init (0x31 ∷ 0x32 ∷ 0x33 ∷ 0x34 ∷ 0x35 ∷ 0x36 ∷ 0x37 ∷ 0x38 ∷ 0x39 ∷ [])
    ≡ 0xBB3D
unfolding crc16_compute crc16_resume_compute crc16_update crc16_init fill table_entry next_value
check_value = refl

abbrev message : List ℕ
message = 0x31 ∷ 0x32 ∷ 0x33 ∷ []

abbrev message-IsBytes : IsBytes message
message-IsBytes = (omega arith, (omega arith, (omega arith, tt)))

resume_compute-register_example : crc16_resume_compute crc16_init 7 message ≡ register 7 message
resume_compute-register_example = resume_compute-register 7 message (omega arith) message-IsBytes

burst_example : (◌≡◌ {A = ℕ} 1 1) × (◌≡◌ {A = ℕ} 2 2)
burst_example =
    crc16_compute_burst message message 1 2 1 2 message-IsBytes message-IsBytes
      (omega arith, (omega arith, tt)) (omega arith, (omega arith, tt)) refl

crc16_file_example :
    crc16_file crc16_init (some (record { pieces = message ∷ message ∷ []; error = false }))
    ≡ (pass, some (crc16_compute crc16_init (message ++ (message ++ [])), 6))
crc16_file_example =
    crc16_file-crc16_compute crc16_init (record { pieces = message ∷ message ∷ []; error = false })
      refl (omega arith)
