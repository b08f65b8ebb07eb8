-- ===== src/Err.antt =====
-- src/svsErr.h: the result codes of the server's functions.
use emulation_lib.Prelude.{Bool, true, false}

pub data Err : Type 0 where
  pass fail inv_param inv_msg_id inv_addr busy ready timeout overrun underrun too_long too_short :
      Err
  msg_too_short in_progress no_handler file_desc sock_disc sock_fail crc_fail len_fail
        len_too_long :
      Err
  firmware_failed_erase firmware_failed_program firmware_failed_verify : Err
  firmware_address_out_of_range unexp not_implemented rx_activity done unknown comms_timeout : Err
  ctrl_c_pressed : Err

-- The test `rc == ERR_PASS`.
abbrev pub passed : Err → Bool
passed pass = true
passed _ = false
