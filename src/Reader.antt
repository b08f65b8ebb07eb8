-- ===== src/Reader.antt =====
-- ccr.origin: the serial protocol with the card reader. Its constants and codes, the sum of CRC_Proc.c, and
-- ErrorExchange of Prtcl_RS232C_8_FuncDef.c.
pub mod Ack
pub mod Reply
pub mod Turn
pub mod Residue
pub mod Execute
pub mod Connect
pub mod Receive
pub mod Transmit
pub mod Upload
use emulation_lib.Prelude.{
  ℕ, zero, suc, ◌*◌, ◌/◌, ◌%◌, ◌^◌, List, [], ◌∷◌, ◌++◌, bit_and, bit_xor, if◌then◌else◌, ◌==◌,
}

abbrev pub stx : ℕ
stx = 0xF2

abbrev pub ack : ℕ
ack = 0x06

abbrev pub nak : ℕ
nak = 0x15

abbrev pub eot : ℕ
eot = 0x04

abbrev pub dle : ℕ
dle = 0x10

abbrev pub max_port_no : ℕ
max_port_no = 256

abbrev pub max_data_array_size : ℕ
max_data_array_size = 1024

abbrev pub s_header_len : ℕ
s_header_len = 3

abbrev pub default_command_retry : ℕ
default_command_retry = 3

abbrev pub default_nak_retry : ℕ
default_nak_retry = 3

abbrev pub default_receive_retry : ℕ
default_receive_retry = 3

-- The results of the port's functions.
pub data PortError : Type 0 where
  port_ok error_data_send error_data_receive error_timeout error_character_timeout : PortError

-- The results of the protocol's functions, without the prefix _RS232C_8.
pub data ReaderCode : Type 0 where
  no_error device_not_connected cancel_command_session failed_to_send_command : ReaderCode
  failed_to_receive_reply command_canceled reply_timeout ack_timeout : ReaderCode
  failed_to_receive_ack nak_receive_overtimes character_timeout critical_section : ReaderCode
  parameter_error cannot_open_port device_already_connected : ReaderCode

unfoldable pub error_exchange : PortError → ReaderCode
error_exchange port_ok = no_error
error_exchange error_data_send = failed_to_send_command
error_exchange error_data_receive = failed_to_receive_reply
error_exchange error_timeout = reply_timeout
error_exchange error_character_timeout = character_timeout

-- One turn of the loop of _calc_crc.
unfoldable pub calc_step : ℕ → ℕ → ℕ
calc_step crc ch =
    if bit_and (bit_xor ch crc) 0x8000 == 0
    then crc * 2 % 2 ^ 16
    else bit_xor (crc * 2 % 2 ^ 16) 0x1021

-- The loop, with so many turns left.
unfoldable pub calc_loop : ℕ → ℕ → ℕ → ℕ
calc_loop zero crc ch = crc
calc_loop (suc i) crc ch = calc_loop i (calc_step crc ch) (ch * 2 % 2 ^ 16)

unfoldable pub calc_crc : ℕ → ℕ → ℕ
calc_crc crc ch = calc_loop 8 crc (ch * 2 ^ 8 % 2 ^ 16)

-- _CrcCcitt, from a start value.
unfoldable pub crc_ccitt_from : ℕ → List ℕ → ℕ
crc_ccitt_from crc [] = crc
crc_ccitt_from crc (ch ∷ bytes) = crc_ccitt_from (calc_crc crc ch) bytes

unfoldable pub crc_ccitt : List ℕ → ℕ
crc_ccitt bytes = crc_ccitt_from 0 bytes

-- What one call of RS232C_ReceiveData gives: its result, and the bytes that it counts.
pub record Reception : Type 0 where
  pub result : PortError
  pub bytes : List ℕ
