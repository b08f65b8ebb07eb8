-- ===== src/Reader/Ack.antt =====
-- RS232C_8_ExecuteCommand of ccr.origin/Prtcl_RS232C_8.c, from _RETRY_COMMAND to the reader's ACK.
use emulation_lib.Prelude.{ℕ, suc, ◌+◌, List, [], ◌∷◌, get_or, if◌then◌else◌, ◌==◌, ltb}
use emulation_lib.Reader.{
  PortError, ReaderCode, no_error, reply_timeout, ack_timeout, failed_to_receive_ack,
  nak_receive_overtimes, error_exchange, Reception, ack, nak, default_command_retry,
}

-- What a reception is to the loop; a second try keeps the code for the case that it was the last.
pub data Answer : Type 0 where
  acknowledged : Answer
  again : ReaderCode → Answer
  refused : ReaderCode → Answer
  noise : Answer

unfoldable pub answer_byte : ℕ → Answer
answer_byte b =
    if b == nak then again nak_receive_overtimes else if b == ack then acknowledged else noise

unfoldable pub answer_code : ReaderCode → ℕ → Answer
answer_code no_error b = answer_byte b
answer_code reply_timeout b = again ack_timeout
answer_code _ b = refused failed_to_receive_ack

unfoldable pub answer_of : Reception → Answer
answer_of r = answer_code (error_exchange r.result) (get_or r.bytes 0 0)

-- How the loop ends; after the ACK with the receptions that are left.
pub data AckEnd : Type 0 where
  ack_waits : AckEnd
  ack_failed : ReaderCode → AckEnd
  ack_received : List Reception → AckEnd

-- How often the command is handed to the port, and the end.
pub record AckRun : Type 0 where
  pub attempts : ℕ
  pub end : AckEnd

unfoldable pub sent_command : ReaderCode → AckRun → AckRun
sent_command no_error rest = record rest { attempts = suc rest.attempts }
sent_command e rest = record { attempts = 1; end = ack_failed e }

-- _RETRY_COMMAND: `sends` are the results of RS232C_SendData, by the counter of retries; `overtime` is the
-- code when these are used up, and `rest` what follows a send.
unfoldable pub try_command : (ℕ → PortError) → ℕ → ReaderCode → AckRun → AckRun
try_command sends retry overtime rest =
    if ltb default_command_retry retry
    then record { attempts = 0; end = ack_failed overtime }
    else sent_command (error_exchange (sends retry)) rest

unfoldable pub ack_step : (ℕ → PortError) → ℕ → List Reception → Answer → AckRun → AckRun
ack_step sends retry left acknowledged rest = record { attempts = 0; end = ack_received left }
ack_step sends retry left (again e) rest = try_command sends (retry + 1) e rest
ack_step sends retry left (refused e) rest = record { attempts = 0; end = ack_failed e }
ack_step sends retry left noise rest = rest

abbrev pub retry_after_answer : Answer → ℕ → ℕ
retry_after_answer (again e) retry = retry + 1
retry_after_answer _ retry = retry

-- _RETRY_ACK_RES, over the receptions that come.
unfoldable pub await_ack : (ℕ → PortError) → ℕ → List Reception → AckRun
await_ack sends retry [] = record { attempts = 0; end = ack_waits }
await_ack sends retry (r ∷ rs) =
    ack_step sends retry rs (answer_of r)
      (await_ack sends (retry_after_answer (answer_of r) retry) rs)

unfoldable pub send_command : (ℕ → PortError) → List Reception → AckRun
send_command sends receptions = try_command sends 0 ack_timeout (await_ack sends 0 receptions)
