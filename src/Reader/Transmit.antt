-- ===== src/Reader/Transmit.antt =====
-- TransmitControl of ccr.origin/Prtcl_RS232C_8_FuncDef.c: data for a card that is sent in several commands, one
-- for each call. The loop over the calls is in Loop.
pub mod Loop
pub mod Cases
pub mod Plan
pub mod Commands
pub mod Joined
pub mod Fuel
pub mod Received
pub mod Outcomes
pub mod Single
use emulation_lib.Prelude.{
  ℕ, zero, suc, ◌+◌, ◌-◌, ◌%◌, ◌^◌, bit_or, Bool, true, false, ◌||◌, not, Option, none, some, List,
  [], ◌∷◌, ◌++◌, length, take, drop, replicate, if◌then◌else◌, ◌==◌, ltb, leb,
}
use emulation_lib.Reader.{
  ReaderCode, no_error, parameter_error, device_not_connected, max_port_no, max_data_array_size,
}
use emulation_lib.Reader.Execute.{
  ReplyType, unavailable, positive_reply, negative_reply, Reply, Command, Device, Port, Outcome,
  returned, out_of_buffer, is_connected, execute_command,
}

-- The errors of the transmission, without the prefix _RS232C_8_TRANSMIT.
pub data TransmitError : Type 0 where
  command_execution_failed negative_reply_received failed_to_allocate : TransmitError
  abort_request_received unexpected : TransmitError

abbrev pub iccard_transmit_flag : ℕ
iccard_transmit_flag = 0x30

abbrev pub sam_transmit_flag : ℕ
sam_transmit_flag = 0x40

-- GetMax_IC_SAM_DataLength
abbrev pub max_transmit_size : ℕ
max_transmit_size = 300

-- The information on the port that the transmission uses, the reply and the additional error code of the
-- caller, and how many commands were executed. `index` holds the bytes of the storage from pIndex on;
-- `storage` says that it is allocated.
pub record Session : Type 0 where
  pub device : Device
  pub executions : ℕ
  pub reply : Reply
  pub additional_error_code : ReaderCode
  pub data_size_to_send : ℕ
  pub index : List ℕ
  pub last_time_parameter_code : ℕ
  pub storage : Bool
  pub long_data : Bool

-- A call of RS232C_8_ExecuteCommand.
pub record Exchange : Type 0 where
  pub command : Command
  pub outcome : Outcome

-- What TransmitControl returns: no error and not complete, no error and complete, or an error, which is
-- complete too. `never_returns`: RS232C_8_ExecuteCommand does not return. `overruns`: it writes or reads
-- outside of a buffer of its own.
pub data Control : Type 0 where
  goes_on completes : Control
  fails : TransmitError → Control
  never_returns overruns : Control

pub record ControlRun : Type 0 where
  pub control : Control
  pub session : Session
  pub exchanges : List Exchange

-- What _TransmitControl returns. It returns no error also in the case `filled`: the reply has more data
-- than the caller takes. `reads_outside`: more bytes of the reply are copied than its buffer has.
-- `transmit_hangs` and `transmit_overruns` are the ends of TransmitControl of these kinds.
pub data TransmitEnd : Type 0 where
  transmitted filled : TransmitEnd
  transmit_failed : TransmitError → TransmitEnd
  transmit_hangs transmit_overruns reads_outside transmit_out_of_fuel : TransmitEnd

pub record Transmission : Type 0 where
  pub end : TransmitEnd
  pub session : Session
  pub exchanges : List Exchange
  pub received : List ℕ
  pub size_of_data_received : ℕ

-- The first bytes of Body, as many as the reply says to have.
unfoldable pub reply_data : Reply → List ℕ
reply_data reply = take reply.size reply.body

-- The error after a command, if any.
unfoldable pub judge_reply : ℕ → ReaderCode → Reply → Option TransmitError
judge_reply flag no_error reply = elim reply.reply_type [
  | negative_reply ↦ some negative_reply_received
  | unavailable ↦ some unexpected
  | positive_reply ↦
      if bit_or 0x0F flag == reply.parameter_code then some abort_request_received else none
]
judge_reply flag code reply = some command_execution_failed

unfoldable pub transmit_command : ℕ → List ℕ → Command
transmit_command parameter body = record {
  command_code = 0x49;
  parameter_code = parameter;
  data_body = body;
}

-- The label _END after an error.
unfoldable pub release : Session → Session
release s = record s { storage = false }

-- DataSizeToSend and pIndex after a command with the last data, and after another.
unfoldable pub all_handed_over : Session → Session
all_handed_over s = record s { data_size_to_send = 0 }

unfoldable pub advance_index : Session → Session
advance_index s = record s {
  index = drop max_transmit_size s.index;
  data_size_to_send = s.data_size_to_send - max_transmit_size;
}

unfoldable pub judged :
    Session → Reply → (Session → Session) → Option TransmitError → Control × Session
judged s reply update (some e) = (fails e, release s)
judged s reply update none =
    (goes_on, record (update s) { last_time_parameter_code = reply.parameter_code })

unfoldable pub after_execution : ℕ → Session → (Session → Session) → Outcome → Control × Session
after_execution flag s update (returned code reply) =
    judged (record s { reply = reply; additional_error_code = code }) reply update
      (judge_reply flag code reply)
after_execution flag s update out_of_buffer = (overruns, s)
after_execution flag s update outcome = (never_returns, s)

module _ (ports : ℕ → Port) (port flag : ℕ) where
  -- A command is executed, its reply is judged, and the transfer moves on.
  unfoldable pub execute_part : Session → Command → (Session → Session) → ControlRun
  execute_part s command update =
      let run = execute_command (ports s.executions) port s.device command s.reply in
      let s' = record s { device = run.device; executions = s.executions + 1 } in
      let after = after_execution flag s' update run.outcome in
      record {
        control = after.0;
        session = after.1;
        exchanges = record { command = command; outcome = run.outcome } ∷ [];
      }

  -- TransmitControl with Init, from the allocation on.
  unfoldable pub transmit_allocated : Session → ControlRun
  transmit_allocated s =
      if leb s.data_size_to_send max_transmit_size
      then execute_part s (transmit_command (bit_or 0x04 flag) (take s.data_size_to_send s.index))
          all_handed_over
      else execute_part s (transmit_command (bit_or 0x05 flag) (take max_transmit_size s.index))
          advance_index

  -- TransmitControl with Init; the first argument says whether malloc gives storage.
  unfoldable pub transmit_first : Bool → Session → List ℕ → ControlRun
  transmit_first allocates s message =
      let s' = record s { data_size_to_send = length message } in
      if allocates
      then transmit_allocated (record s' { index = message; storage = true })
      else record { control = fails failed_to_allocate; session = release s'; exchanges = [] }

  -- No data remain: the code of the last reply says how to go on.
  unfoldable pub transmit_rest : Session → ControlRun
  transmit_rest s =
      if bit_or 0x05 flag == s.last_time_parameter_code
      then execute_part s (transmit_command (bit_or 0x07 flag) []) (λ s'. s')
      else if (bit_or 0x04 flag == s.last_time_parameter_code)
          || (bit_or 0x06 flag == s.last_time_parameter_code)
      then record {
        control = completes;
        session = record s { storage = false; last_time_parameter_code = s.reply.parameter_code };
        exchanges = [];
      }
      else record { control = fails unexpected; session = release s; exchanges = [] }

  -- TransmitControl without Init.
  unfoldable pub transmit_next : Session → ControlRun
  transmit_next s =
      if s.data_size_to_send == 0
      then transmit_rest s
      else if leb s.data_size_to_send max_transmit_size
      then execute_part s (transmit_command (bit_or 0x06 flag) (take s.data_size_to_send s.index))
          all_handed_over
      else execute_part s (transmit_command (bit_or 0x05 flag) (take max_transmit_size s.index))
          advance_index
