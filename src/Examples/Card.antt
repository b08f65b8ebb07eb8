-- ===== src/Examples/Card.antt =====
-- A reader that answers, one that sends NAK for ever, and one whose first reply is damaged.
use emulation_lib.Prelude.{ℕ, true, List, [], ◌∷◌, ◌≡◌, refl, arith, false, map, replicate}
use emulation_lib.Reader.{
  ack, PortError, port_ok, no_error, nak_receive_overtimes, Reception, nak, error_exchange,
  crc_ccitt, crc_ccitt_from, calc_crc, calc_loop, calc_step,
}
use emulation_lib.Reader.Ack.{
  send_command, try_command, sent_command, await_ack, ack_step, answer_of, answer_code, answer_byte,
}
use emulation_lib.Reader.Execute.{
  Reply, Command, unavailable, execute_command, execute_taken, is_connected, transact, after_ack,
  end_failed, post, returned, command_data, with_crc, Device,
}
use emulation_lib.Reader.Connect.{
  ConnectCalls, connect_device, connect_wait, connect_taken, connect_post, rs232c_init,
}
use emulation_lib.Reader.Connect.Free.{IsFree}
use emulation_lib.Reader.Connect.Calls.{
  connect, disconnect, device_after, fresh, after, Used-IsFree,
}
use emulation_lib.Reader.Execute.Bounds.{SendsFew, execute_command-SendsFew}
use emulation_lib.Reader.Execute.Outcomes.{IsRight, execute_command-IsRight}
use emulation_lib.Reader.Execute.RoundTrip.{ok, ready, good_port, good_reply, reply_text}
use emulation_lib.Reader.Receive.{gives, receptions_of, requests_for, execute_command-stream}

abbrev no_reply : Reply
no_reply = record {
  reply_type = unavailable;
  command_code = 0;
  parameter_code = 0;
  code_1 = 0;
  code_0 = 0;
  size = 0;
  body = replicate 1024 0xCC;
}

abbrev init : Command
init = record { command_code = 0x30; parameter_code = 0x31; data_body = 1 ∷ 2 ∷ [] }

abbrev all_sent : ℕ → PortError
all_sent i = port_ok

-- The bytes of the reader: its ACK, and a reply with three bytes of data.
abbrev bytes_in : List ℕ
bytes_in = ack ∷ with_crc (reply_text 0x30 0x31 0x30 0x30 (7 ∷ 8 ∷ 9 ∷ []))

abbrev answers : List Reception
answers = receptions_of (requests_for 20000 8) (map gives bytes_in)

abbrev refusals : List Reception
refusals = ok (nak ∷ []) ∷ ok (nak ∷ []) ∷ ok (nak ∷ []) ∷ ok (nak ∷ []) ∷ []

stream_example :
    execute_command (good_port all_sent answers) 1 (ready true) init no_reply ≡ record {
      outcome =
          returned no_error (good_reply 0x30 0x31 0x30 0x30 (7 ∷ 8 ∷ 9 ∷ []) (replicate 1024 0xCC));
      device = ready true;
      sent = command_data 0x43 init ∷ [];
      naks = 0;
    }
stream_example =
    execute_command-stream 20000 0x30 0x31 0x30 0x30 (7 ∷ 8 ∷ 9 ∷ []) all_sent 1 true init no_reply
      (omega arith) refl (omega arith) (omega arith) (omega arith)

-- After four commands the call gives up.
refused_four_times :
    execute_command (good_port all_sent refusals) 1 (ready true) init no_reply ≡ record {
      outcome = returned nak_receive_overtimes no_reply;
      device = ready true;
      sent =
          command_data 0x43 init
          ∷ command_data 0x43 init
          ∷ command_data 0x43 init
          ∷ command_data 0x43 init
          ∷ [];
      naks = 0;
    }
unfolding execute_command execute_taken is_connected transact send_command try_command sent_command
    await_ack ack_step answer_of answer_code answer_byte error_exchange after_ack end_failed post
    command_data with_crc
refused_four_times = refl

SendsFew_example :
    SendsFew (execute_command (good_port all_sent refusals) 1 (ready true) init no_reply)
SendsFew_example =
    execute_command-SendsFew (good_port all_sent refusals) 1 (ready true) init no_reply

IsRight_example :
    IsRight answers no_reply.body
      (execute_command (good_port all_sent answers) 1 (ready true) init no_reply).outcome
IsRight_example = execute_command-IsRight (good_port all_sent answers) 1 (ready true) init no_reply

-- The sum of "123456789".
check_value : crc_ccitt (0x31 ∷ 0x32 ∷ 0x33 ∷ 0x34 ∷ 0x35 ∷ 0x36 ∷ 0x37 ∷ 0x38 ∷ 0x39 ∷ []) ≡ 0x31C3
unfolding crc_ccitt crc_ccitt_from calc_crc calc_loop calc_step
check_value = refl

abbrev all_well : ConnectCalls
all_well = record {
  inits_own = true;
  inits_others = true;
  waits_connect = true;
  waits_command = true;
  opens = true;
  posts_command = true;
  posts_connect = true;
}

abbrev new_device : Device
new_device = record {
  connect_flag = false;
  cancel_flag = false;
  cancel_receive_flag = false;
  sem_command_execute = false;
  sem_connect = false;
  sem_command_cancel = false;
}

connected : connect_device all_well 1 9600 new_device ≡ (no_error, ready true)
unfolding connect_device connect_wait connect_taken connect_post rs232c_init
connected = refl

-- A connect, and a disconnect whose port is not legal.
abbrev used_device : Device
used_device =
    device_after (disconnect all_well 0) (device_after (connect all_well 1 9600) new_device)

Used-IsFree_example : IsFree used_device
Used-IsFree_example = Used-IsFree used_device (
    after (disconnect all_well 0) (after (connect all_well 1 9600) (fresh false) (refl, refl))
      (refl, refl))
