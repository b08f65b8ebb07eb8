-- ===== src/Examples/Transmission.antt =====
-- A card reader that announces more data with each reply, and a caller that takes five bytes.
use emulation_lib.Prelude.{
  ℕ, true, false, List, [], ◌∷◌, ◌++◌, ◌≡◌, ◌≢◌, ◌<◌, refl, ap, arith, replicate, length-replicate,
}
use emulation_lib.Reader.{
  PortError, port_ok, no_error, error_exchange, crc_ccitt, crc_ccitt_from, calc_crc, calc_loop,
  calc_step,
}
use emulation_lib.Reader.Ack.{
  send_command, try_command, sent_command, await_ack, ack_step, answer_of, answer_code, answer_byte,
}
use emulation_lib.Reader.Reply.{
  receive_reply, reply_loop, reply_step, get_reply, first_code, get_length, length_code, get_data,
  data_code, check_reply_length, check_crc, crc_matches,
}
use emulation_lib.Reader.Execute.{
  Reply, Port, Outcome, Execution, unavailable, returned, transact, after_ack, await_reply,
  after_reply, end_accepted, set_reply, reply_type_of, data_size, copied, written, post, with_crc,
}
use emulation_lib.Reader.Execute.Bounds.{execute_command-cases}
use emulation_lib.Reader.Execute.RoundTrip.{ready, good_port, good_receptions, good_reply}
use emulation_lib.Reader.Transmit.{
  Session, Transmission, transmitted, transmit_out_of_fuel, transmit_command, iccard_transmit_flag,
}
use emulation_lib.Reader.Transmit.Loop.{transmit_all, iccard_transmit, card_call}
use emulation_lib.Reader.Transmit.Plan.{FollowsPlan, WholePlan, commands_of}
use emulation_lib.Reader.Transmit.Commands.{transmit_all-FollowsPlan}
use emulation_lib.Reader.Transmit.Joined.{joined, transmit_all-joined}
use emulation_lib.Reader.Transmit.Outcomes.{transmit_all-IsReceived}
use emulation_lib.Reader.Transmit.Fuel.{SendsData, transmit_all-Ends}
use emulation_lib.Reader.Transmit.Single.{iccard_transmit-single}
use emulation_lib.Reader.Transmit.Received.{IsReceived, answers_of}

abbrev pub empty_reply : Reply
empty_reply = record {
  reply_type = unavailable;
  command_code = 0;
  parameter_code = 0;
  code_1 = 0;
  code_0 = 0;
  size = 0;
  body = replicate 1024 0xCC;
}

abbrev more_bytes : List ℕ
more_bytes = 7 ∷ 8 ∷ 9 ∷ []

abbrev pub every_send : ℕ → PortError
every_send i = port_ok

-- Each command is acknowledged and answered by three bytes, with the code for more data.
abbrev generous : ℕ → Port
generous i = good_port every_send (good_receptions 0x49 0x35 0x30 0x30 more_bytes)

abbrev session : Session
session = record {
  device = ready true;
  executions = 0;
  reply = empty_reply;
  additional_error_code = no_error;
  data_size_to_send = 0;
  index = [];
  last_time_parameter_code = 0;
  storage = false;
  long_data = false;
}

abbrev request : List ℕ
request = replicate 400 0x5A

abbrev five_bytes : Transmission
five_bytes = transmit_all generous 1 iccard_transmit_flag 5 900 true session request

FollowsPlan_example :
    FollowsPlan iccard_transmit_flag (WholePlan iccard_transmit_flag) request five_bytes
FollowsPlan_example =
    transmit_all-FollowsPlan iccard_transmit_flag generous 1 5 900 true session request

joined_example :
    (rest : List ℕ) × (request ≡ joined (commands_of iccard_transmit_flag five_bytes) ++ rest)
    × (five_bytes.end ≡ transmitted → rest ≡ [])
joined_example = transmit_all-joined iccard_transmit_flag generous 1 5 900 true session request

IsReceived_example :
    IsReceived 5 [] (answers_of iccard_transmit_flag five_bytes.exchanges) five_bytes
IsReceived_example =
    transmit_all-IsReceived 5 iccard_transmit_flag generous 1 (omega arith) 900 true session request
      (omega (arith, length-replicate {A = ℕ} 1024 0xCC))

outcome_size : Outcome → ℕ
outcome_size (returned code reply) = reply.size
outcome_size o = 0

generous-SendsData : SendsData generous 1 iccard_transmit_flag 5
unfolding transact send_command try_command sent_command await_ack ack_step answer_of answer_code
    answer_byte error_exchange after_ack await_reply after_reply end_accepted post receive_reply
    reply_loop reply_step get_reply first_code get_length length_code get_data data_code
    check_reply_length check_crc crc_matches with_crc set_reply reply_type_of data_size copied
    written outcome_size crc_ccitt crc_ccitt_from calc_crc calc_loop calc_step
generous-SendsData i d command old reply came announced =
    execute_command-cases (λ (x : Execution). x.outcome ≡ returned no_error reply → 0 < reply.size)
      (generous i) 1 d command old (λ code d' r h e. absurd (h cc)) (λ d' e. absurd cc)
      (λ d' frame e. omega (arith, ap outcome_size e)) came

Ends_example : five_bytes.end ≢ transmit_out_of_fuel
Ends_example =
    transmit_all-Ends generous 1 iccard_transmit_flag 5 generous-SendsData (omega arith) 900 true
      session request (omega arith)

abbrev brief : ℕ → Port
brief i = good_port every_send (good_receptions 0x49 0x34 0x30 0x30 more_bytes)

single_example :
    iccard_transmit brief 1 1024 1 true session (1 ∷ 2 ∷ [])
    ≡ card_call (record {
      end = transmitted;
      session = record session {
        device = ready true;
        executions = 1;
        reply = good_reply 0x49 0x34 0x30 0x30 more_bytes empty_reply.body;
        additional_error_code = no_error;
        data_size_to_send = 0;
        index = 1 ∷ 2 ∷ [];
        last_time_parameter_code = 0x34;
        storage = false;
        long_data = false;
      };
      exchanges =
          record {
            command = transmit_command 0x34 (1 ∷ 2 ∷ []);
            outcome =
                returned no_error (good_reply 0x49 0x34 0x30 0x30 more_bytes empty_reply.body);
          }
          ∷ [];
      received = more_bytes;
      size_of_data_received = 3;
    })
single_example =
    iccard_transmit-single 0x30 0x30 more_bytes (1 ∷ 2 ∷ []) brief every_send 1 1024 0 session refl
      refl refl (omega arith) (omega arith) (omega arith) (omega arith) (omega arith) (omega arith)
