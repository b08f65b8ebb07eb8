-- ===== src/Reader/Transmit/Single.antt =====
-- A transmission in one command, from the call of the caller to the bytes at the port.
use emulation_lib.Prelude.{
  ℕ, suc, ◌+◌, ◌%◌, ◌^◌, ◌≤◌, ◌<◌, true, false, ◌||◌, List, [], ◌∷◌, ◌≡◌, refl, arith, length, leb,
  ltb, take_all,
}
use emulation_lib.Reader.{PortError, port_ok, no_error, max_port_no, max_data_array_size}
use emulation_lib.Reader.Execute.{Port, returned, is_connected}
use emulation_lib.Reader.Execute.RoundTrip.{
  ready, good_port, good_receptions, good_reply, take-array_with, execute_command-good,
}
use emulation_lib.Reader.Transmit.{
  Session, transmitted, reply_data, judge_reply, transmit_command, all_handed_over, judged,
  after_execution, execute_part, transmit_allocated, transmit_first, transmit_rest, transmit_next,
  max_transmit_size,
}
use emulation_lib.Reader.Transmit.Loop.{
  card_call, ended, copy_reply, with_exchanges, turn_after_copy, turn_of, after_turn, transmit_loop,
  transmit_all, checked_transmit, iccard_transmit,
}

module _ (st1 st0 : ℕ) (answer message : List ℕ) (ports : ℕ → Port) (sends : ℕ → PortError)
    (port limit fuel : ℕ) (s : Session) (held : s.device ≡ ready true)
    (gives : ports s.executions ≡ good_port sends (good_receptions 0x49 0x34 st1 st0 answer))
    (sent : sends 0 ≡ port_ok) (low : 1 ≤ port) (high : port < max_port_no)
    (short : length message ≤ max_transmit_size) (fits : length answer ≤ 1014)
    (room : length answer ≤ limit) (small : limit < 2 ^ 31) where
  -- Where the device is connected and not in use, the port is one of 1 to 255, the data are at most 300 bytes and
  -- malloc gives storage for them: when the first send goes through, and the reader acknowledges the command
  -- and answers with code 0x34 and at most 1014 bytes of data, for which the caller's buffer, of fewer than 2^31
  -- bytes, has room, RS232C_8_ICCardTransmit returns without an error after that one command, with the data
  -- of the answer, and the storage is released.
  pub iccard_transmit-single :
      iccard_transmit ports port limit (suc fuel) true s message
      ≡ card_call (record {
        end = transmitted;
        session = record s {
          device = ready true;
          executions = s.executions + 1;
          reply = good_reply 0x49 0x34 st1 st0 answer s.reply.body;
          additional_error_code = no_error;
          data_size_to_send = 0;
          index = message;
          last_time_parameter_code = 0x34;
          storage = false;
          long_data = false;
        };
        exchanges =
            record {
              command = transmit_command 0x34 message;
              outcome = returned no_error (good_reply 0x49 0x34 st1 st0 answer s.reply.body);
            }
            ∷ [];
        received = answer;
        size_of_data_received = length answer;
      })
  unfolding iccard_transmit checked_transmit transmit_all transmit_first transmit_allocated
      execute_part transmit_command after_execution judge_reply judged turn_of copy_reply
      turn_after_copy after_turn with_exchanges transmit_loop transmit_next transmit_rest ended
      reply_data all_handed_over is_connected
  iccard_transmit-single =
      let legal : (ltb port 1 || ltb max_port_no port) ≡ false = ground arith in
      let one : leb (length message) max_transmit_size ≡ true = ground arith in
      let sum : (0 + length answer) % 2 ^ 32 ≡ length answer = omega arith in
      let within : leb (length answer) limit ≡ true = ground arith in
      let few : ltb max_data_array_size (length answer) ≡ false = ground arith in
      rw
        (
          legal,
          held,
          one,
          gives,
          take_all message,
          execute_command-good 0x49 0x34 st1 st0 answer sends port true
              (transmit_command 0x34 message) s.reply fits sent low high (omega arith),
          sum,
          within,
          few,
          take-array_with answer s.reply.body,
        )
        refl
