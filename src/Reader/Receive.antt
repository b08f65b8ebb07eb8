-- ===== src/Reader/Receive.antt =====
-- RS232C_ReceiveData of ccr.origin/RS232C_Interface.c, and a reader whose bytes come in without a pause.
pub mod Requests
use mathlib.Core.List.{append-nil}
use emulation_lib.Prelude.{
  ℕ, zero, suc, ◌+◌, ◌≤◌, ◌<◌, Option, none, some, List, [], ◌∷◌, ◌++◌, ◌≡◌, refl, sym, ap, ◌∙◌,
  arith, map, Bool, true, length-append, ◌/◌, ◌%◌, ◌^◌, length, if◌then◌else◌, ◌==◌,
}
use emulation_lib.Reader.{
  PortError, port_ok, error_data_receive, error_timeout, error_character_timeout, no_error,
  crc_ccitt, Reception, stx, ack, max_port_no,
}
use emulation_lib.Reader.Execute.{Command, Reply, returned, execute_command, command_data, with_crc}
use emulation_lib.Reader.Execute.RoundTrip.{
  ok, ready, good_port, good_receptions, good_reply, reply_text, hi, lo, execute_command-good,
}

-- What one round of select and read gives: a byte, the end of the input (the byte of the buffer stays, which
-- ExecuteCommand has set to zero), an error of read, a select that fails (its set of descriptors is taken to be
-- empty then, so that nothing is read), or no byte in time.
pub data Poll : Type 0 where
  gives : ℕ → Poll
  at_end : Poll
  read_error : Poll
  not_set : Poll
  expired : Poll

-- The reception and the polls that are left. Behind the last poll nothing comes any more.
abbrev pub Received : Type 0
Received = Reception × List Poll

abbrev pub failed_reception : PortError → List Poll → Received
failed_reception e polls = (record { result = e; bytes = [] }, polls)

abbrev pub with_byte : ℕ → Received → Received
with_byte b r = (record (r.0) { bytes = b ∷ r.0.bytes }, r.1)

unfoldable pub poll_step : Poll → List Poll → Received → Received
poll_step (gives b) polls rest = with_byte b rest
poll_step at_end polls rest = with_byte 0 rest
poll_step read_error polls rest = failed_reception error_data_receive polls
poll_step not_set polls rest = rest
poll_step expired polls rest = failed_reception error_character_timeout polls

-- The loop, with so many turns left.
unfoldable pub receive_loop : ℕ → List Poll → Received
receive_loop zero polls = failed_reception port_ok polls
receive_loop (suc n) [] = failed_reception error_character_timeout []
receive_loop (suc n) (p ∷ polls) = poll_step p polls (receive_loop n polls)

-- The wait for the first byte: with no time limit it does not end when nothing comes.
unfoldable pub receive_data : ℕ → ℕ → List Poll → Option Received
receive_data timeout n [] = if timeout == 0 then none else some (failed_reception error_timeout [])
receive_data timeout n (expired ∷ polls) =
    if timeout == 0
    then some (receive_loop n polls)
    else some (failed_reception error_timeout polls)
receive_data timeout n polls = some (receive_loop n polls)

-- No more bytes are with_byte than were asked for.
pub receive_loop-le : (n : ℕ) (polls : List Poll) → length (receive_loop n polls).0.bytes ≤ n
unfolding receive_loop poll_step
receive_loop-le zero polls = omega arith
receive_loop-le (suc n) [] = omega arith
receive_loop-le (suc n) (gives b ∷ polls) = omega (arith, receive_loop-le n polls)
receive_loop-le (suc n) (at_end ∷ polls) = omega (arith, receive_loop-le n polls)
receive_loop-le (suc n) (read_error ∷ polls) = omega arith
receive_loop-le (suc n) (not_set ∷ polls) = omega (arith, receive_loop-le n polls)
receive_loop-le (suc n) (expired ∷ polls) = omega arith

-- Bytes that are there are received, in order, and no more than were asked for.
pub receive_loop-bytes :
    (bytes : List ℕ) (polls : List Poll)
    → receive_loop (length bytes) (map gives bytes ++ polls) ≡ (ok bytes, polls)
unfolding receive_loop poll_step
receive_loop-bytes [] polls = refl
receive_loop-bytes (b ∷ bytes) polls = ap (with_byte b) (receive_loop-bytes bytes polls)

-- One call after the other, each with its time limit and its size.
unfoldable pub receptions_of : List (ℕ × ℕ) → List Poll → List Reception
receptions_of [] polls = []
receptions_of (r ∷ requests) polls = elim (receive_data r.0 r.1 polls) [
  | none ↦ []
  | some x ↦ x.0 ∷ receptions_of requests x.1
]

-- Bytes that are there come in the parts that are asked for.
pub receptions_of-parts :
    (timeout b : ℕ) (bytes : List ℕ) (requests : List (ℕ × ℕ)) (polls : List Poll)
    → receptions_of ((timeout, suc (length bytes)) ∷ requests) (map gives (b ∷ bytes) ++ polls)
      ≡ ok (b ∷ bytes) ∷ receptions_of requests polls
unfolding receptions_of receive_data
receptions_of-parts timeout b bytes requests polls = rw (receive_loop-bytes (b ∷ bytes) polls) refl

-- The sizes that RS232C_8_ExecuteCommand asks for: the ACK, the first byte, the length, and the rest.
abbrev pub requests_for : ℕ → ℕ → List (ℕ × ℕ)
requests_for timeout read_length =
    (2000, 1) ∷ (timeout, 1) ∷ (timeout, 2) ∷ (timeout, read_length + 2) ∷ []

-- All that is left, in one part.
last_part :
    (timeout n b : ℕ) (bytes : List ℕ)
    → n ≡ suc (length bytes)
    → receptions_of ((timeout, n) ∷ []) (map gives (b ∷ bytes)) ≡ ok (b ∷ bytes) ∷ []
unfolding receptions_of
last_part timeout n b bytes e =
    rw (e, sym (append-nil (map gives (b ∷ bytes)))) (receptions_of-parts timeout b bytes [] [])

stream-good :
    (timeout command_code parameter_code st1 st0 : ℕ) (data_bytes : List ℕ)
    → receptions_of
        (requests_for timeout (length data_bytes + 5))
        (map gives (ack ∷ with_crc (reply_text command_code parameter_code st1 st0 data_bytes)))
      ≡ good_receptions command_code parameter_code st1 st0 data_bytes
unfolding receptions_of with_crc receive_data receive_loop poll_step
stream-good timeout command_code parameter_code st1 st0 data_bytes =
    let sum = crc_ccitt (reply_text command_code parameter_code st1 st0 data_bytes) in
    let tail = data_bytes ++ (sum / 2 ^ 8 % 2 ^ 8 ∷ sum % 2 ^ 8 ∷ []) in
    ap
      (λ rest.
        ok (ack ∷ [])
        ∷ ok (stx ∷ [])
        ∷ ok (
            hi command_code parameter_code st1 st0 data_bytes
            ∷ lo command_code parameter_code st1 st0 data_bytes
            ∷ [])
        ∷ rest)
      (last_part timeout (length data_bytes + 5 + 2) 0x50
        (command_code ∷ parameter_code ∷ st1 ∷ st0 ∷ tail)
        (omega (arith, length-append data_bytes (sum / 2 ^ 8 % 2 ^ 8 ∷ sum % 2 ^ 8 ∷ []))))

-- Where the port is one of 1 to 255, the device connected and not in use, and the command fits its buffer:
-- when the first send goes through and the reader's bytes come in one stream, its ACK and then a positive
-- reply with its sum, then RS232C_8_ExecuteCommand on what RS232C_ReceiveData gives for the sizes that it
-- asks for returns the fields and the data of that reply without an error, after one command and no NAK.
pub execute_command-stream :
    (timeout command_code parameter_code st1 st0 : ℕ) (data_bytes : List ℕ) (sends : ℕ → PortError)
    (port : ℕ) (receive_flag : Bool) (command : Command) (reply : Reply)
    → length data_bytes ≤ 1014
    → sends 0 ≡ port_ok
    → 1 ≤ port
    → port < max_port_no
    → length command.data_body ≤ 1016
    → execute_command
        (good_port sends (
          receptions_of (requests_for timeout (length data_bytes + 5)) (
            map gives
              (ack ∷ with_crc (reply_text command_code parameter_code st1 st0 data_bytes)))))
        port
        (ready receive_flag)
        command
        reply
      ≡ record {
        outcome =
            returned no_error
              (good_reply command_code parameter_code st1 st0 data_bytes reply.body);
        device = ready true;
        sent = command_data 0x43 command ∷ [];
        naks = 0;
      }
execute_command-stream timeout command_code parameter_code st1 st0 data_bytes sends port
      receive_flag command reply fits sent low high short =
    ap
      (λ receptions.
        execute_command (good_port sends receptions) port (ready receive_flag) command reply)
      (stream-good timeout command_code parameter_code st1 st0 data_bytes)
    ∙ execute_command-good command_code parameter_code st1 st0 data_bytes sends port receive_flag
        command reply fits sent low high short
