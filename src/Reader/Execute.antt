-- ===== src/Reader/Execute.antt =====
-- RS232C_8_ExecuteCommand and RS232C_8_IsConnected of ccr.origin/Prtcl_RS232C_8.c.
pub mod Bounds
pub mod Came
pub mod Fields
pub mod Sound
pub mod Outcomes
pub mod RoundTrip
use emulation_lib.Prelude.{
  ℕ, zero, suc, ◌+◌, ◌-◌, ◌/◌, ◌%◌, ◌^◌, Bool, true, false, ◌||◌, not, List, [], ◌∷◌, ◌++◌, get_or,
  take, drop, replicate, length, if◌then◌else◌, ◌==◌, ltb,
}
use emulation_lib.Reader.{
  PortError, ReaderCode, no_error, device_not_connected, cancel_command_session, critical_section,
  parameter_error, failed_to_receive_reply, Reception, crc_ccitt, stx, s_header_len, max_port_no,
  max_data_array_size,
}
use emulation_lib.Reader.Ack.{AckEnd, ack_waits, ack_failed, ack_received, AckRun, send_command}
use emulation_lib.Reader.Reply.{
  ReplyEnd, reply_waits, reply_failed, reply_outside, accepted, unfinished, ReplyRun, receive_reply,
}

pub data ReplyType : Type 0 where
  unavailable positive_reply negative_reply : ReplyType

-- REPLY, where the two codes are those of the kind of reply, and `body` is all of Body: what is behind the
-- bytes of a reply stays from before.
pub record Reply : Type 0 where
  pub reply_type : ReplyType
  pub command_code : ℕ
  pub parameter_code : ℕ
  pub code_1 : ℕ
  pub code_0 : ℕ
  pub size : ℕ
  pub body : List ℕ

pub record Command : Type 0 where
  pub command_code : ℕ
  pub parameter_code : ℕ
  pub data_body : List ℕ

-- The information on a port: its flags and which of its semaphores are taken.
pub record Device : Type 0 where
  pub connect_flag : Bool
  pub cancel_flag : Bool
  pub cancel_receive_flag : Bool
  pub sem_command_execute : Bool
  pub sem_connect : Bool
  pub sem_command_cancel : Bool

-- What the calls of a run give: the semaphore's, GetFirstParameterCommandFormatData, the sends of the
-- command by the counter of retries, and the receptions in order.
pub record Port : Type 0 where
  pub sem_waits : Bool
  pub sem_posts : Bool
  pub format_data : ℕ
  pub sends : ℕ → PortError
  pub receptions : List Reception

pub data Outcome : Type 0 where
  returned : ReaderCode → Reply → Outcome
  -- It waits for a reception that does not come.
  blocked : Outcome
  -- Bytes outside of a buffer are written or read.
  out_of_buffer : Outcome
  out_of_fuel : Outcome

-- The outcome, the device after it, the commands that are handed to the port, and how often NAK is.
pub record Execution : Type 0 where
  pub outcome : Outcome
  pub device : Device
  pub sent : List (List ℕ)
  pub naks : ℕ

unfoldable pub is_connected : Device → Bool
is_connected d = d.connect_flag

-- A command or a reply with its sum behind it.
unfoldable pub with_crc : List ℕ → List ℕ
with_crc text = text ++ (crc_ccitt text / 2 ^ 8 % 2 ^ 8 ∷ crc_ccitt text % 2 ^ 8 ∷ [])

-- The bytes of Command_Data.
unfoldable pub command_data : ℕ → Command → List ℕ
command_data tag c =
    let n = length c.data_body + s_header_len in
    with_crc
      (stx ∷ n / 2 ^ 8 % 2 ^ 8 ∷ n % 2 ^ 8 ∷ tag ∷ c.command_code ∷ c.parameter_code ∷ c.data_body)

-- The tag of a reply: `P` or `p`, `N` or `n`.
unfoldable pub reply_type_of : ℕ → ReplyType
reply_type_of tag =
    if (tag == 0x50) || (tag == 0x70)
    then positive_reply
    else if (tag == 0x4E) || (tag == 0x6E)
    then negative_reply
    else unavailable

-- DataSize: unsigned, with 32 bits.
unfoldable pub data_size : ℕ → ℕ
data_size n = (n + 2 ^ 32 - 10) % 2 ^ 32

-- The copy loop compares with the size as an int.
unfoldable pub copied : ℕ → List ℕ → List ℕ
copied size buffer = if ltb size (2 ^ 31) then take size (drop 8 buffer) else []

-- Body after a reply: emptied where the size is 0, or else with the bytes that are copied over its first ones.
unfoldable pub written : ℕ → List ℕ → List ℕ → List ℕ
unfolding copied
written size buffer old =
    if size == 0
    then replicate max_data_array_size 0
    else copied size buffer ++ drop (length (copied size buffer)) old

-- What is set after a reply without an error: the code and the reply.
unfoldable pub set_reply : List ℕ → ℕ → Reply → ReaderCode × Reply
set_reply buffer n reply = elim (reply_type_of (get_or buffer 3 0)) [
  | unavailable ↦ (failed_to_receive_reply, record reply { reply_type = unavailable })
  | kind ↦ (
    no_error,
    record {
      reply_type = kind;
      command_code = get_or buffer 4 0;
      parameter_code = get_or buffer 5 0;
      code_1 = get_or buffer 6 0;
      code_0 = get_or buffer 7 0;
      size = data_size n;
      body = written (data_size n) buffer reply.body;
    },
  )
]

-- The end of the function: a failed sem_post leaves the semaphore and the reply is not available.
unfoldable pub post : Bool → Device → ReaderCode → Reply → Outcome × Device
post true d code reply = (returned code reply, record d { sem_command_execute = false })
post false d code reply = (returned critical_section (record reply { reply_type = unavailable }), d)

-- The label _END with an error code.
unfoldable pub end_failed : Port → Device → ReaderCode → Reply → Outcome × Device
end_failed io d code reply =
    post io.sem_posts (record d { cancel_receive_flag = true }) code
      (record reply { reply_type = unavailable })

unfoldable pub end_accepted : Port → Device → List ℕ → ℕ → Reply → Outcome × Device
end_accepted io d buffer n reply =
    let set = set_reply buffer n reply in
    post io.sem_posts (record d { cancel_receive_flag = true }) set.0 set.1

unfoldable pub after_reply : Port → Device → Reply → ReplyEnd → Outcome × Device
after_reply io d reply reply_waits = (blocked, d)
after_reply io d reply (reply_failed e) = end_failed io d e reply
after_reply io d reply reply_outside = (out_of_buffer, d)
after_reply io d reply (accepted buffer n) = end_accepted io d buffer n reply
after_reply io d reply unfinished = (out_of_fuel, d)

-- From the reader's ACK on.
unfoldable pub await_reply : Port → Device → Reply → List (List ℕ) → List Reception → Execution
await_reply io d reply sent receptions =
    let run = receive_reply receptions in
    let end = after_reply io (record d { cancel_receive_flag = false }) reply run.end in
    record { outcome = end.0; device = end.1; sent = sent; naks = run.naks }

unfoldable pub after_ack : Port → Device → Reply → List (List ℕ) → AckEnd → Execution
after_ack io d reply sent ack_waits = record {
  outcome = blocked;
  device = d;
  sent = sent;
  naks = 0;
}
after_ack io d reply sent (ack_failed e) =
    let end = end_failed io d e reply in
    record { outcome = end.0; device = end.1; sent = sent; naks = 0 }
after_ack io d reply sent (ack_received left) = await_reply io d reply sent left

abbrev pub without_send : Outcome → Device → Execution
without_send outcome d = record { outcome = outcome; device = d; sent = []; naks = 0 }

unfoldable pub transact : Port → Device → List ℕ → Reply → Execution
transact io d frame reply =
    let run = send_command io.sends io.receptions in
    after_ack io d reply (replicate run.attempts frame) run.end

-- The semaphore is taken. A wrong tag leaves the function at once, with the semaphore.
unfoldable pub execute_taken : Port → Device → Command → Reply → Execution
execute_taken io d command reply =
    if d.cancel_flag
    then (let end = end_failed io d cancel_command_session reply in without_send end.0 end.1)
    else if not ((io.format_data == 0x43) || (io.format_data == 0x63))
    then without_send (returned parameter_error reply) d
    else if ltb max_data_array_size (length (command_data io.format_data command))
    then without_send out_of_buffer d
    else transact io d (command_data io.format_data command) reply

unfoldable pub execute_command : Port → ℕ → Device → Command → Reply → Execution
execute_command io port d command reply =
    let reply' = record reply { reply_type = unavailable } in
    if ltb port 1 || ltb max_port_no port
    then without_send (returned parameter_error reply) d
    else if not (is_connected d)
    then without_send (returned device_not_connected reply) d
    else if not io.sem_waits
    then without_send (returned critical_section reply') d
    else execute_taken io (record d { sem_command_execute = true }) command reply'
