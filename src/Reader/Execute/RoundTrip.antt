-- ===== src/Reader/Execute/RoundTrip.antt =====
-- A command that the reader answers at once with a positive reply.
use emulation_lib.Prelude.{
  ℕ, suc, ◌+◌, ◌-◌, ◌≤◌, ◌<◌, Bool, true, false, ◌||◌, List, [], ◌∷◌, ◌++◌, ◌≡◌, refl, inl, inr,
  arith, length, length-append, take, drop, replicate, get_or-append_here, get_or-append_right,
  take-append, ap, ◌∙◌, ◌*◌, ◌/◌, ◌%◌, ◌^◌, ◌==◌, ltb, Bool-cases,
}
use emulation_lib.Reader.{
  PortError, port_ok, no_error, crc_ccitt, stx, ack, error_exchange, Reception, max_port_no,
  max_data_array_size, ack,
}
use emulation_lib.Reader.Ack.{
  answer_of, answer_code, answer_byte, sent_command, try_command, ack_step, await_ack, send_command,
}
use emulation_lib.Reader.Reply.{
  whole, ReplyRun, accepted, reply_step, check_crc, reply_loop, receive_reply, retry_after,
  crc_retry_after, get_reply, crc_matches, ends, check_reply_length, data_code, get_data,
  length_code, get_length, first_code,
}
use emulation_lib.Reader.Execute.{
  Port, Device, Command, Reply, returned, execute_command, execute_taken, transact, after_ack,
  await_reply, after_reply, end_accepted, post, is_connected, command_data, set_reply, with_crc,
  reply_type_of, data_size, copied, written, positive_reply, execute_taken, end_accepted,
}

crc_matches-with_crc : (t : List ℕ) → crc_matches (with_crc t) (length (with_crc t)) ≡ true
unfolding crc_matches with_crc
crc_matches-with_crc t =
    let hi = crc_ccitt t / 2 ^ 8 % 2 ^ 8 in
    let lo = crc_ccitt t % 2 ^ 8 in
    let size : length (t ++ (hi ∷ lo ∷ [])) ≡ length t + 2 = length-append t (hi ∷ lo ∷ []) in
    let last : length t + 2 - 1 ≡ length t + 1 = omega arith in
    let first : length t + 2 - 2 ≡ length t = omega arith in
    rw
      (
        size,
        first,
        last,
        take-append t (hi ∷ lo ∷ []),
        get_or-append_here t hi (lo ∷ []) 0,
        get_or-append_right t (hi ∷ lo ∷ []) 1 0,
      )
      (ground arith)

check_reply_length-whole :
    (buffer : List ℕ) (n : ℕ) (left : List Reception)
    → length buffer ≤ 1024
    → length buffer ≡ n + 5
    → check_reply_length buffer n left ≡ (whole buffer (length buffer), left)
unfolding check_reply_length
check_reply_length-whole buffer n left h e = ground arith

check_crc-accepted :
    (buffer : List ℕ) (n : ℕ) (rest : ReplyRun)
    → 2 ≤ n
    → crc_matches buffer n ≡ true
    → check_crc 1 buffer n rest ≡ ends (accepted buffer n)
unfolding check_crc
check_crc-accepted buffer n rest h e = elim (Bool-cases (ltb n 2)) [
  | inl few ↦ absurd (ground arith)
  | inr enough ↦ rw (enough, e) refl
]

-- A first turn that brings a whole reply is the last.
reply_loop-accepted :
    (fuel : ℕ) (receptions : List Reception) (buffer : List ℕ) (n : ℕ)
    → (get_reply receptions).0 ≡ whole buffer n
    → 2 ≤ n
    → crc_matches buffer n ≡ true
    → reply_loop (suc fuel) 1 1 receptions ≡ ends (accepted buffer n)
unfolding reply_loop reply_step
reply_loop-accepted fuel receptions buffer n e h c =
    let turn = get_reply receptions in
    let rest = reply_loop fuel (retry_after turn.0 1) (crc_retry_after turn.0 1) turn.1 in
    ap (λ v. reply_step 1 v rest) e ∙ check_crc-accepted buffer n rest h c

copied-take : (n : ℕ) (buffer : List ℕ) → n ≤ 1014 → copied n buffer ≡ take n (drop 8 buffer)
unfolding copied
copied-take n buffer h = ground arith

-- An array after a copy of bytes to its front, and zeros where there are none.
abbrev pub array_with : List ℕ → List ℕ → List ℕ
array_with [] old = replicate max_data_array_size 0
array_with (b ∷ bytes) old = (b ∷ bytes) ++ drop (length (b ∷ bytes)) old

pub take-array_with : (bytes old : List ℕ) → take (length bytes) (array_with bytes old) ≡ bytes
take-array_with [] old = refl
take-array_with (b ∷ bytes) old = take-append (b ∷ bytes) (drop (length (b ∷ bytes)) old)

written-array_with :
    (bytes buffer old : List ℕ)
    → copied (length bytes) buffer ≡ bytes
    → written (length bytes) buffer old ≡ array_with bytes old
unfolding written
written-array_with [] buffer old e = refl
written-array_with (b ∷ bytes) buffer old e =
    let some_data : (length (b ∷ bytes) == 0) ≡ false = ground arith in rw (e, some_data) refl

-- A reception without an error.
abbrev pub ok : List ℕ → Reception
ok bytes = record { result = port_ok; bytes = bytes }

module _ (command_code parameter_code st1 st0 : ℕ) (data_bytes : List ℕ) where
  -- The two bytes of the length, and a positive reply without its sum.
  abbrev pub hi : ℕ
  hi = (length data_bytes + 5) / 2 ^ 8 % 2 ^ 8

  abbrev pub lo : ℕ
  lo = (length data_bytes + 5) % 2 ^ 8

  abbrev pub reply_text : List ℕ
  reply_text = stx ∷ hi ∷ lo ∷ 0x50 ∷ command_code ∷ parameter_code ∷ st1 ∷ st0 ∷ data_bytes

  -- The reader acknowledges, and sends the reply.
  abbrev pub good_receptions : List Reception
  good_receptions =
      ok (ack ∷ []) ∷ ok (stx ∷ []) ∷ ok (hi ∷ lo ∷ []) ∷ ok (drop 3 (with_crc reply_text)) ∷ []

  abbrev pub good_reply : List ℕ → Reply
  good_reply old = record {
    reply_type = positive_reply;
    command_code = command_code;
    parameter_code = parameter_code;
    code_1 = st1;
    code_0 = st0;
    size = length data_bytes;
    body = array_with data_bytes old;
  }

  module _ (fits : length data_bytes ≤ 1014) where
    pub reply_size : length (with_crc reply_text) ≡ length data_bytes + 10
    unfolding with_crc
    reply_size = omega (
      arith,
      length-append reply_text (0 ∷ 0 ∷ []),
      length-append reply_text
          (crc_ccitt reply_text / 2 ^ 8 % 2 ^ 8 ∷ crc_ccitt reply_text % 2 ^ 8 ∷ []),
    )

    get_reply-whole :
        get_reply (ok (stx ∷ []) ∷ ok (hi ∷ lo ∷ []) ∷ ok (drop 3 (with_crc reply_text)) ∷ [])
        ≡ (whole (with_crc reply_text) (length (with_crc reply_text)), [])
    unfolding get_reply first_code get_length length_code get_data data_code error_exchange with_crc
    get_reply-whole =
        check_reply_length-whole (with_crc reply_text) (hi * 256 + lo) []
          (omega (arith, reply_size)) (omega (arith, reply_size))

    receive_reply-accepted :
        receive_reply (ok (stx ∷ []) ∷ ok (hi ∷ lo ∷ []) ∷ ok (drop 3 (with_crc reply_text)) ∷ [])
        ≡ record { naks = 0; end = accepted (with_crc reply_text) (length (with_crc reply_text)) }
    unfolding receive_reply
    receive_reply-accepted =
        reply_loop-accepted 3 _ _ _ (ap (λ t. t.0) get_reply-whole) (omega (arith, reply_size))
          (crc_matches-with_crc reply_text)

    set_reply-good :
        (old : Reply)
        → set_reply (with_crc reply_text) (length (with_crc reply_text)) old
          ≡ (no_error, good_reply old.body)
    unfolding set_reply reply_type_of data_size with_crc
    set_reply-good old =
        let same : data_size (length (with_crc reply_text)) ≡ length data_bytes =
          omega (arith, reply_size) in
        let bytes_copied : copied (length data_bytes) (with_crc reply_text) ≡ data_bytes =
          copied-take (length data_bytes) (with_crc reply_text) fits
          ∙ take-append data_bytes
              (crc_ccitt reply_text / 2 ^ 8 % 2 ^ 8 ∷ crc_ccitt reply_text % 2 ^ 8 ∷ []) in
        rw (same, written-array_with data_bytes (with_crc reply_text) old.body bytes_copied) refl

-- A device that is connected, and the same in the hands of one call.
abbrev pub ready : Bool → Device
ready receive_flag = record {
  connect_flag = true;
  cancel_flag = false;
  cancel_receive_flag = receive_flag;
  sem_command_execute = false;
  sem_connect = false;
  sem_command_cancel = false;
}

abbrev pub good_port : (ℕ → PortError) → List Reception → Port
good_port sends receptions = record {
  sem_waits = true;
  sem_posts = true;
  format_data = 0x43;
  sends = sends;
  receptions = receptions;
}

length-with_crc : (t : List ℕ) → length (with_crc t) ≡ length t + 2
unfolding with_crc
length-with_crc t = length-append t _

command_data-length : (tag : ℕ) (c : Command) → length (command_data tag c) ≡ length c.data_body + 8
unfolding command_data
command_data-length tag c = length-with_crc _ ∙ omega arith

-- Where the port is one of 1 to 255, the device connected and not in use, and the command fits its buffer: when the
-- first send goes through and the reader sends its ACK and then a positive reply with its sum, in the parts
-- that the code asks for, RS232C_8_ExecuteCommand sends the command once and no NAK, returns the fields and
-- the data of that reply without an error, and leaves the device free.
pub execute_command-good :
    (command_code parameter_code st1 st0 : ℕ) (data_bytes : List ℕ) (sends : ℕ → PortError)
    (port : ℕ) (receive_flag : Bool) (command : Command) (reply : Reply)
    → length data_bytes ≤ 1014
    → sends 0 ≡ port_ok
    → 1 ≤ port
    → port < max_port_no
    → length command.data_body ≤ 1016
    → execute_command
        (good_port sends (good_receptions command_code parameter_code st1 st0 data_bytes))
        port
        (ready receive_flag)
        command
        reply
      ≡ record {
        outcome =
            returned no_error
              (good_reply command_code parameter_code st1 st0 data_bytes reply.body);
        device = ready true;
        sent = command_data 0x43 command ∷ [];
        naks = 0;
      }
unfolding execute_command execute_taken is_connected transact send_command try_command sent_command
    await_ack ack_step answer_of answer_code answer_byte error_exchange after_ack await_reply
    after_reply end_accepted post
execute_command-good command_code parameter_code st1 st0 data_bytes sends port receive_flag command
      reply fits sent low high short =
    let legal : (ltb port 1 || ltb max_port_no port) ≡ false = ground arith in
    let room : ltb max_data_array_size (length (command_data 0x43 command)) ≡ false =
      ground (arith, command_data-length 0x43 command) in
    rw
      (
        legal,
        room,
        sent,
        receive_reply-accepted command_code parameter_code st1 st0 data_bytes fits,
        set_reply-good command_code parameter_code st1 st0 data_bytes fits,
      )
      refl
