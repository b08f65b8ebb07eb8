-- ===== src/Reader/Execute/Bounds.antt =====
-- How often RS232C_8_ExecuteCommand sends, and that its loops come to an end.
use emulation_lib.Prelude.{
  ℕ, zero, suc, ◌+◌, ◌-◌, ◌≤◌, Bool, true, false, ◌||◌, not, List, [], ◌∷◌, ◌≢◌, inl, inr, arith,
  length, length-replicate, ◌==◌, ltb, Bool-cases, if-both,
}
use emulation_lib.Reader.{
  PortError, ReaderCode, no_error, error_exchange, Reception, default_receive_retry, max_port_no,
  max_data_array_size,
}
use emulation_lib.Reader.Ack.{
  Answer, acknowledged, again, refused, noise, AckEnd, ack_waits, ack_failed, ack_received, AckRun,
  answer_of, sent_command, try_command, ack_step, await_ack, send_command, retry_after_answer,
}
use emulation_lib.Reader.Reply.{
  Verdict, waits, failed_with, skipped, cut_short, outside, whole, ReplyRun, reply_step, check_crc,
  reply_loop, receive_reply, retry_after, crc_retry_after, get_reply,
}
use emulation_lib.Reader.Execute.{
  Port, Device, Command, Reply, Execution, unavailable, returned, out_of_buffer, execute_command,
  execute_taken, transact, after_ack, await_reply, end_failed, post, is_connected, command_data,
}

sent_command-attempts :
    (e : ReaderCode) (rest : AckRun) (n : ℕ)
    → rest.attempts ≤ n
    → (sent_command e rest).attempts ≤ suc n
unfolding sent_command
sent_command-attempts no_error rest n h = omega arith
sent_command-attempts e rest n h = omega arith

try_command-attempts :
    (sends : ℕ → PortError) (retry : ℕ) (e : ReaderCode) (rest : AckRun)
    → rest.attempts ≤ 3 - retry
    → (try_command sends retry e rest).attempts ≤ 4 - retry
unfolding try_command
try_command-attempts sends retry e rest h =
    ground (arith, sent_command-attempts (error_exchange (sends retry)) rest (3 - retry) h)

ack_step-attempts :
    (sends : ℕ → PortError) (retry : ℕ) (left : List Reception) (a : Answer) (rest : AckRun)
    → rest.attempts ≤ 3 - retry_after_answer a retry
    → (ack_step sends retry left a rest).attempts ≤ 3 - retry
unfolding ack_step
ack_step-attempts sends retry left acknowledged rest h = omega arith
ack_step-attempts sends retry left (again e) rest h =
    omega (arith, try_command-attempts sends (retry + 1) e rest h)
ack_step-attempts sends retry left (refused e) rest h = omega arith
ack_step-attempts sends retry left noise rest h = h

await_ack-attempts :
    (sends : ℕ → PortError) (retry : ℕ) (receptions : List Reception)
    → (await_ack sends retry receptions).attempts ≤ 3 - retry
unfolding await_ack
await_ack-attempts sends retry [] = omega arith
await_ack-attempts sends retry (r ∷ rs) =
    ack_step-attempts sends retry rs (answer_of r) _
      (await_ack-attempts sends (retry_after_answer (answer_of r) retry) rs)

-- Both counters stand at 4 at most, and a NAK moves one of them.
reply_step-naks :
    (retry crc_retry : ℕ) (v : Verdict) (rest : ReplyRun)
    → retry ≤ 3
    → rest.naks ≤ 4 - retry_after v retry + (4 - crc_retry_after v crc_retry)
    → (reply_step crc_retry v rest).naks ≤ 4 - retry + (4 - crc_retry)
unfolding reply_step check_crc
reply_step-naks retry crc_retry waits rest le h = omega arith
reply_step-naks retry crc_retry (failed_with e) rest le h = omega arith
reply_step-naks retry crc_retry skipped rest le h = h
reply_step-naks retry crc_retry cut_short rest le h = omega arith
reply_step-naks retry crc_retry outside rest le h = omega arith
reply_step-naks retry crc_retry (whole buffer n) rest le h = ground arith

reply_loop-naks :
    (fuel retry crc_retry : ℕ) (receptions : List Reception)
    → (reply_loop fuel retry crc_retry receptions).naks ≤ 4 - retry + (4 - crc_retry)
unfolding reply_loop
reply_loop-naks zero retry crc_retry receptions = omega arith
reply_loop-naks (suc fuel) retry crc_retry receptions =
    let turn = get_reply receptions in
    let ih =
      reply_loop-naks fuel (retry_after turn.0 retry) (crc_retry_after turn.0 crc_retry) turn.1 in
    elim (Bool-cases (ltb default_receive_retry retry)) [
      | inl over ↦ rw over (omega arith)
      | inr more ↦ rw more (reply_step-naks retry crc_retry turn.0 _ (ground arith) ih)
    ]

pub receive_reply-naks : (receptions : List Reception) → (receive_reply receptions).naks ≤ 6
unfolding receive_reply
receive_reply-naks receptions = reply_loop-naks (length receptions + 1) 1 1 receptions

send_command-attempts :
    (sends : ℕ → PortError) (receptions : List Reception)
    → (send_command sends receptions).attempts ≤ 4
unfolding send_command
send_command-attempts sends receptions =
    try_command-attempts sends 0 _ _ (await_ack-attempts sends 0 receptions)

-- At most four commands and six NAKs.
abbrev pub SendsFew : Execution → Type 0
SendsFew x = (length x.sent ≤ 4) × (x.naks ≤ 6)

after_ack-SendsFew :
    (io : Port) (d : Device) (reply : Reply) (sent : List (List ℕ)) (end : AckEnd)
    → length sent ≤ 4
    → SendsFew (after_ack io d reply sent end)
unfolding after_ack await_reply
after_ack-SendsFew io d reply sent ack_waits h = (h, omega arith)
after_ack-SendsFew io d reply sent (ack_failed e) h = (h, omega arith)
after_ack-SendsFew io d reply sent (ack_received left) h = (h, receive_reply-naks left)

transact-SendsFew :
    (io : Port) (d : Device) (frame : List ℕ) (reply : Reply) → SendsFew (transact io d frame reply)
unfolding transact
transact-SendsFew io d frame reply = after_ack-SendsFew io d reply _ _ (
    omega (
      arith,
      length-replicate (send_command io.sends io.receptions).attempts frame,
      send_command-attempts io.sends io.receptions,
    ))

-- What holds of every failure without a send and of every exchange holds of RS232C_8_ExecuteCommand.
pub execute_command-cases :
    (P : Execution → Type 0) (io : Port) (port : ℕ) (d : Device) (command : Command) (reply : Reply)
    → ((code : ReaderCode) (d' : Device) (reply' : Reply)
        → code ≢ no_error
        → P (record { outcome = returned code reply'; device = d'; sent = []; naks = 0 }))
    → ((d' : Device) → P (record { outcome = out_of_buffer; device = d'; sent = []; naks = 0 }))
    → ((d' : Device) (frame : List ℕ)
        → P (transact io d' frame (record reply { reply_type = unavailable })))
    → P (execute_command io port d command reply)
unfolding execute_command execute_taken end_failed post
execute_command-cases P io port d command reply early beyond exchange =
    if-both P (ltb port 1 || ltb max_port_no port) _ _ (early _ _ _ (λ z. cc)) (
      if-both P (not (is_connected d)) _ _ (early _ _ _ (λ z. cc)) (
        if-both P (not io.sem_waits) _ _ (early _ _ _ (λ z. cc)) (
          if-both P d.cancel_flag _ _ (posted io.sem_posts _ _ _ (λ z. cc)) (
            if-both P (not ((io.format_data == 0x43) || (io.format_data == 0x63))) _ _
              (early _ _ _ (λ z. cc))
              (if-both P (ltb max_data_array_size (length (command_data io.format_data command))) _
                _ (beyond _) (exchange _ _))))))
  where
    posted :
        (b : Bool) (d' : Device) (code : ReaderCode) (reply' : Reply)
        → code ≢ no_error
        → P (record {
          outcome = (post b d' code reply').0;
          device = (post b d' code reply').1;
          sent = [];
          naks = 0;
        })
    posted true d' code reply' h = early _ _ _ h
    posted false d' code reply' h = early _ _ _ (λ z. cc)

-- One call of RS232C_8_ExecuteCommand hands the command to the port four times at most, and sends at most six
-- NAKs, whatever the reader answers.
pub execute_command-SendsFew :
    (io : Port) (port : ℕ) (d : Device) (command : Command) (reply : Reply)
    → SendsFew (execute_command io port d command reply)
execute_command-SendsFew io port d command reply =
    execute_command-cases SendsFew io port d command reply
      (λ code d' r h. (omega arith, omega arith)) (λ d'. (omega arith, omega arith))
      (λ d' frame. transact-SendsFew io d' frame _)
