-- ===== src/Reader/Connect/Calls.antt =====
-- Runs of connects, disconnects, cancels and commands on one port.
use emulation_lib.Prelude.{
  ℕ, ◌≡◌, refl, ap, Bool, true, false, ◌||◌, not, List, length, ◌==◌, ltb, if-both, if-else,
}
use emulation_lib.Reader.{ReaderCode, max_data_array_size, max_port_no}
use emulation_lib.Reader.Ack.{AckEnd, ack_waits, ack_failed, ack_received, send_command}
use emulation_lib.Reader.Reply.{
  ReplyEnd, reply_waits, reply_failed, reply_outside, accepted, unfinished, receive_reply,
}
use emulation_lib.Reader.Execute.{
  Port, Device, Command, Reply, Outcome, Execution, returned, execute_command, execute_taken,
  transact, after_ack, await_reply, after_reply, end_failed, end_accepted, post, is_connected,
  command_data,
}
use emulation_lib.Reader.Connect.{
  ConnectCalls, CancelCalls, connect_device, disconnect_device, cancel_command,
}
use emulation_lib.Reader.Connect.Free.{
  IsFree, Posts, CancelPosts, connect_device-IsFree, disconnect_device-IsFree,
  cancel_command-IsFree,
}

-- The call came back with a code.
abbrev pub IsReturned : Outcome → Type 0
IsReturned (returned code reply) = Unit {0}
IsReturned _ = ⊥

abbrev EndsFree : Outcome × Device → Type 0
EndsFree r = IsReturned r.0 → IsFree r.1

post-EndsFree :
    (b : Bool) (d : Device) (code : ReaderCode) (reply : Reply)
    → b ≡ true
    → d.sem_connect ≡ false
    → d.sem_command_cancel ≡ false
    → d.cancel_flag ≡ false
    → EndsFree (post b d code reply)
unfolding post
post-EndsFree true d code reply p a c f z = (refl, a, c, f)
post-EndsFree false d code reply p a c f z = cc

after_reply-EndsFree :
    (io : Port) (d : Device) (reply : Reply) (end : ReplyEnd)
    → io.sem_posts ≡ true
    → d.sem_connect ≡ false
    → d.sem_command_cancel ≡ false
    → d.cancel_flag ≡ false
    → EndsFree (after_reply io d reply end)
unfolding after_reply end_failed end_accepted
after_reply-EndsFree io d reply reply_waits p a c f z = absurd z
after_reply-EndsFree io d reply (reply_failed e) p a c f z =
    post-EndsFree io.sem_posts _ _ _ p a c f z
after_reply-EndsFree io d reply reply_outside p a c f z = absurd z
after_reply-EndsFree io d reply (accepted buffer n) p a c f z =
    post-EndsFree io.sem_posts _ _ _ p a c f z
after_reply-EndsFree io d reply unfinished p a c f z = absurd z

abbrev ExecutesFree : Execution → Type 0
ExecutesFree x = IsReturned x.outcome → IsFree x.device

after_ack-ExecutesFree :
    (io : Port) (d : Device) (reply : Reply) (sent : List (List ℕ)) (end : AckEnd)
    → io.sem_posts ≡ true
    → d.sem_connect ≡ false
    → d.sem_command_cancel ≡ false
    → d.cancel_flag ≡ false
    → ExecutesFree (after_ack io d reply sent end)
unfolding after_ack await_reply end_failed
after_ack-ExecutesFree io d reply sent ack_waits p a c f z = absurd z
after_ack-ExecutesFree io d reply sent (ack_failed e) p a c f z =
    post-EndsFree io.sem_posts _ _ _ p a c f z
after_ack-ExecutesFree io d reply sent (ack_received left) p a c f z =
    after_reply-EndsFree io _ reply (receive_reply left).end p a c f z

-- The tag of commands is `C` or `c`, and the post goes through.
abbrev pub PortPosts : Port → Type 0
PortPosts io =
    (((io.format_data == 0x43) || (io.format_data == 0x63)) ≡ true) × (io.sem_posts ≡ true)

execute_command-IsFree :
    (io : Port) (port : ℕ) (d : Device) (command : Command) (reply : Reply)
    → PortPosts io
    → IsFree d
    → ExecutesFree (execute_command io port d command reply)
unfolding execute_command execute_taken transact end_failed
execute_command-IsFree io port d command reply (t, p) f =
    if-both ExecutesFree (ltb port 1 || ltb max_port_no port) _ _ (λ z. f)
      (if-both ExecutesFree (not (is_connected d)) _ _ (λ z. f)
        (if-both ExecutesFree (not io.sem_waits) _ _ (λ z. f)
          (if-both ExecutesFree d.cancel_flag _ _
            (λ z. post-EndsFree io.sem_posts _ _ _ p f.1 f.2 f.3 z)
            (if-else ExecutesFree (not ((io.format_data == 0x43) || (io.format_data == 0x63))) _ _
              (ap not t)
              (if-both ExecutesFree
                (ltb max_data_array_size (length (command_data io.format_data command))) _ _
                (λ z. absurd z)
                (after_ack-ExecutesFree io _ _ _ (send_command io.sends io.receptions).end p f.1 f.2
                  f.3))))))

-- The functions that change a device, with their arguments and what their calls give.
pub data Call : Type 0 where
  connect : ConnectCalls → ℕ → ℕ → Call
  disconnect : ConnectCalls → ℕ → Call
  cancel : CancelCalls → ℕ → Call
  execute : Port → ℕ → Command → Reply → Call

abbrev pub device_after : Call → Device → Device
device_after (connect calls port baudrate) d = (connect_device calls port baudrate d).1
device_after (disconnect calls port) d = (disconnect_device calls port d).1
device_after (cancel calls port) d = (cancel_command calls port d).1
device_after (execute io port command reply) d = (execute_command io port d command reply).device

-- The posts go through, and the call returns.
abbrev pub Works : Call → Device → Type 0
Works (connect calls port baudrate) d = Posts calls
Works (disconnect calls port) d = Posts calls
Works (cancel calls port) d = CancelPosts calls
Works (execute io port command reply) d =
    PortPosts io × IsReturned (execute_command io port d command reply).outcome

-- The devices that such calls lead to, one after the other, from the start of the program.
pub data Used : Device → Type 0 where
  fresh :
      (receive_flag : Bool)
      → Used (record {
        connect_flag = false;
        cancel_flag = false;
        cancel_receive_flag = receive_flag;
        sem_command_execute = false;
        sem_connect = false;
        sem_command_cancel = false;
      })
  after : {d : Device} → (call : Call) → Used d → Works call d → Used (device_after call d)

device_after-IsFree :
    (call : Call) (d : Device) → Works call d → IsFree d → IsFree (device_after call d)
device_after-IsFree (connect calls port baudrate) d w f =
    connect_device-IsFree calls port baudrate d w f
device_after-IsFree (disconnect calls port) d w f = disconnect_device-IsFree calls port d w f
device_after-IsFree (cancel calls port) d w f = cancel_command-IsFree calls port d w f
device_after-IsFree (execute io port command reply) d w f =
    execute_command-IsFree io port d command reply w.0 f w.1

-- After any calls of connect, disconnect, cancel and execute, one after the other, whose posts and mutex
-- calls go through, whose commands have a tag that is known, and which all return, no semaphore of the
-- port is taken and no cancel is under way, whatever the port and the reader gave them.
pub Used-IsFree : (d : Device) → Used d → IsFree d
Used-IsFree d (fresh receive_flag) = (refl, refl, refl, refl)
Used-IsFree d (after {d = b} call u w) = device_after-IsFree call b w (Used-IsFree b u)
