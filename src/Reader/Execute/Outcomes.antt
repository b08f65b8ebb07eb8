-- ===== src/Reader/Execute/Outcomes.antt =====
-- The loops of RS232C_8_ExecuteCommand come to an end, and what it returns is a reply with a right sum.
use emulation_lib.Prelude.{
  ℕ, ◌-◌, ◌≤◌, ◌<◌, Bool, true, false, List, ◌≡◌, ◌≢◌, refl, sym, subst, inl, inr, ◌⊎◌, arith,
  length, take, drop, length-append, length-drop, length-replicate,
}
use emulation_lib.Reader.{ReaderCode, no_error, Reception, ack_timeout}
use emulation_lib.Reader.Execute.Came.{Came-le}
use emulation_lib.Reader.Execute.Fields.{IsReplyOf, set_reply-cases}
use emulation_lib.Reader.Ack.{AckEnd, ack_waits, ack_failed, ack_received, await_ack, send_command}
use emulation_lib.Reader.Reply.{
  ReplyEnd, reply_waits, reply_failed, reply_outside, accepted, unfinished, receive_reply,
}
use emulation_lib.Reader.Execute.{
  Port, Device, Command, Reply, Outcome, Execution, returned, blocked, out_of_buffer, out_of_fuel,
  execute_command, transact, after_ack, await_reply, after_reply, end_failed, end_accepted, post,
  set_reply, unavailable,
}
use emulation_lib.Reader.Execute.Bounds.{execute_command-cases}
use emulation_lib.Reader.Execute.Sound.{
  IsRead, IsSound, IsSound-more, receive_reply-IsSound, IsFailure, try_command-IsFailure,
  await_ack-IsFailure,
}

-- The reply is read from bytes that were received, with a right sum. The list is Body before the call.
abbrev pub IsRight : List Reception → List ℕ → Outcome → Type 0
IsRight receptions old (returned no_error reply) =
    (buffer : List ℕ) × (n : ℕ) × IsRead receptions buffer n × IsReplyOf buffer n old reply
IsRight receptions old (returned e reply) = Unit {0}
IsRight receptions old blocked = Unit {0}
IsRight receptions old out_of_buffer = Unit {0}
IsRight receptions old out_of_fuel = ⊥

IsRight-failed :
    (receptions : List Reception) (old : List ℕ) (e : ReaderCode) (reply : Reply)
    → e ≢ no_error
    → IsRight receptions old (returned e reply)
IsRight-failed receptions old no_error reply h = absurd (h refl)
IsRight-failed receptions old e reply h = tt

post-IsRight :
    (receptions : List Reception) (old : List ℕ) (b : Bool) (d : Device) (e : ReaderCode)
    (reply : Reply)
    → IsRight receptions old (returned e reply)
    → IsRight receptions old (post b d e reply).0
unfolding post
post-IsRight receptions old true d e reply h = h
post-IsRight receptions old false d e reply h = tt

set_reply-IsRight :
    (receptions : List Reception) (buffer : List ℕ) (n : ℕ) (old : Reply)
    → IsRead receptions buffer n
    → IsRight receptions old.body (returned (set_reply buffer n old).0 (set_reply buffer n old).1)
set_reply-IsRight receptions buffer n old read =
    elim (set_reply-cases buffer n old (Came-le read.0 buffer n (read.2))) [
      | inl (reply, fields, e) ↦ subst Holds (sym e) (buffer, n, read, fields)
      | inr e ↦ subst Holds (sym e) tt
    ]
  where
    Holds : ReaderCode × Reply → Type 0
    Holds set = IsRight receptions old.body (returned set.0 set.1)

after_reply-IsRight :
    (receptions : List Reception) (io : Port) (d : Device) (reply : Reply) (end : ReplyEnd)
    → IsSound receptions end
    → IsRight receptions reply.body (after_reply io d reply end).0
unfolding after_reply end_failed end_accepted
after_reply-IsRight receptions io d reply reply_waits s = tt
after_reply-IsRight receptions io d reply (reply_failed e) s =
    post-IsRight receptions reply.body io.sem_posts _ e _
      (IsRight-failed receptions reply.body e _ s)
after_reply-IsRight receptions io d reply reply_outside s = tt
after_reply-IsRight receptions io d reply (accepted buffer n) s =
    post-IsRight receptions reply.body io.sem_posts _ _ _
      (set_reply-IsRight receptions buffer n reply s)
after_reply-IsRight receptions io d reply unfinished s = absurd s

after_ack-IsRight :
    (receptions : List Reception) (io : Port) (d : Device) (reply : Reply) (sent : List (List ℕ))
    (end : AckEnd)
    → IsFailure receptions end
    → IsRight receptions reply.body (after_ack io d reply sent end).outcome
unfolding after_ack await_reply end_failed
after_ack-IsRight receptions io d reply sent ack_waits h = tt
after_ack-IsRight receptions io d reply sent (ack_failed e) h =
    post-IsRight receptions reply.body io.sem_posts _ e _
      (IsRight-failed receptions reply.body e _ h)
after_ack-IsRight receptions io d reply sent (ack_received left) h =
    after_reply-IsRight receptions io _ reply (receive_reply left).end
      (IsSound-more left receptions _ h (receive_reply-IsSound left))

transact-IsRight :
    (io : Port) (d : Device) (frame : List ℕ) (reply : Reply)
    → IsRight io.receptions reply.body (transact io d frame reply).outcome
unfolding transact send_command
transact-IsRight io d frame reply = after_ack-IsRight io.receptions io d reply _ _ (
    try_command-IsFailure io.receptions io.sends 0 ack_timeout (await_ack io.sends 0 io.receptions)
      (λ z. cc) (await_ack-IsFailure io.sends 0 io.receptions))

-- RS232C_8_ExecuteCommand does not run for ever as long as receptions end. When it returns without an error, a
-- start byte, two bytes of length and a text were received one behind the other without an error, the text
-- either with as many bytes as the length says and two more, or with one more reception behind it. The last two
-- of the first n bytes are the sum of those before them, where n is the number of all bytes, but that of the last
-- reception alone where there was one more. The kind and the four codes of the reply are the bytes behind the
-- length, its size is n - 10 with 32 bits, and where n is more than 10 the n - 10 bytes behind the codes are
-- in Body, over what it held before; where n is 10 Body is all zeros, and where n is less it is as it was.
pub execute_command-IsRight :
    (io : Port) (port : ℕ) (d : Device) (command : Command) (reply : Reply)
    → IsRight io.receptions reply.body (execute_command io port d command reply).outcome
execute_command-IsRight io port d command reply =
    execute_command-cases (λ (x : Execution). IsRight io.receptions reply.body (x.outcome)) io port
      d command reply (λ code d' r h. IsRight-failed io.receptions reply.body code r h) (λ d'. tt)
      (λ d' frame. transact-IsRight io d' frame (record reply { reply_type = unavailable }))

-- Body does not become shorter than its 1024 bytes.
pub execute_command-body :
    (io : Port) (port : ℕ) (d : Device) (command : Command) (old reply : Reply)
    → 1024 ≤ length old.body
    → (execute_command io port d command old).outcome ≡ returned no_error reply
    → 1024 ≤ length reply.body
execute_command-body io port d command old reply h e =
    body_of
      (subst (IsRight io.receptions old.body) e (execute_command-IsRight io port d command old))
  where
    tri : (n : ℕ) → ((n < 10) ⊎ (n ≡ 10)) ⊎ (10 < n)
    tri n = ground arith

    body_of : IsRight io.receptions old.body (returned no_error reply) → 1024 ≤ length reply.body
    body_of (buffer, n, read, fields) = elim (tri n) [
      | inl (inl few) ↦ rw (fields.left few) h
      | inl (inr none_left) ↦
          rw (fields.emptied none_left) (omega (arith, length-replicate {A = ℕ} 1024 0))
      | inr some_data ↦
          let bytes = take (n - 10) (drop 8 buffer) in
          rw (fields.filled some_data) (
            omega (
              arith,
              length-append bytes (drop (length bytes) old.body),
              length-drop (length bytes) old.body,
            ))
    ]
