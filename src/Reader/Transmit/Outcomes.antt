-- ===== src/Reader/Transmit/Outcomes.antt =====
-- How a transmission ends: what the caller has received, and what becomes of the storage.
use emulation_lib.Prelude.{
  ℕ, zero, suc, ◌+◌, ◌-◌, ◌%◌, ◌^◌, ◌≤◌, ◌<◌, Bool, true, false, ◌||◌, List, [], ◌++◌, ◌≡◌, refl,
  sym, ◌∙◌, subst, inl, inr, arith, length, take, drop, ◌==◌, leb, ltb, bit_or, Bool-cases, if-both,
  length-append, length-take, take-drop,
}
use mathlib.Core.List.{append-nil}
use emulation_lib.Reader.{ReaderCode, no_error, max_data_array_size}
use emulation_lib.Reader.Execute.Outcomes.{execute_command-body}
use emulation_lib.Reader.Execute.{Reply, Command, Port, returned, execute_command}
use emulation_lib.Reader.Transmit.{
  max_transmit_size, Session, unexpected, failed_to_allocate, ControlRun, transmitted,
  transmit_failed, transmit_hangs, transmit_overruns, transmit_out_of_fuel, Transmission,
  reply_data, transmit_command, all_handed_over, advance_index, execute_part, transmit_allocated,
  transmit_first, transmit_rest, transmit_next, release,
}
use emulation_lib.Reader.Transmit.Loop.{
  ended, Copy, copy_reply, with_exchanges, turn_after_copy, turn_of, after_turn, transmit_loop,
  transmit_all,
}
use emulation_lib.Reader.Transmit.Cases.{
  answered, went_on, answer_data-judge_reply, judge_reply-no_error, execute_part-cases,
}
use emulation_lib.Reader.Transmit.Plan.{continued}
use emulation_lib.Reader.Transmit.Received.{answers_of, IsReceived, ended-IsReceived, Takes-more}

module _ (limit : ℕ) where
  module _ (flag : ℕ) (ports : ℕ → Port) (port fuel : ℕ) (received : List ℕ) (current : ℕ)
      (same : current ≡ length received) (bounded : current ≤ limit) (small : limit < 2 ^ 31)
      (loop : (s : Session) (received' : List ℕ) (current' : ℕ)
        → current' ≡ length received'
        → current' ≤ limit
        → s.storage ≡ true
        → max_data_array_size ≤ length s.reply.body
        → IsReceived limit received'
            (answers_of flag
              (transmit_loop ports port flag limit fuel s received' current').exchanges)
            (transmit_loop ports port flag limit fuel s received' current')) where
    abbrev Result : Transmission → Type 0
    Result t = IsReceived limit received (answers_of flag t.exchanges) t

    abbrev copy_result : Copy → Session → Transmission
    copy_result c x =
        after_turn (transmit_loop ports port flag limit fuel) x
          (turn_after_copy received limit current c)

    copy_result-IsReceived :
        (x : Session)
        → x.storage ≡ true
        → max_data_array_size ≤ length x.reply.body
        → IsReceived limit received
            (reply_data x.reply
              ++ answers_of flag (copy_result (copy_reply limit current x.reply) x).exchanges)
            (copy_result (copy_reply limit current x.reply) x)
    unfolding copy_reply after_turn turn_after_copy ended reply_data
    copy_result-IsReceived x held n =
        let array = x.reply.body in
        elim (Bool-cases (leb ((current + x.reply.size) % 2 ^ 32) limit)) [
          | inl within ↦ elim (Bool-cases (ltb 1024 x.reply.size)) [
            | inl large ↦ rw (within, large) (tt, inl refl)
            | inr few ↦
                let k = length-take x.reply.size array (ground (arith, n)) in
                let l = length-append received (reply_data x.reply) in
                rw (within, few)
                  (Takes-more limit received (reply_data x.reply) _
                    (transmit_loop ports port flag limit fuel x (received ++ reply_data x.reply)
                      ((current + x.reply.size) % 2 ^ 32))
                    (loop x (received ++ reply_data x.reply) ((current + x.reply.size) % 2 ^ 32)
                      (ground (arith, k, l)) (ground arith) held n))
          ]
          | inr over ↦ elim (Bool-cases (ltb 1024 (limit - current))) [
            | inl large ↦ rw (over, large) (tt, inl refl)
            | inr few ↦
                let bytes = take (limit - current) array in
                let k = length-take (limit - current) array (ground (arith, n)) in
                let l = length-append received bytes in
                let rest = take (x.reply.size - (limit - current)) (drop (limit - current) array) in
                rw (over, few)
                  (
                    held,
                    inr (
                      bytes,
                      rest,
                      refl,
                      append-nil (reply_data x.reply)
                          ∙ take-drop (limit - current) (x.reply.size - (limit - current))
                              x.reply.size array (ground arith),
                      ground (arith, k, l),
                      omega arith,
                      inr (refl, refl),
                    ),
                  )
          ]
        ]

    execute_part-Result :
        (s : Session) (command : Command) (update : Session → Session)
        → s.storage ≡ true
        → max_data_array_size ≤ length s.reply.body
        → ((x : Session) → ((update x).reply ≡ x.reply) × ((update x).storage ≡ x.storage))
        → Result (
            continued flag ports port limit fuel received current
              (execute_part ports port flag s command update))
    unfolding turn_of after_turn with_exchanges ended release reply_data
    execute_part-Result s command update held array keeps =
        execute_part-cases
          (λ (run : ControlRun). Result (continued flag ports port limit fuel received current run))
          ports port flag s command update
          (λ d n reply code e o h. rw h (
            ended-IsReceived limit (transmit_failed e) (release (answered s d n reply code))
              received current same bounded refl))
          (λ d n o h. rw h (
            ended-IsReceived limit transmit_hangs (answered s d n s.reply s.additional_error_code)
              received current same bounded tt))
          (λ d n o h. rw h (
            ended-IsReceived limit transmit_overruns
              (answered s d n s.reply s.additional_error_code) received current same bounded tt))
          (λ d n reply code came ok.
            let kept = keeps (answered s d n reply code) in
            let x = went_on (update (answered s d n reply code)) reply in
            let t = copy_result (copy_reply limit current x.reply) x in
            rw (answer_data-judge_reply flag code reply, ok)
              (subst
                (λ (r : Reply).
                  IsReceived limit received (reply_data r ++ answers_of flag t.exchanges) t)
                kept.0
                (copy_result-IsReceived x (kept.1 ∙ held) (
                  subst (λ (r : Reply). max_data_array_size ≤ length r.body) (sym (kept.0))
                    (execute_command-body (ports s.executions) port s.device command s.reply reply
                      array
                      (subst
                        (λ (c : ReaderCode).
                          (execute_command (ports s.executions) port s.device command
                            s.reply).outcome
                          ≡ returned c reply)
                        (judge_reply-no_error flag code reply ok) came))))))

    abbrev Next : ControlRun → Type 0
    Next run = Result (continued flag ports port limit fuel received current run)

    transmit_rest-Result :
        (s : Session)
        → s.storage ≡ true
        → max_data_array_size ≤ length s.reply.body
        → Next (transmit_rest ports port flag s)
    unfolding transmit_rest with_exchanges after_turn turn_of ended release
    transmit_rest-Result s held array =
        if-both Next (bit_or 0x05 flag == s.last_time_parameter_code) _ _
          (execute_part-Result s (transmit_command (bit_or 0x07 flag) []) (λ x. x) held array
            (λ x. (refl, refl)))
          (if-both Next
            ((bit_or 0x04 flag == s.last_time_parameter_code)
              || (bit_or 0x06 flag == s.last_time_parameter_code))
            _ _
            (ended-IsReceived limit transmitted
              (record s { storage = false; last_time_parameter_code = s.reply.parameter_code })
              received current same bounded refl)
            (ended-IsReceived limit (transmit_failed unexpected) (release s) received current same
              bounded refl))

    transmit_next-Result :
        (s : Session)
        → s.storage ≡ true
        → max_data_array_size ≤ length s.reply.body
        → Next (transmit_next ports port flag s)
    unfolding transmit_next all_handed_over advance_index
    transmit_next-Result s held array =
        if-both Next (s.data_size_to_send == 0) _ _ (transmit_rest-Result s held array) (
          if-both Next (leb s.data_size_to_send max_transmit_size) _ _
            (execute_part-Result s _ all_handed_over held array (λ x. (refl, refl)))
            (execute_part-Result s _ advance_index held array (λ x. (refl, refl))))

    transmit_allocated-Result :
        (s : Session)
        → s.storage ≡ true
        → max_data_array_size ≤ length s.reply.body
        → Next (transmit_allocated ports port flag s)
    unfolding transmit_allocated all_handed_over advance_index
    transmit_allocated-Result s held array =
        if-both Next (leb s.data_size_to_send max_transmit_size) _ _
          (execute_part-Result s _ all_handed_over held array (λ x. (refl, refl)))
          (execute_part-Result s _ advance_index held array (λ x. (refl, refl)))

  module _ (flag : ℕ) (ports : ℕ → Port) (port : ℕ) (small : limit < 2 ^ 31) where
    transmit_loop-IsReceived :
        (fuel : ℕ) (s : Session) (received : List ℕ) (current : ℕ)
        → current ≡ length received
        → current ≤ limit
        → s.storage ≡ true
        → max_data_array_size ≤ length s.reply.body
        → IsReceived limit received
            (answers_of flag
              (transmit_loop ports port flag limit fuel s received current).exchanges)
            (transmit_loop ports port flag limit fuel s received current)
    unfolding transmit_loop ended
    transmit_loop-IsReceived zero s received current same bounded held array =
        ended-IsReceived limit transmit_out_of_fuel s received current same bounded tt
    transmit_loop-IsReceived (suc fuel) s received current same bounded held array =
        transmit_next-Result flag ports port fuel received current same bounded small
          (transmit_loop-IsReceived fuel) s held array

    -- For a buffer of fewer than 2^31 bytes, and a REPLY of the caller whose Body has its 1024 bytes: the storage
    -- for the data is released when the transmission ends as `transmitted` or with an error, and is still
    -- allocated when it ends as `filled`. Unless bytes outside of Body are read, the bytes that are received are
    -- the first ones of Body after each command that got a positive reply without the code of an abort request,
    -- as many as the reply's size, in order, also where that reply did not fill them; their number is the size
    -- that is set, and the buffer is never exceeded; only when it ends as `filled` some are left over, and
    -- then the buffer is full.
    pub transmit_all-IsReceived :
        (fuel : ℕ) (allocates : Bool) (s : Session) (message : List ℕ)
        → max_data_array_size ≤ length s.reply.body
        → IsReceived limit []
            (answers_of flag
              (transmit_all ports port flag limit fuel allocates s message).exchanges)
            (transmit_all ports port flag limit fuel allocates s message)
    unfolding transmit_all transmit_first with_exchanges after_turn turn_of ended release
    transmit_all-IsReceived fuel false s message array =
        ended-IsReceived limit (transmit_failed failed_to_allocate)
          (release (record s {
            additional_error_code = no_error;
            long_data = true;
            data_size_to_send = length message;
          }))
          [] 0 refl (omega arith) refl
    transmit_all-IsReceived fuel true s message array =
        transmit_allocated-Result flag ports port fuel [] 0 refl (omega arith) small
          (transmit_loop-IsReceived fuel)
          (record s {
            additional_error_code = no_error;
            long_data = true;
            data_size_to_send = length message;
            index = message;
            storage = true;
          })
          refl array
