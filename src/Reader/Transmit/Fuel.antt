-- ===== src/Reader/Transmit/Fuel.antt =====
-- The loop of _TransmitControl ends, where a reader that announces more data sends some.
use emulation_lib.Prelude.{
  ℕ, zero, suc, ◌+◌, ◌-◌, ◌*◌, ◌%◌, ◌^◌, ◌≤◌, ◌<◌, Bool, true, false, ◌||◌, List, [], ◌≡◌, ◌≢◌, sym,
  subst, inl, inr, arith, length, ◌==◌, leb, ltb, bit_or, Bool-cases, if-both, ==_iff,
  if◌then◌else◌,
}
use emulation_lib.Reader.{ReaderCode, no_error}
use emulation_lib.Reader.Execute.{Reply, Command, Device, Port, returned, execute_command}
use emulation_lib.Reader.Transmit.{
  max_transmit_size, Session, ControlRun, transmit_out_of_fuel, Transmission, transmit_command,
  all_handed_over, advance_index, execute_part, transmit_allocated, transmit_first, transmit_rest,
  transmit_next,
}
use emulation_lib.Reader.Transmit.Loop.{
  ended, Copy, copies_outside, copy_reply, with_exchanges, turn_after_copy, turn_of, after_turn,
  transmit_loop, transmit_all,
}
use emulation_lib.Reader.Transmit.Cases.{
  answered, went_on, judge_reply-no_error, execute_part-cases,
}
use emulation_lib.Reader.Transmit.Plan.{continued}

module _ (ports : ℕ → Port) (port flag limit : ℕ) where
  -- A reply that announces more data has data.
  abbrev pub SendsData : Type 0
  SendsData =
      (i : ℕ) (d : Device) (command : Command) (old reply : Reply)
      → (execute_command (ports i) port d command old).outcome ≡ returned no_error reply
      → reply.parameter_code ≡ bit_or 0x05 flag
      → 0 < reply.size

  -- How many turns the last reply allows at least.
  abbrev turns_of : ℕ → ℕ
  turns_of last = if bit_or 0x05 flag == last then 2 else 1

  -- An upper bound of the turns that are left.
  abbrev turns_left : Session → ℕ → ℕ
  turns_left s current =
      2 * s.data_size_to_send + (limit - current) + turns_of s.last_time_parameter_code

  abbrev Ends : Transmission → Type 0
  Ends t = t.end ≢ transmit_out_of_fuel

  module _ (fuel : ℕ) (received : List ℕ) (current : ℕ) (bounded : current ≤ limit)
      (small : limit < 2 ^ 31)
      (loop : (s : Session) (received' : List ℕ) (current' : ℕ)
        → current' ≤ limit
        → turns_left s current' ≤ fuel
        → Ends (transmit_loop ports port flag limit fuel s received' current')) where
    copied-Ends :
        (x : Session)
        → ((current' : ℕ)
            → current' ≡ current + x.reply.size
            → current' ≤ limit
            → turns_left x current' ≤ fuel)
        → Ends (
            after_turn
              (transmit_loop ports port flag limit fuel)
              x
              (turn_after_copy received limit current (copy_reply limit current x.reply)))
    unfolding copy_reply after_turn turn_after_copy ended
    copied-Ends x enough = elim (Bool-cases (leb ((current + x.reply.size) % 2 ^ 32) limit)) [
      | inl within ↦ elim (Bool-cases (ltb 1024 x.reply.size)) [
        | inl large ↦ rw (within, large) (λ z. cc)
        | inr few ↦
            let same : (current + x.reply.size) % 2 ^ 32 ≡ current + x.reply.size = ground arith in
            rw (within, few) (loop x _ _ (ground arith) (enough _ same (ground arith)))
      ]
      | inr over ↦ rw over (
          if-both
            (λ (c : Copy). Ends (
              after_turn (transmit_loop ports port flag limit fuel) x
                (turn_after_copy received limit current c)))
            (ltb 1024 (limit - current)) copies_outside _ (λ z. cc) (λ z. cc))
    ]

    execute_part-Ends :
        (s : Session) (command : Command) (update : Session → Session)
        → ((d : Device) (n : ℕ) (reply : Reply) (code : ReaderCode)
            → (execute_command (ports s.executions) port s.device command s.reply).outcome
              ≡ returned no_error reply
            → (current' : ℕ) → current' ≡ current + (update (answered s d n reply code)).reply.size
            → current' ≤ limit
            → turns_left (went_on (update (answered s d n reply code)) reply) current' ≤ fuel)
        → Ends (
            continued flag ports port limit fuel received current
              (execute_part ports port flag s command update))
    unfolding turn_of after_turn with_exchanges ended
    execute_part-Ends s command update enough =
        execute_part-cases
          (λ (run : ControlRun). Ends (continued flag ports port limit fuel received current run))
          ports port flag s command update (λ d n reply code e o h. λ z. cc) (λ d n o h. λ z. cc)
          (λ d n o h. λ z. cc)
          (λ d n reply code came ok.
            copied-Ends (went_on (update (answered s d n reply code)) reply) (
              enough d n reply code (
                subst
                  (λ (c : ReaderCode).
                    (execute_command (ports s.executions) port s.device command s.reply).outcome
                    ≡ returned c reply)
                  (judge_reply-no_error flag code reply ok) came)))

    transmit_rest-Ends :
        SendsData
        → (s : Session) → s.data_size_to_send ≡ 0
        → turns_left s current ≤ suc fuel
        → Ends (
            continued flag ports port limit fuel received current (transmit_rest ports port flag s))
    unfolding transmit_rest with_exchanges after_turn turn_of ended
    transmit_rest-Ends sends s e enough =
        elim (Bool-cases (bit_or 0x05 flag == s.last_time_parameter_code)) [
          | inl asks ↦ rw asks (
              execute_part-Ends s (transmit_command (bit_or 0x07 flag) []) (λ x. x)
                (λ d n reply code came current' sum within.
                  elim (Bool-cases (bit_or 0x05 flag == reply.parameter_code)) [
                    | inl again ↦
                        let more =
                          sends s.executions s.device _ s.reply reply came
                            (sym ((==_iff (bit_or 0x05 flag) reply.parameter_code).0 again)) in
                        ground (arith, asks, again, more)
                    | inr over ↦ ground (arith, asks, over)
                  ]))
          | inr over ↦ rw over (
              if-both
                (λ (run : ControlRun).
                  Ends (continued flag ports port limit fuel received current run))
                ((bit_or 0x04 flag == s.last_time_parameter_code)
                  || (bit_or 0x06 flag == s.last_time_parameter_code))
                _ _ (λ z. cc) (λ z. cc))
        ]

    transmit_next-Ends :
        SendsData
        → (s : Session) → turns_left s current ≤ suc fuel
        → Ends (
            continued flag ports port limit fuel received current (transmit_next ports port flag s))
    unfolding transmit_next all_handed_over advance_index
    transmit_next-Ends sends s enough = elim (Bool-cases (s.data_size_to_send == 0)) [
      | inl e ↦ rw e (transmit_rest-Ends sends s ((==_iff s.data_size_to_send 0).0 e) enough)
      | inr e ↦ elim (Bool-cases (leb s.data_size_to_send max_transmit_size)) [
        | inl small ↦
            rw (e, small)
              (execute_part-Ends s _ all_handed_over
                (λ d n reply code came current' sum within. ground arith))
        | inr large ↦
            rw (e, large)
              (execute_part-Ends s _ advance_index
                (λ d n reply code came current' sum within. ground arith))
      ]
    ]

  transmit_loop-Ends :
      SendsData
      → limit < 2 ^ 31
      → (fuel : ℕ) (s : Session) (received : List ℕ) (current : ℕ) → current ≤ limit
      → turns_left s current ≤ fuel
      → Ends (transmit_loop ports port flag limit fuel s received current)
  unfolding transmit_loop
  transmit_loop-Ends sends small zero s received current bounded enough = absurd (ground arith)
  transmit_loop-Ends sends small (suc fuel) s received current bounded enough =
      transmit_next-Ends fuel received current bounded small (transmit_loop-Ends sends small fuel)
        sends s enough

  -- The loop of _TransmitControl ends: for data of n bytes and a buffer of fewer than 2^31, 2 n turns and as many
  -- as the buffer has bytes, and two more, are enough, as long as each reply without an error that announces
  -- more data, with code 0x05 combined with the flag, has at least one byte.
  pub transmit_all-Ends :
      SendsData
      → limit < 2 ^ 31
      → (fuel : ℕ) (allocates : Bool) (s : Session) (message : List ℕ)
      → 2 * length message + limit + 2 ≤ fuel
      → (transmit_all ports port flag limit fuel allocates s message).end ≢ transmit_out_of_fuel
  unfolding transmit_all transmit_first transmit_allocated with_exchanges after_turn turn_of ended
      all_handed_over advance_index
  transmit_all-Ends sends small fuel false s message enough = λ z. cc
  transmit_all-Ends sends small fuel true s message enough =
      let s' = record s {
        additional_error_code = no_error;
        long_data = true;
        data_size_to_send = length message;
        index = message;
        storage = true;
      } in
      if-both (λ (run : ControlRun). Ends (continued flag ports port limit fuel [] 0 run))
        (leb (length message) max_transmit_size) _ _
        (execute_part-Ends fuel [] 0 (omega arith) small (transmit_loop-Ends sends small fuel) s' _
          all_handed_over (λ d n reply code came current' sum within. ground arith))
        (execute_part-Ends fuel [] 0 (omega arith) small (transmit_loop-Ends sends small fuel) s' _
          advance_index (λ d n reply code came current' sum within. ground arith))
