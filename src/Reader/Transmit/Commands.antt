-- ===== src/Reader/Transmit/Commands.antt =====
-- The commands that a transmission executes follow the plan, and their data are those of the caller.
use emulation_lib.Prelude.{
  ℕ, zero, suc, ◌-◌, ◌≤◌, ◌<◌, Bool, true, false, ◌||◌, List, [], ◌∷◌, ◌++◌, ◌≡◌, refl, sym, ap,
  subst, inl, inr, arith, length, take, drop, ◌==◌, leb, bit_or, Bool-cases, if-both, ==_iff,
  take_all, take-drop, length-drop, length-take,
}
use emulation_lib.Reader.{no_error}
use emulation_lib.Reader.Execute.{Command, Port}
use emulation_lib.Reader.Transmit.{
  max_transmit_size, Session, ControlRun, transmitted, transmit_failed, transmit_out_of_fuel,
  unexpected, transmit_command, all_handed_over, advance_index, execute_part, transmit_allocated,
  transmit_first, transmit_rest, transmit_next,
}
use emulation_lib.Reader.Transmit.Loop.{
  ended, with_exchanges, turn_of, after_turn, transmit_loop, transmit_all,
}
use emulation_lib.Reader.Transmit.Cases.{answered, went_on}
use emulation_lib.Reader.Transmit.Plan.{
  card_command, Plan, ask, part, last, WholePlan, not_begun, single, first_part, FollowsPlan,
  Follows, Follows-no_more, continued, execute_part-FollowsPlan,
}

module _ (flag : ℕ) where
  module _ (ports : ℕ → Port) (port limit : ℕ) where
    -- The data that are left, as the commands see them.
    abbrev unsent_of : Session → List ℕ
    unsent_of s = take s.data_size_to_send s.index

    abbrev LoopFollows : ℕ → Type 0
    LoopFollows fuel =
        (s : Session) (received : List ℕ) (current : ℕ)
        → s.data_size_to_send ≤ length s.index
        → Follows flag (unsent_of s) (transmit_loop ports port flag limit fuel s received current)

    module _ (fuel : ℕ) (loop : LoopFollows fuel) (s : Session) (received : List ℕ)
        (current : ℕ) where
      transmit_rest-Follows :
          s.data_size_to_send ≡ 0
          → Follows flag [] (
              continued flag ports port limit fuel received current
                (transmit_rest ports port flag s))
      unfolding transmit_command transmit_rest with_exchanges after_turn turn_of
      transmit_rest-Follows e =
          if-both
            (λ (run : ControlRun).
              Follows flag [] (continued flag ports port limit fuel received current run))
            (bit_or 0x05 flag == s.last_time_parameter_code) _ _
            (execute_part-FollowsPlan flag ports port limit fuel received current (Plan flag) [] []
              s (transmit_command (bit_or 0x07 flag) []) (λ s'. s') (λ b cs p. ask p)
              (λ d n reply code received' current'.
                subst
                  (λ (xs : List ℕ). Follows flag xs (
                    transmit_loop ports port flag limit fuel
                      (went_on (answered s d n reply code) reply) received' current'))
                  (ap (λ (k : ℕ). take k s.index) e)
                  (loop (went_on (answered s d n reply code) reply) received' current'
                    (omega (arith, e)))))
            (if-both
              (λ (run : ControlRun).
                Follows flag [] (continued flag ports port limit fuel received current run))
              ((bit_or 0x04 flag == s.last_time_parameter_code)
                || (bit_or 0x06 flag == s.last_time_parameter_code))
              _ _ (Follows-no_more flag [] transmitted _ received current (λ z. refl))
              (Follows-no_more flag [] (transmit_failed unexpected) _ received current (λ z. refl)))

      -- A command with as many data as fit, and what follows on it.
      part-FollowsPlan :
          (plan : List ℕ → Bool → List Command → Type 0) (code : ℕ)
          → s.data_size_to_send ≤ length s.index
          → max_transmit_size < s.data_size_to_send
          → ((whole piece rest : List ℕ) (b : Bool) (cs : List Command)
              → whole ≡ piece ++ rest
              → length piece ≡ 300
              → 0 < length rest
              → Plan flag rest b cs
              → plan whole b (card_command code piece ∷ cs))
          → FollowsPlan flag plan (unsent_of s) (
              continued flag ports port limit fuel received current (
                execute_part ports port flag s
                  (transmit_command code (take max_transmit_size s.index))
                  advance_index))
      unfolding advance_index transmit_command
      part-FollowsPlan plan code enough large make =
          execute_part-FollowsPlan flag ports port limit fuel received current plan (unsent_of s)
            (take (s.data_size_to_send - max_transmit_size) (drop max_transmit_size s.index)) s
            (transmit_command code (take max_transmit_size s.index)) advance_index
            (λ b cs.
              make (unsent_of s) (take max_transmit_size s.index)
                (take (s.data_size_to_send - max_transmit_size) (drop max_transmit_size s.index)) b
                cs
                (take-drop max_transmit_size (s.data_size_to_send - max_transmit_size)
                  s.data_size_to_send s.index (omega arith))
                (length-take max_transmit_size s.index (omega arith))
                (omega (
                  arith,
                  length-drop max_transmit_size s.index,
                  length-take (s.data_size_to_send - max_transmit_size)
                      (drop max_transmit_size s.index)
                      (omega (arith, length-drop max_transmit_size s.index)),
                )))
            (λ d n reply c received' current'.
              loop (went_on (advance_index (answered s d n reply c)) reply) received' current'
                (omega (arith, length-drop max_transmit_size s.index)))

      -- A command with all data that are left, and what follows on it.
      all-FollowsPlan :
          (plan : List ℕ → Bool → List Command → Type 0) (code : ℕ)
          → s.data_size_to_send ≤ length s.index
          → s.data_size_to_send ≤ max_transmit_size
          → ((piece : List ℕ) (b : Bool) (cs : List Command)
              → length piece ≡ s.data_size_to_send
              → Plan flag [] b cs
              → plan piece b (card_command code piece ∷ cs))
          → FollowsPlan flag plan (unsent_of s) (
              continued flag ports port limit fuel received current (
                execute_part ports port flag s
                  (transmit_command code (unsent_of s))
                  all_handed_over))
      unfolding all_handed_over transmit_command
      all-FollowsPlan plan code enough small make =
          execute_part-FollowsPlan flag ports port limit fuel received current plan (unsent_of s) []
            s (transmit_command code (unsent_of s)) all_handed_over
            (λ b cs. make (unsent_of s) b cs (length-take s.data_size_to_send s.index enough))
            (λ d n reply c received' current'.
              loop (went_on (all_handed_over (answered s d n reply c)) reply) received' current'
                (omega arith))

      transmit_next-Follows :
          s.data_size_to_send ≤ length s.index
          → Follows flag (unsent_of s) (
              continued flag ports port limit fuel received current
                (transmit_next ports port flag s))
      unfolding transmit_next
      transmit_next-Follows enough = elim (Bool-cases (s.data_size_to_send == 0)) [
        | inl e ↦ rw e (
            subst
              (λ (xs : List ℕ). Follows flag xs (
                continued flag ports port limit fuel received current
                  (transmit_rest ports port flag s)))
              (ap (λ (k : ℕ). take k s.index) (sym ((==_iff s.data_size_to_send 0).0 e)))
              (transmit_rest-Follows ((==_iff s.data_size_to_send 0).0 e)))
        | inr e ↦ elim (Bool-cases (leb s.data_size_to_send max_transmit_size)) [
          | inl small ↦
              let small_left : s.data_size_to_send ≤ max_transmit_size = ground arith in
              rw (e, small)
                (all-FollowsPlan (Plan flag) (bit_or 0x06 flag) enough small_left (λ piece b cs h p.
                  let some_left : 0 < s.data_size_to_send = ground arith in
                  last (omega (arith, h, some_left)) (omega (arith, h, small_left)) p))
          | inr large ↦
              rw (e, large)
                (part-FollowsPlan (Plan flag) (bit_or 0x05 flag) enough (ground arith)
                  (λ whole piece rest b cs w h k p. part piece rest w h k p))
        ]
      ]

    transmit_loop-Follows : (fuel : ℕ) → LoopFollows fuel
    unfolding transmit_loop
    transmit_loop-Follows zero s received current enough =
        Follows-no_more flag (unsent_of s) transmit_out_of_fuel s received current (λ z. absurd cc)
    transmit_loop-Follows (suc fuel) s received current enough =
        transmit_next-Follows fuel (transmit_loop-Follows fuel) s received current enough

    -- The first command has code 0x04 and all the data where they are at most 300 bytes, or else code 0x05 and
    -- the first 300. After it a command has code 0x05 and the next 300 bytes where more than 300 are left, code
    -- 0x06 and all bytes that are left where these are between 1 and 300, and code 0x07 and no data where none
    -- are left; each code is combined with the flag. The commands break off only where the transmission does not end as `transmitted`.
    pub transmit_all-FollowsPlan :
        (fuel : ℕ) (allocates : Bool) (s : Session) (message : List ℕ)
        → FollowsPlan flag
            (WholePlan flag)
            message
            (transmit_all ports port flag limit fuel allocates s message)
    unfolding transmit_all transmit_first transmit_allocated with_exchanges after_turn turn_of ended
    transmit_all-FollowsPlan fuel false s message = (false, not_begun, λ z. absurd cc)
    transmit_all-FollowsPlan fuel true s message =
        let s' = record s {
          additional_error_code = no_error;
          long_data = true;
          data_size_to_send = length message;
          index = message;
          storage = true;
        } in
        subst
          (λ (xs : List ℕ).
            FollowsPlan flag (WholePlan flag) xs
              (continued flag ports port limit fuel [] 0 (transmit_allocated ports port flag s')))
          (take_all message)
          (elim (Bool-cases (leb (length message) max_transmit_size)) [
            | inl small ↦
                let fits_in_one : length message ≤ max_transmit_size = ground arith in
                rw small (
                  all-FollowsPlan fuel (transmit_loop-Follows fuel) s' [] 0 (WholePlan flag)
                    (bit_or 0x04 flag) (omega arith) fits_in_one
                    (λ piece b cs h p. single (omega (arith, h, fits_in_one)) p))
            | inr large ↦ rw large (
                part-FollowsPlan fuel (transmit_loop-Follows fuel) s' [] 0 (WholePlan flag)
                  (bit_or 0x05 flag) (omega arith) (ground arith)
                  (λ whole piece rest b cs w h k p. first_part piece rest w h k p))
          ])
