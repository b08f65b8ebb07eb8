-- ===== src/Reader/Transmit/Plan.antt =====
-- The commands of a transmission: how the data for the card are cut, and the codes of the pieces.
use emulation_lib.Prelude.{
  ℕ, ◌≤◌, ◌<◌, Bool, true, false, List, [], ◌∷◌, ◌++◌, map, ◌≡◌, refl, sym, subst, length, bit_or,
}
use emulation_lib.Reader.{ReaderCode}
use emulation_lib.Reader.Execute.{Reply, Command, Device, Port, returned}
use emulation_lib.Reader.Transmit.{
  Session, Exchange, ControlRun, TransmitEnd, transmitted, filled, reads_outside, Transmission,
  execute_part,
}
use emulation_lib.Reader.Transmit.Loop.{
  ended, Copy, fits, fills, copies_outside, copy_reply, with_exchanges, turn_after_copy, turn_of,
  after_turn, transmit_loop,
}
use emulation_lib.Reader.Transmit.Cases.{answered, went_on, execute_part-cases}

-- A command with data for the card.
abbrev pub card_command : ℕ → List ℕ → Command
card_command parameter bytes = record {
  command_code = 0x49;
  parameter_code = parameter;
  data_body = bytes;
}

module _ (flag : ℕ) where
  -- The commands after the first, for the data that are left. The Boolean says that all data are in them.
  pub data Plan : List ℕ → Bool → List Command → Type 0 where
    stops : {x : ℕ} {xs : List ℕ} → Plan (x ∷ xs) false []
    done : Plan [] true []
    -- The card is asked for more data.
    ask :
        {b : Bool} {cs : List Command}
        → Plan [] b cs
        → Plan [] b (card_command (bit_or 0x07 flag) [] ∷ cs)
    -- The next 300 bytes, where more than that are left.
    part :
        {whole : List ℕ} (piece rest : List ℕ) {b : Bool} {cs : List Command}
        → whole ≡ piece ++ rest
        → length piece ≡ 300
        → 0 < length rest
        → Plan rest b cs
        → Plan whole b (card_command (bit_or 0x05 flag) piece ∷ cs)
    -- The last data, at least one byte.
    last :
        {piece : List ℕ} {b : Bool} {cs : List Command}
        → 0 < length piece
        → length piece ≤ 300
        → Plan [] b cs
        → Plan piece b (card_command (bit_or 0x06 flag) piece ∷ cs)

  -- All commands: the first one has all data, or a part of them.
  pub data WholePlan : List ℕ → Bool → List Command → Type 0 where
    not_begun : {whole : List ℕ} → WholePlan whole false []
    single :
        {piece : List ℕ} {b : Bool} {cs : List Command}
        → length piece ≤ 300
        → Plan [] b cs
        → WholePlan piece b (card_command (bit_or 0x04 flag) piece ∷ cs)
    first_part :
        {whole : List ℕ} (piece rest : List ℕ) {b : Bool} {cs : List Command}
        → whole ≡ piece ++ rest
        → length piece ≡ 300
        → 0 < length rest
        → Plan rest b cs
        → WholePlan whole b (card_command (bit_or 0x05 flag) piece ∷ cs)

  abbrev pub commands_of : Transmission → List Command
  commands_of t = map (λ (e : Exchange). e.command) t.exchanges

  -- The commands of a run follow a plan, to its end where the run ends well.
  abbrev pub FollowsPlan : (List ℕ → Bool → List Command → Type 0) → List ℕ → Transmission → Type 0
  FollowsPlan plan unsent t =
      (b : Bool) × plan unsent b (commands_of t) × (t.end ≡ transmitted → b ≡ true)

  abbrev pub Follows : List ℕ → Transmission → Type 0
  Follows = FollowsPlan Plan

  pub Follows-no_more :
      (unsent : List ℕ) (end : TransmitEnd) (s : Session) (received : List ℕ) (current : ℕ)
      → (end ≡ transmitted → unsent ≡ [])
      → Follows unsent (ended end s received current)
  unfolding ended
  Follows-no_more [] end s received current h = (true, done, λ e. refl)
  Follows-no_more (x ∷ xs) end s received current h =
      (false, stops, λ e. absurd (cons_not_nil (h e)))
    where
      cons_not_nil : {y : ℕ} {ys : List ℕ} → (y ∷ ys) ≡ [] → ⊥
      cons_not_nil e = cc

  module _ (ports : ℕ → Port) (port limit fuel : ℕ) (received : List ℕ) (current : ℕ) where
    -- What follows on a call of TransmitControl.
    abbrev pub continued : ControlRun → Transmission
    continued run = with_exchanges run.exchanges (
        after_turn (transmit_loop ports port flag limit fuel) run.session
          (turn_of limit received current run.session.reply run.control))

    module _ (unsent : List ℕ) (s : Session)
        (rest : (received' : List ℕ) (current' : ℕ)
          → Follows unsent (transmit_loop ports port flag limit fuel s received' current')) where
      copied-Follows :
          (c : Copy)
          → Follows unsent (
              after_turn
                (transmit_loop ports port flag limit fuel)
                s
                (turn_after_copy received limit current c))
      unfolding turn_after_copy after_turn
      copied-Follows (fits bytes size) = rest (received ++ bytes) size
      copied-Follows (fills bytes) = Follows-no_more unsent filled s _ limit (λ e. absurd cc)
      copied-Follows copies_outside =
          Follows-no_more unsent reads_outside s _ current (λ e. absurd cc)

    module _ (plan : List ℕ → Bool → List Command → Type 0) (whole unsent : List ℕ) (s : Session)
        (command : Command) (update : Session → Session)
        (extend : (b : Bool) (cs : List Command) → Plan unsent b cs → plan whole b (command ∷ cs))
        (rest : (d : Device) (n : ℕ) (reply : Reply) (code : ReaderCode) (received' : List ℕ)
            (current' : ℕ)
          → Follows unsent (
              transmit_loop ports port flag limit fuel
                (went_on (update (answered s d n reply code)) reply)
                received'
                current')) where
      extended :
          (e : Exchange) (t : Transmission)
          → e.command ≡ command
          → Follows unsent t
          → FollowsPlan plan whole (with_exchanges (e ∷ []) t)
      unfolding with_exchanges
      extended e t same (b, follows, ends) = (
        b,
        subst (λ (c : Command). plan whole b (c ∷ commands_of t)) (sym same)
            (extend b (commands_of t) follows),
        ends,
      )

      -- A command with the first of the data that are left, and what follows on it.
      pub execute_part-FollowsPlan :
          FollowsPlan plan whole (continued (execute_part ports port flag s command update))
      unfolding turn_of after_turn
      execute_part-FollowsPlan =
          execute_part-cases (λ (run : ControlRun). FollowsPlan plan whole (continued run)) ports
            port flag s command update
            (λ d n reply code e o h.
              extended _ _ refl (Follows-no_more unsent _ _ received current (λ z. absurd cc)))
            (λ d n o h.
              extended _ _ refl (Follows-no_more unsent _ _ received current (λ z. absurd cc)))
            (λ d n o h.
              extended _ _ refl (Follows-no_more unsent _ _ received current (λ z. absurd cc)))
            (λ d n reply code came ok.
              let x = went_on (update (answered s d n reply code)) reply in
              let c = copy_reply limit current x.reply in
              extended (record { command = command; outcome = returned code reply })
                (after_turn (transmit_loop ports port flag limit fuel) x
                  (turn_after_copy received limit current c))
                refl (copied-Follows unsent x (rest d n reply code) c))
