-- ===== src/Reader/Transmit/Loop.antt =====
-- _TransmitControl, with RS232C_8_ICCardTransmit and RS232C_8_SAMTransmit: the loop over TransmitControl.
use emulation_lib.Prelude.{
  ℕ, zero, suc, ◌+◌, ◌-◌, ◌%◌, ◌^◌, Bool, true, false, ◌||◌, not, List, [], ◌++◌, take,
  if◌then◌else◌, ltb, leb,
}
use emulation_lib.Reader.{
  ReaderCode, no_error, parameter_error, device_not_connected, max_port_no, max_data_array_size,
}
use emulation_lib.Reader.Execute.{Reply, Port, is_connected}
use emulation_lib.Reader.Transmit.{
  Control, Exchange, Session, Transmission, TransmitEnd, completes, fails, filled, goes_on,
  iccard_transmit_flag, never_returns, overruns, transmit_overruns, reads_outside, reply_data,
  sam_transmit_flag, transmit_failed, transmit_first, transmit_hangs, transmit_next,
  transmit_out_of_fuel, transmitted,
}

-- The label _END of _TransmitControl.
unfoldable pub ended : TransmitEnd → Session → List ℕ → ℕ → Transmission
ended end s received current = record {
  end = end;
  session = record s { long_data = false };
  exchanges = [];
  received = received;
  size_of_data_received = current;
}

-- The copy of a reply's data: the bytes that are added, the size after it, or the end.
pub data Copy : Type 0 where
  fits : List ℕ → ℕ → Copy
  fills : List ℕ → Copy
  copies_outside : Copy

-- The sum of sizes is unsigned, with 32 bits.
unfoldable pub copy_reply : ℕ → ℕ → Reply → Copy
copy_reply limit current reply =
    if leb ((current + reply.size) % 2 ^ 32) limit
    then if ltb max_data_array_size reply.size
      then copies_outside
      else fits (reply_data reply) ((current + reply.size) % 2 ^ 32)
    else if ltb max_data_array_size (limit - current)
    then copies_outside
    else fills (take (limit - current) reply.body)

unfoldable pub with_exchanges : List Exchange → Transmission → Transmission
with_exchanges exchanges t = record t { exchanges = exchanges ++ t.exchanges }

-- What the loop of _TransmitControl does after a call of TransmitControl: it goes on with more bytes
-- received, or ends.
pub data AfterCall : Type 0 where
  next_turn : List ℕ → ℕ → AfterCall
  last_turn : TransmitEnd → List ℕ → ℕ → AfterCall

unfoldable pub turn_after_copy : List ℕ → ℕ → ℕ → Copy → AfterCall
turn_after_copy received limit current (fits bytes size) = next_turn (received ++ bytes) size
turn_after_copy received limit current (fills bytes) = last_turn filled (received ++ bytes) limit
turn_after_copy received limit current copies_outside = last_turn reads_outside received current

unfoldable pub turn_of : ℕ → List ℕ → ℕ → Reply → Control → AfterCall
turn_of limit received current reply goes_on =
    turn_after_copy received limit current (copy_reply limit current reply)
turn_of limit received current reply completes = last_turn transmitted received current
turn_of limit received current reply (fails e) = last_turn (transmit_failed e) received current
turn_of limit received current reply overruns = last_turn transmit_overruns received current
turn_of limit received current reply never_returns = last_turn transmit_hangs received current

-- The rest of the loop is the first argument.
unfoldable pub after_turn :
    (Session → List ℕ → ℕ → Transmission) → Session → AfterCall → Transmission
after_turn rest s (next_turn received current) = rest s received current
after_turn rest s (last_turn end received current) = ended end s received current

module _ (ports : ℕ → Port) (port flag limit : ℕ) where
  -- while( !Complete ), with the number of turns bounded by fuel.
  unfoldable pub transmit_loop : ℕ → Session → List ℕ → ℕ → Transmission
  transmit_loop zero s received current = ended transmit_out_of_fuel s received current
  transmit_loop (suc fuel) s received current =
      let run = transmit_next ports port flag s in
      with_exchanges run.exchanges (
        after_turn (transmit_loop fuel) run.session
          (turn_of limit received current run.session.reply run.control))

  -- _TransmitControl
  unfoldable pub transmit_all : ℕ → Bool → Session → List ℕ → Transmission
  transmit_all fuel allocates s message =
      let s' = record s { additional_error_code = no_error; long_data = true } in
      let run = transmit_first ports port flag allocates s' message in
      with_exchanges run.exchanges (
        after_turn (transmit_loop fuel) run.session
          (turn_of limit [] 0 run.session.reply run.control))

-- A call that is refused, or what _TransmitControl returns.
pub data CardCall : Type 0 where
  refused_call : ReaderCode → Session → CardCall
  card_call : Transmission → CardCall

module _ (ports : ℕ → Port) (port limit fuel : ℕ) (allocates : Bool) where
  unfoldable pub checked_transmit : ℕ → Session → List ℕ → CardCall
  checked_transmit flag s message =
      let s' = record s { additional_error_code = no_error } in
      if ltb port 1 || ltb max_port_no port
      then refused_call parameter_error s'
      else if not (is_connected s.device)
      then refused_call device_not_connected s'
      else card_call (transmit_all ports port flag limit fuel allocates s' message)

  unfoldable pub iccard_transmit : Session → List ℕ → CardCall
  iccard_transmit = checked_transmit iccard_transmit_flag

  unfoldable pub sam_transmit : Session → List ℕ → CardCall
  sam_transmit = checked_transmit sam_transmit_flag
