-- ===== src/Bdp/Server/Body.antt =====
-- The bytes of a good frame, one after the other, up to the handling of the whole.
use mathlib.Core.List.{append_assoc}
use emulation_lib.Prelude.{
  ℕ, ◌<◌, true, false, List, [], ◌∷◌, ◌++◌, ◌≡◌, arith, refl, sym, ap, ◌∙◌, subst, length,
  length-append,
}
use emulation_lib.Err.{Err, pass}
use emulation_lib.Bdp.Types.{FrameState, frame, Bus, Link}
use emulation_lib.Bdp.Rx.{rx_byte, rx_switch, rx_frame, count_byte, store_byte}
use emulation_lib.Bdp.Rx.Receiving.{IsFrame, Receiving, IsReceived, store_byte-Receiving}
use emulation_lib.Bdp.Rx.Steps.{rx_frame_more, rx_frame_last}
use emulation_lib.Bdp.Server.{Env, RxState, deliver, rx_step, rx_loop}

-- The result is that of handling the frame, on the bus that has it in its buffer.
pub record IsDelivered (env : Env) (link : Link) (bus_num : ℕ) (st : RxState) (bytes : List ℕ)
    (result : RxState) : Type 0 where
  pub bus : Bus
  pub rest : List ℕ
  pub received : IsReceived bytes rest (bus, pass)
  pub handled : result ≡ deliver env link bus_num (record st { bus = bus; rc = pass })

pub switch_at :
    (link : Link) (bus : Bus) (rc : Err) (byte : ℕ) (state : FrameState)
    → bus.frame_rx_state ≡ state
    → rx_byte link bus rc byte ≡ rx_switch state link (count_byte bus) rc byte
unfolding rx_byte
switch_at link bus rc byte state e = ap (λ s. rx_switch s link (count_byte bus) rc byte) e

counted-Receiving :
    (link : Link) (got rest : List ℕ) (bus : Bus)
    → Receiving link got rest bus
    → Receiving link got rest (count_byte bus)
counted-Receiving link got rest bus r = record {
  state = r.state;
  contents = r.contents;
  room = r.room;
  index = r.index;
  sum = r.sum;
  not_done = r.not_done;
}

module _ (env : Env) (link : Link) (bus_num : ℕ) where
  pub step_partial :
      (st : RxState) (byte : ℕ) (result : Bus × Err)
      → rx_byte link st.bus st.rc byte ≡ result
      → result.0.frame_done ≡ false
      → rx_step env link bus_num st byte ≡ record st { bus = result.0; rc = result.1 }
  unfolding rx_step
  step_partial st byte result e h = rw (e, h) refl

  step_done :
      (st : RxState) (byte : ℕ) (result : Bus × Err)
      → rx_byte link st.bus st.rc byte ≡ result
      → result.0.frame_done ≡ true
      → rx_step env link bus_num st byte
        ≡ deliver env link bus_num (record st { bus = result.0; rc = result.1 })
  unfolding rx_step
  step_done st byte result e h = rw (e, h) refl

  -- The last byte of a frame.
  last_byte :
      (st : RxState) (got rest : List ℕ) (y b : ℕ)
      → IsFrame link.crc_table (got ++ (b ∷ []))
      → Receiving link got (y ∷ rest) st.bus
      → IsDelivered env link bus_num st (got ++ (b ∷ [])) (rx_loop env link bus_num st (b ∷ []))
  unfolding rx_loop rx_switch
  last_byte st got rest y b good r = record {
    bus = result.0;
    rest = rest;
    received = record {
      returns = refl;
      done = whole.done;
      waits = whole.waits;
      contents = whole.contents;
    };
    handled =
        step_done st b result (switch_at link st.bus st.rc b frame r.state) whole.done
        ∙ ap (λ e. deliver env link bus_num (record st { bus = result.0; rc = e })) whole.returns;
  }
    where
      result : Bus × Err
      result = rx_frame link (count_byte st.bus) st.rc b

      whole : IsReceived (got ++ (b ∷ [])) rest result
      whole =
          rx_frame_last link got rest y b (count_byte st.bus) st.rc good
            (counted-Receiving link got (y ∷ rest) st.bus r)

  -- Any other byte of a frame.
  next_byte :
      (st : RxState) (got rest more : List ℕ) (y b : ℕ)
      → IsFrame link.crc_table ((got ++ (b ∷ [])) ++ more)
      → 0 < length more
      → Receiving link got (y ∷ rest) st.bus
      → rx_step env link bus_num st b ≡ record st { bus = store_byte link (count_byte st.bus) b }
  unfolding rx_switch
  next_byte st got rest more y b good h r =
      step_partial st b (store_byte link (count_byte st.bus) b, st.rc)
        (switch_at link st.bus st.rc b frame r.state
          ∙ rx_frame_more link got rest more y b (count_byte st.bus) st.rc good counted h)
        (store_byte-Receiving link got rest y b (count_byte st.bus) counted).not_done
    where
      counted : Receiving link got (y ∷ rest) (count_byte st.bus)
      counted = counted-Receiving link got (y ∷ rest) st.bus r

  full_buffer :
      (got todo : List ℕ) (bus : Bus) (b : ℕ)
      → IsFrame link.crc_table (got ++ (b ∷ todo))
      → ¬ Receiving link got [] bus
  full_buffer got todo bus b good r = absurd (
      omega (
        arith,
        good.size,
        good.payload_fits,
        r.room,
        length-append got [],
        length-append got (b ∷ todo),
      ))

  abbrev stored : RxState → ℕ → RxState
  stored st b = record st { bus = store_byte link (count_byte st.bus) b }

  together : (got more : List ℕ) (b : ℕ) → (got ++ (b ∷ [])) ++ more ≡ got ++ (b ∷ more)
  together got more b = append_assoc got (b ∷ []) more

  good_together :
      (got more : List ℕ) (b : ℕ)
      → IsFrame link.crc_table (got ++ (b ∷ more))
      → IsFrame link.crc_table ((got ++ (b ∷ [])) ++ more)
  good_together got more b = subst (IsFrame link.crc_table) (sym (together got more b))

  after_next :
      (todo : List ℕ) (b c : ℕ) (st : RxState) (got rest : List ℕ) (y : ℕ)
      → IsFrame link.crc_table (got ++ (b ∷ c ∷ todo))
      → Receiving link got (y ∷ rest) st.bus
      → IsDelivered env link bus_num
          (stored st b)
          ((got ++ (b ∷ [])) ++ (c ∷ todo))
          (rx_loop env link bus_num (stored st b) (c ∷ todo))
      → IsDelivered env link bus_num st
          (got ++ (b ∷ c ∷ todo))
          (rx_loop env link bus_num st (b ∷ c ∷ todo))
  unfolding rx_loop
  after_next todo b c st got rest y good r later =
      rw
        (next_byte st got rest (c ∷ todo) y b (good_together got (c ∷ todo) b good) (omega arith) r)
        record {
          bus = later.bus;
          rest = later.rest;
          received =
              subst (λ f. IsReceived f later.rest (later.bus, pass)) (together got (c ∷ todo) b)
                later.received;
          handled = later.handled;
        }

  pub receive_frame :
      (todo : List ℕ) (b : ℕ) (st : RxState) (got rest : List ℕ)
      → IsFrame link.crc_table (got ++ (b ∷ todo))
      → Receiving link got rest st.bus
      → IsDelivered env link bus_num st (got ++ (b ∷ todo)) (rx_loop env link bus_num st (b ∷ todo))
  receive_frame todo b st got [] good r = absurd (full_buffer got todo st.bus b good r)
  receive_frame [] b st got (y ∷ rest) good r = last_byte st got rest y b good r
  receive_frame (c ∷ todo) b st got (y ∷ rest) good r = after_next todo b c st got rest y good r (
      receive_frame todo c (stored st b) (got ++ (b ∷ [])) rest
        (good_together got (c ∷ todo) b good)
        (store_byte-Receiving link got rest y b (count_byte st.bus)
          (counted-Receiving link got (y ∷ rest) st.bus r)))
