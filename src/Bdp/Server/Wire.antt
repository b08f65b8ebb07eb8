-- ===== src/Bdp/Server/Wire.antt =====
-- From the bytes on the bus to the server: a frame with its preamble is handed over whole.
use mathlib.Core.List.{append_assoc}
use emulation_lib.Prelude.{
  ℕ, zero, suc, ◌+◌, ◌<◌, Bool, List, [], ◌∷◌, ◌++◌, ◌≡◌, arith, refl, ap, ◌∙◌, subst, length,
  get_or-replicate, replicate,
}
use emulation_lib.Bdp.Types.{
  FrameState, idle, preamble, sof, Bus, Link, server_link, frame_size, bdp_frame_preamble_size,
  bdp_frame_sof,
}
use emulation_lib.Bdp.Rx.{rx_byte, rx_switch, rx_idle, rx_preamble, rx_sof, count_byte}
use emulation_lib.Bdp.Rx.Receiving.{IsFrame, Receiving}
use emulation_lib.Bdp.Rx.Start.{
  AtPreamble, rx_preamble_more, rx_preamble_last, rx_idle-AtPreamble, counted-AtPreamble,
  rx_sof-Receiving,
}
use emulation_lib.Bdp.Server.{Env, RxState, rx_loop}
use emulation_lib.Bdp.Server.Body.{IsDelivered, switch_at, step_partial, receive_frame}

module _ (env : Env) (table : List ℕ) (loopback : Bool) (bus_num : ℕ) where
  abbrev link : Link
  link = server_link table loopback

  -- So many bytes lead to that state.
  record Leads (st : RxState) (bytes : List ℕ) (state : FrameState) (k : ℕ) : Type 0 where
    bus : Bus
    at : AtPreamble k state bus
    goes :
        (more : List ℕ)
        → rx_loop env link bus_num st (bytes ++ more)
          ≡ rx_loop env link bus_num (record st { bus = bus }) more

  leads :
      (st : RxState) (byte k : ℕ) (state : FrameState) (after : Bus)
      → rx_byte link st.bus st.rc byte ≡ (after, st.rc)
      → AtPreamble k state after
      → Leads st (byte ∷ []) state k
  unfolding rx_loop
  leads st byte k state after e at = record {
    bus = after;
    at = at;
    goes = λ more.
        ap (λ s. rx_loop env link bus_num s more)
          (step_partial env link bus_num st byte (after, st.rc) e at.not_done);
  }

  join :
      (st : RxState) (xs ys : List ℕ) (state : FrameState) (j k : ℕ) (mid : FrameState)
      (first : Leads st xs mid j)
      → Leads (record st { bus = first.bus }) ys state k
      → Leads st (xs ++ ys) state k
  join st xs ys state j k mid first second = record {
    bus = second.bus;
    at = second.at;
    goes = λ more.
        ap (rx_loop env link bus_num st) (append_assoc xs ys more)
        ∙ first.goes (ys ++ more)
        ∙ second.goes more;
  }

  first_byte :
      (st : RxState)
      → st.bus.frame_rx_state ≡ idle
      → length st.bus.frame_rx ≡ frame_size
      → Leads st (0xAA ∷ []) preamble 1
  unfolding rx_switch
  first_byte st e h = leads st 0xAA 1 preamble _ (switch_at link st.bus st.rc 0xAA idle e) (
      rx_preamble_more link 0 (rx_idle (count_byte st.bus)) (omega arith)
        (rx_idle-AtPreamble (count_byte st.bus) h))

  next_byte :
      (st : RxState) (k : ℕ)
      → k < 6
      → AtPreamble k preamble st.bus
      → Leads st (0xAA ∷ []) preamble (k + 1)
  unfolding rx_switch
  next_byte st k h a =
      leads st 0xAA (k + 1) preamble _ (switch_at link st.bus st.rc 0xAA preamble a.state_is) (
        subst (λ (b : ℕ). AtPreamble (k + 1) preamble (rx_preamble link (count_byte st.bus) b))
          (get_or-replicate 7 0xAA k 0 (omega arith))
          (rx_preamble_more link k (count_byte st.bus) h (counted-AtPreamble k preamble st.bus a)))

  last_byte : (st : RxState) → AtPreamble 6 preamble st.bus → Leads st (0xAA ∷ []) sof 7
  unfolding rx_switch
  last_byte st a =
      leads st 0xAA 7 sof _ (switch_at link st.bus st.rc 0xAA preamble a.state_is)
        (rx_preamble_last link (count_byte st.bus) (counted-AtPreamble 6 preamble st.bus a))

  next_bytes :
      (n k : ℕ) (st : RxState)
      → k + n ≡ 6
      → AtPreamble k preamble st.bus
      → Leads st (replicate (suc n) 0xAA) sof 7
  next_bytes zero k st e a =
      last_byte st (subst (λ (j : ℕ). AtPreamble j preamble st.bus) (omega arith) a)
  next_bytes (suc n) k st e a =
      let first = next_byte st k (omega arith) a in
      join st (0xAA ∷ []) (replicate (suc n) 0xAA) sof (k + 1) 7 preamble first
        (next_bytes n (k + 1) (record st { bus = first.bus }) (omega arith) first.at)

  whole_preamble :
      (st : RxState)
      → st.bus.frame_rx_state ≡ idle
      → length st.bus.frame_rx ≡ frame_size
      → Leads st (replicate bdp_frame_preamble_size 0xAA) sof 7
  whole_preamble st e h =
      let first = first_byte st e h in
      join st (0xAA ∷ []) (replicate 6 0xAA) sof 1 7 preamble first
        (next_bytes 5 1 (record st { bus = first.bus }) refl first.at)

  after_sof :
      (st : RxState) (bytes : List ℕ)
      → AtPreamble 7 sof st.bus
      → IsFrame table bytes
      → IsDelivered env link bus_num st bytes (rx_loop env link bus_num st (bdp_frame_sof ∷ bytes))
  unfolding rx_loop rx_switch
  after_sof st [] a good = absurd (omega (arith, good.size))
  after_sof st (b ∷ todo) a good =
      rw
        (step_partial env link bus_num st bdp_frame_sof
          (rx_sof link (count_byte st.bus) bdp_frame_sof, st.rc)
          (switch_at link st.bus st.rc bdp_frame_sof sof a.state_is) started.not_done)
        record {
          bus = whole.bus;
          rest = whole.rest;
          received = whole.received;
          handled = whole.handled;
        }
    where
      started : Receiving link [] st.bus.frame_rx (rx_sof link (count_byte st.bus) bdp_frame_sof)
      started = rx_sof-Receiving link (count_byte st.bus) (counted-AtPreamble 7 sof st.bus a)

      st' : RxState
      st' = record st { bus = rx_sof link (count_byte st.bus) bdp_frame_sof }

      whole : IsDelivered env link bus_num st' (b ∷ todo) (rx_loop env link bus_num st' (b ∷ todo))
      whole = receive_frame env link bus_num todo b st' [] st.bus.frame_rx good started

-- A good frame behind its preamble and start byte, on an idle bus with a buffer of full size, is received
-- byte by byte and handed over whole: the loop ends in the state that `deliver` makes, with ERR_PASS, of
-- a bus that has the frame at the start of its buffer and is idle again.
pub rx_loop-IsDelivered :
    (env : Env) (table : List ℕ) (loopback : Bool) (bus_num : ℕ) (st : RxState) (bytes : List ℕ)
    → st.bus.frame_rx_state ≡ idle
    → length st.bus.frame_rx ≡ frame_size
    → IsFrame table bytes
    → IsDelivered env (server_link table loopback) bus_num st bytes (
        rx_loop env
          (server_link table loopback)
          bus_num
          st
          (replicate bdp_frame_preamble_size 0xAA ++ (bdp_frame_sof ∷ bytes)))
rx_loop-IsDelivered env table loopback bus_num st bytes e h good =
    let start = whole_preamble env table loopback bus_num st e h in
    let whole =
      after_sof env table loopback bus_num (record st { bus = start.bus }) bytes start.at good in
    record {
      bus = whole.bus;
      rest = whole.rest;
      received = whole.received;
      handled = start.goes (bdp_frame_sof ∷ bytes) ∙ whole.handled;
    }
