-- ===== src/Examples/Wires.antt =====
-- A request on its way to a dock point, and its frame on the wire.
use emulation_lib.Prelude.{
  ℕ, false, some, List, ◌∷◌, ◌++◌, ◌≡◌, refl, arith, replicate, length-replicate,
}
use emulation_lib.Err.{pass, busy}
use emulation_lib.Crc.Crc16.{crc16_init}
use emulation_lib.Bdp.Types.{bdp_frame_preamble_size, bdp_frame_sof, frame_size}
use emulation_lib.Bdp.Rx.{rx_byte}
use emulation_lib.Bdp.Rx.Safety.{IsSafe, rx_byte-IsSafe}
use emulation_lib.Bdp.Rx.Receiving.{IsFrame}
use emulation_lib.Bdp.Server.{RxState, dispatch, rx_loop}
use emulation_lib.Bdp.Server.Effect.{Effect, dispatch-Effect}
use emulation_lib.Bdp.Server.Body.{IsDelivered}
use emulation_lib.Bdp.Server.Wire.{rx_loop-IsDelivered}
use emulation_lib.Bdp.Arp.{svs_bdp_virtual_to_physical}
use emulation_lib.Bdp.Tx.{built_frame, svs_bdp_tx}
use emulation_lib.Bdp.Tx.Built.{built-IsFrame}
use emulation_lib.Bdp.Tx.Queued.{IsQueued, svs_bdp_tx-IsQueued}
use emulation_lib.Examples.Data.{
  link, dock, request, request_payload, sender, full_sender, quiet_bus, receiver, outside,
}

quiet_bus-IsSafe : IsSafe quiet_bus
quiet_bus-IsSafe = record {
  buffer = length-replicate {A = ℕ} frame_size 0;
  in_frame = λ e. cc;
  bounded = λ e h. cc;
  in_preamble = λ e. cc;
  preamble_start = λ e. cc;
  sof_start = λ e. cc;
}

rx_byte-IsSafe_example : IsSafe (rx_byte link quiet_bus pass 0xAA).0
rx_byte-IsSafe_example = rx_byte-IsSafe link quiet_bus pass 0xAA quiet_bus-IsSafe

dock_address : svs_bdp_virtual_to_physical link.addr_broadcast sender.table 0 ≡ (pass, some dock)
unfolding svs_bdp_virtual_to_physical
dock_address = refl

svs_bdp_tx-IsQueued_example :
    IsQueued link sender 5 1000 request dock request_payload
      (svs_bdp_tx link sender 5 1000 (some request) request_payload)
svs_bdp_tx-IsQueued_example =
    svs_bdp_tx-IsQueued link sender 5 1000 request dock request_payload (omega arith) dock_address
      refl (omega arith) (omega arith) (omega arith) (omega arith) (omega arith)

full_sender_busy : (svs_bdp_tx link full_sender 5 1000 (some request) request_payload).0 ≡ busy
unfolding svs_bdp_tx
full_sender_busy = refl

abbrev response : List ℕ
response = built_frame link request dock 5 1 1000 request_payload

response-IsFrame : IsFrame crc16_init response
response-IsFrame =
    built-IsFrame link request dock 5 1 1000 request_payload refl (omega arith) (omega arith)

rx_loop-IsDelivered_example : IsDelivered outside link 1 receiver response (
    rx_loop outside link 1 receiver
      (replicate bdp_frame_preamble_size 0xAA ++ (bdp_frame_sof ∷ response)))
rx_loop-IsDelivered_example =
    rx_loop-IsDelivered outside crc16_init false 1 receiver response refl
      (length-replicate {A = ℕ} frame_size 0) response-IsFrame

-- The response is in the buffer of a server that has the request in flight.
abbrev answered : RxState
answered = record receiver { bus = record quiet_bus { frame_rx = response } }

dispatch-Effect_example : Effect outside 0 answered (dispatch outside 0 answered)
dispatch-Effect_example = dispatch-Effect outside 0 answered
