-- ===== src/Bdp/Send/Written.antt =====
-- What is on the wire after a sending.
use emulation_lib.Prelude.{
  ℕ, zero, suc, true, List, [], ◌∷◌, ◌++◌, ◌≡◌, ◌≢◌, arith, refl, sym, ap, ◌∙◌, subst, length, take,
  drop, inl, inr, Bool-cases,
}
use mathlib.Core.List.{append_assoc, append-nil}
use emulation_lib.Err.{pass, fail}
use emulation_lib.Bdp.Types.{Bus, Link, header_size}
use emulation_lib.Bdp.Send.{
  WriteResult, write_error, wrote, Line, SendResult, svs_bdp_backoff, svs_bdp_wakeup, write_part,
  write_parts, send_parts, send_awake, svs_bdp_frame_send_bus,
}

fail-ne-pass : fail ≢ pass
fail-ne-pass e = cc

take_all : {A : Type 0} (xs : List A) → take (length xs) xs ≡ xs
take_all [] = refl
take_all (x ∷ xs) = ap (◌∷◌ x) (take_all xs)

take-drop : {A : Type 0} (n : ℕ) (xs : List A) → take n xs ++ drop n xs ≡ xs
take-drop zero xs = refl
take-drop (suc n) [] = refl
take-drop (suc n) (x ∷ xs) = ap (◌∷◌ x) (take-drop n xs)

write_part_whole :
    (result : WriteResult) (bytes : List ℕ)
    → (write_part result bytes).0 ≡ true
    → (write_part result bytes).1 ≡ bytes
unfolding write_part
write_part_whole (write_error n) bytes h = cc
write_part_whole (wrote n) bytes h =
    let e : n ≡ length bytes = ground arith in ap (λ (k : ℕ). take k bytes) e ∙ take_all bytes

-- The bytes of some parts, one after the other.
abbrev bytes_of : List (List ℕ × WriteResult) → List ℕ
bytes_of [] = []
bytes_of ((bytes, result) ∷ parts) = bytes ++ bytes_of parts

write_parts_whole :
    (parts : List (List ℕ × WriteResult))
    → (write_parts parts).0 ≡ pass
    → (write_parts parts).1 ≡ bytes_of parts
unfolding write_parts
write_parts_whole [] h = refl
write_parts_whole ((bytes, result) ∷ parts) h = elim (Bool-cases (write_part result bytes).0) [
  | inl whole ↦
      rw (whole, write_part_whole result bytes whole)
        (ap (λ more. bytes ++ more) (write_parts_whole parts (rw whole at h)))
  | inr part ↦ absurd (fail-ne-pass (rw part at h))
]

send_parts_whole :
    (line : Line) (link : Link) (bytes : List ℕ)
    → (send_parts line link bytes).0 ≡ pass
    → (send_parts line link bytes).1 ≡ link.preamble_bytes ++ (link.sof_byte ∷ bytes)
unfolding send_parts
send_parts_whole line link bytes h =
    write_parts_whole _ h
    ∙ append_assoc link.preamble_bytes (link.sof_byte ∷ [])
        (take header_size bytes ++ (drop header_size bytes ++ []))
    ∙ ap (λ more. link.preamble_bytes ++ (link.sof_byte ∷ more))
        (ap (λ more. take header_size bytes ++ more) (append-nil _) ∙ take-drop header_size bytes)

-- A sending that succeeds.
pub record IsSent (line : Line) (link : Link) (bytes : List ℕ) (bus : Bus) (r : SendResult)
    : Type 0 where
  pub open_device : bus.dev_fd_open ≡ true
  pub stamped : r.bus.timestamp_tx_activity_us ≡ line.end_clock
  pub on_wire :
      r.wire ≡ (svs_bdp_wakeup line bus).1 ++ (link.preamble_bytes ++ (link.sof_byte ∷ bytes))

send_awake-IsSent :
    (line : Line) (link : Link) (bytes : List ℕ) (bus : Bus)
    → bus.dev_fd_open ≡ true
    → (send_awake line link bytes bus).rc ≡ pass
    → IsSent line link bytes bus (send_awake line link bytes bus)
unfolding send_awake
send_awake-IsSent line link bytes bus o h = record {
  open_device = o;
  stamped = ground arith;
  on_wire = ground (arith, send_parts_whole line link bytes);
}

went_on :
    (rand_max : ℕ) (line : Line) (link : Link) (bytes : List ℕ) (bus : Bus)
    → (svs_bdp_frame_send_bus rand_max line link bytes bus).rc ≡ pass
    → (bus.dev_fd_open ≡ true)
      × (svs_bdp_frame_send_bus rand_max line link bytes bus
          ≡ send_awake line link bytes (record bus {
            bus_stats = (svs_bdp_backoff rand_max link.loopback_enable line bus).stats;
          }))
unfolding svs_bdp_frame_send_bus
went_on rand_max line link bytes bus h = ground arith

-- A frame that svsBdpFrameSendBus reports as sent is on the wire whole: behind the bytes of the wakeup, if
-- any, stand the preamble, the start byte and the frame. The device is open, and the time of the
-- activity is kept.
pub svs_bdp_frame_send_bus-IsSent :
    (rand_max : ℕ) (line : Line) (link : Link) (bytes : List ℕ) (bus : Bus)
    → (svs_bdp_frame_send_bus rand_max line link bytes bus).rc ≡ pass
    → IsSent line link bytes bus (svs_bdp_frame_send_bus rand_max line link bytes bus)
unfolding svs_bdp_frame_send_bus svs_bdp_wakeup
svs_bdp_frame_send_bus-IsSent rand_max line link bytes bus h =
    let (o, e) = went_on rand_max line link bytes bus h in
    let sent = send_awake-IsSent line link bytes _ o (ap (λ r. r.rc) (sym e) ∙ h) in
    subst (IsSent line link bytes bus) (sym e)
      record { open_device = o; stamped = sent.stamped; on_wire = sent.on_wire }
