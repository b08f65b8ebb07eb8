-- ===== src/Bdp/Rx/Steps.antt =====
-- One byte of a good frame: it is taken in, and the last one completes the frame.
use emulation_lib.Prelude.{
  ℕ, ◌+◌, ◌-◌, ◌≤◌, ◌<◌, List, [], ◌∷◌, ◌++◌, ◌≡◌, ◌≢◌, arith, sym, ◌∙◌, ap, length, length-append,
  subst,
}
use mathlib.Core.List.{append-nil}
use emulation_lib.Err.{Err}
use emulation_lib.Bdp.Types.{
  Bus, Link, u16_at, hdr_len, hdr_len_inv, header_size, bdp_msg_payload_max,
}
use emulation_lib.Bdp.Rx.{rx_frame, store_byte, check_length, check_whole}
use emulation_lib.Bdp.Rx.Receiving.{
  IsFrame, Receiving, IsReceived, store_byte-Receiving, u16_at-append, check_length_agrees,
  check_whole_early, check_whole_last,
}

module _ (link : Link) (got rest more : List ℕ) (y b : ℕ) (bus : Bus) (rc : Err)
    (good : IsFrame link.crc_table ((got ++ (b ∷ [])) ++ more))
    (r : Receiving link got (y ∷ rest) bus) where
  stored : Receiving link (got ++ (b ∷ [])) rest (store_byte link bus b)
  stored = store_byte-Receiving link got rest y b bus r

  -- A field that is in reads the same in the buffer and in the frame.
  field_known :
      (i : ℕ)
      → i + 1 < length (got ++ (b ∷ []))
      → u16_at (store_byte link bus b).frame_rx i ≡ u16_at ((got ++ (b ∷ [])) ++ more) i
  field_known i h =
      ap (λ f. u16_at f i) stored.contents
      ∙ u16_at-append (got ++ (b ∷ [])) rest i h
      ∙ sym (u16_at-append (got ++ (b ∷ [])) more i h)

  abbrev got_length : length (got ++ (b ∷ [])) ≡ length got + 1
  got_length = omega (arith, length-append got (b ∷ []))

  fields_agree :
      (store_byte link bus b).frame_rx_index ≡ 7
      → (hdr_len (store_byte link bus b).frame_rx
          ≡ 0xFFFF - hdr_len_inv (store_byte link bus b).frame_rx)
        × (hdr_len (store_byte link bus b).frame_rx ≤ bdp_msg_payload_max)
  fields_agree e = omega (
    arith,
    field_known 2 (omega (arith, stored.index)),
    field_known 4 (omega (arith, stored.index)),
    good.inverse,
    good.payload_fits,
  )

  length_agrees : check_length (store_byte link bus b) rc ≡ (store_byte link bus b, rc)
  length_agrees = check_length_agrees (store_byte link bus b) rc fields_agree

  pub rx_frame_check : rx_frame link bus rc b ≡ check_whole (store_byte link bus b) rc
  unfolding rx_frame
  rx_frame_check = rw length_agrees

  not_whole :
      0 < length more
      → (store_byte link bus b).frame_rx_index
        ≢ hdr_len (store_byte link bus b).frame_rx + header_size
  not_whole h e = absurd (
      omega (
        arith,
        e,
        stored.index,
        good.size,
        length-append (got ++ (b ∷ [])) more,
        field_known 2 (omega (arith, e, stored.index)),
      ))

  pub rx_frame_more : 0 < length more → rx_frame link bus rc b ≡ (store_byte link bus b, rc)
  rx_frame_more h = rx_frame_check ∙ check_whole_early (store_byte link bus b) rc (not_whole h)

-- The last byte completes the frame.
pub rx_frame_last :
    (link : Link) (got rest : List ℕ) (y b : ℕ) (bus : Bus) (rc : Err)
    → IsFrame link.crc_table (got ++ (b ∷ []))
    → Receiving link got (y ∷ rest) bus
    → IsReceived (got ++ (b ∷ [])) rest (rx_frame link bus rc b)
rx_frame_last link got rest y b bus rc good r =
    subst (IsReceived (got ++ (b ∷ [])) rest)
      (sym (rx_frame_check link got rest [] y b bus rc good' r))
      (check_whole_last (got ++ (b ∷ [])) rest (store_byte link bus b) rc
        (omega (arith, last.index, good.size, field 2 (omega (arith, good.size))))
        (last.sum ∙ sym good.sum ∙ sym (field 0 (omega (arith, good.size)))) last.contents)
  where
    good' : IsFrame link.crc_table ((got ++ (b ∷ [])) ++ [])
    good' = rw append-nil good

    last : Receiving link (got ++ (b ∷ [])) rest (store_byte link bus b)
    last = store_byte-Receiving link got rest y b bus r

    field :
        (i : ℕ)
        → i + 1 < length (got ++ (b ∷ []))
        → u16_at (store_byte link bus b).frame_rx i ≡ u16_at (got ++ (b ∷ [])) i
    field i h = ap (λ f. u16_at f i) last.contents ∙ u16_at-append (got ++ (b ∷ [])) rest i h
