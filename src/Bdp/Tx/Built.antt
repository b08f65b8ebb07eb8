-- ===== src/Bdp/Tx/Built.antt =====
-- What the server puts into its list for a request: a frame that any receiver of the bus accepts.
use emulation_lib.Prelude.{
  ℕ, suc, ◌+◌, ◌*◌, ◌-◌, ◌%◌, ◌^◌, ◌≤◌, ◌<◌, List, ◌∷◌, ◌++◌, ◌≡◌, arith, sym, ap, ◌∙◌, length,
  length-append, length-take, get_or, get_or-append_right, take, take-append, drop, drop-append,
}
use mathlib.Core.List.{append_assoc}
use emulation_lib.Crc.Crc16.{crc16_compute}
use emulation_lib.Crc.Detection.{resume_compute-append, resume_compute-lt}
use emulation_lib.Bdp.Types.{
  Link, bdp_msg_payload_max, header_size, hdr_crc, hdr_len, hdr_len_inv, hdr_addr, hdr_seq,
  hdr_msg_id, hdr_sock_fd, hdr_flags, bdp_msg_addr_length,
}
use emulation_lib.Bdp.Rx.Receiving.{IsFrame}
use emulation_lib.Bdp.Frames.{SocketHeader}
use emulation_lib.Bdp.Tx.{le16, le32, after_crc, built_frame}

module _ (link : Link) (hdr : SocketHeader) (addr : List ℕ) (sock_fd seq now : ℕ) (payload : List ℕ)
    (addr_size : length addr ≡ bdp_msg_addr_length) (fits : hdr.len ≤ bdp_msg_payload_max)
    (there : hdr.len ≤ length payload) where
  abbrev built : List ℕ
  built = built_frame link hdr addr sock_fd seq now payload

  abbrev fields : List ℕ
  fields = after_crc hdr addr sock_fd seq now

  built_size : length built ≡ hdr.len + header_size
  unfolding built_frame
  built_size = omega (
    arith,
    addr_size,
    length-take hdr.len payload there,
    length-append addr
        (hdr.msg_id % 256 ∷ (le32 sock_fd ++ (hdr.flags % 256 ∷ (le16 seq ++ le16 now)))),
    length-append fields (take hdr.len payload),
  )

  pub built_len : hdr_len built ≡ hdr.len
  unfolding built_frame
  built_len = omega arith

  built_len_inv : hdr_len_inv built ≡ 0xFFFF - hdr.len
  unfolding built_frame
  built_len_inv = omega arith

  built_crc : hdr_crc built ≡ crc16_compute link.crc_table (fields ++ take hdr.len payload)
  unfolding built_frame crc16_compute
  built_crc = omega (
    arith,
    resume_compute-append link.crc_table 0 fields (take hdr.len payload),
    resume_compute-lt link.crc_table 0 (fields ++ take hdr.len payload) (omega arith),
  )

  pub built-IsFrame : IsFrame link.crc_table built
  unfolding built_frame
  built-IsFrame = record {
    size = omega (arith, built_size, built_len);
    payload_fits = omega (arith, built_len);
    inverse = omega (arith, built_len, built_len_inv);
    sum = built_crc;
  }

  abbrev behind : List ℕ
  behind = hdr.msg_id % 256 ∷ (le32 sock_fd ++ (hdr.flags % 256 ∷ (le16 seq ++ le16 now)))

  pub built_addr : hdr_addr built ≡ addr
  unfolding built_frame
  built_addr =
      ap (take 8) (append_assoc addr behind (take hdr.len payload))
      ∙ ap (λ (n : ℕ). take n (addr ++ (behind ++ take hdr.len payload))) (sym addr_size)
      ∙ take-append addr (behind ++ take hdr.len payload)

  -- The bytes behind the address.
  built_at : (k : ℕ) → get_or built (14 + k) 0 ≡ get_or (behind ++ take hdr.len payload) k 0
  unfolding built_frame
  built_at k =
      let e : 14 + k ≡ suc (suc (suc (suc (suc (suc (8 + k)))))) = omega arith in
      ap (λ (i : ℕ). get_or built i 0) e
      ∙ ap (λ f. get_or f (8 + k) 0) (append_assoc addr behind (take hdr.len payload))
      ∙ ap (λ (n : ℕ). get_or (addr ++ (behind ++ take hdr.len payload)) (n + k) 0) (sym addr_size)
      ∙ get_or-append_right addr (behind ++ take hdr.len payload) k 0

  pub built_seq : seq < 2 ^ 16 → hdr_seq built ≡ seq
  built_seq h = omega (arith, built_at 6, built_at 7)

  pub built_msg_id : hdr_msg_id built ≡ hdr.msg_id % 256
  built_msg_id = omega (arith, built_at 0)

  pub built_sock_fd : sock_fd < 2 ^ 32 → hdr_sock_fd built ≡ sock_fd
  built_sock_fd h = omega (arith, built_at 1, built_at 2, built_at 3, built_at 4)

  pub built_flags : hdr_flags built ≡ hdr.flags % 256
  built_flags = omega (arith, built_at 5)

  pub built_time : get_or built 22 0 + 256 * get_or built 23 0 ≡ now % 2 ^ 16
  built_time = omega (arith, built_at 8, built_at 9)

  behind_crc : 18 ≡ length (addr ++ behind)
  behind_crc = omega (arith, addr_size, length-append addr behind)

  pub built-payload : drop header_size built ≡ take hdr.len payload
  unfolding built_frame
  built-payload =
      ap (λ (n : ℕ). drop n ((addr ++ behind) ++ take hdr.len payload)) behind_crc
      ∙ drop-append (addr ++ behind) (take hdr.len payload)
