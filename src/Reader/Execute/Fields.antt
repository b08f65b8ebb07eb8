-- ===== src/Reader/Execute/Fields.antt =====
-- What RS232C_8_ExecuteCommand sets in the caller's REPLY, by the bytes of the buffer.
use emulation_lib.Prelude.{
  ℕ, ◌+◌, ◌-◌, ◌%◌, ◌^◌, ◌≤◌, ◌<◌, true, false, List, ◌++◌, ◌≡◌, refl, inl, inr, ◌⊎◌, arith, length,
  get_or, take, drop, replicate, ◌==◌, ltb,
}
use emulation_lib.Reader.{no_error, failed_to_receive_reply}
use emulation_lib.Reader.Execute.{
  Reply, ReplyType, unavailable, positive_reply, negative_reply, set_reply, written, data_size,
  copied, reply_type_of,
}

-- The fields of a reply by the bytes of the buffer, of which the first `n` count, and by what Body held before.
pub record IsReplyOf (buffer : List ℕ) (n : ℕ) (old : List ℕ) (reply : Reply) : Type 0 where
  pub kind :
      ((reply.reply_type ≡ positive_reply)
        × ((get_or buffer 3 0 ≡ 0x50) ⊎ (get_or buffer 3 0 ≡ 0x70)))
      ⊎ ((reply.reply_type ≡ negative_reply)
          × ((get_or buffer 3 0 ≡ 0x4E) ⊎ (get_or buffer 3 0 ≡ 0x6E)))
  pub command_code : reply.command_code ≡ get_or buffer 4 0
  pub parameter_code : reply.parameter_code ≡ get_or buffer 5 0
  pub code_1 : reply.code_1 ≡ get_or buffer 6 0
  pub code_0 : reply.code_0 ≡ get_or buffer 7 0
  pub size : reply.size ≡ (n + 2 ^ 32 - 10) % 2 ^ 32
  pub emptied : n ≡ 10 → reply.body ≡ replicate 1024 0
  pub filled :
      10 < n
      → reply.body
        ≡ take (n - 10) (drop 8 buffer) ++ drop (length (take (n - 10) (drop 8 buffer))) old
  pub left : n < 10 → reply.body ≡ old

module _ (buffer : List ℕ) (n : ℕ) (old : List ℕ) (fits : n ≤ 1024) where
  emptied_body : n ≡ 10 → written (data_size n) buffer old ≡ replicate 1024 0
  unfolding written data_size
  emptied_body e = ground arith

  filled_body :
      10 < n
      → written (data_size n) buffer old
        ≡ take (n - 10) (drop 8 buffer) ++ drop (length (take (n - 10) (drop 8 buffer))) old
  unfolding written data_size copied
  filled_body h =
      let size : (n + 2 ^ 32 - 10) % 2 ^ 32 ≡ n - 10 = omega arith in
      let some_data : (n - 10 == 0) ≡ false = ground arith in
      let few : ltb (n - 10) (2 ^ 31) ≡ true = ground arith in rw (size, some_data, few) refl

  left_body : n < 10 → written (data_size n) buffer old ≡ old
  unfolding written data_size copied
  left_body h =
      let large : ltb ((n + 2 ^ 32 - 10) % 2 ^ 32) (2 ^ 31) ≡ false = ground arith in
      let some_data : ((n + 2 ^ 32 - 10) % 2 ^ 32 == 0) ≡ false = ground arith in
      rw (some_data, large) refl

reply_type-cases :
    (tag : ℕ)
    → (((reply_type_of tag ≡ positive_reply) × ((tag ≡ 0x50) ⊎ (tag ≡ 0x70)))
        ⊎ ((reply_type_of tag ≡ negative_reply) × ((tag ≡ 0x4E) ⊎ (tag ≡ 0x6E))))
      ⊎ (reply_type_of tag ≡ unavailable)
unfolding reply_type_of
reply_type-cases tag = ground arith

module _ (buffer : List ℕ) (n : ℕ) (old : Reply) where
  abbrev set_to : ReplyType → Reply
  set_to t = record {
    reply_type = t;
    command_code = get_or buffer 4 0;
    parameter_code = get_or buffer 5 0;
    code_1 = get_or buffer 6 0;
    code_0 = get_or buffer 7 0;
    size = data_size n;
    body = written (data_size n) buffer old.body;
  }

  set_to-IsReplyOf :
      (t : ReplyType)
      → n ≤ 1024
      → ((t ≡ positive_reply) × ((get_or buffer 3 0 ≡ 0x50) ⊎ (get_or buffer 3 0 ≡ 0x70)))
        ⊎ ((t ≡ negative_reply) × ((get_or buffer 3 0 ≡ 0x4E) ⊎ (get_or buffer 3 0 ≡ 0x6E)))
      → IsReplyOf buffer n old.body (set_to t)
  unfolding data_size
  set_to-IsReplyOf t fits k = record {
    kind = k;
    command_code = refl;
    parameter_code = refl;
    code_1 = refl;
    code_0 = refl;
    size = refl;
    emptied = emptied_body buffer n old.body fits;
    filled = filled_body buffer n old.body fits;
    left = left_body buffer n old.body fits;
  }

  set_positive :
      reply_type_of (get_or buffer 3 0) ≡ positive_reply
      → set_reply buffer n old ≡ (no_error, set_to positive_reply)
  unfolding set_reply
  set_positive e = rw (set_reply, e) refl

  set_negative :
      reply_type_of (get_or buffer 3 0) ≡ negative_reply
      → set_reply buffer n old ≡ (no_error, set_to negative_reply)
  unfolding set_reply
  set_negative e = rw (set_reply, e) refl

  set_unavailable :
      reply_type_of (get_or buffer 3 0) ≡ unavailable
      → set_reply buffer n old ≡ (failed_to_receive_reply, record old { reply_type = unavailable })
  unfolding set_reply
  set_unavailable e = rw (set_reply, e) refl

  -- The reply of the bytes, or one that is not available.
  pub set_reply-cases :
      n ≤ 1024
      → ((reply : Reply) × IsReplyOf buffer n old.body reply
          × (set_reply buffer n old ≡ (no_error, reply)))
        ⊎ (set_reply buffer n old
            ≡ (failed_to_receive_reply, record old { reply_type = unavailable }))
  set_reply-cases fits = elim (reply_type-cases (get_or buffer 3 0)) [
    | inl (inl (e, k)) ↦ inl (
      set_to positive_reply,
      set_to-IsReplyOf positive_reply fits (inl (refl, k)),
      set_positive e,
    )
    | inl (inr (e, k)) ↦ inl (
      set_to negative_reply,
      set_to-IsReplyOf negative_reply fits (inr (refl, k)),
      set_negative e,
    )
    | inr e ↦ inr (set_unavailable e)
  ]
