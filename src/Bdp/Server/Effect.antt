-- ===== src/Bdp/Server/Effect.antt =====
-- What a frame from a known device makes the server send, and for whom.
use emulation_lib.Prelude.{
  ℕ, ◌+◌, ◌<◌, ◌^◌, false, not, ◌&&◌, Option, none, some, List, [], ◌∷◌, ◌++◌, ◌≡◌, ◌≢◌, ◌⊎◌, inl,
  inr, arith, refl, take, ◌==◌, ltb, leb, Bool-cases,
}
use emulation_lib.Bdp.Types.{hdr_len, hdr_msg_id, hdr_sock_fd, hdr_seq, payload, msg_id_bdp_ack}
use emulation_lib.Bdp.Frames.{
  FrameInfo, svs_bdp_node_find, found_and_removed, svs_bdp_frame_find_and_remove,
}
use emulation_lib.Bdp.Server.{
  Output, to_callback, to_client, Env, RxState, answer, answer_found, dispatch, emit,
}

-- The payload of a frame.
abbrev pub bytes_of : List ℕ → List ℕ
bytes_of bytes = take (hdr_len bytes) (payload bytes)

-- What a response may do, by the request that it answers.
pub data Answered (env : Env) (bdp_num : ℕ) (n : FrameInfo) (bytes : List ℕ) (before : List Output)
    : List Output → Type 0 where
  dropped : {after : List Output} → after ≡ before → Answered env bdp_num n bytes before after
  called :
      {after : List Output}
      → n.callback ≢ 0
      → (hdr_msg_id n.frame ≡ hdr_msg_id bytes) ⊎ (hdr_msg_id bytes ≡ msg_id_bdp_ack)
      → after ≡ before ++ (to_callback bdp_num (hdr_msg_id bytes) n.callback (bytes_of bytes) ∷ [])
      → Answered env bdp_num n bytes before after
  replied :
      {after : List Output}
      → n.callback ≡ 0
      → n.timeout_ms ≢ 0
      → env.time_ms < n.tsent_client_ms + n.timeout_client_ms
      → (hdr_msg_id n.frame ≡ hdr_msg_id bytes) ⊎ (hdr_msg_id bytes ≡ msg_id_bdp_ack)
      → after
        ≡ before ++ (to_client bdp_num (hdr_msg_id bytes) (hdr_sock_fd bytes) (bytes_of bytes) ∷ [])
      → Answered env bdp_num n bytes before after

asked_for :
    (a b : ℕ) → not (a == b) && not (b == msg_id_bdp_ack) ≡ false → (a ≡ b) ⊎ (b ≡ msg_id_bdp_ack)
asked_for a b h = elim (Bool-cases (a == b)) [
  | inl same ↦ inl (ground arith)
  | inr other ↦ inr (ground arith)
]

answer-Answered :
    (env : Env) (bdp_num : ℕ) (n : FrameInfo) (st : RxState)
    → Answered env bdp_num n st.bus.frame_rx st.outputs (answer env bdp_num n st).outputs
unfolding answer emit
answer-Answered env bdp_num n st =
    let msg_id = hdr_msg_id st.bus.frame_rx in
    elim (Bool-cases (not (hdr_msg_id n.frame == msg_id) && not (msg_id == msg_id_bdp_ack))) [
      | inl unasked ↦ dropped (ground arith)
      | inr asked ↦ elim (Bool-cases (n.callback == 0)) [
        | inr cb ↦
            called (ground arith) (asked_for (hdr_msg_id n.frame) msg_id asked) (ground arith)
        | inl no_cb ↦ elim (Bool-cases (n.timeout_ms == 0)) [
          | inl no_wait ↦ dropped (ground arith)
          | inr wait ↦
              elim (Bool-cases (leb (n.tsent_client_ms + n.timeout_client_ms) env.time_ms)) [
                | inl late ↦ dropped (ground arith)
                | inr in_time ↦
                    replied (ground arith) (ground arith) (ground arith)
                      (asked_for (hdr_msg_id n.frame) msg_id asked) (ground arith)
              ]
        ]
      ]
    ]

-- What a frame makes the server send.
pub data Effect (env : Env) (bdp_num : ℕ) (st r : RxState) : Type 0 where
  silent : r.outputs ≡ st.outputs → Effect env bdp_num st r
  event :
      hdr_sock_fd st.bus.frame_rx ≡ 0
      → r.outputs
        ≡ st.outputs
          ++ (to_callback bdp_num (hdr_msg_id st.bus.frame_rx) 0 (bytes_of st.bus.frame_rx) ∷ [])
      → Effect env bdp_num st r
  response :
      (n : FrameInfo)
      → hdr_sock_fd st.bus.frame_rx ≢ 0
      → svs_bdp_node_find st.frames.nodes (hdr_seq st.bus.frame_rx) ≡ some n
      → Answered env bdp_num n st.bus.frame_rx st.outputs r.outputs
      → Effect env bdp_num st r

found_effect :
    (env : Env) (bdp_num : ℕ) (st : RxState) (o : Option FrameInfo)
    → hdr_sock_fd st.bus.frame_rx ≢ 0
    → svs_bdp_node_find st.frames.nodes (hdr_seq st.bus.frame_rx) ≡ o
    → Effect env bdp_num st
        (answer_found env bdp_num (found_and_removed o st.frames (hdr_seq st.bus.frame_rx)) st)
unfolding answer_found found_and_removed
found_effect env bdp_num st none f e = silent refl
found_effect env bdp_num st (some n) f e = response n f e (answer-Answered env bdp_num n _)

-- A frame from a known device makes the server send one message at most: an event for the callback server,
-- where its socket is 0; or else an answer to the first request in flight with its sequence number, and of
-- its message unless it is an ACK: by the request's callback if there is one, and if there is none to the
-- client's socket, where the request has a timeout and the client still waits.
pub dispatch-Effect :
    (env : Env) (bdp_num : ℕ) (st : RxState) → Effect env bdp_num st (dispatch env bdp_num st)
unfolding dispatch svs_bdp_frame_find_and_remove emit
dispatch-Effect env bdp_num st =
    let fd = hdr_sock_fd st.bus.frame_rx in
    elim (Bool-cases (ltb 0 fd && ltb fd (2 ^ 31))) [
      | inl positive ↦ rw positive (found_effect env bdp_num st _ (ground arith) refl)
      | inr other ↦ elim (Bool-cases (fd == 0)) [
        | inl none_ ↦ rw (other, none_) (event (ground arith) refl)
        | inr negative ↦ rw (other, negative) (silent refl)
      ]
    ]
