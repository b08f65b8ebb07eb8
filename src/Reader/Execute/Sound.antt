-- ===== src/Reader/Execute/Sound.antt =====
-- What the loops of RS232C_8_ExecuteCommand give: replies that were received, with right sums, or failures.
use emulation_lib.Prelude.{
  ℕ, zero, suc, ◌+◌, ◌-◌, ◌/◌, ◌%◌, ◌≤◌, ◌<◌, true, take, List, [], ◌∷◌, ◌≡◌, ◌≢◌, inl, inr, arith,
  length, get_or, ◌==◌, ltb, Bool-cases, if-both,
}
use emulation_lib.Reader.{
  PortError, ReaderCode, no_error, error_exchange, Reception, crc_ccitt, default_command_retry,
  default_receive_retry, default_nak_retry, reply_timeout, ack, nak,
}
use emulation_lib.Reader.Ack.{
  Answer, acknowledged, again, refused, noise, AckEnd, ack_waits, ack_failed, ack_received, AckRun,
  answer_of, answer_code, answer_byte, sent_command, try_command, ack_step, await_ack,
  retry_after_answer,
}
use emulation_lib.Reader.Reply.{
  Verdict, waits, failed_with, skipped, cut_short, outside, whole, ReplyEnd, ReplyRun, reply_waits,
  reply_failed, reply_outside, accepted, unfinished, reply_step, check_crc, reply_loop,
  receive_reply, retry_after, crc_retry_after, get_reply, crc_matches,
}
use emulation_lib.Reader.Execute.Came.{Came, Brings, get_reply-Brings}
use emulation_lib.Reader.Turn.{
  NotOk, IsLeft, same, past, IsLeft-length, IsLeft-trans, get_reply-IsTurn,
}

-- The last two of the first bytes are the sum of those before, the high byte first.
abbrev pub SumIsRight : List ℕ → ℕ → Type 0
SumIsRight buffer n =
    (crc_ccitt (take (n - 2) buffer) / 256 % 256 ≡ get_or buffer (n - 2) 0)
    × (crc_ccitt (take (n - 2) buffer) % 256 ≡ get_or buffer (n - 1) 0)

crc_matches-SumIsRight :
    (buffer : List ℕ) (n : ℕ) → crc_matches buffer n ≡ true → SumIsRight buffer n
unfolding crc_matches
crc_matches-SumIsRight buffer n h = ground arith

-- The buffer and the length came in receptions of the list, and the sum is right.
abbrev pub IsRead : List Reception → List ℕ → ℕ → Type 0
IsRead receptions buffer n =
    (rest : List Reception) × IsLeft rest receptions
    × Came rest buffer n
    × SumIsRight buffer n
    × (2 ≤ n)

-- The loop comes to an end, what it accepts has a right sum, and a failure is not a success.
abbrev pub IsSound : List Reception → ReplyEnd → Type 0
IsSound receptions (accepted buffer n) = IsRead receptions buffer n
IsSound receptions (reply_failed e) = e ≢ no_error
IsSound receptions unfinished = ⊥
IsSound receptions _ = Unit {0}

pub IsSound-more :
    (rest receptions : List Reception) (end : ReplyEnd)
    → IsLeft rest receptions
    → IsSound rest end
    → IsSound receptions end
IsSound-more rest receptions reply_waits l h = tt
IsSound-more rest receptions (reply_failed e) l h = h
IsSound-more rest receptions reply_outside l h = tt
IsSound-more rest receptions (accepted buffer n) l (r, k, g, c, h) =
    (r, IsLeft-trans r rest receptions k l, g, c, h)
IsSound-more rest receptions unfinished l h = h

check_crc-IsSound :
    (receptions : List Reception) (crc_retry : ℕ) (buffer : List ℕ) (n : ℕ) (rest : ReplyRun)
    → Came receptions buffer n
    → IsSound receptions rest.end
    → IsSound receptions (check_crc crc_retry buffer n rest).end
unfolding check_crc
check_crc-IsSound receptions crc_retry buffer n rest g h = elim (Bool-cases (ltb n 2)) [
  | inl few ↦ rw few tt
  | inr enough ↦ elim (Bool-cases (crc_matches buffer n)) [
    | inl right ↦
        rw (enough, right)
          (receptions, same, g, crc_matches-SumIsRight buffer n right, ground arith)
    | inr wrong ↦
        rw (enough, wrong)
          (if-both (λ (r : ReplyRun). IsSound receptions (r.end)) (ltb default_nak_retry crc_retry)
            _ _ (λ z. cc) h)
  ]
]

reply_step-IsSound :
    (receptions : List Reception) (crc_retry : ℕ) (v : Verdict) (rest : ReplyRun)
    → Brings receptions v
    → NotOk v
    → IsSound receptions rest.end
    → IsSound receptions (reply_step crc_retry v rest).end
unfolding reply_step
reply_step-IsSound receptions crc_retry waits rest g k h = tt
reply_step-IsSound receptions crc_retry (failed_with e) rest g k h = k
reply_step-IsSound receptions crc_retry skipped rest g k h = h
reply_step-IsSound receptions crc_retry cut_short rest g k h = h
reply_step-IsSound receptions crc_retry outside rest g k h = tt
reply_step-IsSound receptions crc_retry (whole buffer n) rest g k h =
    check_crc-IsSound receptions crc_retry buffer n rest g h

reply_loop-IsSound :
    (fuel retry crc_retry : ℕ) (receptions : List Reception)
    → length receptions < fuel
    → IsSound receptions (reply_loop fuel retry crc_retry receptions).end
unfolding reply_loop reply_step get_reply
reply_loop-IsSound zero retry crc_retry receptions h = absurd (omega arith)
reply_loop-IsSound (suc fuel) retry crc_retry [] h =
    if-both (λ (r : ReplyRun). IsSound [] (r.end)) (ltb default_receive_retry retry) _ _ (λ z. cc)
      tt
reply_loop-IsSound (suc fuel) retry crc_retry (r ∷ rs) h =
    let turn = get_reply (r ∷ rs) in
    let taken = get_reply-IsTurn r rs in
    if-both (λ (x : ReplyRun). IsSound (r ∷ rs) (x.end)) (ltb default_receive_retry retry) _ _
      (λ z. cc)
      (reply_step-IsSound (r ∷ rs) crc_retry turn.0 _ (get_reply-Brings (r ∷ rs)) (taken.1) (
        IsSound-more turn.1 (r ∷ rs) _ (past r (taken.0)) (
          reply_loop-IsSound fuel (retry_after turn.0 retry) (crc_retry_after turn.0 crc_retry)
            turn.1 (omega (arith, IsLeft-length turn.1 rs (taken.0))))))

pub receive_reply-IsSound :
    (receptions : List Reception) → IsSound receptions (receive_reply receptions).end
unfolding receive_reply
receive_reply-IsSound receptions =
    reply_loop-IsSound (length receptions + 1) 1 1 receptions (omega arith)

-- The wait for the ACK does not fail with the code of success, and leaves receptions behind it.
abbrev pub IsFailure : List Reception → AckEnd → Type 0
IsFailure receptions (ack_failed e) = e ≢ no_error
IsFailure receptions (ack_received left) = IsLeft left receptions
IsFailure receptions ack_waits = Unit {0}

IsFailure-past :
    (r : Reception) (rs : List Reception) (end : AckEnd) → IsFailure rs end → IsFailure (r ∷ rs) end
IsFailure-past r rs ack_waits h = tt
IsFailure-past r rs (ack_failed e) h = h
IsFailure-past r rs (ack_received left) h = past r h

abbrev IsTried : Answer → Type 0
IsTried (again e) = e ≢ no_error
IsTried (refused e) = e ≢ no_error
IsTried _ = Unit {0}

answer_of-IsTried : (r : Reception) → IsTried (answer_of r)
unfolding answer_of answer_code answer_byte
answer_of-IsTried r = by_code (error_exchange r.result) (get_or r.bytes 0 0)
  where
    by_code : (e : ReaderCode) (b : ℕ) → IsTried (answer_code e b)
    by_code no_error b =
        if-both IsTried (b == nak) _ _ (λ z. cc)
          (if-both IsTried (b == ack) acknowledged noise tt tt)
    by_code reply_timeout b = λ z. cc
    by_code e b = λ z. cc

sent_command-IsFailure :
    (receptions : List Reception) (e : ReaderCode) (rest : AckRun)
    → IsFailure receptions rest.end
    → IsFailure receptions (sent_command e rest).end
unfolding sent_command
sent_command-IsFailure receptions no_error rest h = h
sent_command-IsFailure receptions e rest h = λ z. cc

pub try_command-IsFailure :
    (receptions : List Reception) (sends : ℕ → PortError) (retry : ℕ) (e : ReaderCode)
    (rest : AckRun)
    → e ≢ no_error
    → IsFailure receptions rest.end
    → IsFailure receptions (try_command sends retry e rest).end
unfolding try_command
try_command-IsFailure receptions sends retry e rest k h =
    if-both (λ (r : AckRun). IsFailure receptions (r.end)) (ltb default_command_retry retry)
      (record { attempts = 0; end = ack_failed e }) _ k
      (sent_command-IsFailure receptions (error_exchange (sends retry)) rest h)

ack_step-IsFailure :
    (sends : ℕ → PortError) (retry : ℕ) (left : List Reception) (a : Answer) (rest : AckRun)
    → IsTried a
    → IsFailure left rest.end
    → IsFailure left (ack_step sends retry left a rest).end
unfolding ack_step
ack_step-IsFailure sends retry left acknowledged rest k h = same
ack_step-IsFailure sends retry left (again e) rest k h =
    try_command-IsFailure left sends (retry + 1) e rest k h
ack_step-IsFailure sends retry left (refused e) rest k h = k
ack_step-IsFailure sends retry left noise rest k h = h

pub await_ack-IsFailure :
    (sends : ℕ → PortError) (retry : ℕ) (receptions : List Reception)
    → IsFailure receptions (await_ack sends retry receptions).end
unfolding await_ack
await_ack-IsFailure sends retry [] = tt
await_ack-IsFailure sends retry (r ∷ rs) = IsFailure-past r rs _ (
    ack_step-IsFailure sends retry rs (answer_of r) _ (answer_of-IsTried r)
      (await_ack-IsFailure sends (retry_after_answer (answer_of r) retry) rs))
