-- ===== src/Bdp/Tx/Seq.antt =====
-- The sequence numbers of the frames that the server sends.
use emulation_lib.Prelude.{ℕ, zero, suc, ◌+◌, ◌-◌, ◌%◌, ◌^◌, ◌≤◌, ◌<◌, ◌≡◌, ◌≢◌, arith}
use emulation_lib.Prelude.Bits.{bit_and-byte}
use emulation_lib.Bdp.Tx.{next_seq}

-- The number that is used so many frames later.
unfoldable pub seq_after : ℕ → ℕ → ℕ
seq_after zero seq = seq
seq_after (suc k) seq = seq_after k (next_seq seq)

next_seq_lem : (seq : ℕ) → 1 ≤ seq → seq ≤ 255 → next_seq seq ≡ seq % 255 + 1
unfolding next_seq
next_seq_lem seq h k = ground (arith, bit_and-byte ((seq + 1) % 2 ^ 16))

-- From a number between 1 and 255, that of the frame sent k frames later is found by counting on from
-- it through 1 to 255 and round again; 0 is never used.
pub seq_after_lem : (k seq : ℕ) → 1 ≤ seq → seq ≤ 255 → seq_after k seq ≡ (seq + k - 1) % 255 + 1
unfolding seq_after
seq_after_lem zero seq h l = omega arith
seq_after_lem (suc k) seq h l = omega (
  arith,
  next_seq_lem seq h l,
  seq_after_lem k (next_seq seq) (omega (arith, next_seq_lem seq h l))
      (omega (arith, next_seq_lem seq h l)),
)

-- Two frames that are fewer than 255 apart carry different sequence numbers.
pub seq_after-distinct :
    (i j seq : ℕ) → 1 ≤ seq → seq ≤ 255 → i < j → j < i + 255 → seq_after i seq ≢ seq_after j seq
seq_after-distinct i j seq h l p q e =
    absurd (omega (arith, e, seq_after_lem i seq h l, seq_after_lem j seq h l))
