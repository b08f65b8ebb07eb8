-- ===== src/Bdp/DevWrite/Complete.antt =====
-- When svsDevWrite writes everything.
use emulation_lib.Prelude.{
  ℕ, zero, suc, ◌+◌, ◌≤◌, ◌<◌, ◌≢◌, List, ◌≡◌, arith, refl, ap, length, ◌==◌, inl, inr, Bool-cases,
}
use emulation_lib.Bdp.DevWrite.{
  Write, some_bytes, try_again, broken, WriteResult, wrote, write_error, dev_write_step,
  written_so_far, dev_write_loop, svs_dev_write,
}

-- How many bytes the first `k` calls have taken.
abbrev pub taken : (ℕ → Write) → ℕ → ℕ
taken calls zero = 0
taken calls (suc k) = written_so_far (taken calls k) (calls k)

-- The count that a result carries.
abbrev pub count_of : WriteResult → ℕ
count_of (wrote n) = n
count_of (write_error n) = n

add-one : (n : ℕ) → n + 1 ≡ suc n
add-one n = omega arith

step-le :
    (len len_written : ℕ) (call : Write) (next : WriteResult)
    → len_written ≤ len
    → written_so_far len_written call ≤ len
    → count_of next ≤ len
    → count_of (dev_write_step len len_written call next) ≤ len
unfolding dev_write_step
step-le len len_written (some_bytes n) next h k c = ground arith
step-le len len_written try_again next h k c = c
step-le len len_written broken next h k c = h

loop-le :
    (left retry len : ℕ) (calls : ℕ → Write)
    → ((k : ℕ) → taken calls k ≤ len)
    → count_of (dev_write_loop left calls retry len (taken calls retry)) ≤ len
unfolding dev_write_loop
loop-le zero retry len calls honest = honest retry
loop-le (suc left) retry len calls honest =
    step-le len (taken calls retry) (calls retry) _ (honest retry) (honest (suc retry))
      (rw (add-one retry) (loop-le left (suc retry) len calls honest))

-- Where no call of `write` takes more than what is left, svsDevWrite does not write more than its buffer.
pub svs_dev_write-le :
    (calls : ℕ → Write) (bytes : List ℕ)
    → ((k : ℕ) → taken calls k ≤ length bytes)
    → count_of (svs_dev_write calls bytes) ≤ length bytes
unfolding svs_dev_write
svs_dev_write-le calls bytes honest = ground (arith, loop-le 100 0 (length bytes) calls honest)

step_whole :
    (len len_written : ℕ) (call : Write) (next : WriteResult)
    → call ≢ broken
    → written_so_far len_written call ≤ len
    → (written_so_far len_written call < len → next ≡ wrote len)
    → len_written < len
    → dev_write_step len len_written call next ≡ wrote len
unfolding dev_write_step
step_whole len len_written (some_bytes n) next b h later l = ground arith
step_whole len len_written try_again next b h later l = later l
step_whole len len_written broken next b h later l = absurd (b refl)

loop_whole :
    (left retry len k : ℕ) (calls : ℕ → Write)
    → ((i : ℕ) → taken calls i ≤ len)
    → ((i : ℕ) → calls i ≢ broken)
    → taken calls k ≡ len
    → retry ≤ k
    → k ≤ retry + left
    → taken calls retry < len
    → dev_write_loop left calls retry len (taken calls retry) ≡ wrote len
unfolding dev_write_loop
loop_whole zero retry len k calls honest fine e p q l =
    let same : k ≡ retry = omega arith in absurd (omega (arith, ap (taken calls) same))
loop_whole (suc left) retry len k calls honest fine e p q l =
    step_whole len (taken calls retry) (calls retry) _ (fine retry) (honest (suc retry))
      (λ l'.
        rw (add-one retry)
          (loop_whole left (suc retry) len k calls honest fine e (next_le l') (omega arith) l'))
      l
  where
    reached : retry ≢ k
    reached s = omega (arith, ap (taken calls) s)

    next_le : taken calls (suc retry) < len → suc retry ≤ k
    next_le l' = elim (Bool-cases (retry == k)) [
      | inl same ↦ absurd (reached (ground arith))
      | inr other ↦ ground arith
    ]

-- Where no call of `write` fails for good or takes more than what is left, and the first hundred calls
-- take the whole buffer, svsDevWrite returns its length.
pub svs_dev_write_whole :
    (calls : ℕ → Write) (bytes : List ℕ) (k : ℕ)
    → ((i : ℕ) → taken calls i ≤ length bytes)
    → ((i : ℕ) → calls i ≢ broken)
    → taken calls k ≡ length bytes
    → k ≤ 100
    → svs_dev_write calls bytes ≡ wrote (length bytes)
unfolding svs_dev_write
svs_dev_write_whole calls bytes k honest fine e h = elim (Bool-cases (length bytes == 0)) [
  | inl empty ↦ ground arith
  | inr full ↦ rw full (
      loop_whole 100 0 (length bytes) k calls honest fine e (omega arith) (omega arith)
        (ground arith))
]
