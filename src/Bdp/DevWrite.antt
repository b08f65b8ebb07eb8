-- ===== src/Bdp/DevWrite.antt =====
-- svsDevWrite in src/svsKr.c, by which both servers write to their devices.
pub mod Complete
use emulation_lib.Prelude.{ℕ, zero, suc, ◌+◌, List, length, if◌then◌else◌, ◌==◌, leb}

-- What one call of `write` gives: a count, EAGAIN, or another error.
pub data Write : Type 0 where
  some_bytes : ℕ → Write
  try_again : Write
  broken : Write

-- What svsDevWrite returns: a negative number, after some bytes, or how many bytes it wrote.
pub data WriteResult : Type 0 where
  write_error : ℕ → WriteResult
  wrote : ℕ → WriteResult

unfoldable pub dev_write_step : ℕ → ℕ → Write → WriteResult → WriteResult
dev_write_step len len_written broken next = write_error len_written
dev_write_step len len_written try_again next = next
dev_write_step len len_written (some_bytes n) next =
    if leb len (len_written + n) then wrote (len_written + n) else next

-- How much has been written after a call.
abbrev pub written_so_far : ℕ → Write → ℕ
written_so_far len_written (some_bytes n) = len_written + n
written_so_far len_written try_again = len_written
written_so_far len_written broken = len_written

-- The loop, with so many calls left; `calls` are the results of the calls by `retry`.
unfoldable pub dev_write_loop : ℕ → (ℕ → Write) → ℕ → ℕ → ℕ → WriteResult
dev_write_loop zero calls retry len len_written = wrote len_written
dev_write_loop (suc left) calls retry len len_written =
    dev_write_step len len_written (calls retry)
      (dev_write_loop left calls (retry + 1) len (written_so_far len_written (calls retry)))

-- svsDevWrite in src/svsKr.c.
unfoldable pub svs_dev_write : (ℕ → Write) → List ℕ → WriteResult
svs_dev_write calls bytes =
    if length bytes == 0 then wrote 0 else dev_write_loop 100 calls 0 (length bytes) 0
