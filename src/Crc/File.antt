-- ===== src/Crc/File.antt =====
-- src/crc.c: crc16_file, which sums a file in pieces of up to 256 bytes.
use emulation_lib.Prelude.{
  ℕ, ◌+◌, ◌%◌, ◌^◌, ◌<◌, Bool, true, false, Option, none, some, List, [], ◌∷◌, ◌++◌, ◌≡◌, arith, ap,
  ap₂, sym, ◌∙◌, length, length-append,
}
use emulation_lib.Err.{Err, pass, fail}
use emulation_lib.Crc.Crc16.{crc16_resume_compute, crc16_compute}
use emulation_lib.Crc.Detection.{resume_compute-append}

-- The file as `fread` gives it: the pieces, each of at least one byte, up to the end or to an error.
pub record Reads : Type 0 where
  pub pieces : List (List ℕ)
  pub error : Bool

-- The loop. An error shows in the last, empty piece.
unfoldable pub file_loop : List ℕ → Bool → ℕ → ℕ → List (List ℕ) → Err × Option (ℕ × ℕ)
file_loop table true crc len [] = (fail, none)
file_loop table false crc len [] = (pass, some (crc, len))
file_loop table error crc len (piece ∷ pieces) =
    file_loop table error (crc16_resume_compute table crc piece) ((len + length piece) % 2 ^ 32)
      pieces

-- The result, with the sum and the length where they are written; `none` is a file that cannot be opened.
unfoldable pub crc16_file : List ℕ → Option Reads → Err × Option (ℕ × ℕ)
unfolding file_loop
crc16_file table none = (fail, none)
crc16_file table (some file) = file_loop table file.error 0 0 file.pieces

-- The bytes of the file.
abbrev pub contents : List (List ℕ) → List ℕ
contents [] = []
contents (piece ∷ pieces) = piece ++ contents pieces

loop_sum :
    (table : List ℕ) (pieces : List (List ℕ)) (crc len : ℕ)
    → len + length (contents pieces) < 2 ^ 32
    → file_loop table false crc len pieces ≡ (
      pass,
      some (crc16_resume_compute table crc (contents pieces), len + length (contents pieces)),
    )
unfolding file_loop crc16_resume_compute
loop_sum table [] crc len h =
    let e : len ≡ len + 0 = omega arith in ap (λ (l : ℕ). (pass, some (crc, l))) e
loop_sum table (piece ∷ pieces) crc len h =
    loop_sum table pieces (crc16_resume_compute table crc piece) ((len + length piece) % 2 ^ 32)
      (omega (arith, length-append piece (contents pieces)))
    ∙ ap₂ (λ (c l : ℕ). (pass, some (c, l)))
        (sym (resume_compute-append table crc piece (contents pieces)))
        (omega (arith, length-append piece (contents pieces)))

-- However a file of less than 4 GB comes in pieces, if it can be read to the end, crc16_file gives the
-- sum that crc16_compute gives for its bytes, and their number.
pub crc16_file-crc16_compute :
    (table : List ℕ) (file : Reads)
    → file.error ≡ false
    → length (contents file.pieces) < 2 ^ 32
    → crc16_file table (some file)
      ≡ (pass, some (crc16_compute table (contents file.pieces), length (contents file.pieces)))
unfolding crc16_file crc16_compute
crc16_file-crc16_compute table file e h = rw e (
    loop_sum table file.pieces 0 0 (omega arith)
    ∙ ap (λ (l : ℕ). (pass, some (crc16_resume_compute table 0 (contents file.pieces), l)))
        (omega arith))
