-- ===== src/Crc/Register.antt =====
-- The table of `crc16_init` against a shift register that takes one bit at a time.
use native.Mathlib.Nat.{pow-suc, zero-add}
use emulation_lib.Prelude.{
  ℕ, zero, suc, ◌+◌, ◌*◌, ◌/◌, ◌%◌, ◌^◌, ◌<◌, List, [], ◌∷◌, ◌≡◌, refl, arith, bit_xor,
  if◌then◌else◌, ◌==◌, get_or, IsBytes, ◌∙◌, ap,
}
use emulation_lib.Prelude.Bits.{
  zero-bit_xor, bit_xor-zero, bit_xor_comm, bit_xor_assoc, bit_xor-div, bit_xor-mod, bit_xor-lt,
  bit_xor_fields, bit_and-one,
}
use emulation_lib.Crc.Crc16.{
  polynomial, next_value, table_entry, fill, crc16_init, crc16_resume_compute, crc16_update,
}

-- The reference: a register that is shifted right, and takes the polynomial on a lost one.
unfoldable pub shift : ℕ → ℕ
shift c = if c % 2 == 1 then bit_xor (c / 2) polynomial else c / 2

unfoldable pub shifts : ℕ → ℕ → ℕ
shifts zero c = c
shifts (suc k) c = shifts k (shift c)

-- Eight shifts for each byte, which is first added to the register.
unfoldable pub register : ℕ → List ℕ → ℕ
register crc [] = crc
register crc (b ∷ bs) = register (shifts 8 (bit_xor crc b)) bs

pub shift-lt : (c : ℕ) → c < 2 ^ 16 → shift c < 2 ^ 16
unfolding shift
shift-lt c h = ground (arith, bit_xor-lt 16 (c / 2) polynomial)

pub shifts-lt : (k c : ℕ) → c < 2 ^ 16 → shifts k c < 2 ^ 16
unfolding shifts
shifts-lt zero c h = h
shifts-lt (suc k) c h = shifts-lt k (shift c) (shift-lt c h)

-- Digits above the lowest pass through a shift unchanged.
shift-xor : (c m : ℕ) → shift (bit_xor c (m * 2)) ≡ bit_xor (shift c) m
unfolding shift
shift-xor c m = ground (
  arith,
  bit_xor-mod c (m * 2),
  bit_xor-div c (m * 2),
  bit_xor_assoc (c / 2) m polynomial,
  bit_xor_comm m polynomial,
  bit_xor_assoc (c / 2) polynomial m,
)

pub shifts-xor : (k c m : ℕ) → shifts k (bit_xor c (m * 2 ^ k)) ≡ bit_xor (shifts k c) m
unfolding shifts
shifts-xor zero c m = ap (λ (t : ℕ). bit_xor c t) (omega arith)
shifts-xor (suc k) c m =
    ap (λ (t : ℕ). shifts k (shift (bit_xor c t)))
      (omega (arith, ap (λ (t : ℕ). m * t) (pow-suc 2 k)))
    ∙ ap (shifts k) (shift-xor c (m * 2 ^ k))
    ∙ shifts-xor k (shift c) m

next_value-shift : (v t : ℕ) → v < 2 ^ 16 → bit_xor (next_value v t) (t / 2) ≡ shift (bit_xor v t)
unfolding next_value shift
next_value-shift v t h = ground (
  arith,
  bit_and-one (bit_xor v t),
  bit_xor-div v t,
  bit_xor-lt 16 (v / 2) polynomial,
  bit_xor_assoc (v / 2) polynomial (t / 2),
  bit_xor_comm polynomial (t / 2),
  bit_xor_assoc (v / 2) (t / 2) polynomial,
)

next_value-lt : (v t : ℕ) → v < 2 ^ 16 → next_value v t < 2 ^ 16
unfolding next_value
next_value-lt v t h = ground arith

table_entry-shifts :
    (j v t : ℕ) → v < 2 ^ 16 → t < 2 ^ j → table_entry j v t ≡ shifts j (bit_xor v t)
unfolding table_entry shifts
table_entry-shifts zero v t hv ht = ground (arith, bit_xor-zero v)
table_entry-shifts (suc j) v t hv ht =
    table_entry-shifts j (next_value v t) (t / 2) (next_value-lt v t hv)
      (omega (arith, pow-suc 2 j))
    ∙ ap (shifts j) (next_value-shift v t hv)

pub get_or-fill : (n i j : ℕ) → j < n → get_or (fill n i) j 0 ≡ table_entry 8 0 (i + j)
unfolding fill
get_or-fill zero i j h = absurd (omega arith)
get_or-fill (suc n) i zero h = ap (table_entry 8 0) (omega arith)
get_or-fill (suc n) i (suc j) h =
    get_or-fill n (i + 1) j (omega arith) ∙ ap (table_entry 8 0) (omega arith)

crc16_init-fill : crc16_init ≡ fill 256 0
unfolding crc16_init
crc16_init-fill = refl

-- An entry of the table is eight shifts of its index.
table-shifts : (i : ℕ) → i < 256 → get_or crc16_init i 0 ≡ shifts 8 i
table-shifts i h =
    ap (λ t. get_or t i 0) crc16_init-fill
    ∙ get_or-fill 256 0 i h
    ∙ ap (table_entry 8 0) (zero-add i)
    ∙ table_entry-shifts 8 0 i (omega arith) h
    ∙ ap (shifts 8) (zero-bit_xor i)

pub xor-byte-div : (crc b : ℕ) → b < 256 → bit_xor crc b / 256 ≡ crc / 256
xor-byte-div crc b h = ground (
  arith,
  bit_xor_fields 8 (crc / 256) 0 (crc % 256) b,
  bit_xor-zero (crc / 256),
  bit_xor-lt 8 (crc % 256) b,
)

-- A register is its low byte and the rest, added without carry.
split_byte : (x : ℕ) → x ≡ bit_xor (x % 256) (x / 256 * 2 ^ 8)
split_byte x = ground (
  arith,
  bit_xor_fields 8 0 (x / 256) (x % 256) 0,
  zero-bit_xor (x / 256),
  bit_xor-zero (x % 256),
)

pub shifts-split : (x : ℕ) → shifts 8 x ≡ bit_xor (shifts 8 (x % 256)) (x / 256)
shifts-split x = ap (shifts 8) (split_byte x) ∙ shifts-xor 8 (x % 256) (x / 256)

pub byte_step :
    (crc b : ℕ) → crc < 2 ^ 16 → b < 256 → crc16_update crc16_init crc b ≡ shifts 8 (bit_xor crc b)
unfolding crc16_update
byte_step crc b hc hb = ground (
  arith,
  table-shifts (bit_xor crc b % 256),
  shifts-split (bit_xor crc b),
  xor-byte-div crc b,
  bit_xor_comm (crc / 256) (shifts 8 (bit_xor crc b % 256)),
  shifts-lt 8 (bit_xor crc b),
  bit_xor-lt 16 crc b,
)

-- From any 16-bit sum and over any bytes, the routine with the table of crc16_init gives what the shift
-- register gives that takes one bit at a time.
pub resume_compute-register :
    (crc : ℕ) (bytes : List ℕ)
    → crc < 2 ^ 16
    → IsBytes bytes
    → crc16_resume_compute crc16_init crc bytes ≡ register crc bytes
unfolding crc16_resume_compute register
resume_compute-register crc [] h bs = refl
resume_compute-register crc (b ∷ bytes) h bs = rw (byte_step crc b h bs.0) (
    resume_compute-register (shifts 8 (bit_xor crc b)) bytes
      (shifts-lt 8 _ (bit_xor-lt 16 crc b h (omega arith))) bs.1)
