-- ===== src/Crc/Detection.antt =====
-- What a receiver learns from the CRC-16: pieces may be summed one after the other, a message with its
-- sum behind it sums to zero, and a change of one byte changes the sum.
use emulation_lib.Prelude.{
  ℕ, zero, suc, ◌+◌, ◌*◌, ◌/◌, ◌%◌, ◌^◌, ◌<◌, ◌≤◌, List, [], ◌∷◌, ◌++◌, ◌≡◌, refl, arith, bit_xor,
  IsBytes, ◌∙◌, ap, sym,
}
use emulation_lib.Prelude.Bits.{
  bit_xor_self, zero-bit_xor, bit_xor-zero, bit_xor_assoc, bit_xor-lt, bit_xor_fields,
  bit_xor-bit_xor_self, bit_xor_cancel_right, bit_xor_cancel_left,
}
use emulation_lib.Crc.Crc16.{
  polynomial, crc16_init, crc16_update, crc16_resume_compute, crc16_compute,
}
use emulation_lib.Crc.Register.{
  shift, shifts, register, shift-lt, shifts-lt, shifts-split, shifts-xor, resume_compute-register,
}

-- With any table, the sum of a buffer in two pieces is that of the second, resumed from that of the first.
pub resume_compute-append :
    (table : List ℕ) (crc : ℕ) (xs ys : List ℕ)
    → crc16_resume_compute table crc (xs ++ ys)
      ≡ crc16_resume_compute table (crc16_resume_compute table crc xs) ys
unfolding crc16_resume_compute
resume_compute-append table crc [] ys = refl
resume_compute-append table crc (x ∷ xs) ys =
    resume_compute-append table (crc16_update table crc x) xs ys

crc16_update-lt : (table : List ℕ) (crc b : ℕ) → crc16_update table crc b < 2 ^ 16
unfolding crc16_update
crc16_update-lt table crc b = omega arith

pub resume_compute-lt :
    (table : List ℕ) (crc : ℕ) (bytes : List ℕ)
    → crc < 2 ^ 16
    → crc16_resume_compute table crc bytes < 2 ^ 16
unfolding crc16_resume_compute
resume_compute-lt table crc [] h = h
resume_compute-lt table crc (b ∷ bytes) h =
    resume_compute-lt table (crc16_update table crc b) bytes (crc16_update-lt table crc b)

low_byte_out : (crc : ℕ) → bit_xor crc (crc % 256) ≡ crc / 256 * 2 ^ 8
low_byte_out crc = ground (
  arith,
  bit_xor_fields 8 (crc / 256) 0 (crc % 256) (crc % 256),
  bit_xor-zero (crc / 256),
  bit_xor_self (crc % 256),
)

shifts-zero : shifts 8 0 ≡ 0
unfolding shifts shift
shifts-zero = refl

own_low_byte : (crc : ℕ) → shifts 8 (bit_xor crc (crc % 256)) ≡ crc / 256
own_low_byte crc = ground (
  arith,
  low_byte_out crc,
  shifts-split (crc / 256 * 2 ^ 8),
  shifts-zero,
  zero-bit_xor (crc / 256),
)

bit_xor-eq_of_split : (a b : ℕ) → a ≡ b → bit_xor a b ≡ 0
bit_xor-eq_of_split a b e = rw e (bit_xor_self b)

register_own_sum : (crc : ℕ) → register crc (crc % 256 ∷ crc / 256 ∷ []) ≡ 0
unfolding register
register_own_sum crc =
    rw (bit_xor-eq_of_split (shifts 8 (bit_xor crc (crc % 256))) (crc / 256) (own_low_byte crc))
      shifts-zero

resume_own_sum :
    (crc : ℕ) → crc < 2 ^ 16 → crc16_resume_compute crc16_init crc (crc % 256 ∷ crc / 256 ∷ []) ≡ 0
resume_own_sum crc h =
    resume_compute-register crc (crc % 256 ∷ crc / 256 ∷ []) h (omega arith) ∙ register_own_sum crc

-- A message of bytes with its sum behind it, low byte first, sums to zero.
pub crc16_compute_residue :
    (bytes : List ℕ)
    → IsBytes bytes
    → let crc = crc16_compute crc16_init bytes in
      crc16_compute crc16_init (bytes ++ crc % 2 ^ 8 ∷ crc / 2 ^ 8 ∷ []) ≡ 0
unfolding crc16_compute
crc16_compute_residue bytes h =
    let crc : ℕ = crc16_resume_compute crc16_init 0 bytes in
    resume_compute-append crc16_init 0 bytes (crc % 256 ∷ crc / 256 ∷ [])
    ∙ resume_own_sum crc (resume_compute-lt crc16_init 0 bytes (omega arith))

polynomial_top : (c : ℕ) → c < 2 ^ 15 → 2 ^ 15 ≤ bit_xor c polynomial
polynomial_top c h = ground (arith, bit_xor_fields 15 0 1 c 0x2001, zero-bit_xor 1)

-- The polynomial's top digit tells whether the lost digit was one, so a shift can be undone.
shift-injective : (a b : ℕ) → a < 2 ^ 16 → b < 2 ^ 16 → shift a ≡ shift b → a ≡ b
unfolding shift
shift-injective a b ha hb e = ground (
  arith,
  polynomial_top (a / 2),
  polynomial_top (b / 2),
  bit_xor-bit_xor_self (a / 2) polynomial,
  bit_xor-bit_xor_self (b / 2) polynomial,
)

shifts-injective : (k a b : ℕ) → a < 2 ^ 16 → b < 2 ^ 16 → shifts k a ≡ shifts k b → a ≡ b
unfolding shifts
shifts-injective zero a b ha hb e = e
shifts-injective (suc k) a b ha hb e =
    shift-injective a b ha hb
      (shifts-injective k (shift a) (shift b) (shift-lt a ha) (shift-lt b hb) e)

xor_byte-lt : (c b : ℕ) → c < 2 ^ 16 → b < 256 → bit_xor c b < 2 ^ 16
xor_byte-lt c b hc hb = bit_xor-lt 16 c b hc (omega arith)

register-injective :
    (bytes : List ℕ) (c d : ℕ)
    → c < 2 ^ 16
    → d < 2 ^ 16
    → IsBytes bytes
    → register c bytes ≡ register d bytes
    → c ≡ d
unfolding register
register-injective [] c d hc hd bs e = e
register-injective (b ∷ bytes) c d hc hd bs e = bit_xor_cancel_right c d b (
    shifts-injective 8 (bit_xor c b) (bit_xor d b) c' d' (
      register-injective bytes (shifts 8 (bit_xor c b)) (shifts 8 (bit_xor d b))
        (shifts-lt 8 (bit_xor c b) c') (shifts-lt 8 (bit_xor d b) d') bs.1 e))
  where
    c' : bit_xor c b < 2 ^ 16
    c' = xor_byte-lt c b hc bs.0

    d' : bit_xor d b < 2 ^ 16
    d' = xor_byte-lt d b hd bs.0

-- Two bytes go into the register as one word.
register_pair :
    (crc a b : ℕ)
    → register crc (a ∷ b ∷ []) ≡ shifts 8 (shifts 8 (bit_xor crc (bit_xor a (b * 2 ^ 8))))
unfolding register
register_pair crc a b =
    ap (shifts 8)
      (sym (shifts-xor 8 (bit_xor crc a) b) ∙ ap (shifts 8) (bit_xor_assoc crc a (b * 2 ^ 8)))

word_fields : (a b : ℕ) → a < 256 → bit_xor a (b * 2 ^ 8) ≡ b * 256 + a
word_fields a b h = ground (arith, bit_xor_fields 8 0 b a 0, zero-bit_xor b, bit_xor-zero a)

register_pair-injective :
    (crc a b c d : ℕ)
    → crc < 2 ^ 16
    → IsBytes (a ∷ b ∷ [])
    → IsBytes (c ∷ d ∷ [])
    → register crc (a ∷ b ∷ []) ≡ register crc (c ∷ d ∷ [])
    → (a ≡ c) × (b ≡ d)
register_pair-injective crc a b c d h ab cd e = omega (
  arith,
  word_fields a b,
  word_fields c d,
  bit_xor_cancel_left crc (bit_xor a (b * 2 ^ 8)) (bit_xor c (d * 2 ^ 8)) (
      shifts-injective 8 _ _ (word-lt a b ab) (word-lt c d cd) (
        shifts-injective 8 _ _ (shifts-lt 8 _ (word-lt a b ab)) (shifts-lt 8 _ (word-lt c d cd))
          (sym (register_pair crc a b) ∙ e ∙ register_pair crc c d))),
)
  where
    word-lt : (x y : ℕ) → IsBytes (x ∷ y ∷ []) → bit_xor crc (bit_xor x (y * 2 ^ 8)) < 2 ^ 16
    word-lt x y xy = bit_xor-lt 16 crc (bit_xor x (y * 2 ^ 8)) h (omega (arith, word_fields x y))

compute_pair :
    (before after : List ℕ) (a b : ℕ)
    → crc16_compute crc16_init (before ++ (a ∷ b ∷ after))
      ≡ crc16_resume_compute crc16_init
          (crc16_resume_compute crc16_init (crc16_compute crc16_init before) (a ∷ b ∷ []))
          after
unfolding crc16_compute
compute_pair before after a b =
    resume_compute-append crc16_init 0 before (a ∷ b ∷ after)
    ∙ resume_compute-append crc16_init (crc16_resume_compute crc16_init 0 before) (a ∷ b ∷ []) after

resume_compute-injective :
    (bytes : List ℕ) (c d : ℕ)
    → c < 2 ^ 16
    → d < 2 ^ 16
    → IsBytes bytes
    → crc16_resume_compute crc16_init c bytes ≡ crc16_resume_compute crc16_init d bytes
    → c ≡ d
resume_compute-injective bytes c d hc hd bs e =
    register-injective bytes c d hc hd bs
      (sym (resume_compute-register c bytes hc bs) ∙ e ∙ resume_compute-register d bytes hd bs)

-- Two messages that differ in two neighbouring bytes at most, and have the same sum, agree in those
-- bytes too: the CRC-16 sees every error of one byte and every burst inside two.
pub crc16_compute_burst :
    (before after : List ℕ) (a b c d : ℕ)
    → IsBytes before
    → IsBytes after
    → IsBytes (a ∷ b ∷ [])
    → IsBytes (c ∷ d ∷ [])
    → crc16_compute crc16_init (before ++ (a ∷ b ∷ after))
      ≡ crc16_compute crc16_init (before ++ (c ∷ d ∷ after))
    → (a ≡ c) × (b ≡ d)
unfolding crc16_compute
crc16_compute_burst before after a b c d hb ha ab cd e =
    register_pair-injective crc a b c d crc-lt ab cd (
      sym (resume_compute-register crc (a ∷ b ∷ []) crc-lt ab)
      ∙ resume_compute-injective after x y (resume-lt (a ∷ b ∷ [])) (resume-lt (c ∷ d ∷ [])) ha
          (sym (compute_pair before after a b) ∙ e ∙ compute_pair before after c d)
      ∙ resume_compute-register crc (c ∷ d ∷ []) crc-lt cd)
  where
    crc : ℕ
    crc = crc16_compute crc16_init before

    crc-lt : crc < 2 ^ 16
    crc-lt = resume_compute-lt crc16_init 0 before (omega arith)

    x : ℕ
    x = crc16_resume_compute crc16_init crc (a ∷ b ∷ [])

    y : ℕ
    y = crc16_resume_compute crc16_init crc (c ∷ d ∷ [])

    resume-lt : (bytes : List ℕ) → crc16_resume_compute crc16_init crc bytes < 2 ^ 16
    resume-lt bytes = resume_compute-lt crc16_init crc bytes crc-lt
