-- ===== src/Reader/Residue.antt =====
-- CRC_Proc.c: bytes with their own sum behind them have the sum zero.
use emulation_lib.Prelude.{
  ℕ, zero, suc, ◌+◌, ◌*◌, ◌/◌, ◌%◌, ◌^◌, ◌<◌, List, [], ◌∷◌, ◌++◌, ◌≡◌, refl, sym, ap, ap₂, ◌∙◌,
  arith, bit_and, bit_xor, ◌==◌, if-both,
}
use emulation_lib.Prelude.Bits.{bit_xor_self, bit_xor_fields, bit_xor-lt, bit_and-pow}
use emulation_lib.Reader.{calc_step, calc_loop, calc_crc, crc_ccitt_from, crc_ccitt}
use emulation_lib.Reader.Execute.{with_crc}

-- Numbers with the same top bit differ below it only.
xor-lt : (a b : ℕ) → a / 2 ^ 15 ≡ b / 2 ^ 15 → bit_xor a b < 2 ^ 15
xor-lt a b e =
    let p = a / 2 ^ 15 in
    let r = a % 2 ^ 15 in
    let s = b % 2 ^ 15 in
    let low : bit_xor r s < 2 ^ 15 = bit_xor-lt 15 r s (omega arith) (omega arith) in
    let fields : bit_xor (p * 2 ^ 15 + r) (p * 2 ^ 15 + s) ≡ bit_xor p p * 2 ^ 15 + bit_xor r s =
      bit_xor_fields 15 p p r s (omega arith) (omega arith) in
    let whole_a : p * 2 ^ 15 + r ≡ a = omega arith in
    let whole_b : p * 2 ^ 15 + s ≡ b = omega (arith, e) in
    omega (arith, low, sym (ap₂ bit_xor whole_a whole_b) ∙ fields, bit_xor_self p)

-- A turn where the byte and the sum have the same top bit only shifts.
calc_step-shift : (crc ch : ℕ) → ch / 2 ^ 15 ≡ crc / 2 ^ 15 → calc_step crc ch ≡ crc * 2 % 2 ^ 16
unfolding calc_step
calc_step-shift crc ch e = ground (arith, bit_and-pow 15 (bit_xor ch crc), xor-lt ch crc e)

calc_loop-shift :
    (i crc ch crc' ch' : ℕ)
    → ch / 2 ^ 15 ≡ crc / 2 ^ 15
    → crc * 2 % 2 ^ 16 ≡ crc'
    → ch * 2 % 2 ^ 16 ≡ ch'
    → calc_loop (suc i) crc ch ≡ calc_loop i crc' ch'
unfolding calc_loop
calc_loop-shift i crc ch crc' ch' e p q = ap₂ (calc_loop i) (calc_step-shift crc ch e ∙ p) q

-- The upper byte of a sum takes itself out.
calc_crc-upper : (hi lo : ℕ) → hi < 2 ^ 8 → lo < 2 ^ 8 → calc_crc (hi * 2 ^ 8 + lo) hi ≡ lo * 2 ^ 8
unfolding calc_crc calc_loop
calc_crc-upper hi lo h l =
    ap (calc_loop 8 (hi * 2 ^ 8 + lo)) (omega arith)
    ∙ calc_loop-shift 7 (hi * 2 ^ 8 + lo) (hi * 2 ^ 8) (hi % 2 ^ 7 * 2 ^ 9 + lo * 2 ^ 1)
        (hi % 2 ^ 7 * 2 ^ 9) (omega arith) (omega arith) (omega arith)
    ∙ calc_loop-shift 6 _ _ (hi % 2 ^ 6 * 2 ^ 10 + lo * 2 ^ 2) (hi % 2 ^ 6 * 2 ^ 10) (omega arith)
        (omega arith) (omega arith)
    ∙ calc_loop-shift 5 _ _ (hi % 2 ^ 5 * 2 ^ 11 + lo * 2 ^ 3) (hi % 2 ^ 5 * 2 ^ 11) (omega arith)
        (omega arith) (omega arith)
    ∙ calc_loop-shift 4 _ _ (hi % 2 ^ 4 * 2 ^ 12 + lo * 2 ^ 4) (hi % 2 ^ 4 * 2 ^ 12) (omega arith)
        (omega arith) (omega arith)
    ∙ calc_loop-shift 3 _ _ (hi % 2 ^ 3 * 2 ^ 13 + lo * 2 ^ 5) (hi % 2 ^ 3 * 2 ^ 13) (omega arith)
        (omega arith) (omega arith)
    ∙ calc_loop-shift 2 _ _ (hi % 2 ^ 2 * 2 ^ 14 + lo * 2 ^ 6) (hi % 2 ^ 2 * 2 ^ 14) (omega arith)
        (omega arith) (omega arith)
    ∙ calc_loop-shift 1 _ _ (hi % 2 ^ 1 * 2 ^ 15 + lo * 2 ^ 7) (hi % 2 ^ 1 * 2 ^ 15) (omega arith)
        (omega arith) (omega arith)
    ∙ calc_loop-shift 0 _ _ (lo * 2 ^ 8) 0 (omega arith) (omega arith) (omega arith)

calc_step-lt : (crc ch : ℕ) → calc_step crc ch < 2 ^ 16
unfolding calc_step
calc_step-lt crc ch =
    if-both (λ x. x < 2 ^ 16) (bit_and (bit_xor ch crc) 0x8000 == 0) _ _ (omega arith)
      (bit_xor-lt 16 (crc * 2 % 2 ^ 16) 0x1021 (omega arith) (omega arith))

calc_loop-lt : (i crc ch : ℕ) → crc < 2 ^ 16 → calc_loop i crc ch < 2 ^ 16
unfolding calc_loop
calc_loop-lt zero crc ch h = h
calc_loop-lt (suc i) crc ch h = calc_loop-lt i _ _ (calc_step-lt crc ch)

crc_ccitt_from-lt : (crc : ℕ) (bytes : List ℕ) → crc < 2 ^ 16 → crc_ccitt_from crc bytes < 2 ^ 16
unfolding crc_ccitt_from calc_crc
crc_ccitt_from-lt crc [] h = h
crc_ccitt_from-lt crc (ch ∷ bytes) h =
    crc_ccitt_from-lt (calc_crc crc ch) bytes (calc_loop-lt 8 crc (ch * 2 ^ 8 % 2 ^ 16) h)

crc_ccitt_from-append :
    (crc : ℕ) (xs ys : List ℕ)
    → crc_ccitt_from crc (xs ++ ys) ≡ crc_ccitt_from (crc_ccitt_from crc xs) ys
unfolding crc_ccitt_from
crc_ccitt_from-append crc [] ys = refl
crc_ccitt_from-append crc (x ∷ xs) ys = crc_ccitt_from-append (calc_crc crc x) xs ys

own_sum : (c : ℕ) → c < 2 ^ 16 → calc_crc (calc_crc c (c / 2 ^ 8 % 2 ^ 8)) (c % 2 ^ 8) ≡ 0
own_sum c h =
    let whole : c ≡ c / 2 ^ 8 % 2 ^ 8 * 2 ^ 8 + c % 2 ^ 8 = omega arith in
    let upper : calc_crc c (c / 2 ^ 8 % 2 ^ 8) ≡ c % 2 ^ 8 * 2 ^ 8 =
      ap (λ x. calc_crc x (c / 2 ^ 8 % 2 ^ 8)) whole
      ∙ calc_crc-upper (c / 2 ^ 8 % 2 ^ 8) (c % 2 ^ 8) (omega arith) (omega arith) in
    ap (λ x. calc_crc x (c % 2 ^ 8)) (upper ∙ omega arith)
    ∙ calc_crc-upper (c % 2 ^ 8) 0 (omega arith) (omega arith)

-- Every command and reply with its sum behind it has the sum zero.
pub crc_ccitt-with_crc : (text : List ℕ) → crc_ccitt (with_crc text) ≡ 0
unfolding crc_ccitt with_crc crc_ccitt_from
crc_ccitt-with_crc text =
    crc_ccitt_from-append 0 text _
    ∙ own_sum (crc_ccitt text) (crc_ccitt_from-lt 0 text (omega arith))
