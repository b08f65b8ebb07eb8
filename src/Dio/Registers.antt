-- ===== src/Dio/Registers.antt =====
-- What a write of one bit of a register changes, and what a read of one bit gives.
use emulation_lib.Prelude.{
  ℕ, ◌-◌, ◌/◌, ◌^◌, ◌<◌, bit_and, bit_or, Bool, true, false, ◌≡◌, ◌≢◌, refl, ap, ◌∙◌, inl, inr,
  arith, if◌then◌else◌, ◌==◌, ==_iff, Bool-cases,
}
use emulation_lib.Prelude.Bits.{bit_and-pow}
use native.Mathlib.Nat.{mul-div_cancel}
use emulation_lib.Prelude.Integers.{pos}
use emulation_lib.Prelude.Digits.{
  digit, digit-bit_and, digit-bit_or, two_pow-pos, digit-pow_self, digit-pow_ne, digit-mask_self,
  digit-mask_ne,
}
use emulation_lib.Dio.{Dio, write_word, set_mask, clear_mask, drive, sense, sense_high, sense_low}

-- A word that is written, and another.
write_word_here : (d : Dio) (r w : ℕ) → (write_word d r w).words r ≡ w
unfolding write_word
write_word_here d r w = ground arith

write_word_there : (d : Dio) (r w i : ℕ) → i ≢ r → (write_word d r w).words i ≡ d.words i
unfolding write_word
write_word_there d r w i h = elim (Bool-cases (i == r)) [
  | inl e ↦ absurd (h ((==_iff i r).0 e))
  | inr e ↦ rw e refl
]

pub digit-set_mask : (d : Dio) (r k : ℕ) → digit k ((set_mask r k d).words r) ≡ 1
unfolding set_mask
digit-set_mask d r k =
    ap (λ (w : ℕ). digit k w) (write_word_here d r _)
    ∙ omega (arith, digit-bit_or k (d.words r) (2 ^ k), digit-pow_self k)

pub digit-clear_mask : (d : Dio) (r k : ℕ) → k < 16 → digit k ((clear_mask r k d).words r) ≡ 0
unfolding clear_mask
digit-clear_mask d r k h =
    ap (λ (w : ℕ). digit k w) (write_word_here d r _)
    ∙ omega (arith, digit-bit_and k (d.words r) (2 ^ 16 - 1 - 2 ^ k), digit-mask_self k 16 h)

-- Two places in the registers are different ones.
abbrev pub IsOther : ℕ → ℕ → ℕ → ℕ → Type 0
IsOther r k s i = s ≡ r → i ≢ k

pub set_mask_others :
    (d : Dio) (r k s i : ℕ)
    → IsOther r k s i
    → digit i ((set_mask r k d).words s) ≡ digit i (d.words s)
unfolding set_mask
set_mask_others d r k s i h = elim (Bool-cases (s == r)) [
  | inl e ↦
      let same = (==_iff s r).0 e in
      rw (same, write_word_here d r (bit_or (d.words r) (2 ^ k)))
        (omega (arith, digit-bit_or i (d.words r) (2 ^ k), digit-pow_ne i k (h same)))
  | inr e ↦
      ap (λ (w : ℕ). digit i w)
        (write_word_there d r _ s (λ same. absurd (ground (arith, e, same))))
]

pub clear_mask_others :
    (d : Dio) (r k s i : ℕ)
    → k < 16
    → i < 16
    → IsOther r k s i
    → digit i ((clear_mask r k d).words s) ≡ digit i (d.words s)
unfolding clear_mask
clear_mask_others d r k s i b c h = elim (Bool-cases (s == r)) [
  | inl e ↦
      let same = (==_iff s r).0 e in
      rw (same, write_word_here d r (bit_and (d.words r) (2 ^ 16 - 1 - 2 ^ k)))
        (omega (
          arith,
          digit-bit_and i (d.words r) (2 ^ 16 - 1 - 2 ^ k),
          digit-mask_ne i k 16 c b (h same),
        ))
  | inr e ↦
      ap (λ (w : ℕ). digit i w)
        (write_word_there d r _ s (λ same. absurd (ground (arith, e, same))))
]

module _ (d : Dio) (mapped : d.fpga ≡ true) where
  pub digit-drive :
      (r k : ℕ) (on : Bool) → k < 16 → digit k ((drive d r k on).1.words r) ≡ (if on then 1 else 0)
  unfolding drive clear_mask write_word set_mask
  digit-drive r k true h = rw mapped (digit-set_mask d r k)
  digit-drive r k false h = rw mapped (digit-clear_mask d r k h)

  pub drive_others :
      (r k : ℕ) (on : Bool) (s i : ℕ)
      → k < 16
      → i < 16
      → IsOther r k s i
      → digit i ((drive d r k on).1.words s) ≡ digit i (d.words s)
  unfolding drive clear_mask write_word set_mask
  drive_others r k true s i b c h = rw mapped (set_mask_others d r k s i h)
  drive_others r k false s i b c h = rw mapped (clear_mask_others d r k s i b c h)

  pub drive_ok :
      (r k : ℕ) (on : Bool) → ((drive d r k on).0 ≡ pos 0) × ((drive d r k on).1.fpga ≡ true)
  unfolding drive set_mask clear_mask write_word
  drive_ok r k true = rw mapped (refl, refl)
  drive_ok r k false = rw mapped (refl, refl)

  sensed : (r k : ℕ) → bit_and (d.words r) (2 ^ k) / 2 ^ k ≡ digit k (d.words r)
  sensed r k =
      ap (λ (n : ℕ). n / 2 ^ k) (bit_and-pow k (d.words r))
      ∙ mul-div_cancel (digit k (d.words r)) (two_pow-pos k)

  pub sense_high-digit : (r k : ℕ) → sense_high d r k ≡ digit k (d.words r)
  unfolding sense_high sense
  sense_high-digit r k = rw (mapped, sensed r k) (ground arith)

  pub sense_low-digit : (r k : ℕ) → sense_low d r k ≡ 1 - digit k (d.words r)
  unfolding sense_low sense
  sense_low-digit r k = rw (mapped, sensed r k) (ground arith)
