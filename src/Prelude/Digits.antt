-- ===== src/Prelude/Digits.antt =====
-- The binary digits of the results of `&`, `|` and of masks.
use Prim.Native.Nat.{
  ℕ, zero, suc, ◌+◌, ◌-◌, ◌*◌, ◌/◌, ◌%◌, ◌^◌, ◌≤◌, ◌<◌, bit_and, bit_or, min, max, bit_or-bitwise,
}
use mathlib.Core.Path.{◌≡◌, refl, sym, ap, ap₂, ◌∙◌}
use mathlib.Core.Logic.{◌≢◌}
use native.Mathlib.Nat.{pow-suc}
use native.Mathlib.Omega.{arith}
use emulation_lib.Prelude.Bits.{bit_and_step, bitwise-suc, div-two-pow}

-- The digit with the weight 2 ^ i.
abbrev pub digit : ℕ → ℕ → ℕ
digit i a = a / 2 ^ i % 2

digit-suc : (i a : ℕ) → digit (suc i) a ≡ digit i (a / 2)
digit-suc i a = ground (arith, div-two-pow i a)

digit-lt : (i a : ℕ) → digit i a < 2
digit-lt i a = omega arith

bit_or_step : (x y : ℕ) → bit_or x y ≡ bit_or (x / 2) (y / 2) * 2 + max (x % 2) (y % 2)
bit_or_step zero y = simp bit_or-bitwise (omega arith)
bit_or_step (suc x) y = simp bit_or-bitwise (omega (arith, bitwise-suc (λ y. y) max x y))

pub digit-bit_and : (i a b : ℕ) → digit i (bit_and a b) ≡ min (digit i a) (digit i b)
digit-bit_and zero a b = omega (arith, bit_and_step a b)
digit-bit_and (suc i) a b =
    digit-suc i (bit_and a b)
    ∙ ap (λ (n : ℕ). digit i n) (omega (arith, bit_and_step a b))
    ∙ digit-bit_and i (a / 2) (b / 2)
    ∙ sym (ap₂ min (digit-suc i a) (digit-suc i b))

pub digit-bit_or : (i a b : ℕ) → digit i (bit_or a b) ≡ max (digit i a) (digit i b)
digit-bit_or zero a b = omega (arith, bit_or_step a b)
digit-bit_or (suc i) a b =
    digit-suc i (bit_or a b)
    ∙ ap (λ (n : ℕ). digit i n) (omega (arith, bit_or_step a b))
    ∙ digit-bit_or i (a / 2) (b / 2)
    ∙ sym (ap₂ max (digit-suc i a) (digit-suc i b))

pub digit-zero : (i : ℕ) → digit i 0 ≡ 0
digit-zero zero = refl
digit-zero (suc i) = digit-suc i 0 ∙ digit-zero i

pub two_pow-pos : (n : ℕ) → 1 ≤ 2 ^ n
two_pow-pos zero = omega arith
two_pow-pos (suc n) = omega (arith, pow-suc 2 n, two_pow-pos n)

two_pow_lt : (k n : ℕ) → k < n → 2 ^ k < 2 ^ n
two_pow_lt k zero h = absurd (omega arith)
two_pow_lt zero (suc n) h = omega (arith, pow-suc 2 n, two_pow-pos n)
two_pow_lt (suc k) (suc n) h = omega (arith, pow-suc 2 n, pow-suc 2 k, two_pow_lt k n (omega arith))

pub digit-pow_self : (k : ℕ) → digit k (2 ^ k) ≡ 1
digit-pow_self zero = refl
digit-pow_self (suc k) =
    digit-suc k (2 ^ suc k)
    ∙ ap (λ (n : ℕ). digit k n) (omega (arith, pow-suc 2 k))
    ∙ digit-pow_self k

pub digit-pow_ne : (i k : ℕ) → i ≢ k → digit i (2 ^ k) ≡ 0
digit-pow_ne zero zero h = absurd (h refl)
digit-pow_ne zero (suc k) h = omega (arith, pow-suc 2 k)
digit-pow_ne (suc i) zero h = digit-suc i 1 ∙ digit-zero i
digit-pow_ne (suc i) (suc k) h =
    digit-suc i (2 ^ suc k)
    ∙ ap (λ (n : ℕ). digit i n) (omega (arith, pow-suc 2 k))
    ∙ digit-pow_ne i k (λ e. h (ap suc e))

digit-ones : (i n : ℕ) → i < n → digit i (2 ^ n - 1) ≡ 1
digit-ones i zero h = absurd (omega arith)
digit-ones zero (suc n) h = omega (arith, pow-suc 2 n, two_pow-pos n)
digit-ones (suc i) (suc n) h =
    digit-suc i (2 ^ suc n - 1)
    ∙ ap (λ (m : ℕ). digit i m) (omega (arith, pow-suc 2 n, two_pow-pos n))
    ∙ digit-ones i n (omega arith)

-- The mask of n digits without one of them: that digit, and another.
pub digit-mask_self : (k n : ℕ) → k < n → digit k (2 ^ n - 1 - 2 ^ k) ≡ 0
digit-mask_self k zero h = absurd (omega arith)
digit-mask_self zero (suc n) h = omega (arith, pow-suc 2 n, two_pow-pos n)
digit-mask_self (suc k) (suc n) h =
    digit-suc k (2 ^ suc n - 1 - 2 ^ suc k)
    ∙ ap (λ (m : ℕ). digit k m)
        (omega (arith, pow-suc 2 n, pow-suc 2 k, two_pow-pos n, two_pow_lt k n (omega arith)))
    ∙ digit-mask_self k n (omega arith)

pub digit-mask_ne : (i k n : ℕ) → i < n → k < n → i ≢ k → digit i (2 ^ n - 1 - 2 ^ k) ≡ 1
digit-mask_ne i k zero h l ne = absurd (omega arith)
digit-mask_ne zero zero (suc n) h l ne = absurd (ne refl)
digit-mask_ne zero (suc k) (suc n) h l ne =
    omega (arith, pow-suc 2 n, pow-suc 2 k, two_pow_lt k n (omega arith))
digit-mask_ne (suc i) zero (suc n) h l ne =
    digit-suc i (2 ^ suc n - 1 - 1)
    ∙ ap (λ (m : ℕ). digit i m) (omega (arith, pow-suc 2 n, two_pow-pos n))
    ∙ digit-ones i n (omega arith)
digit-mask_ne (suc i) (suc k) (suc n) h l ne =
    digit-suc i (2 ^ suc n - 1 - 2 ^ suc k)
    ∙ ap (λ (m : ℕ). digit i m)
        (omega (arith, pow-suc 2 n, pow-suc 2 k, two_pow-pos n, two_pow_lt k n (omega arith)))
    ∙ digit-mask_ne i k n (omega arith) (omega arith) (λ e. ne (ap suc e))
