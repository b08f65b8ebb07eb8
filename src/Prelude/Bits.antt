-- ===== src/Prelude/Bits.antt =====
-- Laws of `bit_xor`, and of `bit_and` and `bit_or` with a mask, at variables. A native operation stands
-- for a recursion on binary digits;
-- the `_halves` lemmas are their equations without fuel, and everything else follows from it.
use Prim.Native.Nat.{
  ℕ, zero, suc, ◌+◌, ◌*◌, ◌/◌, ◌%◌, ◌^◌, ◌≤◌, ◌<◌, bit_and, bit_xor, min, digits, bitwise,
  bit_and-bitwise, bit_xor-bitwise, differ,
}
use mathlib.Core.Path.{◌≡◌, refl, ap, ◌∙◌}
use native.Mathlib.Nat.{le_refl, pow-suc, div-div-eq-div-mul}
use native.Mathlib.Omega.{arith}

module _ (last : ℕ → ℕ) (digit : ℕ → ℕ → ℕ) where
  -- Any two amounts of fuel that are large enough give the same digits.
  same_digits :
      (j k x y : ℕ) → (x ≤ j) × (x ≤ k) → digits last digit j x y ≡ digits last digit k x y
  same_digits zero zero zero y enough = refl
  same_digits zero (suc k) zero y enough = refl
  same_digits (suc j) zero zero y enough = refl
  same_digits (suc j) (suc k) zero y enough = refl
  same_digits zero k (suc x) y enough = absurd (omega (arith, enough.0))
  same_digits (suc j) zero (suc x) y enough = absurd (omega (arith, enough.1))
  same_digits (suc j) (suc k) (suc x) y enough =
      ap (λ (rest : ℕ). rest * 2 + digit (suc x % 2) (y % 2))
        (same_digits j k (suc x / 2) (y / 2) (omega (arith, enough.0), omega (arith, enough.1)))

  pub bitwise-suc :
      (x y : ℕ)
      → bitwise last digit (suc x) y
        ≡ bitwise last digit (suc x / 2) (y / 2) * 2 + digit (suc x % 2) (y % 2)
  bitwise-suc x y =
      ap (λ (rest : ℕ). rest * 2 + digit (suc x % 2) (y % 2))
        (same_digits x (suc x / 2) (suc x / 2) (y / 2) (omega arith, le_refl _))

bit_xor_step : (a b : ℕ) → bit_xor a b ≡ bit_xor (a / 2) (b / 2) * 2 + differ (a % 2) (b % 2)
bit_xor_step zero b = simp bit_xor-bitwise (omega arith)
bit_xor_step (suc a) b = simp bit_xor-bitwise (bitwise-suc (λ y. y) differ a b)

differ_digits : (x y : ℕ) → x < 2 → y < 2 → differ x y ≡ (x + y) % 2
differ_digits zero y p q = omega arith
differ_digits (suc zero) zero p q = refl
differ_digits (suc zero) (suc zero) p q = refl
differ_digits (suc zero) (suc (suc y)) p q = absurd (omega arith)
differ_digits (suc (suc x)) y p q = absurd (omega arith)

-- The lowest digit and the rest of an exclusive or.
pub bit_xor_halves : (a b : ℕ) → bit_xor a b ≡ bit_xor (a / 2) (b / 2) * 2 + (a + b) % 2
bit_xor_halves a b =
    omega (arith, bit_xor_step a b, differ_digits (a % 2) (b % 2) (omega arith) (omega arith))

pub bit_xor-div : (a b : ℕ) → bit_xor a b / 2 ≡ bit_xor (a / 2) (b / 2)
bit_xor-div a b = omega (arith, bit_xor_halves a b)

pub bit_xor-mod : (a b : ℕ) → bit_xor a b % 2 ≡ (a + b) % 2
bit_xor-mod a b = omega (arith, bit_xor_halves a b)

module _ {ℓ} {P : ℕ → Type ℓ} (base : P 0) (next : (n : ℕ) → P (n / 2) → P n) where
  halving_below : (k n : ℕ) → n ≤ k → P n
  halving_below k zero h = base
  halving_below zero (suc n) h = absurd (omega arith)
  halving_below (suc k) (suc n) h = next (suc n) (halving_below k (suc n / 2) (omega arith))

  -- Induction from `n / 2` to `n`.
  halving : (n : ℕ) → P n
  halving n = halving_below n n (le_refl _)

pub bit_xor_self : (a : ℕ) → bit_xor a a ≡ 0
bit_xor_self = halving {P = λ n. bit_xor n n ≡ 0} refl (λ n ih. omega (arith, bit_xor_halves n n))

pub zero-bit_xor : (a : ℕ) → bit_xor 0 a ≡ a
zero-bit_xor = halving {P = λ n. bit_xor 0 n ≡ n} refl (λ n ih. omega (arith, bit_xor_halves 0 n))

pub bit_xor-zero : (a : ℕ) → bit_xor a 0 ≡ a
bit_xor-zero = halving {P = λ n. bit_xor n 0 ≡ n} refl (λ n ih. omega (arith, bit_xor_halves n 0))

pub bit_xor_comm : (a b : ℕ) → bit_xor a b ≡ bit_xor b a
bit_xor_comm =
    halving {P = λ a. (b : ℕ) → bit_xor a b ≡ bit_xor b a}
      (λ b. omega (arith, zero-bit_xor b, bit_xor-zero b))
      (λ a ih b. omega (arith, bit_xor_halves a b, bit_xor_halves b a, ih (b / 2)))

pub bit_xor_assoc : (a b c : ℕ) → bit_xor (bit_xor a b) c ≡ bit_xor a (bit_xor b c)
bit_xor_assoc =
    halving {P = λ a. (b c : ℕ) → bit_xor (bit_xor a b) c ≡ bit_xor a (bit_xor b c)}
      (λ b c. rw (zero-bit_xor b, zero-bit_xor (bit_xor b c)))
      (λ a ih b c.
        rw
          (
            bit_xor_halves (bit_xor a b) c,
            bit_xor_halves a (bit_xor b c),
            bit_xor-div a b,
            bit_xor-div b c,
            ih (b / 2) (c / 2),
          )
          (omega (arith, bit_xor-mod a b, bit_xor-mod b c)))

pub bit_xor-bit_xor_self : (a b : ℕ) → bit_xor (bit_xor a b) b ≡ a
bit_xor-bit_xor_self a b = bit_xor_assoc a b b ∙ ap (bit_xor a) (bit_xor_self b) ∙ bit_xor-zero a

pub bit_xor_cancel_right : (a b c : ℕ) → bit_xor a c ≡ bit_xor b c → a ≡ b
bit_xor_cancel_right a b c e =
    cc (bit_xor-bit_xor_self a c, bit_xor-bit_xor_self b c, ap (λ (t : ℕ). bit_xor t c) e)

pub bit_xor_cancel_left : (a b c : ℕ) → bit_xor a b ≡ bit_xor a c → b ≡ c
bit_xor_cancel_left a b c e = bit_xor_cancel_right b c a (bit_xor_comm b a ∙ e ∙ bit_xor_comm a c)

pub bit_xor-lt : (k a b : ℕ) → a < 2 ^ k → b < 2 ^ k → bit_xor a b < 2 ^ k
bit_xor-lt zero a b p q = ground (arith, zero-bit_xor 0)
bit_xor-lt (suc k) a b p q = omega (
  arith,
  pow-suc 2 k,
  bit_xor_halves a b,
  bit_xor-lt k (a / 2) (b / 2) (omega (arith, pow-suc 2 k)) (omega (arith, pow-suc 2 k)),
)

mul-two-pow : (q k : ℕ) → q * 2 ^ suc k ≡ 2 * (q * 2 ^ k)
mul-two-pow q k = omega (arith, ap (λ (t : ℕ). q * t) (pow-suc 2 k))

-- The two fields of a number above and below digit `k` do not mix.
pub bit_xor_fields :
    (k p q r s : ℕ)
    → r < 2 ^ k
    → s < 2 ^ k
    → bit_xor (p * 2 ^ k + r) (q * 2 ^ k + s) ≡ bit_xor p q * 2 ^ k + bit_xor r s
bit_xor_fields zero p q r s hr hs = ground (arith, zero-bit_xor 0)
bit_xor_fields (suc k) p q r s hr hs = ground (
  arith,
  bit_xor_halves (p * 2 ^ suc k + r) (q * 2 ^ suc k + s),
  bit_xor_halves r s,
  pow-suc 2 k,
  mul-two-pow p k,
  mul-two-pow q k,
  mul-two-pow (bit_xor p q) k,
  bit_xor_fields k p q (r / 2) (s / 2),
)

pub bit_and_step : (x y : ℕ) → bit_and x y ≡ min (x % 2) (y % 2) + 2 * bit_and (x / 2) (y / 2)
bit_and_step zero y = simp bit_and-bitwise (omega arith)
bit_and_step (suc x) y = simp bit_and-bitwise (omega (arith, bitwise-suc (λ y. 0) min x y))

pub bit_and-zero : (a : ℕ) → bit_and a 0 ≡ 0
bit_and-zero = halving {P = λ n. bit_and n 0 ≡ 0} refl (λ n ih. omega (arith, bit_and_step n 0))

pub bit_and-one : (a : ℕ) → bit_and a 1 ≡ a % 2
bit_and-one a = omega (arith, bit_and_step a 1, bit_and-zero (a / 2))

pub div-two-pow : (k a : ℕ) → a / 2 / 2 ^ k ≡ a / 2 ^ suc k
div-two-pow k a =
    div-div-eq-div-mul a 2 (2 ^ k) ∙ ap (λ (t : ℕ). a / t) (omega (arith, pow-suc 2 k))

-- One digit of a number, by a mask.
pub bit_and-pow : (k a : ℕ) → bit_and a (2 ^ k) ≡ a / 2 ^ k % 2 * 2 ^ k
bit_and-pow zero a = ground (arith, bit_and-one a)
bit_and-pow (suc k) a = ground (
  arith,
  bit_and_step a (2 ^ suc k),
  pow-suc 2 k,
  div-two-pow k a,
  mul-two-pow (a / 2 ^ suc k % 2) k,
  bit_and-pow k (a / 2),
)

bit_and_ones : (a b : ℕ) → bit_and a (2 * b + 1) ≡ bit_and (a / 2) b * 2 + a % 2
bit_and_ones a b = ground (arith, bit_and_step a (2 * b + 1))

-- The low byte of a number, by a mask.
pub bit_and-byte : (a : ℕ) → bit_and a 0xFF ≡ a % 256
bit_and-byte a = omega (
  arith,
  bit_and_ones a 127,
  bit_and_ones (a / 2) 63,
  bit_and_ones (a / 2 / 2) 31,
  bit_and_ones (a / 2 / 2 / 2) 15,
  bit_and_ones (a / 2 / 2 / 2 / 2) 7,
  bit_and_ones (a / 2 / 2 / 2 / 2 / 2) 3,
  bit_and_ones (a / 2 / 2 / 2 / 2 / 2 / 2) 1,
  bit_and-one (a / 2 / 2 / 2 / 2 / 2 / 2 / 2),
)
