-- ===== src/Base/Bits.antt =====
-- Laws of the native bit operations at variables, from the digit recursion they stand for.
use Prim.Native.Nat.{
  ℕ, zero, suc, ◌+◌, ◌*◌, ◌/◌, ◌%◌, ◌^◌, ◌≤◌, ◌<◌, min, max, bit_and, bit_or, digits,
  bit_and-bitwise, bit_or-bitwise,
}
use mathlib.Core.Path.{◌≡◌, refl, ap, sym, ◌∙◌}
use native.Mathlib.Omega.{arith}
use native.Mathlib.Nat.{pow-suc, mul_comm, mul_assoc, div-div-eq-div-mul}

module _ (z : ℕ → ℕ) (f : ℕ → ℕ → ℕ) where
  -- A count of digits above the first number gives the same as the number itself.
  settled : (bound n a b : ℕ) → n ≤ bound → a ≤ n → digits z f n a b ≡ digits z f a a b
  settled _ zero zero b below few = refl
  settled _ (suc n) zero b below few = refl
  settled _ zero (suc a) b below few = elim few [ ]
  settled zero (suc n) (suc a) b below few = elim below [ ]
  settled (suc bound) (suc n) (suc a) b below few =
      let long = settled bound n (suc a / 2) (b / 2) (omega arith) (omega arith) in
      let short = settled bound a (suc a / 2) (b / 2) (omega arith) (omega arith) in
      ap (λ t. t * 2 + f (suc a % 2) (b % 2)) (long ∙ sym short)

  lowest_digit :
      (a b : ℕ)
      → digits z f (suc a) (suc a) b
        ≡ digits z f (suc a / 2) (suc a / 2) (b / 2) * 2 + f (suc a % 2) (b % 2)
  lowest_digit a b =
      ap (λ t. t * 2 + f (suc a % 2) (b % 2))
        (settled a a (suc a / 2) (b / 2) (omega arith) (omega arith))

bit_and-halves : (a b : ℕ) → bit_and a b ≡ bit_and (a / 2) (b / 2) * 2 + min (a % 2) (b % 2)
bit_and-halves zero b = omega (arith, bit_and-bitwise 0 b, bit_and-bitwise 0 (b / 2))
bit_and-halves (suc a) b =
    bit_and-bitwise (suc a) b
    ∙ lowest_digit (λ _. 0) min a b
    ∙ ap (λ t. t * 2 + min (suc a % 2) (b % 2)) (sym (bit_and-bitwise (suc a / 2) (b / 2)))

bit_or-halves : (a b : ℕ) → bit_or a b ≡ bit_or (a / 2) (b / 2) * 2 + max (a % 2) (b % 2)
bit_or-halves zero b = omega (arith, bit_or-bitwise 0 b, bit_or-bitwise 0 (b / 2))
bit_or-halves (suc a) b =
    bit_or-bitwise (suc a) b
    ∙ lowest_digit (λ d. d) max a b
    ∙ ap (λ t. t * 2 + max (suc a % 2) (b % 2)) (sym (bit_or-bitwise (suc a / 2) (b / 2)))

-- Digit `k` of a number.
abbrev bit : ℕ → ℕ → ℕ
bit k a = a / 2 ^ k % 2

quotient-suc : (k a : ℕ) → a / 2 ^ suc k ≡ a / 2 / 2 ^ k
quotient-suc k a =
    ap (λ t. a / t) (pow-suc 2 k ∙ mul_comm (2 ^ k) 2) ∙ sym (div-div-eq-div-mul a 2 (2 ^ k))

bit-suc : (k a h : ℕ) → a / 2 ≡ h → bit (suc k) a ≡ bit k h
bit-suc k a h e = ap (λ t. t % 2) (quotient-suc k a ∙ ap (λ t. t / 2 ^ k) e)

-- The operations work on each digit alone.
bit-bit_and : (k a b : ℕ) → bit k (bit_and a b) ≡ min (bit k a) (bit k b)
bit-bit_and zero a b = omega (arith, bit_and-halves a b)
bit-bit_and (suc k) a b =
    bit-suc k (bit_and a b) (bit_and (a / 2) (b / 2)) (omega (arith, bit_and-halves a b))
    ∙ (rw (bit-suc k a (a / 2) refl, bit-suc k b (b / 2) refl) (bit-bit_and k (a / 2) (b / 2)))

bit-bit_or : (k a b : ℕ) → bit k (bit_or a b) ≡ max (bit k a) (bit k b)
bit-bit_or zero a b = omega (arith, bit_or-halves a b)
bit-bit_or (suc k) a b =
    bit-suc k (bit_or a b) (bit_or (a / 2) (b / 2)) (omega (arith, bit_or-halves a b))
    ∙ (rw (bit-suc k a (a / 2) refl, bit-suc k b (b / 2) refl) (bit-bit_or k (a / 2) (b / 2)))

double : (k b : ℕ) → b * 2 ^ suc k ≡ b * 2 ^ k * 2
double k b = ap (λ (t : ℕ). b * t) (pow-suc 2 k) ∙ sym (mul_assoc b (2 ^ k) 2)

-- Fields that do not overlap are joined by addition.
pub bit_or-shifted : (k a b : ℕ) → a < 2 ^ k → bit_or a (b * 2 ^ k) ≡ a + b * 2 ^ k
bit_or-shifted zero a b h =
    let none : a ≡ 0 = omega arith in rw none (omega (arith, bit_or-bitwise 0 (b * 2 ^ 0)))
bit_or-shifted (suc k) a b h =
    let half : (b * 2 ^ k * 2) / 2 ≡ b * 2 ^ k = omega arith in
    rw (double k b) (
      omega (
        arith,
        bit_or-halves a (b * 2 ^ k * 2),
        ap (bit_or (a / 2)) half,
        bit_or-shifted k (a / 2) b (omega (arith, pow-suc 2 k)),
      ))

bit_or-zero : (bound a : ℕ) → a ≤ bound → bit_or a 0 ≡ a
bit_or-zero _ zero below = refl
bit_or-zero zero (suc a) below = elim below [ ]
bit_or-zero (suc bound) (suc a) below =
    omega (arith, bit_or-halves (suc a) 0, bit_or-zero bound (suc a / 2) (omega arith))

pub shifted-bit_or : (k a b : ℕ) → b < 2 ^ k → bit_or (a * 2 ^ k) b ≡ a * 2 ^ k + b
shifted-bit_or zero a b h =
    let none : b ≡ 0 = omega arith in
    rw none (omega (arith, bit_or-zero (a * 2 ^ 0) (a * 2 ^ 0) (omega arith)))
shifted-bit_or (suc k) a b h =
    let half : (a * 2 ^ k * 2) / 2 ≡ a * 2 ^ k = omega arith in
    rw (double k a) (
      omega (
        arith,
        bit_or-halves (a * 2 ^ k * 2) b,
        ap (λ t. bit_or t (b / 2)) half,
        shifted-bit_or k a (b / 2) (omega (arith, pow-suc 2 k)),
      ))

-- A mask cuts a number down.
bit_and-le : (bound a m : ℕ) → a ≤ bound → bit_and a m ≤ m
bit_and-le _ zero m below = omega (arith, bit_and-bitwise 0 m)
bit_and-le zero (suc a) m below = elim below [ ]
bit_and-le (suc bound) (suc a) m below =
    omega (arith, bit_and-halves (suc a) m, bit_and-le bound (suc a / 2) (m / 2) (omega arith))

empty_mask : (a : ℕ) → bit_and a 0 ≡ 0
empty_mask a = omega (arith, bit_and-le a a 0 (omega arith))

bit_and_odd : (a m : ℕ) → bit_and a (m * 2 + 1) ≡ bit_and (a / 2) m * 2 + a % 2
bit_and_odd a m =
    let half : (m * 2 + 1) / 2 ≡ m = omega arith in
    omega (arith, bit_and-halves a (m * 2 + 1), ap (bit_and (a / 2)) half)

-- A mask of ones below bit k is the remainder by 2 ^ k: here at the byte.
pub bit_and_byte : (a : ℕ) → bit_and a 0xff ≡ a % 256
bit_and_byte a = omega (
  arith,
  bit_and_odd a 0x7f,
  bit_and_odd (a / 2) 0x3f,
  bit_and_odd (a / 2 / 2) 0x1f,
  bit_and_odd (a / 2 / 2 / 2) 0xf,
  bit_and_odd (a / 2 / 2 / 2 / 2) 7,
  bit_and_odd (a / 2 / 2 / 2 / 2 / 2) 3,
  bit_and_odd (a / 2 / 2 / 2 / 2 / 2 / 2) 1,
  bit_and_odd (a / 2 / 2 / 2 / 2 / 2 / 2 / 2) 0,
  empty_mask (a / 2 / 2 / 2 / 2 / 2 / 2 / 2 / 2),
)

-- The mask may be the first argument.
odd-bit_and : (m a : ℕ) → bit_and (m * 2 + 1) a ≡ bit_and m (a / 2) * 2 + a % 2
odd-bit_and m a =
    let half : (m * 2 + 1) / 2 ≡ m = omega arith in
    omega (arith, bit_and-halves (m * 2 + 1) a, ap (λ t. bit_and t (a / 2)) half)

pub byte-bit_and : (a : ℕ) → bit_and 0xff a ≡ a % 256
byte-bit_and a = omega (
  arith,
  odd-bit_and 0x7f a,
  odd-bit_and 0x3f (a / 2),
  odd-bit_and 0x1f (a / 2 / 2),
  odd-bit_and 0xf (a / 2 / 2 / 2),
  odd-bit_and 7 (a / 2 / 2 / 2 / 2),
  odd-bit_and 3 (a / 2 / 2 / 2 / 2 / 2),
  odd-bit_and 1 (a / 2 / 2 / 2 / 2 / 2 / 2),
  odd-bit_and 0 (a / 2 / 2 / 2 / 2 / 2 / 2 / 2),
  bit_and-bitwise 0 (a / 2 / 2 / 2 / 2 / 2 / 2 / 2 / 2),
)

bit_and_even : (a m : ℕ) → bit_and a (m * 2) ≡ bit_and (a / 2) m * 2
bit_and_even a m =
    let half : (m * 2) / 2 ≡ m = omega arith in
    omega (arith, bit_and-halves a (m * 2), ap (bit_and (a / 2)) half)

-- Bit `k`, where the mask is 2 ^ k.
bit_and-pow : (k a : ℕ) → bit_and a (2 ^ k) ≡ a / 2 ^ k % 2 * 2 ^ k
bit_and-pow zero a = omega (arith, bit_and_odd a 0, empty_mask (a / 2))
bit_and-pow (suc k) a = rw (pow-suc 2 k) (
    bit_and_even a (2 ^ k)
    ∙ ap (λ t. t * 2) (bit_and-pow k (a / 2))
    ∙ mul_assoc (a / 2 / 2 ^ k % 2) (2 ^ k) 2
    ∙ ap (λ t. t % 2 * (2 ^ k * 2)) (sym (quotient-suc k a) ∙ ap (λ t. a / t) (pow-suc 2 k)))

-- Bit 13 of the status register, the supervisor bit.
pub bit_and_supervisor : (a : ℕ) → bit_and a 0x2000 ≡ a / 0x2000 % 2 * 0x2000
bit_and_supervisor a = bit_and-pow 13 a

-- Setting and clearing the supervisor bit of a status word.
pub set_supervisor : (s : ℕ) → bit_and (bit_or s 0x2000) 0x2000 ≡ 0x2000
set_supervisor s = omega (arith, bit_and_supervisor (bit_or s 0x2000), bit-bit_or 13 s 0x2000)

pub clear_supervisor : (s : ℕ) → bit_and (bit_and s 0xffff_dfff) 0x2000 ≡ 0
clear_supervisor s =
    omega (arith, bit_and_supervisor (bit_and s 0xffff_dfff), bit-bit_and 13 s 0xffff_dfff)
