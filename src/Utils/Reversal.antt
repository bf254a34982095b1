-- ===== src/Utils/Reversal.antt =====
-- utils.c: the byte order conversions reverse the bytes of a word.
use tosemu.Base.{ℕ, ◌+◌, ◌*◌, ◌/◌, ◌%◌, ◌^◌, ◌<◌, ◌≡◌, arith, bit_or, bit_and, u16_mod, u32_mod}
use tosemu.Base.Bits.{shifted-bit_or, byte-bit_and}
use tosemu.Utils.{endianize_loop, endianize_16, endianize_32}

-- One round: the lowest byte of `in_` becomes the lowest byte of what is shifted up.
round_lem :
    (out in_ : ℕ)
    → bit_or ((out * 2 ^ 8) % u32_mod) (bit_and 0xff in_) ≡ out % 2 ^ 24 * 2 ^ 8 + in_ % 256
round_lem out in_ =
    let e : (out * 2 ^ 8) % u32_mod ≡ out % 2 ^ 24 * 2 ^ 8 = omega arith in
    rw (e, byte-bit_and in_) (shifted-bit_or 8 (out % 2 ^ 24) (in_ % 256) (omega arith))

round_16 :
    (out in_ : ℕ)
    → bit_or ((out * 2 ^ 8) % u16_mod) (bit_and 0xff in_) ≡ out % 2 ^ 8 * 2 ^ 8 + in_ % 256
round_16 out in_ =
    let e : (out * 2 ^ 8) % u16_mod ≡ out % 2 ^ 8 * 2 ^ 8 = omega arith in
    rw (e, byte-bit_and in_) (shifted-bit_or 8 (out % 2 ^ 8) (in_ % 256) (omega arith))

pub reversed_16 : (out x : ℕ) → endianize_16 out x ≡ x % 256 * 2 ^ 8 + x / 2 ^ 8 % 256
unfolding endianize_16 endianize_loop
reversed_16 out x =
    rw (round_16 out x, round_16 (out % 2 ^ 8 * 2 ^ 8 + x % 256) (x / 2 ^ 8)) (omega arith)

pub reversed_32 :
    (out x : ℕ)
    → endianize_32 out x
      ≡ x % 256 * 2 ^ 24 + x / 2 ^ 8 % 256 * 2 ^ 16 + x / 2 ^ 16 % 256 * 2 ^ 8 + x / 2 ^ 24 % 256
unfolding endianize_32 endianize_loop
reversed_32 out x =
    let a = out % 2 ^ 24 * 2 ^ 8 + x % 256 in
    let b = a % 2 ^ 24 * 2 ^ 8 + x / 2 ^ 8 % 256 in
    let c = b % 2 ^ 24 * 2 ^ 8 + x / 2 ^ 8 / 2 ^ 8 % 256 in
    rw (round_lem out x) (
      rw (round_lem a (x / 2 ^ 8)) (
        rw (round_lem b (x / 2 ^ 8 / 2 ^ 8))
          (rw (round_lem c (x / 2 ^ 8 / 2 ^ 8 / 2 ^ 8)) (omega arith))))

-- The conversions of 16- and 32-bit words are their own inverses, whatever is in the variable `out` at
-- the start of each of the calls.
pub endianize-endianize :
    (o p x y : ℕ)
    → x < u16_mod
    → y < u32_mod
    → (endianize_16 o (endianize_16 p x) ≡ x) × (endianize_32 o (endianize_32 p y) ≡ y)
endianize-endianize o p x y wx wy = (
  omega (arith, reversed_16 o (endianize_16 p x), reversed_16 p x),
  omega (arith, reversed_32 o (endianize_32 p y), reversed_32 p y),
)
