-- ===== src/Utils.antt =====
-- utils.c: the byte order conversions. `out` starts indeterminate in the source; its start is an
-- argument here.
pub mod Reversal
use tosemu.Base.{ℕ, zero, suc, ◌*◌, ◌/◌, ◌%◌, ◌^◌, bit_and, bit_or, u16_mod, u32_mod}

-- The loops, for a word of the given modulus.
unfoldable pub endianize_loop : (modulus rounds out in_ : ℕ) → ℕ
endianize_loop modulus zero out in_ = out
endianize_loop modulus (suc rounds) out in_ =
    endianize_loop modulus rounds (bit_or ((out * 2 ^ 8) % modulus) (bit_and 0xff in_))
      (in_ / 2 ^ 8)

unfoldable pub endianize_16 : (out in_ : ℕ) → ℕ
unfolding endianize_loop
endianize_16 out in_ = endianize_loop u16_mod 2 out in_

unfoldable pub endianize_32 : (out in_ : ℕ) → ℕ
unfolding endianize_loop
endianize_32 out in_ = endianize_loop u32_mod 4 out in_
