-- ===== src/Cpu.antt =====
-- cpu.c: the emulated stack. The functions for the processor mode and pop_u32 are in
-- `Memory.Access`, which needs them.
pub mod Stack
use tosemu.Base.{ℕ, ◌+◌, ◌-◌, ◌%◌, add32, sub32, u16_mod}
use tosemu.Platform.{Platform, Register}
use tosemu.Machine.{State, M, done, pure, ◌>>=◌, ◌>>◌, m68k_get_reg, m68k_set_reg}
use tosemu.Memory.Access.{tos_read, pop_u32_by}
use tosemu.Memory.{
  m68k_read_disassembler_8, m68k_read_disassembler_16, m68k_read_disassembler_32,
  m68k_write_memory_16, m68k_write_memory_32,
}

module _ ⦃p : Platform⦄ where
  unfoldable pub push_u16 : ℕ → M (Unit {0})
  unfolding m68k_get_reg m68k_set_reg m68k_write_memory_16
  push_u16 value = do
    sp ← m68k_get_reg Register.a7
    m68k_write_memory_16 (sub32 sp 2) value
    m68k_set_reg Register.a7 (sub32 sp 2)

  unfoldable pub push_u32 : ℕ → M (Unit {0})
  unfolding m68k_get_reg m68k_set_reg m68k_write_memory_32
  push_u32 value = do
    sp ← m68k_get_reg Register.a7
    m68k_write_memory_32 (sub32 sp 4) value
    m68k_set_reg Register.a7 (sub32 sp 4)

  unfoldable pub pop_u16 : M ℕ
  unfolding m68k_get_reg m68k_set_reg m68k_read_disassembler_16
  pop_u16 = do
    sp ← m68k_get_reg Register.a7
    value ← m68k_read_disassembler_16 sp
    m68k_set_reg Register.a7 (add32 sp 2)
    pure (value % u16_mod)

  unfoldable pub pop_u32 : M ℕ
  unfolding pop_u32_by
  pop_u32 = pop_u32_by tos_read

  unfoldable pub peek_u8 : ℕ → M ℕ
  unfolding m68k_get_reg m68k_read_disassembler_8
  peek_u8 offset = do sp ← m68k_get_reg Register.a7; m68k_read_disassembler_8 (add32 sp offset)

  unfoldable pub peek_u16 : ℕ → M ℕ
  unfolding m68k_get_reg m68k_read_disassembler_16
  peek_u16 offset = do
    sp ← m68k_get_reg Register.a7
    value ← m68k_read_disassembler_16 (add32 sp offset)
    pure (value % u16_mod)

  unfoldable pub peek_u32 : ℕ → M ℕ
  unfolding m68k_get_reg m68k_read_disassembler_32
  peek_u32 offset = do sp ← m68k_get_reg Register.a7; m68k_read_disassembler_32 (add32 sp offset)

  -- The bit pattern of the `int32_t`.
  unfoldable pub peek_s32 : ℕ → M ℕ
  unfolding peek_u32
  peek_s32 offset = peek_u32 offset
