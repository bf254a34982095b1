-- ===== src/Memory/Access.antt =====
-- memory.c and cpu.c: reads and writes of the emulated memory. A read of the magic byte 0x201 pops a
-- word from the emulated stack (xbios.c), which reads memory again: `tos_read` recurs on the fuel.
use tosemu.Base.{
  ℕ, zero, suc, ◌+◌, ◌*◌, ◌/◌, ◌%◌, ◌^◌, Bool, List, [], ◌∷◌, none, some, ◌==◌, if◌then◌else◌,
  bit_and, bit_or, add32, sub32, u16_mod, u32_mod,
}
use tosemu.Platform.{Platform, Register}
use tosemu.Memory.Area.{
  MemoryArea, ptr_read, ptr_write, magic_xbios_supexec_read, magic_xbios_supexec_write, memory_read,
  memory_write, memory_superread, memory_superwrite, find_memarea,
}
use tosemu.Machine.{
  State, M, done, out_of_fuel, pure, ◌>>=◌, ◌>>◌, m68k_get_reg, m68k_set_reg, halt_execution,
  update,
}

-- The flags of which an area needs one to be read, or written, in supervisor or user mode.
abbrev pub read_mask : Bool → ℕ
read_mask super = if super then bit_or memory_read memory_superread else memory_read

abbrev pub write_mask : Bool → ℕ
write_mask super = if super then bit_or memory_write memory_superwrite else memory_write

module _ ⦃p : Platform⦄ where
  -- cpu.c: the supervisor bit of the status register.
  unfoldable pub enable_supervisor_mode : M (Unit {0})
  unfolding m68k_get_reg m68k_set_reg
  enable_supervisor_mode = do
    sr ← m68k_get_reg Register.sr
    m68k_set_reg Register.sr (bit_or sr 0x2000)

  unfoldable pub disable_supervisor_mode : M (Unit {0})
  unfolding m68k_get_reg m68k_set_reg
  disable_supervisor_mode = do
    sr ← m68k_get_reg Register.sr
    m68k_set_reg Register.sr (bit_and sr 0xffff_dfff)

  abbrev pub supervisor : State → Bool
  supervisor m = bit_and (p.m68k_get_reg Register.sr m.cpu) 0x2000 == 0x2000

  unfoldable pub is_supervisor_mode_enabled : M Bool
  is_supervisor_mode_enabled fuel m = done (supervisor m) m

  -- The loop of m68k_read_disassembler_16 and _32, over the function that reads a byte.
  unfoldable pub read_loop : (ℕ → M ℕ) → ℕ → ℕ → ℕ → M ℕ
  read_loop rd zero address res = pure res
  read_loop rd (suc n) address res = do
    byte ← rd address
    read_loop rd n (add32 address 1) (bit_or ((res * 2 ^ 8) % u32_mod) byte)

  -- cpu.c: pop_u32. The value goes through a `uint16_t`.
  unfoldable pub pop_u32_by : (ℕ → M ℕ) → M ℕ
  unfolding m68k_get_reg m68k_set_reg
  pop_u32_by rd = do
    sp ← m68k_get_reg Register.a7
    value ← read_loop rd 4 sp 0
    m68k_set_reg Register.a7 (add32 sp 4)
    pure (value % u16_mod)

  -- xbios.c: restore_regs, the loops over D3 to D7 and A3 to A6.
  unfoldable pub set_regs : List Register → List ℕ → M (Unit {0})
  unfolding m68k_set_reg
  set_regs [] vs = pure tt
  set_regs (r ∷ rs) [] = pure tt
  set_regs (r ∷ rs) (v ∷ vs) = m68k_set_reg r v >> set_regs rs vs

  abbrev pub saved_dregs : List Register
  saved_dregs = Register.d3 ∷ Register.d4 ∷ Register.d5 ∷ Register.d6 ∷ Register.d7 ∷ []

  abbrev pub saved_aregs : List Register
  saved_aregs = Register.a3 ∷ Register.a4 ∷ Register.a5 ∷ Register.a6 ∷ []

  unfoldable pub restore_regs : M (Unit {0})
  unfolding set_regs
  restore_regs fuel m = (set_regs saved_dregs m.dreg >> set_regs saved_aregs m.areg) fuel m

  -- xbios.c: the reading of the magic bytes.
  unfoldable pub magic_read_by : (ℕ → M ℕ) → ℕ → M ℕ
  unfolding pop_u32_by disable_supervisor_mode m68k_set_reg restore_regs
  magic_read_by rd address =
      if address == 0x200
      then pure 0x4e
      else if address == 0x201
      then (do
        lv0 ← pop_u32_by rd
        disable_supervisor_mode
        m68k_set_reg Register.pc lv0
        restore_regs
        pure 0x71)
      else pure 0

  -- memory.c: ptr_read, and the call through the area's function pointer.
  unfoldable pub call_read : (ℕ → M ℕ) → MemoryArea → ℕ → M ℕ
  call_read rd area address fuel m = elim area.read [
    | ptr_read ↦ done (m.host_mem (area.ptr + sub32 address area.base)) m
    | magic_xbios_supexec_read ↦ magic_read_by rd address fuel m
  ]

  unfoldable pub tos_read_by : (ℕ → M ℕ) → ℕ → M ℕ
  unfolding call_read halt_execution
  tos_read_by rd address fuel m = elim (find_memarea address m.areas) [
    | none ↦ (halt_execution >> pure 0) fuel m
    | some area ↦
        if bit_and area.flags (read_mask (supervisor m)) == 0
        then (halt_execution >> pure 0) fuel m
        else call_read rd area address fuel m
  ]

  unfoldable pub tos_read : ℕ → M ℕ
  unfolding tos_read_by
  tos_read address zero m = out_of_fuel
  tos_read address (suc fuel) m = tos_read_by (λ a _ m'. tos_read a fuel m') address (suc fuel) m

  -- memory.c: the call through the area's function pointer for writing, and tos_write.
  unfoldable pub call_write : MemoryArea → ℕ → ℕ → M (Unit {0})
  unfolding halt_execution
  call_write area address value fuel m = elim area.write [
    | ptr_write ↦
        done tt
          (record m { host_mem = update m.host_mem (area.ptr + sub32 address area.base) value })
    | magic_xbios_supexec_write ↦ halt_execution fuel m
  ]

  unfoldable pub tos_write : ℕ → ℕ → M (Unit {0})
  unfolding call_write halt_execution
  tos_write address value fuel m = elim (find_memarea address m.areas) [
    | none ↦ halt_execution fuel m
    | some area ↦
        if bit_and area.flags (write_mask (supervisor m)) == 0
        then halt_execution fuel m
        else call_write area address value fuel m
  ]

  -- The loop of m68k_write_memory_16 and _32: the low byte goes to the last address.
  unfoldable pub write_loop : ℕ → ℕ → ℕ → M (Unit {0})
  unfolding tos_write
  write_loop zero address value = pure tt
  write_loop (suc n) address value =
      tos_write (add32 address n) (bit_and value 0xff) >> write_loop n address (value / 2 ^ 8)
