-- ===== src/Memory.antt =====
-- memory.c: the functions that Musashi and the other files call.
pub mod Area
pub mod Access
pub mod Cells
pub mod Flat
pub mod Words
pub mod Laws
pub mod Accesses
pub mod Removal
use tosemu.Base.{
  ℕ, ◌+◌, ◌*◌, ◌%◌, Bool, true, false, List, [], ◌∷◌, Option, none, some, if◌then◌else◌, sub32,
  u8_mod,
}
use tosemu.Platform.{Platform}
use tosemu.Machine.{State, M, done, out_of_fuel, pure, ◌>>=◌, ◌>>◌, act, halt_execution}
use Area.{
  MemoryArea, ReadFnct, WriteFnct, ptr_read, ptr_write, magic_xbios_supexec_read,
  magic_xbios_supexec_write, find_memarea,
}
use Area
use Access.{tos_read, tos_write, read_loop, write_loop}

module _ ⦃p : Platform⦄ where
  unfoldable pub m68k_read_disassembler_8 : ℕ → M ℕ
  m68k_read_disassembler_8 address = tos_read address

  unfoldable pub m68k_read_disassembler_16 : ℕ → M ℕ
  unfolding read_loop
  m68k_read_disassembler_16 address = read_loop tos_read 2 address 0

  unfoldable pub m68k_read_disassembler_32 : ℕ → M ℕ
  unfolding read_loop
  m68k_read_disassembler_32 address = read_loop tos_read 4 address 0

  unfoldable pub m68k_read_memory_8 : ℕ → M ℕ
  unfolding m68k_read_disassembler_8
  m68k_read_memory_8 address = m68k_read_disassembler_8 address

  unfoldable pub m68k_read_memory_16 : ℕ → M ℕ
  unfolding m68k_read_disassembler_16
  m68k_read_memory_16 address = m68k_read_disassembler_16 address

  unfoldable pub m68k_read_memory_32 : ℕ → M ℕ
  unfolding m68k_read_disassembler_32
  m68k_read_memory_32 address = m68k_read_disassembler_32 address

  -- The value goes through a `uint8_t`.
  unfoldable pub m68k_write_memory_8 : ℕ → ℕ → M (Unit {0})
  m68k_write_memory_8 address value = tos_write address (value % u8_mod)

  unfoldable pub m68k_write_memory_16 : ℕ → ℕ → M (Unit {0})
  unfolding write_loop
  m68k_write_memory_16 address value = write_loop 2 address value

  unfoldable pub m68k_write_memory_32 : ℕ → ℕ → M (Unit {0})
  unfolding write_loop
  m68k_write_memory_32 address value = write_loop 4 address value

  -- The address in host memory, or 0 for NULL.
  unfoldable pub tos_mem_to_host_mem : ℕ → M ℕ
  unfolding halt_execution
  tos_mem_to_host_mem address fuel m = elim (find_memarea address m.areas) [
    | none ↦ (halt_execution >> pure 0) fuel m
    | some area ↦ elim area.write [
      | magic_xbios_supexec_write ↦ (halt_execution >> pure 0) fuel m
      | ptr_write ↦ elim area.read [
        | magic_xbios_supexec_read ↦ (halt_execution >> pure 0) fuel m
        | ptr_read ↦ done (area.ptr + sub32 address area.base) m
      ]
    ]
  ]

  push_area : MemoryArea → M (Unit {0})
  push_area area fuel m = done tt (record m { areas = area ∷ m.areas })

  -- A list node has 48 bytes on a 64-bit host.
  unfoldable pub add_fnct_memory_area : (flags base len ptr : ℕ) → ReadFnct → WriteFnct → M ℕ
  unfolding push_area
  add_fnct_memory_area flags base len ptr read write = do
    ok ← act (p.malloc 48)
    let area : MemoryArea = record {
      base = base;
      len = len;
      read = read;
      write = write;
      ptr = ptr;
      flags = flags;
    }
    if ok then push_area area >> pure 0 else pure 1

  unfoldable pub add_ptr_memory_area : (flags base len ptr : ℕ) → M ℕ
  unfolding add_fnct_memory_area
  add_ptr_memory_area flags base len ptr =
      add_fnct_memory_area flags base len ptr ptr_read ptr_write

  unfoldable pub remove_memory_area : ℕ → M ℕ
  remove_memory_area base fuel m = elim (Area.remove_memory_area fuel base m.areas) [
    | none ↦ out_of_fuel
    | some (code, head) ↦ done code (record m { areas = head })
  ]

  unfoldable pub reset_memory : M (Unit {0})
  reset_memory fuel m = elim (Area.reset_memory fuel m.areas) [
    | none ↦ out_of_fuel
    | some head ↦ done tt (record m { areas = head })
  ]
