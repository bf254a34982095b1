-- ===== src/System/Access.antt =====
-- memory.c, cpu.c: accesses to the emulated memory leave the list of areas alone, and the variables of
-- gemdosmem.c and gemdosfile.c.
use tosemu.Base.{bit_or, ◌*◌, ◌%◌, u32_mod, u8_mod, ℕ, zero, suc, ◌/◌, ◌^◌, List, [], ◌∷◌, add32}
use tosemu.Platform.{Platform, Register}
use tosemu.Machine.{State, M, Run}
use tosemu.Machine.Keeps.{
  Frame, Holds, Leaves, Keeps, Leaves-done, Leaves-halted, Leaves-out_of_fuel, Leaves-if_run,
  Leaves-option_run, leaves_rules,
}
use tosemu.Memory.Area.{
  MemoryArea, ReadFnct, WriteFnct, ptr_read, ptr_write, magic_xbios_supexec_read,
  magic_xbios_supexec_write, find_memarea,
}
use tosemu.Memory.Access.{
  read_loop, pop_u32_by, set_regs, restore_regs, magic_read_by, call_read, tos_read_by, tos_read,
  call_write, tos_write, write_loop,
}
use tosemu.Memory.{
  m68k_read_disassembler_8, m68k_read_disassembler_16, m68k_read_disassembler_32,
  m68k_read_memory_8, m68k_read_memory_16, m68k_read_memory_32, m68k_write_memory_8,
  m68k_write_memory_16, m68k_write_memory_32, tos_mem_to_host_mem,
}
use tosemu.Cpu.{push_u32, pop_u32, peek_u16, peek_u32, peek_s32}

module _ ⦃p : Platform⦄ {P : Frame} where
  read_loop-Keeps :
      (rd : ℕ → M ℕ) (n address res : ℕ)
      → ((a : ℕ) → Keeps P (rd a))
      → Keeps P (read_loop rd n address res)
  unfolding read_loop
  read_loop-Keeps rd zero address res k fuel m h = Leaves-done res m h
  read_loop-Keeps rd (suc n) address res k fuel m h = search (
    leaves_rules,
    k,
    λ (b : ℕ). read_loop-Keeps rd n (add32 address 1) (bit_or ((res * 2 ^ 8) % u32_mod) b) k,
  )

  set_regs-Keeps : (rs : List Register) (vs : List ℕ) → Keeps P (set_regs rs vs)
  unfolding set_regs
  set_regs-Keeps [] vs = search leaves_rules
  set_regs-Keeps (r ∷ rs) [] = search leaves_rules
  set_regs-Keeps (r ∷ rs) (v ∷ vs) = search (leaves_rules, set_regs-Keeps rs vs)

  restore_regs-Keeps : Keeps P restore_regs
  unfolding restore_regs
  restore_regs-Keeps = search (leaves_rules, set_regs-Keeps)

  pop_u32_by-Keeps : (rd : ℕ → M ℕ) → ((a : ℕ) → Keeps P (rd a)) → Keeps P (pop_u32_by rd)
  unfolding pop_u32_by
  pop_u32_by-Keeps rd k = search (leaves_rules, read_loop-Keeps, k)

  magic_read_by-Keeps :
      (rd : ℕ → M ℕ) (address : ℕ) → ((a : ℕ) → Keeps P (rd a)) → Keeps P (magic_read_by rd address)
  unfolding magic_read_by
  magic_read_by-Keeps rd address k =
      search (leaves_rules, read_loop-Keeps, set_regs-Keeps, k) depth 20

  Leaves-read_fnct :
      (r : ReadFnct) (x y : Run State ℕ)
      → Leaves P x
      → Leaves P y
      → Leaves P (elim r [ ptr_read ↦ x | magic_xbios_supexec_read ↦ y ])
  Leaves-read_fnct ptr_read x y kx ky = kx
  Leaves-read_fnct magic_xbios_supexec_read x y kx ky = ky

  Leaves-write_fnct :
      {A : Type 0} (r : WriteFnct) (x y : Run State A)
      → Leaves P x
      → Leaves P y
      → Leaves P (elim r [ ptr_write ↦ x | magic_xbios_supexec_write ↦ y ])
  Leaves-write_fnct ptr_write x y kx ky = kx
  Leaves-write_fnct magic_xbios_supexec_write x y kx ky = ky

  call_read-Keeps :
      (rd : ℕ → M ℕ) (area : MemoryArea) (address : ℕ)
      → ((a : ℕ) → Keeps P (rd a))
      → Keeps P (call_read rd area address)
  unfolding call_read
  call_read-Keeps rd area address k fuel m h =
      Leaves-read_fnct area.read _ _ (Leaves-done _ m h) (magic_read_by-Keeps rd address k fuel m h)

  tos_read_by-Keeps :
      (rd : ℕ → M ℕ) (address : ℕ) → ((a : ℕ) → Keeps P (rd a)) → Keeps P (tos_read_by rd address)
  unfolding tos_read_by
  tos_read_by-Keeps rd address k fuel m h =
      Leaves-option_run (find_memarea address m.areas) _ _ (Leaves-halted _ m h) λ area.
        Leaves-if_run _ _ _ (Leaves-halted _ m h) (call_read-Keeps rd area address k fuel m h)

  pub tos_read-Keeps : (address : ℕ) → Keeps P (tos_read address)
  unfolding tos_read
  tos_read-Keeps address zero m h = Leaves-out_of_fuel
  tos_read-Keeps address (suc fuel) m h =
      tos_read_by-Keeps (λ a _ m'. tos_read a fuel m') address
        (λ a _ m' h'. tos_read-Keeps a fuel m' h') (suc fuel) m h

  call_write-Keeps :
      (area : MemoryArea) (address value : ℕ) → Keeps P (call_write area address value)
  unfolding call_write
  call_write-Keeps area address value fuel m h =
      Leaves-write_fnct area.write _ _ (Leaves-done _ _ h) (Leaves-halted _ m h)

  pub tos_write-Keeps : (address value : ℕ) → Keeps P (tos_write address value)
  unfolding tos_write
  tos_write-Keeps address value fuel m h =
      Leaves-option_run (find_memarea address m.areas) _ _ (Leaves-halted _ m h) λ area.
        Leaves-if_run _ _ _ (Leaves-halted _ m h) (call_write-Keeps area address value fuel m h)

  write_loop-Keeps : (n address value : ℕ) → Keeps P (write_loop n address value)
  unfolding write_loop
  write_loop-Keeps zero address value = search leaves_rules
  write_loop-Keeps (suc n) address value =
      search (leaves_rules, tos_write-Keeps, write_loop-Keeps n address (value / 2 ^ 8))

  pub m68k_read_disassembler_8-Keeps : (address : ℕ) → Keeps P (m68k_read_disassembler_8 address)
  unfolding m68k_read_disassembler_8
  m68k_read_disassembler_8-Keeps = tos_read-Keeps

  pub m68k_read_disassembler_16-Keeps : (address : ℕ) → Keeps P (m68k_read_disassembler_16 address)
  unfolding m68k_read_disassembler_16
  m68k_read_disassembler_16-Keeps address = search (leaves_rules, read_loop-Keeps, tos_read-Keeps)

  pub m68k_read_disassembler_32-Keeps : (address : ℕ) → Keeps P (m68k_read_disassembler_32 address)
  unfolding m68k_read_disassembler_32
  m68k_read_disassembler_32-Keeps address = search (leaves_rules, read_loop-Keeps, tos_read-Keeps)

  pub m68k_read_memory_8-Keeps : (address : ℕ) → Keeps P (m68k_read_memory_8 address)
  unfolding m68k_read_memory_8
  m68k_read_memory_8-Keeps = tos_read-Keeps

  pub m68k_read_memory_16-Keeps : (address : ℕ) → Keeps P (m68k_read_memory_16 address)
  unfolding m68k_read_memory_16
  m68k_read_memory_16-Keeps address = search (leaves_rules, read_loop-Keeps, tos_read-Keeps)

  pub m68k_read_memory_32-Keeps : (address : ℕ) → Keeps P (m68k_read_memory_32 address)
  unfolding m68k_read_memory_32
  m68k_read_memory_32-Keeps address = search (leaves_rules, read_loop-Keeps, tos_read-Keeps)

  pub m68k_write_memory_8-Keeps : (address value : ℕ) → Keeps P (m68k_write_memory_8 address value)
  unfolding m68k_write_memory_8
  m68k_write_memory_8-Keeps address value = tos_write-Keeps address (value % u8_mod)

  pub m68k_write_memory_16-Keeps :
      (address value : ℕ) → Keeps P (m68k_write_memory_16 address value)
  unfolding m68k_write_memory_16
  m68k_write_memory_16-Keeps address value = search (leaves_rules, tos_write-Keeps)

  pub m68k_write_memory_32-Keeps :
      (address value : ℕ) → Keeps P (m68k_write_memory_32 address value)
  unfolding m68k_write_memory_32
  m68k_write_memory_32-Keeps address value = search (leaves_rules, tos_write-Keeps)

  pub tos_mem_to_host_mem-Keeps : (address : ℕ) → Keeps P (tos_mem_to_host_mem address)
  unfolding tos_mem_to_host_mem
  tos_mem_to_host_mem-Keeps address fuel m h =
      Leaves-option_run (find_memarea address m.areas) _ _ (Leaves-halted _ m h) λ area.
        Leaves-write_fnct area.write _ _
          (Leaves-read_fnct area.read _ _ (Leaves-done _ _ h) (Leaves-halted _ m h))
          (Leaves-halted _ m h)

  -- cpu.c
  pub pop_u32-Keeps : Keeps P pop_u32
  unfolding pop_u32
  pop_u32-Keeps = search (leaves_rules, read_loop-Keeps, tos_read-Keeps)

  pub push_u32-Keeps : (v : ℕ) → Keeps P (push_u32 v)
  unfolding push_u32
  push_u32-Keeps v = search (leaves_rules, write_loop-Keeps)

  pub peek_u16-Keeps : (offset : ℕ) → Keeps P (peek_u16 offset)
  unfolding peek_u16
  peek_u16-Keeps offset = search (leaves_rules, read_loop-Keeps, tos_read-Keeps)

  pub peek_u32-Keeps : (offset : ℕ) → Keeps P (peek_u32 offset)
  unfolding peek_u32
  peek_u32-Keeps offset = search (leaves_rules, read_loop-Keeps, tos_read-Keeps)

  pub peek_s32-Keeps : (offset : ℕ) → Keeps P (peek_s32 offset)
  unfolding peek_s32
  peek_s32-Keeps offset = peek_u32-Keeps offset

pub ruleset access_rules = (
  leaves_rules, m68k_read_disassembler_8-Keeps, m68k_read_memory_8-Keeps, m68k_read_memory_32-Keeps,
  m68k_write_memory_8-Keeps, m68k_write_memory_32-Keeps, tos_mem_to_host_mem-Keeps, push_u32-Keeps,
  peek_u16-Keeps, peek_u32-Keeps, peek_s32-Keeps,
)
