-- ===== src/Memory/Cells.antt =====
-- memory.c: reads and writes of plain memory, without side effects, against the functions.
use tosemu.Base.{
  ℕ, zero, suc, ◌+◌, ◌≡◌, Bool, Option, none, some, arith, ◌==◌, if◌then◌else◌, bit_and, add32,
  sub32, Option-cases, inl, inr, List,
}
use tosemu.Platform.{Platform}
use tosemu.Memory.Area.{
  MemoryArea, ptr_read, ptr_write, magic_xbios_supexec_read, magic_xbios_supexec_write,
  find_memarea,
}
use tosemu.Machine.{State, done, update}
use tosemu.Memory.Access.{
  supervisor, read_mask, write_mask, tos_read, tos_read_by, call_read, tos_write, call_write,
}

abbrev cell : MemoryArea → ℕ → ℕ
cell area address = area.ptr + sub32 address area.base

-- The host byte behind an address that is mapped to memory and may be read, or written, in
-- supervisor mode or in user mode.
unfoldable pub read_cell : List MemoryArea → Bool → ℕ → Option ℕ
read_cell areas super a = elim (find_memarea a areas) [
  | none ↦ none
  | some area ↦
      if bit_and area.flags (read_mask super) == 0
      then none
      else elim area.read [ ptr_read ↦ some (cell area a) | magic_xbios_supexec_read ↦ none ]
]

unfoldable pub write_cell : List MemoryArea → Bool → ℕ → Option ℕ
write_cell areas super a = elim (find_memarea a areas) [
  | none ↦ none
  | some area ↦
      if bit_and area.flags (write_mask super) == 0
      then none
      else elim area.write [ ptr_write ↦ some (cell area a) | magic_xbios_supexec_write ↦ none ]
]

-- `n` addresses from `a` are mapped to consecutive host bytes from `c`, for reading and writing.
abbrev pub MapsTo : List MemoryArea → Bool → ℕ → ℕ → ℕ → Type 0
MapsTo areas super a zero c = Unit
MapsTo areas super a (suc n) c =
    (read_cell areas super a ≡ some c)
    × (write_cell areas super a ≡ some c)
    × MapsTo areas super (add32 a 1) n (c + 1)

module _ ⦃p : Platform⦄ where
  -- The same in a state.
  abbrev pub Mapped : State → ℕ → ℕ → ℕ → Type 0
  Mapped m a n c = MapsTo m.areas (supervisor m) a n c

  pub tos_read-cell :
      (a c fuel : ℕ) (m : State)
      → read_cell m.areas (supervisor m) a ≡ some c
      → tos_read a (suc fuel) m ≡ done (m.host_mem c) m
  unfolding read_cell tos_read tos_read_by call_read
  tos_read-cell a c fuel m e = elim (Option-cases (find_memarea a m.areas)) [
    | inl missing ↦ ground arith
    | inr (area, found) ↦ ground arith
  ]

  pub tos_write-cell :
      (a v c fuel : ℕ) (m : State)
      → write_cell m.areas (supervisor m) a ≡ some c
      → tos_write a v fuel m ≡ done tt (record m { host_mem = update m.host_mem c v })
  unfolding write_cell tos_write call_write
  tos_write-cell a v c fuel m e = elim (Option-cases (find_memarea a m.areas)) [
    | inl missing ↦ ground arith
    | inr (area, found) ↦ ground arith
  ]
