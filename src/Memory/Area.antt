-- ===== src/Memory/Area.antt =====
-- memory.h and memory.c: the list of memory areas, with its search.
use tosemu.Base.{
  ℕ, zero, suc, List, [], ◌∷◌, Option, none, some, Bool, true, false, ltb, leb, ◌==◌, ◌&&◌,
  if◌then◌else◌, add32,
}

-- The functions that the program registers for an area: those of a piece of mapped host memory,
-- and those of the two magic bytes of Supexec.
pub data ReadFnct : Type 0 where
  ptr_read magic_xbios_supexec_read : ReadFnct

pub data WriteFnct : Type 0 where
  ptr_write magic_xbios_supexec_write : WriteFnct

-- `ptr` is the address of the area's first byte in host memory.
pub record MemoryArea : Type 0 where
  pub base : ℕ
  pub len : ℕ
  pub read : ReadFnct
  pub write : WriteFnct
  pub ptr : ℕ
  pub flags : ℕ

abbrev pub memory_read : ℕ
memory_read = 0x01

abbrev pub memory_write : ℕ
memory_write = 0x02

abbrev pub memory_readwrite : ℕ
memory_readwrite = 0x03

abbrev pub memory_superread : ℕ
memory_superread = 0x04

abbrev pub memory_superwrite : ℕ
memory_superwrite = 0x08

-- `address >= area->base && address < area->base + area->len`, in `uint32_t`.
abbrev pub covers : MemoryArea → ℕ → Bool
covers area address = leb area.base address && ltb address (add32 area.base area.len)

unfoldable pub find_memarea : ℕ → List MemoryArea → Option MemoryArea
find_memarea address [] = none
find_memarea address (area ∷ rest) =
    if covers area address then some area else find_memarea address rest

-- The loop of remove_memory_area, with the result code and the new list; `none` is that it still
-- runs when the fuel is used up. `prev` says that the pointer `prev` is set. Its node is then the
-- one that `ptr` points to, since the loop does not move `ptr`, and setting that node's `next` to
-- `ptr->next` leaves the list as it is.
unfoldable pub remove_loop : ℕ → ℕ → Bool → List MemoryArea → Option (ℕ × List MemoryArea)
remove_loop zero base prev ptr = none
remove_loop (suc fuel) base prev [] = some (1, [])
remove_loop (suc fuel) base prev (area ∷ next) =
    let again = remove_loop fuel base true (area ∷ next) in
    if area.base == base then (if prev then some (0, area ∷ next) else some (0, next)) else again

unfoldable pub remove_memory_area : (fuel base : ℕ) → List MemoryArea → Option (ℕ × List MemoryArea)
unfolding remove_loop
remove_memory_area fuel base head = remove_loop fuel base false head

-- `while (head) remove_memory_area(head->base)`: the fuel bounds the rounds, and the rounds that
-- each removal may take.
unfoldable pub reset_memory : ℕ → List MemoryArea → Option (List MemoryArea)
reset_memory zero head = none
reset_memory (suc fuel) [] = some []
reset_memory (suc fuel) (area ∷ next) =
    elim (remove_memory_area (suc fuel) area.base (area ∷ next)) [
      | none ↦ none
      | some (code, head) ↦ reset_memory fuel head
    ]
