-- ===== src/TosSystem/Areas.antt =====
-- tossystem.c: the memory map that init_tos_environment sets up.
use mathlib.Core.Path.{subst}
use tosemu.Base.{
  ℕ, zero, suc, ◌+◌, ◌-◌, ◌≤◌, ◌<◌, ◌≡◌, refl, Bool, true, [], ◌∷◌, some, arith, length, add32,
}
use tosemu.Platform.{Platform}
use tosemu.Machine.{State, done}
use tosemu.Memory.Area.{MemoryArea, ReadFnct, WriteFnct, ptr_read, ptr_write, find_memarea}
use tosemu.Memory.Removal.{reset_memory-empties}
use tosemu.Memory.Cells.{read_cell, write_cell, MapsTo}
use tosemu.Memory.{reset_memory, add_ptr_memory_area, add_fnct_memory_area}
use tosemu.TosSystem.Layout.{Buffers, register_areas, tos_areas, user_ram_size}

module _ ⦃p : Platform⦄ (granted : (w : p.World) → (p.malloc 48 w).0 ≡ true) where
  abbrev node : p.World → p.World
  node w = (p.malloc 48 w).1

  abbrev with_area : State → MemoryArea → State
  with_area m area = record m { world = node m.world; areas = area ∷ m.areas }

  add_fnct-done :
      (flags base len ptr : ℕ) (r : ReadFnct) (w : WriteFnct) (fuel : ℕ) (m : State)
      → add_fnct_memory_area flags base len ptr r w fuel m
        ≡ done 0 (
            with_area m
              (record { base = base; len = len; read = r; write = w; ptr = ptr; flags = flags }))
  unfolding add_fnct_memory_area
  add_fnct-done flags base len ptr r w fuel m = rw (granted m.world)

  add_ptr-done :
      (flags base len ptr fuel : ℕ) (m : State)
      → add_ptr_memory_area flags base len ptr fuel m
        ≡ done 0 (
            with_area m (record {
              base = base;
              len = len;
              read = ptr_read;
              write = ptr_write;
              ptr = ptr;
              flags = flags;
            }))
  unfolding add_ptr_memory_area
  add_ptr-done flags base len ptr fuel m =
      add_fnct-done flags base len ptr ptr_read ptr_write fuel m

  reset-done :
      (fuel : ℕ) (m : State)
      → length m.areas < fuel
      → reset_memory fuel m ≡ done tt (record m { areas = [] })
  unfolding reset_memory
  reset-done fuel m h = rw (reset_memory-empties fuel m.areas h, reset_memory)

  -- The memory set-up returns, whatever areas there were, and leaves exactly the six areas of the
  -- memory map, if the host grants the six list nodes. It changes nothing else but the outside world.
  pub register_areas-tos_areas :
      (b : Buffers) (fuel : ℕ) (m : State)
      → length m.areas < fuel
      → (t : State) × (register_areas b fuel m ≡ done tt t)
        × (t ≡ record m { world = t.world; areas = tos_areas b })
  unfolding register_areas tos_areas
  register_areas-tos_areas b fuel m h = (
    record m { world = node (node (node (node (node (node m.world))))); areas = tos_areas b },
    rw (reset-done fuel m h) (
        rw add_ptr-done (
          rw add_fnct-done
            (rw add_ptr-done (rw add_ptr-done (rw add_ptr-done (rw add_ptr-done refl)))))),
    refl,
  )

user_ram-cell :
    (b : Buffers) (super : Bool) (a : ℕ)
    → 0x900 ≤ a
    → a < 0x900 + user_ram_size
    → (read_cell (tos_areas b) super a ≡ some (b.appmem + (a - 0x900)))
      × (write_cell (tos_areas b) super a ≡ some (b.appmem + (a - 0x900)))
unfolding tos_areas write_cell read_cell find_memarea
user_ram-cell b super a h k = ground arith

-- In both modes the user RAM is mapped, for reading and writing, to the host buffer `appmem`.
pub user_ram-MapsTo :
    (b : Buffers) (super : Bool) (n a : ℕ)
    → 0x900 ≤ a
    → a + n ≤ 0x900 + user_ram_size
    → MapsTo (tos_areas b) super a n (b.appmem + (a - 0x900))
user_ram-MapsTo b super zero a h k = tt
user_ram-MapsTo b super (suc n) a h k =
    let here = user_ram-cell b super a h (omega arith) in
    let ea : a + 1 ≡ add32 a 1 = omega arith in
    let ec : b.appmem + (add32 a 1 - 0x900) ≡ b.appmem + (a - 0x900) + 1 = omega arith in
    (
      here.0,
      here.1,
      subst (MapsTo (tos_areas b) super (add32 a 1) n) ec
          (user_ram-MapsTo b super n (add32 a 1) (omega arith) (omega arith)),
    )
