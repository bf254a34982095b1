-- ===== src/TosSystem/Places.antt =====
-- memory.c over the memory map of tossystem.c: which host byte an access goes to, in each mode.
use tosemu.Base.{
  ℕ, suc, ◌+◌, ◌-◌, ◌≤◌, ◌<◌, ◌≡◌, ◌⊎◌, inl, refl, ap, ◌∙◌, Bool, true, false, Option, none, some,
  ltb, leb, ◌&&◌, if◌then◌else◌, arith,
}
use tosemu.Platform.{Platform}
use tosemu.Machine.{State, Run, done, halt_execution}
use tosemu.Memory.Area.{find_memarea}
use tosemu.Memory.Access.{supervisor, tos_read, tos_read_by, call_read, tos_write}
use tosemu.Memory.Cells.{read_cell, write_cell, tos_read-cell}
use tosemu.Memory.Laws.{written, halted, tos_write-written}
use tosemu.TosSystem.Layout.{Buffers, tos_areas, user_ram_size}

-- The map of the ST's memory: the vectors, the system variables and the supervisor's stack, which belong to
-- the supervisor, the base page and the user RAM.
unfoldable pub place : Buffers → (super : Bool) → ℕ → Option ℕ
place b super a =
    if ltb a 0x1ff
    then some (b.staticmem0 + a)
    else if super && leb 0x380 a && ltb a 0x600
    then some (b.staticmem1 + (a - 0x380))
    else if super && leb 0x600 a && ltb a 0x800
    then some (b.supermem + (a - 0x600))
    else if leb 0x800 a && ltb a 0x900
    then some (b.bp + (a - 0x800))
    else if leb 0x900 a && ltb a (0x900 + user_ram_size)
    then some (b.appmem + (a - 0x900))
    else none

write_cell-place :
    (b : Buffers) (super : Bool) (a : ℕ) → write_cell (tos_areas b) super a ≡ place b super a
unfolding tos_areas write_cell find_memarea place
write_cell-place b true a = ground arith
write_cell-place b false a = ground arith

read_cell-place :
    (b : Buffers) (super : Bool) (a : ℕ) → read_cell (tos_areas b) super a ≡ place b super a
unfolding tos_areas read_cell find_memarea place
read_cell-place b true a = ground arith
read_cell-place b false a = ground arith

module _ ⦃p : Platform⦄ where
  -- What a read answers, by the host byte that it goes to.
  abbrev pub answered : State → Option ℕ → Run State ℕ
  answered m none = done 0 (halted m)
  answered m (some c) = done (m.host_mem c) m

  module _ (b : Buffers) (a v fuel : ℕ) (m : State) (map : m.areas ≡ tos_areas b) where
    cell_read :
        (o : Option ℕ)
        → place b (supervisor m) a ≡ o
        → (tos_read a (suc fuel) m ≡ answered m o)
          ⊎ ((supervisor m ≡ true) × (0x200 ≤ a) × (a < 0x202))
    unfolding tos_read tos_read_by call_read halt_execution find_memarea tos_areas place
    cell_read none e = ground (arith, map)
    cell_read (some c) e = inl (
        tos_read-cell a c fuel m
          (ap (λ l. read_cell l (supervisor m) a) map ∙ read_cell-place b (supervisor m) a ∙ e))

    -- Over the memory map of init_tos_environment, in user and in supervisor mode, a byte that is written goes
    -- to the host byte that the map of the ST's memory names for the address and the mode, and changes
    -- nothing else, and a byte that is read comes from there. At every other address a write only stops
    -- the execution, and a read answers 0 and stops it, but for reads of the magic bytes of Supexec at
    -- 0x200 and 0x201 in supervisor mode.
    pub bytes_in_place :
        (tos_write a v (suc fuel) m ≡ done tt (written m v (place b (supervisor m) a)))
        × ((tos_read a (suc fuel) m ≡ answered m (place b (supervisor m) a))
            ⊎ ((supervisor m ≡ true) × (0x200 ≤ a) × (a < 0x202)))
    bytes_in_place = (
      tos_write-written a v (suc fuel) m
          ∙ ap (λ o. done tt (written m v o))
              (ap (λ l. write_cell l (supervisor m) a) map ∙ write_cell-place b (supervisor m) a),
      cell_read (place b (supervisor m) a) refl,
    )
