-- ===== src/Tests/MemoryMap.antt =====
-- The memory map and the accesses at concrete addresses.
use tosemu.Base.{◌+◌, ◌*◌, ◌^◌, ◌≤◌, ◌<◌, ◌≡◌, ◌⊎◌, refl, [], ◌∷◌, none, arith, false, true}
use tosemu.Platform.Example.{example, get}
use tosemu.Machine.{done, ◌>>◌}
use tosemu.Memory.Area.{MemoryArea, ptr_read, ptr_write, remove_memory_area}
use tosemu.Memory.Access.{supervisor, tos_read, tos_write}
use tosemu.Memory.Cells.{write_cell, MapsTo}
use tosemu.Memory.{m68k_read_memory_32, m68k_write_memory_16, m68k_write_memory_32}
use tosemu.Memory.Laws.{
  written, halted, Returns, tos_write-written, read-write_memory_32, write_memory_32-words,
}
use tosemu.Memory.Removal.{remove_memory_area-stuck}
use tosemu.TosSystem.Layout.{tos_areas, register_areas}
use tosemu.TosSystem.Areas.{register_areas-tos_areas, user_ram-MapsTo}
use tosemu.TosSystem.Places.{place, bytes_in_place}
use tosemu.Machine.{State}
use tosemu.Tests.Machines.{buffers, user_machine}

user_ram_maps : MapsTo (tos_areas buffers) false 0x900 4 0x10000
user_ram_maps = user_ram-MapsTo buffers false 4 0x900 (omega arith) (omega arith)

-- A byte of the system variables, which is out of reach in user mode.
bytes_in_place_example :
    (tos_write 0x500 7 9 user_machine ≡ done tt (written user_machine 7 none))
    × ((tos_read 0x500 9 user_machine ≡ done 0 (halted user_machine))
        ⊎ ((supervisor user_machine ≡ true) × (0x200 ≤ 0x500) × (0x500 < 0x202)))
unfolding get place
bytes_in_place_example = bytes_in_place buffers 0x500 7 8 user_machine refl

tos_write-written_example :
    tos_write 0x500 7 9 user_machine
    ≡ done tt
        (written user_machine 7 (write_cell (tos_areas buffers) (supervisor user_machine) 0x500))
tos_write-written_example = tos_write-written 0x500 7 9 user_machine

read-write_memory_32_example :
    Returns 0x1234_5678 4 0x10000 user_machine
      ((m68k_write_memory_32 0x900 0x1234_5678 >> m68k_read_memory_32 0x900) 9 user_machine)
unfolding get
read-write_memory_32_example =
    read-write_memory_32 0x900 0x10000 0x1234_5678 8 user_machine (λ q. omega arith) (omega arith)
      (omega arith) user_ram_maps

write_memory_32-words_example :
    m68k_write_memory_32 0x900 (0x1234 * 2 ^ 16 + 0x5678) 9 user_machine
    ≡ (m68k_write_memory_16 0x900 0x1234 >> m68k_write_memory_16 (0x900 + 2) 0x5678) 9 user_machine
unfolding get
write_memory_32-words_example =
    write_memory_32-words 0x900 0x10000 0x1234 0x5678 9 user_machine (omega arith) (omega arith)
      (omega arith) user_ram_maps

register_areas-tos_areas_example :
    (t : State) × (register_areas buffers 9 user_machine ≡ done tt t)
    × (t ≡ record user_machine { world = t.world; areas = tos_areas buffers })
unfolding tos_areas
register_areas-tos_areas_example =
    register_areas-tos_areas (λ w. refl) buffers 9 user_machine (omega arith)

abbrev area : MemoryArea
area = record { base = 0x800; len = 0x100; read = ptr_read; write = ptr_write; ptr = 0; flags = 3 }

remove_memory_area-stuck_example : remove_memory_area 9 0x900 (area ∷ []) ≡ none
remove_memory_area-stuck_example = remove_memory_area-stuck 9 0x900 area [] (λ e. omega arith)
