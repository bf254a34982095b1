-- ===== src/Tests/Programs.antt =====
-- A vector, a string and a relocation table at a concrete machine.
use tosemu.Base.{◌*◌, ◌%◌, ◌≡◌, refl, List, [], ◌∷◌, arith, u16_mod, ◌==◌, if◌then◌else◌, false}
use tosemu.Platform.Example.{example, get}
use tosemu.Machine.{Machine, done}
use tosemu.Memory.Area.{find_memarea}
use tosemu.Memory.Cells.{read_cell, write_cell}
use tosemu.Memory.Words.{fetch}
use tosemu.Memory.{m68k_read_memory_32}
use tosemu.Bios.{setexc}
use tosemu.Bios.Vectors.{setexc-exchanges}
use tosemu.GemdosCon.{cconws}
use tosemu.GemdosCon.Output.{put_all, cconws-string}
use tosemu.TosSystem.Layout.{tos_areas}
use tosemu.TosSystem.Areas.{user_ram-MapsTo}
use tosemu.TosSystem.Loader.{relocate_loop}
use tosemu.TosSystem.Relocation.{Distance, encode, relocate_all, relocate_loop-encode}
use tosemu.Tests.Machines.{buffers, console, user_machine}

setexc-exchanges_example :
    (t : Machine example) × (setexc 9 user_machine
      ≡ done (fetch user_machine.host_mem 0x1000 4 0) t)
    × (m68k_read_memory_32 (4 * (fetch user_machine.host_mem 0x2f702 2 0 % u16_mod)) 9 t
        ≡ done (fetch user_machine.host_mem 0x2f704 4 0) t)
unfolding get fetch tos_areas read_cell write_cell find_memarea
setexc-exchanges_example =
    setexc-exchanges 0x2f702 0x2f704 0x1000 8 user_machine (λ q. omega arith)
      (user_ram-MapsTo buffers false 2 0x20002 (omega arith) (omega arith))
      (user_ram-MapsTo buffers false 4 0x20004 (omega arith) (omega arith)) (ground arith)

-- "hi" at the start of the user RAM, and its address 0x900 on the stack.
abbrev greeting : Machine example
greeting = record user_machine {
  host_mem = λ q.
      if q == 0x10000
      then b'h'
      else (if q == 0x10001 then b'i' else (if q == 0x2f704 then 9 else 0));
}

cconws-string_example :
    cconws 9 greeting ≡ done 2 (record greeting { world = put_all (b'h' ∷ b'i' ∷ []) console })
unfolding get fetch tos_areas read_cell find_memarea
cconws-string_example =
    cconws-string 0x2f702 8 greeting (b'h' ∷ b'i' ∷ []) (λ q. ground arith)
      (user_ram-MapsTo buffers false 4 0x20002 (omega arith) (omega arith))
      (
        (0x10000, refl, refl),
        (λ e. omega arith),
        ((0x10001, refl, refl), (λ e. omega arith), (0x10002, refl, refl)),
      )
      (omega arith) (omega arith)

-- 8 bytes on, and then 0xfe + 4 bytes on.
abbrev distances : List Distance
distances = record { steps = 0; last = 8 } ∷ record { steps = 1; last = 4 } ∷ []

relocate_loop-encode_example : relocate_loop 0x900 (encode distances) ≡ relocate_all 0x900 distances
relocate_loop-encode_example = relocate_loop-encode 0x900 distances (omega arith) (ground arith)
