-- ===== src/Tests/Cpu.antt =====
-- The stack and Supexec at concrete machines.
use tosemu.Base.{add32, ◌%◌, ◌≡◌, refl, arith, false, u16_mod}
use tosemu.Platform.{Register}
use tosemu.Platform.Example.{example, get, set}
use tosemu.Platform.Example.Laws.{example-CpuLaws}
use tosemu.Machine.{State, update, done, ◌>>◌}
use tosemu.Memory.Area.{find_memarea}
use tosemu.Memory.Cells.{read_cell, write_cell}
use tosemu.Memory.Words.{fetch, poke, poke-IsBytes}
use tosemu.Cpu.{push_u32, pop_u32}
use tosemu.Cpu.Stack.{reg, with_reg, pop_u32-push_u32}
use tosemu.Xbios.{supexec, magic_xbios_supexec_read}
use tosemu.Xbios.Supexec.{Entered, supexec-Entered, entered, supexec-done}
use tosemu.Xbios.RoundTrip.{Finished, Returned, supexec-Returned}
use tosemu.TosSystem.Layout.{tos_areas}
use tosemu.TosSystem.Areas.{user_ram-MapsTo}
use tosemu.Tests.Machines.{buffers, user_machine}

pop_u32-push_u32_example :
    (t : State) × ((push_u32 0x1234_5678 >> pop_u32) 9 user_machine
      ≡ done (0x1234_5678 % u16_mod) t)
    × (reg t Register.a7 ≡ reg user_machine Register.a7)
unfolding get
pop_u32-push_u32_example =
    pop_u32-push_u32 example-CpuLaws 0x1234_5678 0x2f6fc 8 user_machine (λ q. omega arith)
      (omega arith) (user_ram-MapsTo buffers false 4 0x1fffc (omega arith) (omega arith))

supexec-Entered_example :
    (t : State) × (supexec 9 user_machine ≡ done 0 t)
    × Entered (fetch user_machine.host_mem 0x2f702 4 0) 0x3178 user_machine t
unfolding get tos_areas read_cell write_cell find_memarea
supexec-Entered_example =
    supexec-Entered example-CpuLaws 0x3178 0x2f702 8 user_machine (λ q. omega arith)
      (user_ram-MapsTo buffers false 4 0x20002 (omega arith) (omega arith)) (ground arith)
      (ground arith)

-- Supexec on the concrete machine, and a routine that does nothing but return.
abbrev inside : State
inside = entered example-CpuLaws 0x3178 (fetch user_machine.host_mem 0x2f702 4 0) user_machine

abbrev finished : State
finished = with_reg inside Register.a7 (add32 (reg inside Register.a7) 4)

finished-Finished : Finished 0x3178 inside finished
unfolding get set poke update
finished-Finished = record {
  bytes =
      poke-IsBytes (poke user_machine.host_mem 0x317c 4 0x1234) 0x3178 4 0x200
        (poke-IsBytes user_machine.host_mem 0x317c 4 0x1234 (λ q. omega arith));
  on = refl;
  areas = refl;
  kept = (refl, refl);
  stack = refl;
  back = refl;
}

supexec-Returned_example :
    (t : State) × (magic_xbios_supexec_read 0x201 9 finished ≡ done 0x71 t)
    × Returned user_machine finished t
unfolding get tos_areas read_cell write_cell find_memarea
supexec-Returned_example =
    supexec-Returned example-CpuLaws 0x3178 0x2f702 8 user_machine (λ q. omega arith)
      (user_ram-MapsTo buffers false 4 0x20002 (omega arith) (omega arith)) (ground arith)
      (ground arith) inside finished
      (supexec-done example-CpuLaws 0x3178 0x2f702 8 user_machine (λ q. omega arith)
        (user_ram-MapsTo buffers false 4 0x20002 (omega arith) (omega arith)) (ground arith)
        (ground arith))
      finished-Finished
