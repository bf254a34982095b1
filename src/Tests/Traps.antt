-- ===== src/Tests/Traps.antt =====
-- Traps with known and unknown function numbers.
use tosemu.Base.{ℕ, ◌≡◌, refl, none, some, arith, false, if◌then◌else◌, ◌==◌}
use tosemu.Platform.Example.{example, get}
use tosemu.Machine.{Machine, done, halt_execution}
use tosemu.GemdosMem.Calls.{mallocs, mem_call}
use tosemu.Gemdos.Memory.{answered, gemdos_trap-mem_call}
use tosemu.Memory.Cells.{Mapped}
use tosemu.Memory.Words.{fetch}
use tosemu.Trap.{Function, row, call_function}
use tosemu.Gemdos.{gemdos_functions, gemdos_trap, pterm0}
use tosemu.Gemdos.Dispatch.{number, gemdos_trap-row, gemdos_trap-unknown}
use tosemu.TosSystem.Areas.{user_ram-MapsTo}
use tosemu.Tests.Machines.{buffers, machine, user_machine}

abbrev past_end : Function example
past_end = row "" none 0xffff

top : (byte : ℕ) → Mapped (machine 0 byte) 0x20000 2 0x2f700
unfolding get
top byte = user_ram-MapsTo buffers false 2 0x20000 (omega arith) (omega arith)

gemdos_trap-row_example :
    gemdos_trap past_end 9 user_machine ≡ call_function (some pterm0) 9 user_machine
unfolding get gemdos_functions fetch
gemdos_trap-row_example =
    gemdos_trap-row past_end 0x2f700 8 user_machine (λ q. omega arith) (top 0) 95
      (row "Pterm0" (some pterm0) 0) refl refl

gemdos_trap-unknown_example :
    gemdos_trap past_end 9 (machine 0 0xff)
    ≡ (if 0xffff == number (machine 0 0xff) 0x2f700 then call_function none else halt_execution) 9
        (machine 0 0xff)
unfolding get gemdos_functions fetch
gemdos_trap-unknown_example =
    gemdos_trap-unknown past_end 0x2f700 8 (machine 0 0xff) (λ q. omega arith) (top 0xff)
      (ground arith)

-- Malloc(0x100) on the stack.
abbrev allocating : Machine example
allocating = record user_machine {
  host_mem = λ q. if q == 0x2f701 then 0x48 else (if q == 0x2f704 then 1 else 0);
}

gemdos_trap-mem_call_example :
    gemdos_trap past_end 9 allocating
    ≡ done tt (answered (mem_call (mallocs 0x100) allocating.memory) allocating)
unfolding get fetch
gemdos_trap-mem_call_example =
    gemdos_trap-mem_call past_end 0x2f700 8 allocating (λ q. ground arith)
      (user_ram-MapsTo buffers false 2 0x20000 (omega arith) (omega arith)) (mallocs 0x100)
      (refl, (0x2f702, user_ram-MapsTo buffers false 4 0x20002 (omega arith) (omega arith), refl))
