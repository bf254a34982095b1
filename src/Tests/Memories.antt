-- ===== src/Tests/Memories.antt =====
-- A user program's accesses at a concrete machine.
use tosemu.Base.{ℕ, ◌≡◌, inl, refl, [], ◌∷◌, List, some, arith, false}
use tosemu.Platform.Example.{example, get}
use tosemu.Machine.{done, update}
use tosemu.Memory.Flat
use tosemu.Memory.Flat.{Access, reads_8, reads_16, writes_16, writes_32}
use tosemu.TosSystem.Layout.{tos_areas}
use tosemu.TosSystem.UserMemory.{IsApart, Shows, user_open, with_memory}
use tosemu.Memory.Area.{MemoryArea, ptr_read, find_memarea}
use tosemu.Memory.Accesses.{IsPlain, run_accesses, AnswersFit, Typed, run_accesses-Typed}
use tosemu.TosSystem.UserAccesses.{flat_view, run_accesses-refines}
use tosemu.Tests.Machines.{buffers, user_machine, super_machine}

buffers-IsApart : IsApart buffers
buffers-IsApart = record {
  low_bp = inl (omega arith);
  low_ram = inl (omega arith);
  bp_ram = inl (omega arith);
}

-- A long word across the base page and the user RAM, a word of it, and a byte that is not open.
abbrev program : List Access
program = writes_32 0x8fe 0x1234_5678 ∷ reads_16 0x8ff ∷ reads_8 0x500 ∷ []

run_accesses-refines_example :
    (h : ℕ → ℕ) × (run_accesses program 9 user_machine
      ≡ done (0 ∷ 0x3456 ∷ 0 ∷ []) (with_memory user_machine h false))
    × Shows buffers (Flat.accesses user_open program (flat_view buffers user_machine)).1 h false
unfolding get Flat.accesses user_open update
run_accesses-refines_example =
    run_accesses-refines buffers buffers-IsApart user_machine refl refl (λ q. omega arith) program 8

-- A value that is too large for what is written, and a read of what is there.
abbrev wide_program : List Access
wide_program = writes_16 0x900 0x12_3456 ∷ reads_16 0x900 ∷ []

found-IsPlain :
    (areas : List MemoryArea) (a : ℕ) (area : MemoryArea)
    → find_memarea a areas ≡ some area
    → area.read ≡ ptr_read
    → IsPlain areas a
found-IsPlain areas a area found plain = λ area' found'. ground arith

run_accesses-Typed_example :
    Typed (AnswersFit wide_program) super_machine.areas (run_accesses wide_program 9 super_machine)
unfolding find_memarea tos_areas
run_accesses-Typed_example =
    run_accesses-Typed wide_program 8 super_machine (λ q. omega arith)
      (
        tt,
        (
          (
            found-IsPlain super_machine.areas 0x900 _ refl refl,
            (found-IsPlain super_machine.areas 0x901 _ refl refl, tt),
          ),
          tt,
        ),
      )
