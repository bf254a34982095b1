-- ===== src/Tests/Mem.antt =====
-- Malloc, Mfree and Mshrink on a list of two areas with a gap between them.
use tosemu.Base.{◌+◌, ◌≤◌, ◌<◌, ◌≡◌, ◌≢◌, ◌↔◌, List, [], ◌∷◌, arith}
use mathlib.Core.List.{Perm}
use mathlib.Core.List.Perm
use tosemu.GemdosMem.Bag.{ServesAll, answers, mem_calls-refines}
use tosemu.GemdosMem.{
  MemArea, MemState, malloc, mfree, mshrink, gemdos_mem_init, allocate, allocate_list,
}
use tosemu.GemdosMem.Invariant.{IsManaged, Inserted, malloc-Inserted}
use tosemu.GemdosMem.Blocks.{Freed, mfree-Freed, Shrunk, mshrink-Shrunk, mfree-malloc}
use tosemu.GemdosMem.Calls.{
  MemCall, mallocs, mfrees, mshrinks, mem_calls, mem_calls-IsManaged, mshrink-init-IsManaged,
  malloc-init-overruns,
}
use tosemu.GemdosMem.Gaps.{malloc-iff-lt, free-le-available}

abbrev two_areas : MemState
two_areas = record {
  mem_list = record { base = 0x800; len = 0x800 } ∷ record { base = 0x2000; len = 0x100 } ∷ [];
  mem_allocatable_top = 0x8000;
}

abbrev calls : List MemCall
calls = mallocs 0x100 ∷ mfrees 0x2000 ∷ mshrinks 0x800 0x200 ∷ mallocs 0xffff_ffff ∷ []

two_areas-IsManaged : IsManaged two_areas
two_areas-IsManaged = record { fits = ground arith; has_room = omega arith; is_word = omega arith }

granted : (malloc 0x100 two_areas).0 ≢ 0
unfolding malloc allocate_list allocate
granted = ground arith

mem_calls-IsManaged_example : IsManaged (mem_calls calls two_areas)
mem_calls-IsManaged_example = mem_calls-IsManaged calls two_areas (ground arith) two_areas-IsManaged

mem_calls-refines_example :
    (l : List MemArea) × ServesAll 0x8000 two_areas.mem_list calls (answers calls two_areas) l
    × Perm l (mem_calls calls two_areas).mem_list
mem_calls-refines_example =
    mem_calls-refines calls two_areas.mem_list two_areas (ground arith) two_areas-IsManaged Perm.rfl

malloc-Inserted_example :
    Inserted 0x800 0x8000 0x100 two_areas.mem_list
      ((malloc 0x100 two_areas).0, (malloc 0x100 two_areas).1.mem_list)
malloc-Inserted_example = malloc-Inserted 0x100 two_areas two_areas-IsManaged (omega arith) granted

malloc-iff-lt_example :
    ((malloc 0x100 two_areas).0 ≢ 0) ↔ (0x100 < (malloc 0xffff_ffff two_areas).0)
malloc-iff-lt_example = malloc-iff-lt 0x100 two_areas two_areas-IsManaged (omega arith)

free-le-available_example : 0x5000 ≤ (malloc 0xffff_ffff two_areas).0
free-le-available_example =
    free-le-available two_areas 0x2200 0x5000 two_areas-IsManaged (omega arith) (omega arith)
      (ground arith)

mfree-malloc_example : mfree (malloc 0x100 two_areas).0 (malloc 0x100 two_areas).1 ≡ (0, two_areas)
mfree-malloc_example =
    mfree-malloc 0x100 two_areas two_areas-IsManaged (ground arith) (omega arith) granted

mfree-Freed_example : Freed 0x2000 two_areas (mfree 0x2000 two_areas).1 (mfree 0x2000 two_areas).0
mfree-Freed_example = mfree-Freed 0x2000 two_areas

mshrink-Shrunk_example :
    Shrunk 0x800 0x400 two_areas (mshrink 0x800 0x400 two_areas).1 (mshrink 0x800 0x400 two_areas).0
mshrink-Shrunk_example = mshrink-Shrunk 0x800 0x400 two_areas

mshrink-init-IsManaged_example :
    ((mshrink 0x800 0x10000 (gemdos_mem_init 0xf9f6ff)).0 ≡ 0)
    × IsManaged (mshrink 0x800 0x10000 (gemdos_mem_init 0xf9f6ff)).1
mshrink-init-IsManaged_example =
    mshrink-init-IsManaged 0xf9f6ff 0x10000 (omega arith) (omega arith) (omega arith)

malloc-init-overruns_example : (malloc 0x1000 (gemdos_mem_init 0xf9f6ff)).0 ≡ 0x900 + 0xf9f6ff
malloc-init-overruns_example = malloc-init-overruns 0xf9f6ff 0x1000 (omega arith) (omega arith)
