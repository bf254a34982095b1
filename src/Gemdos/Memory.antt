-- ===== src/Gemdos/Memory.antt =====
-- gemdos.c, gemdosmem.c: Malloc, Mfree and Mshrink from the trap to the answer in D0.
use mathlib.Core.Path.{◌∙◌}
use tosemu.Base.{ℕ, suc, ◌≡◌, refl, some, add32}
use tosemu.Platform.{Platform, Register}
use tosemu.Machine.{State, done, m68k_set_reg}
use tosemu.Memory.Cells.{Mapped}
use tosemu.Memory.Words.{IsBytes, fetch}
use tosemu.Cpu.{peek_s32}
use tosemu.Cpu.Stack.{reg, peek_u32-fetch}
use tosemu.Trap.{Function, row, call_function}
use tosemu.GemdosMem.{MemState}
use tosemu.GemdosMem.Calls.{MemCall, mallocs, mfrees, mshrinks, mem_call}
use tosemu.Gemdos.MemCalls.{on_memory, malloc, mfree, mshrink}
use tosemu.Gemdos.{gemdos_functions, gemdos_trap}
use tosemu.Gemdos.Dispatch.{number, gemdos_trap-row}

module _ ⦃p : Platform⦄ where
  -- The number is that of the function, and its arguments are on the stack.
  abbrev pub Passed : State → ℕ → MemCall → Type 0
  Passed m c (mallocs n) =
      (number m c ≡ 0x48)
      × ((ca : ℕ) × Mapped m (add32 (reg m Register.a7) 2) 4 ca × (fetch m.host_mem ca 4 0 ≡ n))
  Passed m c (mfrees block) =
      (number m c ≡ 0x49)
      × ((ca : ℕ) × Mapped m (add32 (reg m Register.a7) 2) 4 ca × (fetch m.host_mem ca 4 0 ≡ block))
  Passed m c (mshrinks block n) =
      (number m c ≡ 0x4a)
      × ((cb : ℕ) × Mapped m (add32 (reg m Register.a7) 4) 4 cb × (fetch m.host_mem cb 4 0 ≡ block))
      × ((cn : ℕ) × Mapped m (add32 (reg m Register.a7) 8) 4 cn × (fetch m.host_mem cn 4 0 ≡ n))

  -- The answer is in D0, and nothing else is changed but the list of areas.
  abbrev pub answered : ℕ × MemState → State → State
  answered (r, s) m = record m { cpu = p.m68k_set_reg Register.d0 r m.cpu; memory = s }

  module _ (e : Function p) (c fuel : ℕ) (m : State) (bytes : IsBytes m.host_mem)
      (top : Mapped m (add32 (reg m Register.a7) 0) 2 c) where
    -- A GEMDOS trap for Malloc, Mfree or Mshrink, with the number and the arguments on a mapped stack,
    -- returns: D0 is the answer of the function on the list of areas, the list is the one behind the call,
    -- and the rest of the machine is as before.
    pub gemdos_trap-mem_call :
        (call : MemCall)
        → Passed m c call
        → gemdos_trap e (suc fuel) m ≡ done tt (answered (mem_call call m.memory) m)
    unfolding gemdos_functions call_function m68k_set_reg mem_call malloc mfree mshrink on_memory
        peek_s32
    gemdos_trap-mem_call (mallocs n) (num, (ca, there, e1)) =
        gemdos_trap-row e c fuel m bytes top 62 (row "Malloc" (some malloc) 0x48) refl num
        ∙ rw (peek_u32-fetch 2 ca fuel m bytes there, e1) refl
    gemdos_trap-mem_call (mfrees block) (num, (ca, there, e1)) =
        gemdos_trap-row e c fuel m bytes top 63 (row "Mfree" (some mfree) 0x49) refl num
        ∙ rw (peek_u32-fetch 2 ca fuel m bytes there, e1) refl
    gemdos_trap-mem_call (mshrinks block n) (num, (cb, b_there, e1), (cn, n_there, e2)) =
        gemdos_trap-row e c fuel m bytes top 64 (row "Mshrink" (some mshrink) 0x4a) refl num
        ∙ rw (peek_u32-fetch 8 cn fuel m bytes n_there, e2)
            (rw (peek_u32-fetch 4 cb fuel m bytes b_there, e1) refl)
