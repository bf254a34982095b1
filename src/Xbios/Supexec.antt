-- ===== src/Xbios/Supexec.antt =====
-- xbios.c: the entry into a routine that runs in supervisor mode.
use mathlib.Core.Path.{◌∙◌}
use tosemu.Base.{ℕ, suc, ◌+◌, ◌≡◌, refl, ap, true, [], ◌∷◌, arith, add32, sub32, bit_or, inr}
use tosemu.Base.Bits.{set_supervisor}
use tosemu.Platform.{Platform, Register, CpuLaws}
use tosemu.Machine.{State, done, m68k_get_reg, m68k_set_reg}
use tosemu.Memory.Access.{supervisor, enable_supervisor_mode, saved_dregs, saved_aregs}
use tosemu.Memory.Cells.{MapsTo, Mapped}
use tosemu.Memory.Words.{IsBytes, poke, fetch, fetch-poke, fetch-lt, fetch-same, poke_outside}
use tosemu.Cpu.Stack.{reg, with_reg, pushed, push_u32-pushed, supervisor-set_reg, peek_u32-fetch}
use tosemu.Xbios.{supexec, save_regs, get_regs}
use tosemu.Xbios.Registers.{Holds}

module _ ⦃p : Platform⦄ where
  -- What Supexec has done: the routine is about to run in supervisor mode, with the magic address and
  -- then the address behind the trap on its stack, and D3 to D7 and A3 to A6 are saved.
  pub record Entered (routine : ℕ) (c : ℕ) (m t : State) : Type 0 where
    pub jumps : reg t Register.pc ≡ routine
    pub raises : supervisor t ≡ true
    pub stack : reg t Register.a7 ≡ sub32 (reg m Register.isp) 8
    pub magic : fetch t.host_mem c 4 0 ≡ 0x200
    pub back : fetch t.host_mem (c + 4) 4 0 ≡ reg m Register.pc
    pub dregs : Holds m.cpu saved_dregs t.dreg
    pub aregs : Holds m.cpu saved_aregs t.areg

module _ ⦃p : Platform⦄ (laws : CpuLaws p) where
  -- The state that Supexec leaves: the registers are saved, and the return address and the magic
  -- address are on the supervisor's stack.
  abbrev pub saved : State → State
  saved m = record m {
    dreg =
        reg m Register.d3
        ∷ reg m Register.d4
        ∷ reg m Register.d5
        ∷ reg m Register.d6
        ∷ reg m Register.d7
        ∷ [];
    areg = reg m Register.a3 ∷ reg m Register.a4 ∷ reg m Register.a5 ∷ reg m Register.a6 ∷ [];
  }

  abbrev raised : State → State
  raised m = with_reg m Register.sr (bit_or (reg m Register.sr) 0x2000)

  abbrev pub entered : ℕ → ℕ → State → State
  entered c lv0 m =
      let r = raised (saved m) in
      with_reg (pushed 4 c 0x200 (pushed 4 (c + 4) (reg r Register.pc) r)) Register.pc lv0

  raised-supervisor : (m : State) → supervisor (raised m) ≡ true
  raised-supervisor m =
      rw (laws.set_sr (bit_or (reg m Register.sr) 0x2000) m.cpu, set_supervisor (reg m Register.sr))

  raised-a7 : (m : State) → reg (raised m) Register.a7 ≡ reg m Register.isp
  raised-a7 m =
      laws.a7_supervisor (bit_or (reg m Register.sr) 0x2000) m.cpu
        (set_supervisor (reg m Register.sr))

  raised-pc : (m : State) → reg (raised m) Register.pc ≡ reg m Register.pc
  raised-pc m = laws.get_set_sr Register.pc (bit_or (reg m Register.sr) 0x2000) m.cpu tt (λ e. cc)

  module _ (c ca fuel : ℕ) (m : State) (bytes : IsBytes m.host_mem)
      (argument : Mapped m (add32 (reg m Register.a7) 2) 4 ca)
      (first : MapsTo m.areas true (sub32 (reg m Register.isp) 4) 4 (c + 4))
      (second : MapsTo m.areas true (sub32 (reg m Register.isp) 8) 4 c) where
    abbrev r : State
    r = raised (saved m)

    abbrev q : State
    q = pushed 4 (c + 4) (reg r Register.pc) r

    first_mapped : Mapped r (sub32 (reg r Register.a7) 4) 4 (c + 4)
    first_mapped = rw (raised-supervisor (saved m), raised-a7 (saved m)) first

    q-a7 : reg q Register.a7 ≡ sub32 (reg m Register.isp) 4
    q-a7 =
        laws.get_set Register.a7 (sub32 (reg r Register.a7) 4) r.cpu tt (omega arith)
        ∙ ap (λ x. sub32 x 4) (raised-a7 (saved m))

    second_mapped : Mapped q (sub32 (reg q Register.a7) 4) 4 c
    second_mapped =
        let e : sub32 (sub32 (reg m Register.isp) 4) 4 ≡ sub32 (reg m Register.isp) 8 =
          omega arith in
        rw
          (
            supervisor-set_reg laws r Register.a7 (sub32 (reg r Register.a7) 4) tt,
            raised-supervisor (saved m),
            q-a7,
            e,
          )
          second

    pub supexec-done : supexec (suc fuel) m ≡ done 0 (entered c (fetch m.host_mem ca 4 0) m)
    unfolding supexec save_regs get_regs enable_supervisor_mode m68k_get_reg m68k_set_reg
    supexec-done = rw (peek_u32-fetch 2 ca fuel m bytes argument) (
        rw (push_u32-pushed (reg r Register.pc) (c + 4) (suc fuel) r first_mapped)
          (rw (push_u32-pushed 0x200 c (suc fuel) q second_mapped)))

    pub entered-Entered :
        Entered (fetch m.host_mem ca 4 0) c m (entered c (fetch m.host_mem ca 4 0) m)
    entered-Entered = record {
      jumps =
          laws.get_set Register.pc (fetch m.host_mem ca 4 0) _ tt (fetch-lt m.host_mem ca bytes);
      raises =
          supervisor-set_reg laws (pushed 4 c 0x200 q) Register.pc (fetch m.host_mem ca 4 0) tt
          ∙ supervisor-set_reg laws q Register.a7 (sub32 (reg q Register.a7) 4) tt
          ∙ supervisor-set_reg laws r Register.a7 (sub32 (reg r Register.a7) 4) tt
          ∙ raised-supervisor (saved m);
      stack =
          laws.get_set_ne Register.a7 Register.pc (fetch m.host_mem ca 4 0) _ tt tt (λ e. cc)
          ∙ laws.get_set Register.a7 (sub32 (reg q Register.a7) 4) q.cpu tt (omega arith)
          ∙ rw q-a7 (omega arith);
      magic = fetch-poke q.host_mem c 4 0x200 (omega arith);
      back =
          fetch-same (poke q.host_mem c 4 0x200) q.host_mem (c + 4) 4 0
            (λ a l. poke_outside q.host_mem c 4 0x200 a (inr l))
          ∙ fetch-poke m.host_mem (c + 4) 4 (reg r Register.pc) (laws.reg_range Register.pc r.cpu)
          ∙ raised-pc (saved m);
      dregs = (refl, (refl, (refl, (refl, (refl, tt)))));
      aregs = (refl, (refl, (refl, (refl, tt))));
    }

    -- Supexec, called where its argument and 8 bytes of the supervisor's stack are mapped, returns
    -- 0 and enters the routine whose address it is given: in supervisor mode, with the magic
    -- address 0x200 and then the address behind the trap on the supervisor's stack, and with D3 to
    -- D7 and A3 to A6 saved.
    pub supexec-Entered :
        (t : State) × (supexec (suc fuel) m ≡ done 0 t) × Entered (fetch m.host_mem ca 4 0) c m t
    supexec-Entered = (entered c (fetch m.host_mem ca 4 0) m, supexec-done, entered-Entered)
