-- ===== src/Xbios/Return.antt =====
-- xbios.c: the return from a routine that Supexec has entered.
use mathlib.Core.Path.{◌∙◌}
use tosemu.Base.{
  ℕ, suc, ◌%◌, ◌<◌, ◌≡◌, refl, ==→eq, true, false, arith, u16_mod, u32_mod, All, bit_and,
}
use tosemu.Base.Bits.{clear_supervisor}
use tosemu.Platform.{Platform, Register, CpuLaws}
use tosemu.Machine.{State, done, m68k_get_reg, m68k_set_reg}
use tosemu.Memory.Access.{
  supervisor, disable_supervisor_mode, saved_dregs, saved_aregs, magic_read_by, restore_regs,
}
use tosemu.Memory.Cells.{Mapped}
use tosemu.Memory.Words.{IsBytes, fetch}
use tosemu.Cpu.{pop_u32}
use tosemu.Cpu.Stack.{reg, popped, pop_u32-popped}
use tosemu.Xbios.{magic_xbios_supexec_read}
use tosemu.Xbios.Registers.{
  poke_regs, set_regs-done, poke_regs-Other, Holds, poke_regs-Holds, Holds-poke_regs, Other,
  AreDistinct, poke_regs-sr,
}

module _ ⦃p : Platform⦄ where
  -- What the read of the second magic byte has done: the processor is back in user mode, on the
  -- user's stack, at the low 16 bits of the address on the supervisor's stack, with the saved
  -- registers.
  pub record Left (back : ℕ) (m t : State) : Type 0 where
    pub jumps : reg t Register.pc ≡ back % u16_mod
    pub drops : supervisor t ≡ false
    pub stack : reg t Register.a7 ≡ reg m Register.usp
    pub dregs : Holds t.cpu saved_dregs m.dreg
    pub aregs : Holds t.cpu saved_aregs m.areg

module _ ⦃p : Platform⦄ (laws : CpuLaws p) where
  abbrev pub user_status : State → ℕ
  user_status m = bit_and (reg m Register.sr) 0xffff_dfff

  abbrev returned : ℕ → State → State
  returned pc m = record m {
    cpu = poke_regs saved_aregs m.areg (
        poke_regs saved_dregs m.dreg
          (p.m68k_set_reg Register.pc pc (p.m68k_set_reg Register.sr (user_status m) m.cpu)));
  }

  dregs_distinct : AreDistinct saved_dregs
  dregs_distinct = ground arith

  aregs_distinct : AreDistinct saved_aregs
  aregs_distinct = ground arith

  others_apart : All (λ r. All (Other r) saved_aregs) saved_dregs
  others_apart = ground arith

  pc_apart : All (Other Register.pc) saved_dregs × All (Other Register.pc) saved_aregs
  pc_apart = ground arith

  magic-returned :
      (c fuel : ℕ) (m : State)
      → IsBytes m.host_mem
      → Mapped m (reg m Register.a7) 4 c
      → magic_xbios_supexec_read 0x201 (suc fuel) m
        ≡ done 0x71 (returned (fetch m.host_mem c 4 0 % u16_mod) (popped 4 m))
  unfolding magic_xbios_supexec_read magic_read_by disable_supervisor_mode m68k_get_reg m68k_set_reg
      restore_regs pop_u32
  magic-returned c fuel m b h =
      rw (pop_u32-popped c fuel m b h) (rw set_regs-done (rw set_regs-done refl))

  drops-user : (pc : ℕ) (m : State) → supervisor (returned pc m) ≡ false
  drops-user pc m =
      let s0 = p.m68k_set_reg Register.sr (user_status m) m.cpu in
      let s1 = p.m68k_set_reg Register.pc pc s0 in
      let s2 = poke_regs saved_dregs m.dreg s1 in
      rw (
        poke_regs-sr laws saved_aregs m.areg s2 (ground arith),
        poke_regs-sr laws saved_dregs m.dreg s1 (ground arith),
        laws.sr_set Register.pc pc s0 tt,
        laws.set_sr (user_status m) m.cpu,
        clear_supervisor (reg m Register.sr),
      )

  -- A read of the second magic byte in supervisor mode, with 4 mapped bytes on top of the stack,
  -- gives 0x71 and leaves the routine that Supexec entered: the processor is in user mode and on
  -- the user's stack, D3 to D7 and A3 to A6 are the saved ones, and it continues at the low 16
  -- bits of the address that was on the stack.
  pub magic_xbios_supexec_read-Left :
      (c fuel : ℕ) (m : State)
      → IsBytes m.host_mem
      → supervisor m ≡ true
      → All (λ v. v < u32_mod) m.dreg
      → All (λ v. v < u32_mod) m.areg
      → Mapped m (reg m Register.a7) 4 c
      → (t : State) × (magic_xbios_supexec_read 0x201 (suc fuel) m ≡ done 0x71 t)
        × Left (fetch m.host_mem c 4 0) m t
  magic_xbios_supexec_read-Left c fuel m b on wd wa h =
      let pc = fetch m.host_mem c 4 0 % u16_mod in
      let o = popped 4 m in
      let s0 = p.m68k_set_reg Register.sr (user_status o) o.cpu in
      let s1 = p.m68k_set_reg Register.pc pc s0 in
      let s2 = poke_regs saved_dregs m.dreg s1 in
      (
        returned pc o,
        magic-returned c fuel m b h,
        record {
          jumps =
              poke_regs-Other laws Register.pc tt saved_aregs m.areg s2 pc_apart.1
              ∙ poke_regs-Other laws Register.pc tt saved_dregs m.dreg s1 pc_apart.0
              ∙ laws.get_set Register.pc pc s0 tt (omega arith);
          drops = drops-user pc o;
          stack =
              poke_regs-Other laws Register.a7 tt saved_aregs m.areg s2 (ground arith)
              ∙ poke_regs-Other laws Register.a7 tt saved_dregs m.dreg s1 (ground arith)
              ∙ laws.get_set_ne Register.a7 Register.pc pc s0 tt tt (λ e. cc)
              ∙ laws.a7_user (user_status o) o.cpu (clear_supervisor (reg o Register.sr))
              ∙ laws.usp_supervisor Register.a7 _ m.cpu tt (==→eq _ _ on);
          dregs =
              Holds-poke_regs laws saved_dregs m.dreg saved_aregs m.areg s2 dregs_distinct
                others_apart (poke_regs-Holds laws saved_dregs m.dreg s1 dregs_distinct wd);
          aregs = poke_regs-Holds laws saved_aregs m.areg s2 aregs_distinct wa;
        },
      )
