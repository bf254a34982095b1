-- ===== src/Xbios/RoundTrip.antt =====
-- xbios.c: Supexec from the trap to the return from the routine.
use mathlib.Core.Path.{◌∙◌, subst}
use tosemu.Base.{
  ℕ, suc, ◌+◌, ◌%◌, ◌<◌, ◌≡◌, refl, sym, ap, true, false, arith, add32, sub32, u16_mod, u32_mod,
  All,
}
use tosemu.Platform.{Platform, Register, CpuLaws}
use tosemu.Machine.{State, Run, done}
use tosemu.Memory.Access.{supervisor, saved_dregs, saved_aregs}
use tosemu.Memory.Cells.{MapsTo, Mapped}
use tosemu.Memory.Words.{IsBytes, fetch}
use tosemu.Cpu.Stack.{reg}
use tosemu.Xbios.{supexec, magic_xbios_supexec_read}
use tosemu.Xbios.Registers.{Holds}
use tosemu.Xbios.Supexec.{Entered, saved, entered, supexec-done, entered-Entered}
use tosemu.Xbios.Return.{magic_xbios_supexec_read-Left}

module _ ⦃p : Platform⦄ where
  -- How the routine may leave the machine behind its last instruction, RTS: still in supervisor mode, with
  -- the magic address popped and the return address untouched, and with the memory map as it was.
  pub record Finished (c : ℕ) (t u : State) : Type 0 where
    pub bytes : IsBytes u.host_mem
    pub on : supervisor u ≡ true
    pub areas : u.areas ≡ t.areas
    pub kept : (u.dreg ≡ t.dreg) × (u.areg ≡ t.areg)
    pub stack : reg u Register.a7 ≡ add32 (reg t Register.a7) 4
    pub back : fetch u.host_mem (c + 4) 4 0 ≡ fetch t.host_mem (c + 4) 4 0

  -- What the program finds behind the trap.
  pub record Returned (m u v : State) : Type 0 where
    pub jumps : reg v Register.pc ≡ reg m Register.pc % u16_mod
    pub drops : supervisor v ≡ false
    pub stack : reg v Register.a7 ≡ reg u Register.usp
    pub dregs : All (λ r. reg v r ≡ reg m r) saved_dregs
    pub aregs : All (λ r. reg v r ≡ reg m r) saved_aregs

  abbrev state_or : State → Run State ℕ → State
  state_or m (done a t) = t
  state_or m _ = m

  module _ (laws : CpuLaws p) (c ca fuel : ℕ) (m : State) (bytes : IsBytes m.host_mem)
      (argument : Mapped m (add32 (reg m Register.a7) 2) 4 ca)
      (first : MapsTo m.areas true (sub32 (reg m Register.isp) 4) 4 (c + 4))
      (second : MapsTo m.areas true (sub32 (reg m Register.isp) 8) 4 c) where
    brought_back :
        (t : State)
        → Entered (fetch m.host_mem ca 4 0) c m t
        → t.areas ≡ m.areas
        → t.dreg ≡ (saved laws m).dreg
        → t.areg ≡ (saved laws m).areg
        → (u : State) → Finished c t u
        → (v : State) × (magic_xbios_supexec_read 0x201 (suc fuel) u ≡ done 0x71 v) × Returned m u v
    brought_back t e areas ds as_ u f =
        let a7 : reg u Register.a7 ≡ sub32 (reg m Register.isp) 4 =
          f.stack ∙ ap (λ x. add32 x 4) e.stack ∙ omega arith in
        let on_stack : Mapped u (reg u Register.a7) 4 (c + 4) =
          rw (a7, f.on, f.areas ∙ areas) first in
        let range = λ (r : Register). laws.reg_range r m.cpu in
        let dregs = subst (All (λ v. v < u32_mod)) (sym (f.kept.0 ∙ ds)) (
          range Register.d3,
          (range Register.d4, (range Register.d5, (range Register.d6, (range Register.d7, tt)))),
        ) in
        let aregs =
          subst (All (λ v. v < u32_mod)) (sym (f.kept.1 ∙ as_)) (
            range Register.a3,
            (range Register.a4, (range Register.a5, (range Register.a6, tt))),
          ) in
        let left =
          magic_xbios_supexec_read-Left laws (c + 4) fuel u f.bytes f.on dregs aregs on_stack in
        (
          left.0,
          left.1,
          record {
            jumps = left.2.jumps ∙ ap (λ x. x % u16_mod) (f.back ∙ e.back);
            drops = left.2.drops;
            stack = left.2.stack;
            dregs = subst (Holds left.0.cpu saved_dregs) (f.kept.0 ∙ ds) left.2.dregs;
            aregs = subst (Holds left.0.cpu saved_aregs) (f.kept.1 ∙ as_) left.2.aregs;
          },
        )

    -- A routine that is run by Supexec, whatever it does: when Supexec has returned and the routine has
    -- finished, reading the magic bytes brings the program back behind the trap, at the low 16 bits of the
    -- address, in user mode, on the user's stack and with the values that D3 to D7 and A3 to A6 had at the
    -- trap. The argument and 8 bytes of the supervisor's stack are mapped.
    pub supexec-Returned :
        (t u : State)
        → supexec (suc fuel) m ≡ done 0 t
        → Finished c t u
        → (v : State) × (magic_xbios_supexec_read 0x201 (suc fuel) u ≡ done 0x71 v) × Returned m u v
    supexec-Returned t u called f =
        let lv0 = fetch m.host_mem ca 4 0 in
        let same : entered laws c lv0 m ≡ t =
          ap (state_or m)
            (sym (supexec-done laws c ca fuel m bytes argument first second) ∙ called) in
        brought_back (entered laws c lv0 m)
          (entered-Entered laws c ca fuel m bytes argument first second) refl refl refl u
          (subst (λ t. Finished c t u) (sym same) f)
