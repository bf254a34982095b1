-- ===== src/Gemdos/Modes.antt =====
-- gemdos.c: Super changes the processor mode and the stack.
use tosemu.Base.{
  ℕ, zero, suc, ◌<◌, ◌≡◌, ◌≢◌, refl, ◌∙◌, true, false, arith, add32, u32_mod, bit_and, bit_or,
  if◌then◌else◌,
}
use tosemu.Base.Bits.{set_supervisor, clear_supervisor}
use tosemu.Platform.{Platform, Register, CpuLaws, IsPlain}
use tosemu.Machine.{State, Run, done, m68k_get_reg, m68k_set_reg}
use tosemu.Memory.Access.{
  supervisor, enable_supervisor_mode, disable_supervisor_mode, is_supervisor_mode_enabled,
}
use tosemu.Memory.Cells.{Mapped}
use tosemu.Memory.Words.{IsBytes, fetch, fetch-lt}
use tosemu.Cpu.Stack.{reg, peek_u32-fetch}
use tosemu.Gemdos.{super}

module _ ⦃p : Platform⦄ where
  -- Only the processor's mode and stack pointers may differ.
  abbrev pub SameBut : State → State → Type 0
  SameBut m t =
      (t ≡ record m { cpu = t.cpu })
      × ((r : Register) → IsPlain r → r ≢ Register.a7 → reg t r ≡ reg m r)

  -- What Super has to do for each argument.
  abbrev pub SuperAnswers : ℕ → State → Run State ℕ → Type 0
  SuperAnswers zero m run =
      (t : State) × (run ≡ done (reg m Register.a7) t)
      × (supervisor t ≡ true)
      × (reg t Register.a7 ≡ reg m Register.isp)
      × (reg t Register.usp ≡ reg m Register.usp)
      × SameBut m t
  SuperAnswers (suc zero) m run = run ≡ done (if supervisor m then 1 else 0) m
  SuperAnswers (suc (suc v)) m run =
      (t : State) × (run ≡ done 0 t)
      × (supervisor t ≡ false)
      × (reg t Register.a7 ≡ suc (suc v))
      × SameBut m t

  module _ (laws : CpuLaws p) (c fuel : ℕ) (m : State) (bytes : IsBytes m.host_mem)
      (argument_there : Mapped m (add32 (reg m Register.a7) 2) 4 c) where
    entered : fetch m.host_mem c 4 0 ≡ 0 → SuperAnswers 0 m (super (suc fuel) m)
    unfolding super enable_supervisor_mode m68k_get_reg m68k_set_reg
    entered e =
        let sr = bit_or (reg m Register.sr) 0x2000 in
        let t : State = record m { cpu = p.m68k_set_reg Register.sr sr m.cpu } in
        (
          t,
          rw (peek_u32-fetch 2 c fuel m bytes argument_there) (rw e refl),
          rw (laws.set_sr sr m.cpu, set_supervisor (reg m Register.sr)) refl,
          laws.a7_supervisor sr m.cpu (set_supervisor (reg m Register.sr)),
          laws.usp_set_sr sr m.cpu,
          (refl, λ r k n. laws.get_set_sr r sr m.cpu k n),
        )

    inquired : fetch m.host_mem c 4 0 ≡ 1 → SuperAnswers 1 m (super (suc fuel) m)
    unfolding super is_supervisor_mode_enabled
    inquired e = rw (peek_u32-fetch 2 c fuel m bytes argument_there) (rw e (ground arith))

    left :
        (v : ℕ)
        → fetch m.host_mem c 4 0 ≡ suc (suc v)
        → SuperAnswers (suc (suc v)) m (super (suc fuel) m)
    unfolding super disable_supervisor_mode m68k_get_reg m68k_set_reg
    left v e =
        let cpu1 = p.m68k_set_reg Register.usp (suc (suc v)) m.cpu in
        let sr1 = p.m68k_get_reg Register.sr cpu1 in
        let sr = bit_and sr1 0xffff_dfff in
        let t : State = record m { cpu = p.m68k_set_reg Register.sr sr cpu1 } in
        let small : suc (suc v) < u32_mod = omega (arith, fetch-lt m.host_mem c bytes) in
        (
          t,
          rw (peek_u32-fetch 2 c fuel m bytes argument_there) (rw e (ground arith)),
          rw (laws.set_sr sr cpu1, clear_supervisor sr1) refl,
          laws.a7_user sr cpu1 (clear_supervisor sr1) ∙ laws.usp_set (suc (suc v)) m.cpu small,
          (
            refl,
            λ r k n. laws.get_set_sr r sr cpu1 k n ∙ laws.get_set_usp r (suc (suc v)) m.cpu k n,
          ),
        )

    answers : (v : ℕ) → fetch m.host_mem c 4 0 ≡ v → SuperAnswers v m (super (suc fuel) m)
    answers zero e = entered e
    answers (suc zero) e = inquired e
    answers (suc (suc v)) e = left v e

    -- Super, with its argument in mapped memory: for 0 it enters supervisor mode on the supervisor's stack
    -- and answers the old stack pointer, for 1 it answers the mode and changes nothing, and for any other
    -- value it enters user mode with that value as the stack pointer, and answers 0. The user's stack
    -- pointer survives the first, and no other register and nothing else of the machine is changed.
    pub super-SuperAnswers : SuperAnswers (fetch m.host_mem c 4 0) m (super (suc fuel) m)
    super-SuperAnswers = answers (fetch m.host_mem c 4 0) refl
