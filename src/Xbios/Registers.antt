-- ===== src/Xbios/Registers.antt =====
-- xbios.c: registers that are written one after the other, as restore_regs does.
use mathlib.Core.Path.{◌∙◌}
use tosemu.Base.{ℕ, ◌≡◌, ◌≢◌, ◌<◌, refl, List, [], ◌∷◌, u32_mod, All}
use tosemu.Platform.{Platform, Register, CpuLaws, IsPlain}
use tosemu.Machine.{State, done}
use tosemu.Memory.Access.{set_regs}

module _ ⦃p : Platform⦄ where
  -- The CPU after the writes.
  unfoldable pub poke_regs : List Register → List ℕ → p.Cpu → p.Cpu
  poke_regs [] vs c = c
  poke_regs (r ∷ rs) [] c = c
  poke_regs (r ∷ rs) (v ∷ vs) c = poke_regs rs vs (p.m68k_set_reg r v c)

  pub set_regs-done :
      (rs : List Register) (vs : List ℕ) (fuel : ℕ) (m : State)
      → set_regs rs vs fuel m ≡ done tt (record m { cpu = poke_regs rs vs m.cpu })
  unfolding set_regs poke_regs
  set_regs-done [] vs fuel m = refl
  set_regs-done (r ∷ rs) [] fuel m = refl
  set_regs-done (r ∷ rs) (v ∷ vs) fuel m =
      set_regs-done rs vs fuel (record m { cpu = p.m68k_set_reg r v m.cpu })

  abbrev pub Other : Register → Register → Type 0
  Other r q = IsPlain q × (r ≢ q)

  pub poke_regs-Other :
      (laws : CpuLaws p) (r : Register)
      → IsPlain r
      → (rs : List Register) (vs : List ℕ) (c : p.Cpu) → All (Other r) rs
      → p.m68k_get_reg r (poke_regs rs vs c) ≡ p.m68k_get_reg r c
  unfolding poke_regs
  poke_regs-Other laws r k [] vs c h = refl
  poke_regs-Other laws r k (q ∷ rs) [] c h = refl
  poke_regs-Other laws r k (q ∷ rs) (v ∷ vs) c h =
      poke_regs-Other laws r k rs vs (p.m68k_set_reg q v c) h.1
      ∙ laws.get_set_ne r q v c k h.0.0 h.0.1

  -- The registers hold the values, in order.
  abbrev pub Holds : p.Cpu → List Register → List ℕ → Type 0
  Holds c [] vs = Unit
  Holds c (r ∷ rs) [] = Unit
  Holds c (r ∷ rs) (v ∷ vs) = (p.m68k_get_reg r c ≡ v) × Holds c rs vs

  -- Plain registers, no two of them the same.
  abbrev pub AreDistinct : List Register → Type 0
  AreDistinct [] = Unit
  AreDistinct (r ∷ rs) = IsPlain r × All (Other r) rs × AreDistinct rs

  pub poke_regs-Holds :
      (laws : CpuLaws p) (rs : List Register) (vs : List ℕ) (c : p.Cpu)
      → AreDistinct rs
      → All (λ v. v < u32_mod) vs
      → Holds (poke_regs rs vs c) rs vs
  unfolding poke_regs
  poke_regs-Holds laws [] vs c d w = tt
  poke_regs-Holds laws (r ∷ rs) [] c d w = tt
  poke_regs-Holds laws (r ∷ rs) (v ∷ vs) c d w = (
    poke_regs-Other laws r d.0 rs vs (p.m68k_set_reg r v c) d.1 ∙ laws.get_set r v c d.0 w.0,
    poke_regs-Holds laws rs vs (p.m68k_set_reg r v c) d.2 w.1,
  )

  pub Holds-poke_regs :
      (laws : CpuLaws p) (rs : List Register) (vs : List ℕ) (qs : List Register) (us : List ℕ)
      (c : p.Cpu)
      → AreDistinct rs
      → All (λ r. All (Other r) qs) rs
      → Holds c rs vs
      → Holds (poke_regs qs us c) rs vs
  Holds-poke_regs laws [] vs qs us c d o h = tt
  Holds-poke_regs laws (r ∷ rs) [] qs us c d o h = tt
  Holds-poke_regs laws (r ∷ rs) (v ∷ vs) qs us c d o h =
      (poke_regs-Other laws r d.0 qs us c o.0 ∙ h.0, Holds-poke_regs laws rs vs qs us c d.2 o.1 h.1)

  pub poke_regs-sr :
      (laws : CpuLaws p) (rs : List Register) (vs : List ℕ) (c : p.Cpu)
      → All IsPlain rs
      → p.m68k_get_reg Register.sr (poke_regs rs vs c) ≡ p.m68k_get_reg Register.sr c
  unfolding poke_regs
  poke_regs-sr laws [] vs c h = refl
  poke_regs-sr laws (q ∷ rs) [] c h = refl
  poke_regs-sr laws (q ∷ rs) (v ∷ vs) c h =
      poke_regs-sr laws rs vs (p.m68k_set_reg q v c) h.1 ∙ laws.sr_set q v c h.0
