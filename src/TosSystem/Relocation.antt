-- ===== src/TosSystem/Relocation.antt =====
-- tossystem.c: the relocation table of an executable, as a list of the distances that it stands for.
use tosemu.Base.{
  ℕ, zero, suc, ◌+◌, ◌*◌, ◌≤◌, ◌<◌, ◌≡◌, refl, ap, ◌∙◌, List, [], ◌∷◌, ◌++◌, arith, add32, u32_mod,
  All, replicate, ne→==,
}
use tosemu.Platform.{Platform}
use tosemu.Machine.{M, pure, ◌>>◌}
use tosemu.TosSystem.Loader.{relocate, relocate_loop}

-- A distance to the next address to relocate: so many times 0xfe, and a last byte.
pub record Distance : Type 0 where
  pub steps : ℕ
  pub last : ℕ

abbrev pub distance : Distance → ℕ
distance d = d.steps * 0xfe + d.last

-- The bytes 0 and 1 have other meanings.
abbrev pub IsDistance : Distance → Type 0
IsDistance d = (2 ≤ d.last) × (d.last < 256)

-- The table's bytes.
unfoldable pub encode : List Distance → List ℕ
encode [] = 0 ∷ []
encode (d ∷ ds) = replicate d.steps 1 ++ d.last ∷ encode ds

module _ ⦃p : Platform⦄ where
  -- One address after the other, each at its distance from the one before.
  unfoldable pub relocate_all : ℕ → List Distance → M (Unit {0})
  relocate_all adr [] = pure tt
  relocate_all adr (d ∷ ds) =
      relocate (add32 adr (distance d)) >> relocate_all (add32 adr (distance d)) ds

  steps_taken :
      (n last adr : ℕ) (rest : List ℕ)
      → 2 ≤ last
      → adr < u32_mod
      → relocate_loop adr (replicate n 1 ++ last ∷ rest) ≡ (
          relocate (add32 adr (n * 0xfe + last))
          >> relocate_loop (add32 adr (n * 0xfe + last)) rest)
  unfolding relocate_loop
  steps_taken zero last adr rest two w =
      let e : last ≡ 0 * 0xfe + last = omega arith in
      rw (ne→== last 0 (λ e. omega arith), relocate_loop)
        (rw (ne→== last 1 (λ e. omega arith))
          (ap (λ d. relocate (add32 adr d) >> relocate_loop (add32 adr d) rest) e))
  steps_taken (suc n) last adr rest two w =
      let e : add32 (add32 adr 0xfe) (n * 0xfe + last) ≡ add32 adr (suc n * 0xfe + last) =
        omega arith in
      steps_taken n last (add32 adr 0xfe) rest two (omega arith)
      ∙ ap (λ a. relocate a >> relocate_loop a rest) e

  -- The loop over a well-formed relocation table relocates exactly the addresses at the distances that
  -- the table stands for, in their order, and ends at the table's 0.
  pub relocate_loop-encode :
      (adr : ℕ) (ds : List Distance)
      → adr < u32_mod
      → All IsDistance ds
      → relocate_loop adr (encode ds) ≡ relocate_all adr ds
  unfolding encode relocate_all relocate_loop
  relocate_loop-encode adr [] w v = refl
  relocate_loop-encode adr (d ∷ ds) w v =
      steps_taken d.steps d.last adr (encode ds) v.0.0 w
      ∙ ap (λ k. relocate (add32 adr (distance d)) >> k)
          (relocate_loop-encode (add32 adr (distance d)) ds (omega arith) v.1)
