-- ===== src/TosSystem/Relocated.antt =====
-- tossystem.c: what the relocation of a binary does to host memory.
use tosemu.Base.{
  ℕ, suc, ◌+◌, ◌-◌, ◌≤◌, ◌<◌, ◌≡◌, refl, List, [], ◌∷◌, arith, add32, u32_mod, All, sym, ne→==,
}
use mathlib.Core.Path.{subst}
use tosemu.Platform.{Platform}
use tosemu.Machine.{State, done}
use tosemu.Memory.Access.{supervisor}
use tosemu.Memory.Cells.{Mapped, MapsTo}
use tosemu.Memory.Words.{IsBytes, poke, fetch, poke-IsBytes, read_loop-fetch, write_loop-poke}
use tosemu.Memory.{m68k_read_memory_32, m68k_write_memory_32}
use tosemu.TosSystem.Layout.{Buffers, tos_areas, user_ram_size}
use tosemu.TosSystem.Areas.{user_ram-MapsTo}
use tosemu.TosSystem.Loader.{relocate, relocate_binary}
use tosemu.TosSystem.Relocation.{
  Distance, IsDistance, distance, encode, relocate_all, relocate_loop-encode,
}

-- The long word at a host address is moved on by the start of the user RAM.
abbrev pub rebased : (ℕ → ℕ) → ℕ → ℕ → ℕ
rebased h c = poke h c 4 (add32 (fetch h c 4 0) 0x900)

-- The long words at the given distances, each from the one before, are moved on in this way.
unfoldable pub rebased_all : (ℕ → ℕ) → ℕ → List Distance → ℕ → ℕ
rebased_all h c [] = h
rebased_all h c (d ∷ ds) = rebased_all (rebased h (c + distance d)) (c + distance d) ds

-- The long words lie in the user RAM, from an offset in it on.
abbrev pub InRam : ℕ → List Distance → Type 0
InRam offset [] = Unit
InRam offset (d ∷ ds) = (offset + distance d + 4 ≤ user_ram_size) × InRam (offset + distance d) ds

module _ ⦃p : Platform⦄ where
  relocate-rebased :
      (a c fuel : ℕ) (m : State)
      → a < u32_mod
      → IsBytes m.host_mem
      → Mapped m a 4 c
      → relocate a (suc fuel) m ≡ done tt (record m { host_mem = rebased m.host_mem c })
  unfolding relocate m68k_read_memory_32 m68k_write_memory_32
  relocate-rebased a c fuel m w bytes there =
      rw (read_loop-fetch 4 a c 0 fuel m bytes there (omega arith)) (
        write_loop-poke 4 4 a c (add32 (fetch m.host_mem c 4 0) 0x900) (suc fuel) m w (omega arith)
          there)

  module _ (b : Buffers) where
    relocate-in_ram :
        (offset fuel : ℕ) (m : State)
        → m.areas ≡ tos_areas b
        → IsBytes m.host_mem
        → offset + 4 ≤ user_ram_size
        → relocate (0x900 + offset) (suc fuel) m
          ≡ done tt (record m { host_mem = rebased m.host_mem (b.appmem + offset) })
    relocate-in_ram offset fuel m map bytes inside =
        let e : b.appmem + (0x900 + offset - 0x900) ≡ b.appmem + offset = omega arith in
        let there : Mapped m (0x900 + offset) 4 (b.appmem + offset) =
          subst (MapsTo m.areas (supervisor m) (0x900 + offset) 4) e (
            subst
              (λ areas.
                MapsTo areas (supervisor m) (0x900 + offset) 4
                  (b.appmem + (0x900 + offset - 0x900)))
              (sym map)
              (user_ram-MapsTo b (supervisor m) 4 (0x900 + offset) (omega arith) (omega arith))) in
        relocate-rebased (0x900 + offset) (b.appmem + offset) fuel m (omega arith) bytes there

    relocate_all-rebased :
        (ds : List Distance) (offset fuel : ℕ) (m : State)
        → m.areas ≡ tos_areas b
        → IsBytes m.host_mem
        → InRam offset ds
        → relocate_all (0x900 + offset) ds (suc fuel) m
          ≡ done tt (record m { host_mem = rebased_all m.host_mem (b.appmem + offset) ds })
    unfolding relocate_all rebased_all
    relocate_all-rebased [] offset fuel m map bytes inside = refl
    relocate_all-rebased (d ∷ ds) offset fuel m map bytes inside =
        let n = offset + distance d in
        let ea : add32 (0x900 + offset) (distance d) ≡ 0x900 + n = omega arith in
        let ec : b.appmem + offset + distance d ≡ b.appmem + n = omega arith in
        let m1 : State = record m { host_mem = rebased m.host_mem (b.appmem + n) } in
        rw (ea, ec)
          (rw (relocate-in_ram n fuel m map bytes inside.0) (
            relocate_all-rebased ds n fuel m1 map (poke-IsBytes m.host_mem (b.appmem + n) 4 _ bytes)
              inside.1))

    -- The whole relocation, from the first offset on.
    pub relocate_binary-rebased :
        (first : ℕ) (ds : List Distance) (fuel : ℕ) (m : State)
        → 0 < first
        → first + 4 ≤ user_ram_size
        → All IsDistance ds
        → InRam first ds
        → m.areas ≡ tos_areas b
        → IsBytes m.host_mem
        → relocate_binary first (encode ds) (suc fuel) m
          ≡ done tt (record m {
            host_mem = rebased_all (rebased m.host_mem (b.appmem + first)) (b.appmem + first) ds;
          })
    unfolding relocate_binary
    relocate_binary-rebased first ds fuel m some_first fits are inside map bytes =
        let e : add32 0x900 first ≡ 0x900 + first = omega arith in
        let m1 : State = record m { host_mem = rebased m.host_mem (b.appmem + first) } in
        rw (e, ne→== (0x900 + first) 0x900 (λ q. omega arith))
          (rw (relocate-in_ram first fuel m map bytes fits) (
            rw (relocate_loop-encode (0x900 + first) ds (omega arith) are) (
              relocate_all-rebased ds first fuel m1 map
                (poke-IsBytes m.host_mem (b.appmem + first) 4 _ bytes) inside)))
