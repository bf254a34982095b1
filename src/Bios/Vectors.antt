-- ===== src/Bios/Vectors.antt =====
-- bios.c: Setexc exchanges an exception vector.
use tosemu.Base.{ℕ, suc, ◌*◌, ◌%◌, ◌^◌, ◌<◌, ◌≡◌, refl, arith, add32, u16_mod}
use tosemu.Platform.{Platform, Register}
use tosemu.Machine.{State, done}
use tosemu.Memory.Cells.{Mapped}
use tosemu.Memory.Words.{
  IsBytes, poke, fetch, fetch-lt, fetch-poke, poke-IsBytes, read_loop-fetch, write_loop-poke,
}
use tosemu.Memory.{m68k_read_memory_32, m68k_write_memory_32}
use tosemu.Cpu.Stack.{reg, peek_u16-fetch, peek_u32-fetch}
use tosemu.Bios.{setexc}

module _ ⦃p : Platform⦄ where
  -- Setexc returns the old vector, at four times its number, and puts the new one in its place: a
  -- read of the vector then gives the new one. The arguments and the vector have to be in mapped
  -- memory.
  pub setexc-exchanges :
      (cn cv c fuel : ℕ) (m : State)
      → IsBytes m.host_mem
      → Mapped m (add32 (reg m Register.a7) 2) 2 cn
      → Mapped m (add32 (reg m Register.a7) 4) 4 cv
      → Mapped m (4 * (fetch m.host_mem cn 2 0 % u16_mod)) 4 c
      → (t : State) × (setexc (suc fuel) m ≡ done (fetch m.host_mem c 4 0) t)
        × (m68k_read_memory_32 (4 * (fetch m.host_mem cn 2 0 % u16_mod)) (suc fuel) t
            ≡ done (fetch m.host_mem cv 4 0) t)
  unfolding setexc m68k_read_memory_32 m68k_write_memory_32
  setexc-exchanges cn cv c fuel m b hn hv h =
      let a = 4 * (fetch m.host_mem cn 2 0 % u16_mod) in
      let vec = fetch m.host_mem cv 4 0 in
      let t : State = record m { host_mem = poke m.host_mem c 4 vec } in
      let short : vec < 256 ^ 4 = omega (arith, fetch-lt m.host_mem cv b) in
      (
        t,
        rw (peek_u16-fetch 2 cn fuel m b hn) (
            rw (peek_u32-fetch 4 cv fuel m b hv) (
              rw (read_loop-fetch 4 a c 0 fuel m b h (omega arith)) (
                rw (write_loop-poke 4 4 a c vec (suc fuel) m (omega arith) (omega arith) h) refl))),
        rw (
          read_loop-fetch 4 a c 0 fuel t (poke-IsBytes m.host_mem c 4 vec b) h (omega arith),
          fetch-poke m.host_mem c 4 vec short,
        ),
      )
