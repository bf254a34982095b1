-- ===== src/GemdosCon/Output.antt =====
-- gemdoscon.c: Cconws writes a string of emulated memory to the console.
use tosemu.Base.{
  ℕ, zero, suc, ◌+◌, ◌<◌, ◌≡◌, ◌≢◌, refl, ap, ◌∙◌, List, [], ◌∷◌, some, arith, add32, u32_mod,
  length, ne→==,
}
use tosemu.Platform.{Platform, Register}
use tosemu.Machine.{State, done}
use tosemu.Memory.Access.{supervisor}
use tosemu.Memory.Cells.{read_cell, tos_read-cell, Mapped}
use tosemu.Memory.Words.{IsBytes, fetch}
use tosemu.Cpu.Stack.{reg, peek_u32-fetch}
use tosemu.Memory.{m68k_read_disassembler_8}
use tosemu.Console.{putchar}
use tosemu.GemdosCon.{cconws_loop, cconws}

module _ ⦃p : Platform⦄ where
  -- The bytes stand in readable memory from an address on, none of them 0, and a 0 is behind them.
  abbrev pub HoldsString : State → ℕ → List ℕ → Type 0
  HoldsString m a [] = (c : ℕ) × (read_cell m.areas (supervisor m) a ≡ some c) × (m.host_mem c ≡ 0)
  HoldsString m a (b ∷ bs) =
      ((c : ℕ) × (read_cell m.areas (supervisor m) a ≡ some c) × (m.host_mem c ≡ b))
      × (b ≢ 0)
      × HoldsString m (add32 a 1) bs

  -- The console after the bytes, in their order.
  abbrev pub put_all : List ℕ → p.World → p.World
  put_all [] w = w
  put_all (b ∷ bs) w = put_all bs (p.putchar b w)

  moved :
      (m : State) (w : p.World) (a : ℕ) (bs : List ℕ)
      → HoldsString m a bs
      → HoldsString (record m { world = w }) a bs
  moved m w a [] h = h
  moved m w a (b ∷ bs) h = (h.0, h.1, moved m w (add32 a 1) bs h.2)

  -- The loop adds the number of bytes to the count so far. One round more than there are bytes is enough.
  cconws_loop-string :
      (bs : List ℕ) (rounds a res fuel : ℕ) (m : State)
      → length bs < rounds
      → res + length bs < u32_mod
      → HoldsString m a bs
      → cconws_loop rounds a res (suc fuel) m
        ≡ done (res + length bs) (record m { world = put_all bs m.world })
  unfolding cconws_loop m68k_read_disassembler_8 putchar
  cconws_loop-string bs zero a res fuel m few small h = absurd (omega arith)
  cconws_loop-string [] (suc rounds) a res fuel m few small h =
      let e : res ≡ res + 0 = omega arith in
      rw (tos_read-cell a h.0 fuel m h.1) (rw h.2 (ap (λ r. done r m) e))
  cconws_loop-string (b ∷ bs) (suc rounds) a res fuel m few small h =
      let e : add32 res 1 + length bs ≡ res + suc (length bs) = omega arith in
      rw (tos_read-cell a h.0.0 fuel m h.0.1) (
        rw h.0.2 (
          rw (ne→== b 0 h.1) (
            rw
              (
                cconws_loop-string bs rounds (add32 a 1) (add32 res 1) fuel
                    (record m { world = p.putchar b m.world }) (omega arith) (omega arith)
                    (moved m (p.putchar b m.world) (add32 a 1) bs h.2),
                e,
              )
              refl)))

  -- Cconws, with the address of a string on the stack that stands in readable memory with a 0 behind it,
  -- writes exactly the bytes of the string to the console, in their order, and returns their number. It
  -- changes nothing but the outside world. The argument is mapped, the string is shorter than 2 ^ 32, and
  -- the fuel is more than its length.
  pub cconws-string :
      (cs fuel : ℕ) (m : State) (bs : List ℕ)
      → IsBytes m.host_mem
      → Mapped m (add32 (reg m Register.a7) 2) 4 cs
      → HoldsString m (fetch m.host_mem cs 4 0) bs
      → length bs < suc fuel
      → length bs < u32_mod
      → cconws (suc fuel) m ≡ done (length bs) (record m { world = put_all bs m.world })
  unfolding cconws
  cconws-string cs fuel m bs bytes argument_there string few small =
      let count : 0 + length bs ≡ length bs = omega arith in
      rw (peek_u32-fetch 2 cs fuel m bytes argument_there) (
        cconws_loop-string bs (suc fuel) (fetch m.host_mem cs 4 0) 0 fuel m few (omega arith) string
        ∙ ap (λ n. done n (record m { world = put_all bs m.world })) count)
