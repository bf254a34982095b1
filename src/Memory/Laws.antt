-- ===== src/Memory/Laws.antt =====
-- memory.c: what a byte access does on every branch, and words that are written and read back.
use mathlib.Core.Path.{subst₂}
use tosemu.Base.{
  ℕ, suc, ◌+◌, ◌*◌, ◌^◌, ◌≤◌, ◌<◌, ◌≡◌, ◌⊎◌, inl, inr, fun_ext, false, Option, none, some, arith,
  add32, u32_mod, u16_mod, Option-cases,
}
use tosemu.Platform.{Platform}
use tosemu.Machine.{State, Run, done, ◌>>◌, update, halt_execution}
use tosemu.Memory.Area.{find_memarea}
use tosemu.Memory.Access.{supervisor, tos_read, tos_write, call_write, read_loop, write_loop}
use tosemu.Memory.Cells.{write_cell, Mapped}
use tosemu.Memory.Words.{
  IsBytes, poke, poke-IsBytes, poke_outside, room_left, fetch-poke, read_loop-fetch,
  write_loop-poke,
}
use tosemu.Memory.{
  m68k_read_memory_16, m68k_read_memory_32, m68k_write_memory_16, m68k_write_memory_32,
}

module _ ⦃p : Platform⦄ where
  abbrev pub halted : State → State
  halted m = record m { keepongoing = false }

  -- The state after a write to an address, by where the address leads.
  abbrev pub written : State → ℕ → Option ℕ → State
  written m v none = halted m
  written m v (some c) = record m { host_mem = update m.host_mem c v }

  -- A byte that is written changes the one host byte that the address is mapped to, if the address
  -- belongs to mapped memory that the current mode may write. Otherwise (no area, no permission, or
  -- the magic bytes of Supexec) it stops the execution and changes nothing else.
  pub tos_write-written :
      (a v fuel : ℕ) (m : State)
      → tos_write a v fuel m ≡ done tt (written m v (write_cell m.areas (supervisor m) a))
  unfolding tos_write call_write write_cell halt_execution
  tos_write-written a v fuel m = elim (Option-cases (find_memarea a m.areas)) [
    | inl missing ↦ ground arith
    | inr (area, found) ↦ ground arith
  ]

  -- The call returns `v`, and the state differs at most in the `n` host bytes from `c`.
  abbrev pub Returns : ℕ → ℕ → ℕ → State → Run State ℕ → Type 0
  Returns v n c m r =
      (h : ℕ → ℕ) × (r ≡ done v (record m { host_mem = h }))
      × ((q : ℕ) → (q < c) ⊎ (c + n ≤ q) → h q ≡ m.host_mem q)

  module _ (a c v fuel : ℕ) (m : State) (bytes : IsBytes m.host_mem)
      (is_address : a < u32_mod) where
    read-write_loop :
        (n : ℕ)
        → v < 256 ^ n
        → n ≤ 4
        → Mapped m a n c
        → (write_loop n a v >> read_loop tos_read n a 0) (suc fuel) m
          ≡ done v (record m { host_mem = poke m.host_mem c n v })
    read-write_loop n wv small h =
        let h' = poke m.host_mem c n v in
        let m' : State = record m { host_mem = h' } in
        rw (write_loop-poke n n a c v (suc fuel) m is_address (omega arith) h) (
          rw (
            read_loop-fetch n a c 0 fuel m' (poke-IsBytes m.host_mem c n v bytes) h
                (room_left n small),
            fetch-poke m.host_mem c n v wv,
          ))

    -- A 32-bit value that is written to mapped memory is read back as it was, and the write changes no
    -- host byte but the 4 that the addresses are mapped to.
    pub read-write_memory_32 :
        v < u32_mod
        → Mapped m a 4 c
        → Returns v 4 c m ((m68k_write_memory_32 a v >> m68k_read_memory_32 a) (suc fuel) m)
    unfolding m68k_write_memory_32 m68k_read_memory_32
    read-write_memory_32 wv h =
        (poke m.host_mem c 4 v, read-write_loop 4 wv (omega arith) h, poke_outside m.host_mem c 4 v)

    -- A 16-bit value that is written to mapped memory is read back as it was, and the write
    -- changes no host byte but the 2 that the addresses are mapped to.
    pub read-write_memory_16 :
        v < u16_mod
        → Mapped m a 2 c
        → Returns v 2 c m ((m68k_write_memory_16 a v >> m68k_read_memory_16 a) (suc fuel) m)
    unfolding m68k_write_memory_16 m68k_read_memory_16
    read-write_memory_16 wv h =
        (poke m.host_mem c 2 v, read-write_loop 2 wv (omega arith) h, poke_outside m.host_mem c 2 v)

  poke_words :
      (h : ℕ → ℕ) (c hi lo : ℕ)
      → hi < u16_mod
      → lo < u16_mod
      → poke h c 4 (hi * 2 ^ 16 + lo) ≡ poke (poke h c 2 hi) (c + 2) 2 lo
  unfolding poke update
  poke_words h c hi lo wh wl = fun_ext λ q. ground arith

  -- Memory is big-endian: writing a 32-bit value to 4 mapped bytes is writing its high word at the
  -- address and its low word two bytes behind it.
  pub write_memory_32-words :
      (a c hi lo fuel : ℕ) (m : State)
      → a + 3 < u32_mod
      → hi < u16_mod
      → lo < u16_mod
      → Mapped m a 4 c
      → m68k_write_memory_32 a (hi * 2 ^ 16 + lo) fuel m
        ≡ (m68k_write_memory_16 a hi >> m68k_write_memory_16 (a + 2) lo) fuel m
  unfolding m68k_write_memory_32 m68k_write_memory_16
  write_memory_32-words a c hi lo fuel m w wh wl h =
      let m' : State = record m { host_mem = poke m.host_mem c 2 hi } in
      let e2 : add32 (add32 a 1) 1 ≡ a + 2 = omega arith in
      let ec : c + 1 + 1 ≡ c + 2 = omega arith in
      let high : Mapped m' (a + 2) 2 (c + 2) = subst₂ (λ x y. Mapped m' x 2 y) e2 ec h.2.2 in
      rw (
        write_loop-poke 4 4 a c (hi * 2 ^ 16 + lo) fuel m (omega arith) (omega arith) h,
        write_loop-poke 2 4 a c hi fuel m (omega arith) (omega arith) h,
        write_loop-poke 2 2 (a + 2) (c + 2) lo fuel m' (omega arith) (omega arith) high,
        poke_words m.host_mem c hi lo wh wl,
      )
