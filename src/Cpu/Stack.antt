-- ===== src/Cpu/Stack.antt =====
-- cpu.c: what the stack functions do where the stack lies in mapped memory.
use tosemu.Base.{ℕ, suc, ◌%◌, ◌<◌, ◌≡◌, ◌∙◌, arith, add32, sub32, u32_mod, u16_mod}
use tosemu.Platform.{Platform, Register, CpuLaws, IsPlain}
use tosemu.Machine.{State, done, ◌>>◌}
use tosemu.Memory.Access.{supervisor, pop_u32_by}
use tosemu.Memory.Cells.{Mapped}
use tosemu.Memory.Words.{
  IsBytes, poke, fetch, poke-IsBytes, fetch-poke, read_loop-fetch, write_loop-poke,
}
use tosemu.Cpu.{push_u16, push_u32, pop_u16, pop_u32, peek_u16, peek_u32}

module _ ⦃p : Platform⦄ where
  abbrev pub reg : State → Register → ℕ
  reg m r = p.m68k_get_reg r m.cpu

  abbrev pub with_reg : State → Register → ℕ → State
  with_reg m r v = record m { cpu = p.m68k_set_reg r v m.cpu }

  -- A write to a register other than the status register leaves the mode as it is.
  pub supervisor-set_reg :
      CpuLaws p
      → (m : State) (r : Register) (v : ℕ) → IsPlain r
      → supervisor (with_reg m r v) ≡ supervisor m
  supervisor-set_reg laws m r v k = rw (laws.sr_set r v m.cpu k)

  -- The state after a push: the value lies below the old stack pointer.
  abbrev pub pushed : ℕ → ℕ → ℕ → State → State
  pushed n c v m = record (with_reg m Register.a7 (sub32 (reg m Register.a7) n)) {
    host_mem = poke m.host_mem c n v;
  }

  pub push_u32-pushed :
      (v c fuel : ℕ) (m : State)
      → Mapped m (sub32 (reg m Register.a7) 4) 4 c
      → push_u32 v fuel m ≡ done tt (pushed 4 c v m)
  unfolding push_u32
  push_u32-pushed v c fuel m h =
      rw
        (write_loop-poke 4 4 (sub32 (reg m Register.a7) 4) c v fuel m (omega arith) (omega arith) h)

  push_u16-pushed :
      (v c fuel : ℕ) (m : State)
      → Mapped m (sub32 (reg m Register.a7) 2) 2 c
      → push_u16 v fuel m ≡ done tt (pushed 2 c v m)
  unfolding push_u16
  push_u16-pushed v c fuel m h =
      rw
        (write_loop-poke 2 2 (sub32 (reg m Register.a7) 2) c v fuel m (omega arith) (omega arith) h)

  -- The state after `n` bytes are popped.
  abbrev pub popped : ℕ → State → State
  popped n m = with_reg m Register.a7 (add32 (reg m Register.a7) n)

  pub pop_u32-popped :
      (c fuel : ℕ) (m : State)
      → IsBytes m.host_mem
      → Mapped m (reg m Register.a7) 4 c
      → pop_u32 (suc fuel) m ≡ done (fetch m.host_mem c 4 0 % u16_mod) (popped 4 m)
  unfolding pop_u32 pop_u32_by
  pop_u32-popped c fuel m b h =
      rw (read_loop-fetch 4 (reg m Register.a7) c 0 fuel m b h (omega arith))

  pop_u16-popped :
      (c fuel : ℕ) (m : State)
      → IsBytes m.host_mem
      → Mapped m (reg m Register.a7) 2 c
      → pop_u16 (suc fuel) m ≡ done (fetch m.host_mem c 2 0 % u16_mod) (popped 2 m)
  unfolding pop_u16
  pop_u16-popped c fuel m b h =
      rw (read_loop-fetch 2 (reg m Register.a7) c 0 fuel m b h (omega arith))

  module _ (laws : CpuLaws p) (v c fuel : ℕ) (m : State) (bytes : IsBytes m.host_mem) where
    -- The stack pointer behind a push, and the memory there.
    pub a7-pushed : (n : ℕ) → reg (pushed n c v m) Register.a7 ≡ sub32 (reg m Register.a7) n
    a7-pushed n = laws.get_set Register.a7 (sub32 (reg m Register.a7) n) m.cpu tt (omega arith)

    pub Mapped-pushed :
        (n : ℕ)
        → Mapped m (sub32 (reg m Register.a7) n) n c
        → Mapped (pushed n c v m) (reg (pushed n c v m) Register.a7) n c
    Mapped-pushed n h =
        rw (a7-pushed n, supervisor-set_reg laws m Register.a7 (sub32 (reg m Register.a7) n) tt) h

    a7-popped :
        (n : ℕ) → n < u32_mod → reg (popped n (pushed n c v m)) Register.a7 ≡ reg m Register.a7
    a7-popped n w =
        laws.get_set Register.a7 _ (pushed n c v m).cpu tt (omega arith)
        ∙ omega (arith, a7-pushed n, laws.reg_range Register.a7 m.cpu)

    -- Where the 4 bytes below the stack pointer are mapped, `push_u32` and then `pop_u32` restore
    -- the stack pointer, but the value comes back cut to its low 16 bits, since `pop_u32` keeps it
    -- in a `uint16_t`.
    pub pop_u32-push_u32 :
        v < u32_mod
        → Mapped m (sub32 (reg m Register.a7) 4) 4 c
        → (t : State) × ((push_u32 v >> pop_u32) (suc fuel) m ≡ done (v % u16_mod) t)
          × (reg t Register.a7 ≡ reg m Register.a7)
    pop_u32-push_u32 w h = (
      popped 4 (pushed 4 c v m),
      rw (push_u32-pushed v c (suc fuel) m h) (
          rw (
            pop_u32-popped c fuel (pushed 4 c v m) (poke-IsBytes m.host_mem c 4 v bytes)
                (Mapped-pushed 4 h),
            fetch-poke m.host_mem c 4 v w,
          )),
      a7-popped 4 (omega arith),
    )

    -- Where the 2 bytes below the stack pointer are mapped, a 16-bit value that is pushed is
    -- popped again whole, and the stack pointer is restored.
    pub pop_u16-push_u16 :
        v < u16_mod
        → Mapped m (sub32 (reg m Register.a7) 2) 2 c
        → (t : State) × ((push_u16 v >> pop_u16) (suc fuel) m ≡ done v t)
          × (reg t Register.a7 ≡ reg m Register.a7)
    pop_u16-push_u16 w h =
        let whole : v % u16_mod ≡ v = omega arith in
        (
          popped 2 (pushed 2 c v m),
          rw (push_u16-pushed v c (suc fuel) m h) (
              rw (
                pop_u16-popped c fuel (pushed 2 c v m) (poke-IsBytes m.host_mem c 2 v bytes)
                    (Mapped-pushed 2 h),
                fetch-poke m.host_mem c 2 v w,
                whole,
              )),
          a7-popped 2 (omega arith),
        )

  -- An argument on the stack, as the handlers peek it.
  pub peek_u32-fetch :
      (offset c fuel : ℕ) (m : State)
      → IsBytes m.host_mem
      → Mapped m (add32 (reg m Register.a7) offset) 4 c
      → peek_u32 offset (suc fuel) m ≡ done (fetch m.host_mem c 4 0) m
  unfolding peek_u32
  peek_u32-fetch offset c fuel m b h =
      read_loop-fetch 4 (add32 (reg m Register.a7) offset) c 0 fuel m b h (omega arith)

  pub peek_u16-fetch :
      (offset c fuel : ℕ) (m : State)
      → IsBytes m.host_mem
      → Mapped m (add32 (reg m Register.a7) offset) 2 c
      → peek_u16 offset (suc fuel) m ≡ done (fetch m.host_mem c 2 0 % u16_mod) m
  unfolding peek_u16
  peek_u16-fetch offset c fuel m b h =
      rw (read_loop-fetch 2 (add32 (reg m Register.a7) offset) c 0 fuel m b h (omega arith))
