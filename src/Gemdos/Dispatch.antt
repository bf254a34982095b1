-- ===== src/Gemdos/Dispatch.antt =====
-- gemdos.c, bios.c, xbios.c: which function a trap calls.
use tosemu.Base.{ℕ, suc, ◌%◌, ◌≡◌, refl, true, some, ◌==◌, if◌then◌else◌, get_elem?, add32, u16_mod}
use tosemu.Platform.{Platform, Register}
use tosemu.Machine.{State, halt_execution}
use tosemu.Memory.Cells.{Mapped}
use tosemu.Memory.Words.{IsBytes, fetch}
use tosemu.Cpu.Stack.{reg, peek_u16-fetch}
use tosemu.Trap.{Function, trap_loop, call_function}
use tosemu.Trap.Lookup.{NoRow, are_distinct, rows_reached, dispatch-past_end, All-at}
use tosemu.Gemdos.{gemdos_functions, gemdos_trap}
use tosemu.Bios.{bios_functions, bios_trap}

module _ ⦃p : Platform⦄ where
  gemdos_distinct : are_distinct gemdos_functions ≡ true
  unfolding gemdos_functions
  gemdos_distinct = refl

  bios_distinct : are_distinct bios_functions ≡ true
  unfolding bios_functions
  bios_distinct = refl

  -- The function number on top of the stack.
  abbrev pub number : State → ℕ → ℕ
  number m c = fetch m.host_mem c 2 0 % u16_mod

  module _ (e : Function p) (c fuel : ℕ) (m : State) (bytes : IsBytes m.host_mem)
      (top : Mapped m (add32 (reg m Register.a7) 0) 2 c) where
    -- A GEMDOS trap with the number of a row of the table, on top of a mapped stack, calls that
    -- row's function: each of the 118 rows is reached.
    pub gemdos_trap-row :
        (i : ℕ) (f : Function p)
        → get_elem? gemdos_functions i ≡ some f
        → number m c ≡ f.id
        → gemdos_trap e (suc fuel) m ≡ call_function f.fnct (suc fuel) m
    unfolding gemdos_trap
    gemdos_trap-row i f at same =
        let reached : trap_loop gemdos_functions e f.id ≡ call_function f.fnct =
          All-at (λ g. trap_loop gemdos_functions e g.id ≡ call_function g.fnct) gemdos_functions i
            f at (rows_reached gemdos_functions e gemdos_distinct) in
        rw (peek_u16-fetch 0 c fuel m bytes top) (rw (same, reached))

    -- A GEMDOS trap with a number that is in no row, on top of a mapped stack, reads one row more
    -- than the table has. If that has the number, whatever it points to is called; otherwise the
    -- execution stops.
    pub gemdos_trap-unknown :
        NoRow (number m c) gemdos_functions
        → gemdos_trap e (suc fuel) m
          ≡ (if e.id == number m c then call_function e.fnct else halt_execution) (suc fuel) m
    unfolding gemdos_trap
    gemdos_trap-unknown h =
        rw (peek_u16-fetch 0 c fuel m bytes top)
          (rw (dispatch-past_end gemdos_functions e (number m c) h))

    -- A BIOS trap with the number of a row of the table, on top of a mapped stack, calls that
    -- row's function: each of the 12 rows is reached.
    pub bios_trap-row :
        (i : ℕ) (f : Function p)
        → get_elem? bios_functions i ≡ some f
        → number m c ≡ f.id
        → bios_trap e (suc fuel) m ≡ call_function f.fnct (suc fuel) m
    unfolding bios_trap
    bios_trap-row i f at same =
        let reached : trap_loop bios_functions e f.id ≡ call_function f.fnct =
          All-at (λ g. trap_loop bios_functions e g.id ≡ call_function g.fnct) bios_functions i f at
            (rows_reached bios_functions e bios_distinct) in
        rw (peek_u16-fetch 0 c fuel m bytes top) (rw (same, reached))
