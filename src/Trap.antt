-- ===== src/Trap.antt =====
-- The function tables of gemdos.c, bios.c and xbios.c and the loop over them, which is the same in
-- gemdos_trap, bios_trap and xbios_trap.
pub mod Lookup
use tosemu.Base.{ℕ, List, [], ◌∷◌, ◌++◌, Option, none, some, String, ◌==◌, if◌then◌else◌}
use tosemu.Platform.{Platform, Register}
use tosemu.Machine.{State, M, pure, ◌>>=◌, ◌>>◌, m68k_set_reg, halt_execution}

-- A row of a table; `none` is NULL, a function that is not implemented.
pub record Function (p : Platform) : Type 0 where
  pub name : String
  pub fnct : Option (M ⦃p = p⦄ ℕ)
  pub id : ℕ

module _ ⦃p : Platform⦄ where
  abbrev pub row : String → Option (M ℕ) → ℕ → Function p
  row name fnct id = record { name = name; fnct = fnct; id = id }

  unfoldable pub call_function : Option (M ℕ) → M (Unit {0})
  unfolding m68k_set_reg halt_execution
  call_function none = halt_execution
  call_function (some f) = do r ← f; m68k_set_reg Register.d0 r

  unfoldable pub dispatch : List (Function p) → ℕ → M (Unit {0})
  unfolding call_function halt_execution
  dispatch [] fnct = halt_execution
  dispatch (f ∷ rest) fnct = if f.id == fnct then call_function f.fnct else dispatch rest fnct

  -- The loop's bound is one more than the table has rows: the last round reads what lies behind the
  -- table in host memory, here `past_end`.
  unfoldable pub trap_loop : List (Function p) → (past_end : Function p) → ℕ → M (Unit {0})
  unfolding dispatch
  trap_loop table past_end fnct = dispatch (table ++ past_end ∷ []) fnct
