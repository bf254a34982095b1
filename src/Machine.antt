-- ===== src/Machine.antt =====
-- The program's state and the monad of its functions. The state is that of every source file: the
-- CPU context, the memory areas of memory.c with the host memory behind them, `keepongoing`, the
-- registers saved by xbios.c, and the variables of gemdosmem.c and gemdosfile.c. Diagnostics that
-- are printed with `printf` are left out.
pub mod Keeps
pub mod Post
use tosemu.Base.{ℕ, Bool, false, List, ◌==◌, if◌then◌else◌}
use tosemu.Platform.{Platform, Register}
use tosemu.Memory.Area.{MemoryArea}
use tosemu.GemdosMem.{MemState}
use tosemu.GemdosFile.State.{FileState}

pub record Machine (p : Platform) : Type 0 where
  pub cpu : p.Cpu
  pub world : p.World
  pub host_mem : ℕ → ℕ
  pub areas : List MemoryArea
  pub keepongoing : Bool
  pub dreg : List ℕ
  pub areg : List ℕ
  pub memory : MemState
  pub files : FileState

-- How a call ends: it returns, the program has called `exit`, the host faults (a NULL pointer is
-- used), or the fuel is used up.
pub data Run (S A : Type 0) : Type 0 where
  done : A → S → Run S A
  exited : ℕ → Run S A
  fault : Run S A
  out_of_fuel : Run S A

abbrev pub and_then : {S A B : Type 0} → Run S A → (A → S → Run S B) → Run S B
and_then (done a s) f = f a s
and_then (exited c) f = exited c
and_then fault f = fault
and_then out_of_fuel f = out_of_fuel

-- A byte of host memory is written.
unfoldable pub update : (ℕ → ℕ) → ℕ → ℕ → ℕ → ℕ
update f p v q = if p == q then v else f q

module _ ⦃p : Platform⦄ where
  abbrev pub State : Type 0
  State = Machine p

  -- The number is the fuel: a bound on nested reads and on the rounds of a loop.
  abbrev pub M : Type 0 → Type 0
  M A = ℕ → State → Run State A

  abbrev pub pure : {A : Type 0} → A → M A
  pure a fuel m = done a m

  infixl 5 ◌>>=◌ ◌>>◌
  abbrev pub ◌>>=◌ : {A B : Type 0} → M A → (A → M B) → M B
  ◌>>=◌ x f fuel m = and_then (x fuel m) (λ a m'. f a fuel m')

  abbrev pub ◌>>◌ : {A B : Type 0} → M A → M B → M B
  ◌>>◌ x y fuel m = and_then (x fuel m) (λ _ m'. y fuel m')

  unfoldable pub m68k_get_reg : Register → M ℕ
  m68k_get_reg r fuel m = done (p.m68k_get_reg r m.cpu) m

  unfoldable pub m68k_set_reg : Register → ℕ → M (Unit {0})
  m68k_set_reg r v fuel m = done tt (record m { cpu = p.m68k_set_reg r v m.cpu })

  -- tossystem.c
  unfoldable pub halt_execution : M (Unit {0})
  halt_execution fuel m = done tt (record m { keepongoing = false })

  -- A call that reads the outside world, and one that changes it.
  abbrev pub ask : {A : Type 0} → (p.World → A) → M A
  ask f fuel m = done (f m.world) m

  abbrev pub act : {A : Type 0} → (p.World → A × p.World) → M A
  act f fuel m = let r = f m.world in done r.0 (record m { world = r.1 })
