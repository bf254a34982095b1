-- ===== src/System/Steps.antt =====
-- memory.c, tossystem.c: what the CPU core may do to the state. While it executes instructions it
-- changes its registers and calls the functions that the program gives it, in any order.
use tosemu.Base.{ℕ, Bool, ◌≡◌, List, [], ◌∷◌}
use mathlib.Core.Path.{subst}
use tosemu.Platform.{Platform}
use tosemu.Machine.{State, M, done, pure, ◌>>◌}
use tosemu.Machine.Keeps.{Holds, Keeps, Leaves, Leaves-returned, leaves_rules}
use tosemu.Memory.Area.{MemoryArea}
use tosemu.Memory.{
  m68k_read_memory_8, m68k_read_memory_16, m68k_read_memory_32, m68k_read_disassembler_8,
  m68k_read_disassembler_16, m68k_read_disassembler_32, m68k_write_memory_8, m68k_write_memory_16,
  m68k_write_memory_32,
}
use tosemu.Trap.{Function}
use tosemu.TosSystem.{m68k_trap}
use tosemu.System.Access.{
  m68k_read_disassembler_8-Keeps, m68k_read_disassembler_16-Keeps, m68k_read_disassembler_32-Keeps,
  m68k_read_memory_8-Keeps, m68k_read_memory_16-Keeps, m68k_read_memory_32-Keeps,
  m68k_write_memory_8-Keeps, m68k_write_memory_16-Keeps, m68k_write_memory_32-Keeps,
}
use tosemu.System.Sound.{Sound}
use tosemu.System.Traps.{AllKeep, m68k_trap-Keeps}

-- The functions that m68k.h asks its user for, with their arguments.
pub data Callback : Type 0 where
  reads_8 reads_16 reads_32 : (address : ℕ) → Callback
  disassembles_8 disassembles_16 disassembles_32 : (address : ℕ) → Callback
  writes_8 writes_16 writes_32 : (address value : ℕ) → Callback
  traps : (vector : ℕ) → Callback

-- What lies behind the three function tables in host memory.
pub record Ends (p : Platform) : Type 0 where
  pub gemdos_end : Function p
  pub bios_end : Function p
  pub xbios_end : Function p

module _ ⦃p : Platform⦄ where
  abbrev forget : {A : Type 0} → M A → M (Unit {0})
  forget x = x >> pure tt

  unfoldable pub callback : Ends p → Callback → M (Unit {0})
  callback e (reads_8 a) = forget (m68k_read_memory_8 a)
  callback e (reads_16 a) = forget (m68k_read_memory_16 a)
  callback e (reads_32 a) = forget (m68k_read_memory_32 a)
  callback e (disassembles_8 a) = forget (m68k_read_disassembler_8 a)
  callback e (disassembles_16 a) = forget (m68k_read_disassembler_16 a)
  callback e (disassembles_32 a) = forget (m68k_read_disassembler_32 a)
  callback e (writes_8 a v) = m68k_write_memory_8 a v
  callback e (writes_16 a v) = m68k_write_memory_16 a v
  callback e (writes_32 a v) = m68k_write_memory_32 a v
  callback e (traps vector) = m68k_trap e.gemdos_end e.bios_end e.xbios_end vector

  pub data Step (e : Ends p) : State → State → Type 0 where
    computes : (m : State) (c : p.Cpu) → Step e m (record m { cpu = c })
    calls :
        (k : Callback) (fuel : ℕ) (m m' : State) → callback e k fuel m ≡ done tt m' → Step e m m'

  pub data Reach (e : Ends p) : State → State → Type 0 where
    stays : (m : State) → Reach e m m
    steps : (m m' m'' : State) → Step e m m' → Reach e m' m'' → Reach e m m''

  -- The functions that may lie behind the tables.
  abbrev pub EndsKeep : (managed halted : Bool) → List MemoryArea → ℕ → List ℕ → Ends p → Type 0
  EndsKeep managed halted map n base e =
      AllKeep (Sound managed halted map n base) (e.gemdos_end ∷ [])
      × AllKeep (Sound managed halted map n base) (e.bios_end ∷ [])
      × AllKeep (Sound managed halted map n base) (e.xbios_end ∷ [])

  module _ (managed halted : Bool) (map : List MemoryArea) (n : ℕ) (base : List ℕ) (e : Ends p)
      (ends : EndsKeep managed halted map n base e) where
    callback-Keeps : (k : Callback) → Keeps (Sound managed halted map n base) (callback e k)
    unfolding callback
    callback-Keeps (reads_8 a) = search (leaves_rules, m68k_read_memory_8-Keeps)
    callback-Keeps (reads_16 a) = search (leaves_rules, m68k_read_memory_16-Keeps)
    callback-Keeps (reads_32 a) = search (leaves_rules, m68k_read_memory_32-Keeps)
    callback-Keeps (disassembles_8 a) = search (leaves_rules, m68k_read_disassembler_8-Keeps)
    callback-Keeps (disassembles_16 a) = search (leaves_rules, m68k_read_disassembler_16-Keeps)
    callback-Keeps (disassembles_32 a) = search (leaves_rules, m68k_read_disassembler_32-Keeps)
    callback-Keeps (writes_8 a v) = m68k_write_memory_8-Keeps a v
    callback-Keeps (writes_16 a v) = m68k_write_memory_16-Keeps a v
    callback-Keeps (writes_32 a v) = m68k_write_memory_32-Keeps a v
    callback-Keeps (traps v) =
        m68k_trap-Keeps managed halted map n base e.gemdos_end e.bios_end e.xbios_end v ends.0
          ends.1 ends.2

    step-Sound :
        (m m' : State)
        → Step e m m'
        → Holds (Sound managed halted map n base) m
        → Holds (Sound managed halted map n base) m'
    step-Sound m _ (computes _ c) h = h
    step-Sound m m' (calls k fuel _ _ r) h =
        Leaves-returned
          (subst (Leaves (Sound managed halted map n base)) r (callback-Keeps k fuel m h))

    -- Whatever instructions the emulated program executes, traps and their errors included: the
    -- memory map and the root of the host paths stay as they were, the table of handles keeps its
    -- size, a list of memory areas that is sorted, apart and inside the managed memory stays so, and an
    -- execution that was stopped stays stopped, if what lies behind the function tables does the same.
    pub reach-Sound :
        (m t : State)
        → Reach e m t
        → Holds (Sound managed halted map n base) m
        → Holds (Sound managed halted map n base) t
    reach-Sound m _ (stays _) h = h
    reach-Sound m t (steps _ m' _ s r) h = reach-Sound m' t r (step-Sound m m' s h)
