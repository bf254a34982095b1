-- ===== src/Tests/Runs.antt =====
-- A run of a whole program at a concrete machine: a binary without segments, on a core whose only
-- instruction is `trap #2`.
use tosemu.Base.{ℕ, ◌*◌, ◌+◌, ◌≡◌, refl, ap, Bool, true, false, [], ◌∷◌, none, some, arith}
use mathlib.Core.Path.{subst}
use tosemu.Platform.Example.{example, get}
use tosemu.Platform.Host.{Host}
use tosemu.Machine.{State, Run, done, pure, ◌>>◌, halt_execution}
use tosemu.Machine.Keeps.{Holds}
use tosemu.Machine.Post.{Post}
use tosemu.Trap.{Function, row}
use tosemu.TosSystem.{m68k_trap}
use tosemu.TosSystem.Layout.{tos_areas}
use tosemu.System.Sound.{Sound}
use tosemu.System.Steps.{Ends, callback, Reach, calls, stays, steps, traps, reach-Sound}
use tosemu.Main.{Core, cpu_instr_callback, main, execution_loop}
use tosemu.Main.Loop.{CoreLaws, execution_loop-halts}
use tosemu.Main.Outcome.{Outcome, main-Outcome}
use tosemu.Tests.Machines.{buffers, user_machine}

-- The blocks' addresses depend on their sizes, and the mapped file is that of the console.
instance abbrev pub host : Host example
host = record {
  buffer = λ n w. (n * 0x100 + 0x1000, w);
  free = λ a w. w;
  getenv = λ name w. none;
  stdin = 1;
  stdout = 2;
  open_rdonly = λ path w. (some 5, w);
  close = λ fd w. w;
  mmap = λ n fd w. (some w.file, w);
}

abbrev nothing : Function example
nothing = row "" none 0

abbrev pub ends : Ends example
ends = record { gemdos_end = nothing; bios_end = nothing; xbios_end = nothing }

instance abbrev pub core : Core example
core = record {
  m68k_init = pure tt;
  m68k_set_cpu_type = λ t. pure tt;
  m68k_pulse_reset = pure tt;
  m68k_execute = λ hook n. hook >> m68k_trap nothing nothing nothing 0x22;
  m68k_disassemble = λ pc t. pure tt;
}

abbrev state_or : State → Run State (Unit {0}) → State
state_or m (done a t) = t
state_or m _ = m

unmoved : (m t : State) → pure tt 0 m ≡ done tt t → Reach ends m t
unmoved m t d = subst (Reach ends m) (ap (state_or m) d) (stays m)

pub core-CoreLaws : CoreLaws ends
unfolding callback cpu_instr_callback
core-CoreLaws = record {
  executes = executed;
  inits = λ fuel m t d. unmoved m t d;
  sets_cpu_type = λ c fuel m t d. unmoved m t d;
  resets = λ fuel m t d. unmoved m t d;
}
  where
    executed :
        (verbose : Bool) (cycles fuel : ℕ) (m t : State)
        → core.m68k_execute (cpu_instr_callback verbose) cycles fuel m ≡ done tt t
        → Reach ends m t
    executed true cycles fuel m t d = steps m t t (calls (traps 0x22) fuel m t d) (stays t)
    executed false cycles fuel m t d = steps m t t (calls (traps 0x22) fuel m t d) (stays t)

abbrev stopped : State
stopped = record user_machine { keepongoing = false }

trapped : Reach ends user_machine stopped
unfolding callback m68k_trap halt_execution
trapped =
    steps user_machine stopped stopped (calls (traps 0x22) 9 user_machine stopped refl)
      (stays stopped)

reach-Sound_example : Holds (Sound true false (tos_areas buffers) 0 []) stopped
reach-Sound_example =
    reach-Sound true false (tos_areas buffers) 0 [] ends (tt, tt, tt) user_machine stopped trapped
      (
        refl,
        (refl, refl),
        (λ e. record { fits = omega arith; has_room = omega arith; is_word = omega arith }),
        λ e. absurd (ground arith),
      )

execution_loop-halts_example : execution_loop true 2 9 user_machine ≡ done tt stopped
unfolding m68k_trap halt_execution cpu_instr_callback get
execution_loop-halts_example =
    execution_loop-halts true ends core-CoreLaws 0 9 user_machine stopped stopped (tt, tt, tt) refl
      refl trapped refl (stays stopped)

main-Outcome_example :
    Post (Outcome user_machine) (main ((b't' ∷ []) ∷ (b'a' ∷ []) ∷ []) 9 user_machine)
main-Outcome_example = main-Outcome ((b't' ∷ []) ∷ (b'a' ∷ []) ∷ []) 9 user_machine
