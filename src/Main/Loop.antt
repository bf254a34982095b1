-- ===== src/Main/Loop.antt =====
-- main.c: the execution loop around the CPU core.
use mathlib.Core.Path.{subst}
use tosemu.Base.{
  ℕ, zero, suc, Bool, Bool-cases, true, false, ◌≡◌, refl, sym, ap, ◌∙◌, length, inl, inr, List,
  arith, if◌then◌else◌,
}
use tosemu.Platform.{Platform}
use tosemu.Machine.{State, Run, done, exited, fault, out_of_fuel, and_then}
use tosemu.Machine.Keeps.{Holds}
use tosemu.Memory.Area.{MemoryArea}
use tosemu.System.Sound.{Sound}
use tosemu.System.Steps.{Ends, EndsKeep, Reach, reach-Sound}
use tosemu.Main.{Core, cpu_instr_callback, execution_loop}

pub if-true : {A : Type 0} → (b : Bool) (x y : A) → b ≡ true → (if b then x else y) ≡ x
if-true true x y e = refl
if-true false x y e = absurd (ground arith)

pub if-false : {A : Type 0} → (b : Bool) (x y : A) → b ≡ false → (if b then x else y) ≡ y
if-false true x y e = absurd (ground arith)
if-false false x y e = refl

-- What m68k.h documents of the core: it changes the state through its own registers and the functions
-- that the program gives it.
module _ ⦃p : Platform⦄ ⦃core : Core p⦄ where
  pub record CoreLaws (e : Ends p) : Type 0 where
    pub executes :
        (verbose : Bool) (cycles fuel : ℕ) (m t : State)
        → core.m68k_execute (cpu_instr_callback verbose) cycles fuel m ≡ done tt t
        → Reach e m t
    pub inits : (fuel : ℕ) (m t : State) → core.m68k_init fuel m ≡ done tt t → Reach e m t
    pub sets_cpu_type :
        (cpu_type fuel : ℕ) (m t : State)
        → core.m68k_set_cpu_type cpu_type fuel m ≡ done tt t
        → Reach e m t
    pub resets : (fuel : ℕ) (m t : State) → core.m68k_pulse_reset fuel m ≡ done tt t → Reach e m t

  -- A call that returns, and what follows it.
  pub and_then-done :
      {A B : Type 0} (r : Run State A) (f : A → State → Run State B) (b : B) (t : State)
      → and_then r f ≡ done b t
      → (a : A) × (m : State) × (r ≡ done a m) × (f a m ≡ done b t)
  and_then-done (done a m) f b t d = (a, m, refl, d)
  and_then-done (exited c) f b t d = absurd (ground arith)
  and_then-done fault f b t d = absurd (ground arith)
  and_then-done out_of_fuel f b t d = absurd (ground arith)

  abbrev state_or : {A : Type 0} → State → Run State A → State
  state_or m (done a t) = t
  state_or m _ = m

  module _ (verbose : Bool) (e : Ends p) (laws : CoreLaws e) where
    -- If the execution loop returns, then the execution was stopped, and every property that the traps and
    -- the memory accesses keep holds as before the loop.
    pub execution_loop-Sound :
        (managed halted : Bool) (map : List MemoryArea) (n : ℕ) (base : List ℕ)
        → EndsKeep managed halted map n base e
        → (rounds fuel : ℕ) (m t : State) → execution_loop verbose rounds fuel m ≡ done tt t
        → Holds (Sound managed halted map n base) m
        → Holds (Sound managed halted map n base) t × (t.keepongoing ≡ false)
    unfolding execution_loop
    execution_loop-Sound managed halted map n base ends zero fuel m t d h = absurd (ground arith)
    execution_loop-Sound managed halted map n base ends (suc rounds) fuel m t d h =
        elim (Bool-cases m.keepongoing) [
          | inl on ↦
              let step =
                and_then-done (core.m68k_execute (cpu_instr_callback verbose) 1 fuel m)
                  (λ _ m'. execution_loop verbose rounds fuel m') tt t
                  (sym (if-true m.keepongoing _ _ on) ∙ d) in
              execution_loop-Sound managed halted map n base ends rounds fuel step.1 t step.3 (
                reach-Sound managed halted map n base e ends m step.1
                  (laws.executes verbose 1 fuel m step.1 step.2) h)
          | inr off ↦
              let same : m ≡ t = ap (state_or m) (sym (if-false m.keepongoing _ _ off) ∙ d) in
              subst (λ s. Holds (Sound managed halted map n base) s × (s.keepongoing ≡ false)) same
                (h, off)
        ]

    -- As soon as the execution is stopped in the course of an instruction, by a trap or by an access to
    -- memory, the loop ends with that instruction, whatever else the instruction does, if the core works
    -- by the step relation and what lies behind the function tables keeps an execution stopped, with the
    -- memory map, the root of the host paths and the number of handles.
    pub execution_loop-halts :
        (rounds fuel : ℕ) (m m1 m2 : State)
        → EndsKeep false true m1.areas (length m1.files.handles) m1.files.base_path e
        → m.keepongoing ≡ true
        → core.m68k_execute (cpu_instr_callback verbose) 1 fuel m ≡ done tt m2
        → Reach e m m1
        → m1.keepongoing ≡ false
        → Reach e m1 m2
        → execution_loop verbose (suc (suc rounds)) fuel m ≡ done tt m2
    unfolding execution_loop
    execution_loop-halts rounds fuel m m1 m2 ends on d before stopped behind =
        let after =
          reach-Sound false true m1.areas (length m1.files.handles) m1.files.base_path e ends m1 m2
            behind (refl, (refl, refl), (λ x. absurd (ground arith)), λ x. stopped) in
        if-true m.keepongoing _ _ on
        ∙ ap (λ r. and_then r (λ _ m'. execution_loop verbose (suc rounds) fuel m')) d
        ∙ if-false m2.keepongoing _ _ (after.3 refl)
