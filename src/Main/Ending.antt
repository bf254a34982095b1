-- ===== src/Main/Ending.antt =====
-- main.c: a program that stops itself lets the whole run end.
use mathlib.Core.Path.{subst}
use tosemu.Base.{
  ℕ, zero, suc, ◌<◌, ◌≡◌, refl, ap, ◌∙◌, Bool, Bool-cases, true, false, inl, inr, List, [], some,
  length, arith,
}
use tosemu.Platform.{Platform}
use tosemu.Platform.Host.{Host}
use tosemu.Machine.{State, M, Run, done, exited, fault, out_of_fuel, and_then, pure, ◌>>◌}
use tosemu.Machine.Keeps.{
  Holds, Keeps, Leaves, Leaves-done, Leaves-exited, Leaves-fault, Leaves-out_of_fuel,
  Leaves-returned,
}
use tosemu.Machine.Post.{Post-at}
use tosemu.GemdosMem.{gemdos_mem_free}
use tosemu.Memory.Area.{MemoryArea}
use tosemu.Memory.{reset_memory}
use tosemu.Memory.Removal.{reset_memory-empties}
use tosemu.GemdosFile.Handles.{handles_count}
use tosemu.TosSystem.Layout.{tos_areas}
use tosemu.TosSystem.Start.{
  TosEnvironment, init_tos_environment, free_tos_environment, gemdos_free, free_buffer,
}
use tosemu.System.Access.{access_rules}
use tosemu.System.Sound.{Sound}
use tosemu.System.Steps.{Ends, EndsKeep, Reach, reach-Sound}
use tosemu.System.Started.{init_tos_environment-Started}
use tosemu.Main.{Core, cpu_instr_callback, execution_loop, start_cpu, close_binary, run_binary}
use tosemu.Main.Loop.{CoreLaws, if-true, if-false, and_then-done, execution_loop-Sound}

module _ ⦃p : Platform⦄ ⦃core : Core p⦄ where
  and_then-run :
      {A B : Type 0} {a : A} {m : State} {q : Run State B}
      → (r : Run State A) (f : A → State → Run State B) → r ≡ done a m
      → f a m ≡ q
      → and_then r f ≡ q
  and_then-run r f e rest = ap (λ r. and_then r f) e ∙ rest

  -- So many instructions, without a look at `keepongoing`.
  unfoldable pub instructions : (verbose : Bool) → ℕ → M (Unit {0})
  instructions verbose zero = pure tt
  instructions verbose (suc k) =
      core.m68k_execute (cpu_instr_callback verbose) 1 >> instructions verbose k

  abbrev goes_on : Run State (Unit {0}) → Bool
  goes_on (done a t) = t.keepongoing
  goes_on _ = true

  -- The loop ends when there is a number of instructions behind which the execution is stopped.
  pub execution_loop-ends :
      (verbose : Bool) (k rounds fuel : ℕ) (m t : State)
      → k < rounds
      → instructions verbose k fuel m ≡ done tt t
      → t.keepongoing ≡ false
      → (s : State) × (execution_loop verbose rounds fuel m ≡ done tt s)
  unfolding execution_loop instructions
  execution_loop-ends verbose k zero fuel m t l run stopped = absurd (omega arith)
  execution_loop-ends verbose zero (suc rounds) fuel m t l run stopped =
      (m, if-false m.keepongoing _ _ (ap goes_on run ∙ stopped))
  execution_loop-ends verbose (suc k) (suc rounds) fuel m t l run stopped =
      elim (Bool-cases m.keepongoing) [
        | inr off ↦ (m, if-false m.keepongoing _ _ off)
        | inl on ↦
            let step =
              and_then-done (core.m68k_execute (cpu_instr_callback verbose) 1 fuel m)
                (λ _ m'. instructions verbose k fuel m') tt t run in
            let rest =
              execution_loop-ends verbose k rounds fuel step.1 t (omega arith) step.3 stopped in
            (
              rest.0,
              if-true m.keepongoing _ _ on
                  ∙ ap (λ r. and_then r (λ _ m'. execution_loop verbose rounds fuel m')) step.2
                  ∙ rest.1,
            )
      ]

  module _ (e : Ends p) (laws : CoreLaws e) (managed halted : Bool) (map : List MemoryArea) (n : ℕ)
      (base : List ℕ) (ends : EndsKeep managed halted map n base e) where
    core-Keeps :
        (x : M (Unit {0}))
        → ((fuel : ℕ) (m t : State) → x fuel m ≡ done tt t → Reach e m t)
        → Keeps (Sound managed halted map n base) x
    core-Keeps x law fuel m h = by_result (x fuel m) refl
      where
        by_result :
            (r : Run State (Unit {0})) → x fuel m ≡ r → Leaves (Sound managed halted map n base) r
        by_result (done a t) d =
            Leaves-done a t (reach-Sound managed halted map n base e ends m t (law fuel m t d) h)
        by_result (exited c) d = Leaves-exited c
        by_result fault d = Leaves-fault
        by_result out_of_fuel d = Leaves-out_of_fuel

    start_cpu-Keeps : (size : ℕ) → Keeps (Sound managed halted map n base) (start_cpu size)
    unfolding start_cpu
    start_cpu-Keeps size =
        let init = core-Keeps core.m68k_init laws.inits in
        let cpu_type = core-Keeps (core.m68k_set_cpu_type 1) (laws.sets_cpu_type 1) in
        let reset = core-Keeps core.m68k_pulse_reset laws.resets in
        search (access_rules, init, cpu_type, reset) depth 20

  module _ ⦃host : Host p⦄ where
    free_tos_environment-ends :
        (te : TosEnvironment) (fuel : ℕ) (m : State)
        → length m.areas < fuel
        → (t : State) × (free_tos_environment te fuel m ≡ done tt t)
    unfolding free_tos_environment gemdos_free free_buffer reset_memory
    free_tos_environment-ends te fuel m l =
        let w =
          host.free te.buffers.supermem
            (host.free te.buffers.appmem (host.free te.buffers.bp m.world)) in
        (
          record m { world = w; memory = gemdos_mem_free m.memory; areas = [] },
          rw (reset_memory-empties fuel m.areas l, reset_memory) refl,
        )

    -- A run ends with the result 0 if init_tos_environment and the start of the CPU return, and there is a
    -- number of instructions behind which the execution is stopped. The host grants the list nodes, the
    -- core does what m68k.h says, what lies behind the function tables keeps the memory map, and the fuel
    -- is more than the number of instructions, and than the six areas.
    pub run_binary-ends :
        (granted : (w : p.World) → (p.malloc 48 w).0 ≡ true)
        → (e : Ends p) (laws : CoreLaws e)
        → (verbose : Bool) (fd k fuel : ℕ) (binary : List ℕ) (args : List (List ℕ))
          (m m1 m2 m3 : State) (te : TosEnvironment)
        → EndsKeep false false (tos_areas te.buffers) handles_count te.base_path e
        → length m.areas < fuel
        → k < fuel
        → 6 < fuel
        → init_tos_environment binary args fuel m ≡ done (some te) m1
        → start_cpu te.size fuel (record m1 { world = host.close fd m1.world }) ≡ done tt m2
        → instructions verbose k fuel m2 ≡ done tt m3
        → m3.keepongoing ≡ false
        → (t : State) × (run_binary verbose fd binary args fuel m ≡ done 0 t)
    unfolding run_binary close_binary tos_areas
    run_binary-ends granted e laws verbose fd k fuel binary args m m1 m2 m3 te ends few more six
          init start run stopped =
        let h =
          Post-at _ (some te) m1 init
            (init_tos_environment-Started granted binary args fuel m few) in
        let map = tos_areas te.buffers in
        let h1 : Holds (Sound false false map handles_count te.base_path) m1 =
          (h.0, (h.2, h.1), (λ x. absurd (ground arith)), λ x. absurd (ground arith)) in
        let h2 = Leaves-returned (
          subst (Leaves (Sound false false map handles_count te.base_path)) start (
            start_cpu-Keeps e laws false false map handles_count te.base_path ends te.size fuel
              (record m1 { world = host.close fd m1.world }) h1)) in
        let loop = execution_loop-ends verbose k fuel fuel m2 m3 more run stopped in
        let h3 =
          execution_loop-Sound verbose e laws false false map handles_count te.base_path ends fuel
            fuel m2 loop.0 loop.1 h2 in
        let released = free_tos_environment-ends te fuel loop.0 (rw h3.0.0 six) in
        (
          released.0,
          and_then-run _ _ init
              (and_then-run _ _ start (and_then-run _ _ loop.1 (and_then-run _ _ released.1 refl))),
        )
