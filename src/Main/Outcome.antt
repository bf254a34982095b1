-- ===== src/Main/Outcome.antt =====
-- main.c: how the program ends.
use tosemu.Base.{
  ℕ, zero, suc, ◌≡◌, ◌≢◌, ◌⊎◌, refl, ◌∙◌, ap, inl, inr, Bool, false, List, [], none, some, length,
  arith, ltb, ◌==◌, not, ◌||◌,
}
use tosemu.Platform.{Platform}
use tosemu.Platform.Host.{Host}
use tosemu.Machine.{State}
use tosemu.Machine.Post.{
  Post, Post-done, Post-fault, Post-out_of_fuel, Post-any, Post-if, Post-if_run, Post-option,
  Post-option_run, Post-bind,
}
use tosemu.Memory.Area
use tosemu.Memory.Removal.{reset_memory-left}
use tosemu.Memory.{reset_memory}
use tosemu.GemdosMem.{gemdos_mem_free}
use tosemu.TosSystem.Header.{
  byte_at, header_size, exec_header, segments, init_basepage, basepage_bytes,
}
use tosemu.TosSystem.Start.{
  TosEnvironment, copy_segments, store_host, relocate_file, base_path_of, tos_base_path,
  start_execution, gemdos_init, gemdos_file_init, init_tos_environment, free_tos_environment,
  gemdos_free, free_buffer,
}
use tosemu.System.Started.{buffers, allocated}
use tosemu.TosSystem.Layout.{register_areas}
use tosemu.Main.{
  Core, failure, parse_args, cpu_instr_callback, execution_loop, start_cpu, close_binary,
  run_binary, map_binary, main,
}

some_ne_none : {A : Type 0} → (a : A) → some a ≢ none
some_ne_none a e = absurd (ground arith)

module _ ⦃p : Platform⦄ ⦃core : Core p⦄ where
  -- The state but for the outside world.
  abbrev with_world : State → p.World → State
  with_world m w = record m { world = w }

  -- How the program ends: it fails with the status -1 and has changed nothing but the outside world, or it
  -- returns 0, and then the execution was stopped and the memory areas are released.
  abbrev pub Outcome : State → ℕ → State → Type 0
  Outcome m status t =
      (status ≡ failure) × (t ≡ record m { world = t.world })
      ⊎ (status ≡ 0) × (t.keepongoing ≡ false) × (t.areas ≡ []) × (t.memory.mem_list ≡ [])

  execution_loop-stopped :
      (verbose : Bool) (rounds fuel : ℕ) (m : State)
      → Post (λ _ t. t.keepongoing ≡ false) (execution_loop verbose rounds fuel m)
  unfolding execution_loop
  execution_loop-stopped verbose zero fuel m = Post-out_of_fuel
  execution_loop-stopped verbose (suc rounds) fuel m =
      Post-if_run m.keepongoing _ _
        (λ on.
          Post-bind _ _ (Post-any (core.m68k_execute (cpu_instr_callback verbose) 1 fuel m))
            λ _ m' _. execution_loop-stopped verbose rounds fuel m')
        (λ off. Post-done tt m off)

  module _ ⦃host : Host p⦄ where
    free_tos_environment-stopped :
        (te : TosEnvironment) (fuel : ℕ) (m : State)
        → m.keepongoing ≡ false
        → Post
            (λ _ t. (t.keepongoing ≡ false) × (t.areas ≡ []) × (t.memory.mem_list ≡ []))
            (free_tos_environment te fuel m)
    unfolding free_tos_environment gemdos_free free_buffer gemdos_mem_free reset_memory
    free_tos_environment-stopped te fuel m h =
        Post-option_run (Area.reset_memory fuel m.areas) _ _ (λ _. Post-out_of_fuel)
          λ head e. Post-done tt _ (h, reset_memory-left fuel m.areas head e, refl)

    -- What init_tos_environment leaves when it fails, without conditions on the host.
    init_tos_environment-refused :
        (binary : List ℕ) (args : List (List ℕ)) (fuel : ℕ) (m : State)
        → Post (λ r t. r ≡ none → t ≡ m) (init_tos_environment binary args fuel m)
    unfolding init_tos_environment start_execution gemdos_init gemdos_file_init
    init_tos_environment-refused binary args fuel m =
        Post-if (ltb (length binary) header_size) _ _ fuel m (λ _. Post-done none m (λ e. refl))
          λ _.
            let m0 = with_world m (allocated m.world) in
            let s = segments (exec_header binary) in
            Post-bind _ _ (Post-any (copy_segments (buffers m.world 0).appmem s binary fuel m0))
              λ _ m1 _.
                let w1 = host.buffer 0x100 m1.world in
                Post-bind _ _
                  (Post-any (
                    store_host w1.0 (basepage_bytes (init_basepage s args)) fuel
                      (with_world m1 w1.1)))
                  λ _ m2 _.
                    Post-bind _ _ (Post-any (register_areas (buffers m.world w1.0) fuel m2))
                      λ _ m3 _.
                        Post-bind _ _
                          (Post-any (relocate_file s (exec_header binary).absflag binary fuel m3))
                          λ _ m4 _.
                            Post-bind _ _
                              (Post-any (base_path_of (host.getenv tos_base_path m4.world) fuel m4))
                              λ base_path m5 _. Post-done _ _ (λ e. absurd (some_ne_none _ e))

    map_binary-spares :
        (fd fuel : ℕ) (m : State)
        → Post (λ _ t. t ≡ record m { world = t.world }) (map_binary fd fuel m)
    unfolding map_binary
    map_binary-spares fd fuel m =
        Post-option (p.fstat fd m.world) _ _ fuel m (λ _. Post-fault)
          λ st _.
            Post-option (host.mmap st.st_size fd m.world).0 _ _ fuel
              (record m { world = (host.mmap st.st_size fd m.world).1 }) (λ _. Post-fault)
              λ binary _.
                Post-done binary (record m { world = (host.mmap st.st_size fd m.world).1 }) refl

    run_binary-Outcome :
        (verbose : Bool) (fd : ℕ) (binary : List ℕ) (args : List (List ℕ)) (fuel : ℕ) (m m' : State)
        → m' ≡ record m { world = m'.world }
        → Post (Outcome m) (run_binary verbose fd binary args fuel m')
    unfolding run_binary close_binary
    run_binary-Outcome verbose fd binary args fuel m m' e =
        Post-bind _ _ (init_tos_environment-refused binary args fuel m') λ ret m1 h1.
          Post-option ret _ _ fuel m1
            (λ none_ret.
              Post-done failure (with_world m1 (host.close fd m1.world))
                (inl (refl, ap (λ s. with_world s (host.close fd m1.world)) (h1 none_ret ∙ e))))
            λ te some_te.
              Post-bind _ _
                (Post-any (start_cpu te.size fuel (record m1 { world = host.close fd m1.world })))
                λ _ m2 _. Post-bind _ _ (execution_loop-stopped verbose fuel fuel m2) λ _ m3 h3.
                  Post-bind _ _ (free_tos_environment-stopped te fuel m3 h3)
                    λ _ m4 h4. Post-done 0 m4 (inr (refl, h4.0, h4.1, h4.2))

    -- Whatever the arguments and the host's files are: if the program returns, then either with the
    -- status -1, and it has changed nothing of its state but the outside world, or with 0, and then the
    -- execution was stopped, no memory area is registered any more and the list of GEMDOS is empty.
    pub main-Outcome :
        (argv : List (List ℕ)) (fuel : ℕ) (m : State) → Post (Outcome m) (main argv fuel m)
    unfolding main close_binary
    main-Outcome argv fuel m =
        Post-option (parse_args argv) _ _ fuel m (λ _. Post-done failure m (inl (refl, refl)))
          λ a _.
            let opened = host.open_rdonly a.1 m.world in
            let m0 = with_world m opened.1 in
            Post-option opened.0 _ _ fuel m0 (λ _. Post-done failure m0 (inl (refl, refl)))
              λ fd _. Post-bind _ _ (map_binary-spares fd fuel m0) λ binary m1 e.
                Post-if (not (byte_at binary 0 == 0x60) || not (byte_at binary 1 == 0x1a)) _ _ fuel
                  m1
                  (λ _.
                    Post-done failure (with_world m1 (host.close fd m1.world))
                      (inl (refl, ap (λ s. with_world s (host.close fd m1.world)) e)))
                  (λ _. run_binary-Outcome a.0 fd binary a.2 fuel m m1 e)
