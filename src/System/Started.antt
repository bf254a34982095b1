-- ===== src/System/Started.antt =====
-- tossystem.c: what init_tos_environment sets up, and what stays of it while the program runs.
use tosemu.Base.{
  ℕ, ◌<◌, ◌≡◌, refl, ap, true, false, Bool, List, [], ◌∷◌, Option, none, some, ltb, ◌==◌, length,
  add32, arith,
}
use tosemu.Platform.{Platform}
use tosemu.Platform.Host.{Host}
use tosemu.Machine.{State, M, done}
use tosemu.Machine.Keeps.{
  Frame, Keeps, Leaves, Leaves-done, Leaves-fault, Leaves-bind, leaves_rules,
}
use tosemu.Machine.Post.{Post, Post-done, Post-if, Post-bind, Post-Leaves, Post-run, Post-at}
use tosemu.Memory.Area.{MemoryArea}
use tosemu.GemdosMem.{gemdos_mem_init}
use tosemu.GemdosFile.Handles.{handles_count, init_handles}
use tosemu.TosSystem.Layout.{Buffers, tos_areas, user_ram_size, supermemsize}
use tosemu.TosSystem.Areas.{register_areas-tos_areas}
use tosemu.TosSystem.Loader.{relocate, relocate_loop, relocate_binary}
use tosemu.TosSystem.Header.{
  Segments, header_size, segments, exec_header, init_basepage, basepage_bytes,
}
use tosemu.TosSystem.Start.{
  TosEnvironment, copy_segments, store_host, relocate_file, base_path_of, tos_base_path,
  start_execution, gemdos_file_init, gemdos_init, init_tos_environment,
}
use tosemu.System.Access.{access_rules}
use tosemu.System.Steps.{Ends, EndsKeep, Reach, reach-Sound}

module _ ⦃p : Platform⦄ {P : Frame} where
  relocate-Keeps : (adr : ℕ) → Keeps P (relocate adr)
  unfolding relocate
  relocate-Keeps adr = search access_rules

  Leaves-bool :
      {A : Type 0} (b : Bool) (x y : M A) (fuel : ℕ) (m : State)
      → Leaves P (x fuel m)
      → Leaves P (y fuel m)
      → Leaves P ((elim b as (λ _. M A) [ true ↦ x | false ↦ y ]) fuel m)
  Leaves-bool true x y fuel m kx ky = kx
  Leaves-bool false x y fuel m kx ky = ky

  relocate_loop-Keeps : (adr : ℕ) (table : List ℕ) → Keeps P (relocate_loop adr table)
  unfolding relocate_loop
  relocate_loop-Keeps adr [] fuel m h = Leaves-fault
  relocate_loop-Keeps adr (b ∷ rest) fuel m h =
      Leaves-bool (b == 0) _ _ fuel m (Leaves-done tt m h) (
        Leaves-bool (b == 1) _ _ fuel m (relocate_loop-Keeps (add32 adr 0xfe) rest fuel m h) (
          Leaves-bind _ _ (relocate-Keeps (add32 adr b) fuel m h)
            λ _ m' h'. relocate_loop-Keeps (add32 adr b) rest fuel m' h'))

  relocate_binary-Keeps : (first : ℕ) (table : List ℕ) → Keeps P (relocate_binary first table)
  unfolding relocate_binary
  relocate_binary-Keeps first table = search (access_rules, relocate-Keeps, relocate_loop-Keeps)

  module _ ⦃host : Host p⦄ where
    relocate_file-Keeps :
        (s : Segments) (absflag : ℕ) (binary : List ℕ) → Keeps P (relocate_file s absflag binary)
    unfolding relocate_file
    relocate_file-Keeps s absflag binary = search (access_rules, relocate_binary-Keeps)

-- What init_tos_environment leaves, by its result: nothing is changed when it fails.
abbrev pub Started : ⦃p : Platform⦄ → State → Option TosEnvironment → State → Type 0
Started m none t = t ≡ m
Started m (some te) t =
    (t.areas ≡ tos_areas te.buffers)
    × (t.files.base_path ≡ te.base_path)
    × (length t.files.handles ≡ handles_count)
    × (t.memory ≡ gemdos_mem_init user_ram_size)
    × (t.keepongoing ≡ true)

-- The areas are those of the memory map.
abbrev HasMap : List MemoryArea → Frame
HasMap map = record {
  pred = λ keepongoing areas files memory. areas ≡ map;
  on_halt = λ keepongoing areas files memory h. h;
}

module _ ⦃p : Platform⦄ ⦃host : Host p⦄ where
  -- The buffers, and the host's state behind the first four allocations.
  abbrev pub buffers : p.World → (bp : ℕ) → Buffers
  buffers w bp = record {
    staticmem0 = (host.buffer 0x200 w).0;
    staticmem1 = (host.buffer 0x280 (host.buffer 0x200 w).1).0;
    supermem = (host.buffer supermemsize (host.buffer 0x280 (host.buffer 0x200 w).1).1).0;
    appmem =
        (host.buffer user_ram_size
          (host.buffer supermemsize (host.buffer 0x280 (host.buffer 0x200 w).1).1).1).0;
    bp = bp;
  }

  abbrev pub allocated : p.World → p.World
  allocated w =
      (host.buffer user_ram_size
        (host.buffer supermemsize (host.buffer 0x280 (host.buffer 0x200 w).1).1).1).1

  store_host-Keeps :
      {P : Frame} → (address : ℕ) (bytes : List ℕ) → Keeps P (store_host address bytes)
  unfolding store_host
  store_host-Keeps address bytes = search leaves_rules

  copy_segments-Keeps :
      {P : Frame}
      → (appmem : ℕ) (s : Segments) (binary : List ℕ) → Keeps P (copy_segments appmem s binary)
  unfolding copy_segments
  copy_segments-Keeps appmem s binary = search (leaves_rules, store_host-Keeps)

  base_path_of-Keeps : {P : Frame} → (path : Option (List ℕ)) → Keeps P (base_path_of path)
  unfolding base_path_of
  base_path_of-Keeps none = search leaves_rules
  base_path_of-Keeps (some path) = search leaves_rules

  -- If init_tos_environment fails, it has changed nothing. If it succeeds, then the memory map, the root of
  -- the host paths, ten file handles and the first memory area are set up, and the execution goes on. The
  -- host grants the list nodes.
  pub init_tos_environment-Started :
      (granted : (w : p.World) → (p.malloc 48 w).0 ≡ true)
      → (binary : List ℕ) (args : List (List ℕ)) (fuel : ℕ) (m : State) → length m.areas < fuel
      → Post (Started m) (init_tos_environment binary args fuel m)
  unfolding init_tos_environment start_execution gemdos_init gemdos_file_init init_handles
  init_tos_environment-Started granted binary args fuel m few =
      Post-if (ltb (length binary) header_size) _ _ fuel m (λ _. Post-done none m refl)
        λ _.
          (let m0 : State = record m { world = allocated m.world } in
            let s = segments (exec_header binary) in
            Post-bind _ _
              (Post-Leaves _ (
                copy_segments-Keeps {P = HasMap m.areas} (buffers m.world 0).appmem s binary fuel m0
                  refl))
              λ _ m1 h1.
                let w1 = host.buffer 0x100 m1.world in
                Post-bind _ _
                  (Post-Leaves _ (
                    store_host-Keeps {P = HasMap m.areas} w1.0
                      (basepage_bytes (init_basepage s args)) fuel (record m1 { world = w1.1 }) h1))
                  λ _ m2 h2.
                    let b = buffers m.world w1.0 in
                    let set_up = register_areas-tos_areas granted b fuel m2 (rw h2 few) in
                    Post-bind _ _ (Post-run _ tt set_up.0 set_up.1 (ap (λ t. t.areas) set_up.2))
                      λ _ m3 h3.
                        Post-bind _ _
                          (Post-Leaves _ (
                            relocate_file-Keeps {P = HasMap (tos_areas b)} s
                              (exec_header binary).absflag binary fuel m3 h3))
                          λ _ m4 h4.
                            Post-bind _ _
                              (Post-Leaves _ (
                                base_path_of-Keeps {P = HasMap (tos_areas b)}
                                  (host.getenv tos_base_path m4.world) fuel m4 h4))
                              λ base_path m5 h5. Post-done _ _ (h5, refl, refl, refl, refl))

  -- After a start that succeeds, whatever the emulated program does: the memory map stays the one of
  -- init_tos_environment, the root of the host paths stays the directory that was given, and there are ten
  -- file handles. The host grants the list nodes, and what lies behind the function tables keeps these,
  -- too.
  pub started-stays :
      (granted : (w : p.World) → (p.malloc 48 w).0 ≡ true)
      → (binary : List ℕ) (args : List (List ℕ)) (fuel : ℕ) (m s t : State) (te : TosEnvironment)
        (e : Ends p)
      → length m.areas < fuel
      → init_tos_environment binary args fuel m ≡ done (some te) s
      → EndsKeep false false (tos_areas te.buffers) handles_count te.base_path e
      → Reach e s t
      → (t.areas ≡ tos_areas te.buffers)
        × (t.files.base_path ≡ te.base_path)
        × (length t.files.handles ≡ handles_count)
  started-stays granted binary args fuel m s t te e few success ends r =
      let h =
        Post-at _ (some te) s success
          (init_tos_environment-Started granted binary args fuel m few) in
      let k =
        reach-Sound false false (tos_areas te.buffers) handles_count te.base_path e ends s t r
          (h.0, (h.2, h.1), (λ x. absurd (ground arith)), λ x. absurd (ground arith)) in
      (k.0, k.1.1, k.1.0)
