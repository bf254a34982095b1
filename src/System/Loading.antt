-- ===== src/System/Loading.antt =====
-- tossystem.c: a start of a binary without relocation, step by step.
use tosemu.Base.{
  ℕ, ◌+◌, ◌≤◌, ◌<◌, ◌≡◌, ◌≢◌, refl, ap, ◌∙◌, true, false, List, [], ◌∷◌, ◌++◌, Option, none, some,
  ltb, ne→==, length, take, drop, arith,
}
use tosemu.Platform.{Platform}
use tosemu.Platform.Host.{Host}
use tosemu.Machine.{State, done}
use tosemu.GemdosFile.Search.{store_bytes}
use tosemu.GemdosMem.{gemdos_mem_init}
use tosemu.GemdosFile.Handles.{init_handles}
use tosemu.TosSystem.Layout.{Buffers, tos_areas, user_ram_size}
use tosemu.TosSystem.Areas.{register_areas-tos_areas}
use tosemu.TosSystem.Header.{
  Segments, header_size, segments, copied_size, exec_header, init_basepage, basepage_bytes,
}
use tosemu.TosSystem.Start.{
  TosEnvironment, copy_segments, store_host, relocate_file, base_path_of, tos_base_path,
  start_execution, gemdos_file_init, gemdos_init, init_tos_environment,
}
use tosemu.System.Started.{buffers, allocated}

-- Host memory with the segments in the user RAM and the base page in its buffer, before relocation.
abbrev pub image : (binary : List ℕ) (args : List (List ℕ)) → (ℕ → ℕ) → Buffers → ℕ → ℕ
image binary args h b =
    let s = segments (exec_header binary) in
    store_bytes (store_bytes h b.appmem (take (copied_size s) (drop header_size binary))) b.bp
      (basepage_bytes (init_basepage s args))

-- What a successful start leaves in host memory and in the list of areas.
abbrev pub Loaded : ⦃p : Platform⦄ → (binary : List ℕ) → TosEnvironment → State → (ℕ → ℕ) → Type 0
Loaded binary te s h =
    (te.segments ≡ segments (exec_header binary))
    × (s.areas ≡ tos_areas te.buffers)
    × (s.keepongoing ≡ true)
    × (s.host_mem ≡ h)

module _ ⦃p : Platform⦄ ⦃host : Host p⦄ (granted : (n : ℕ) (w : p.World) → (p.malloc n w).0 ≡ true)
    (allotted : (n : ℕ) (w : p.World) → (host.buffer n w).0 ≢ 0) where
  store_host-done :
      (address : ℕ) (bytes : List ℕ) (fuel : ℕ) (m : State)
      → address ≢ 0
      → store_host address bytes fuel m
        ≡ done tt (record m { host_mem = store_bytes m.host_mem address bytes })
  unfolding store_host
  store_host-done address bytes fuel m h = rw (ne→== address 0 h) refl

  copy_segments-done :
      (appmem : ℕ) (s : Segments) (binary : List ℕ) (fuel : ℕ) (m : State)
      → appmem ≢ 0
      → copied_size s ≤ length (drop header_size binary)
      → copy_segments appmem s binary fuel m
        ≡ done tt (record m {
          host_mem = store_bytes m.host_mem appmem (take (copied_size s) (drop header_size binary));
        })
  unfolding copy_segments
  copy_segments-done appmem s binary fuel m h l =
      let enough : ltb (length (drop header_size binary)) (copied_size s) ≡ false = ground arith in
      rw enough (store_host-done appmem (take (copied_size s) (drop header_size binary)) fuel m h)

  relocate_file-none :
      (s : Segments) (absflag : ℕ) (binary : List ℕ) (fuel : ℕ) (m : State)
      → absflag ≢ 0
      → relocate_file s absflag binary fuel m ≡ done tt m
  unfolding relocate_file
  relocate_file-none s absflag binary fuel m h = rw (ne→== absflag 0 h) refl

  base_path_of-done :
      (path : Option (List ℕ)) (fuel : ℕ) (m : State)
      → (root : List ℕ) × (w : p.World) × (base_path_of path fuel m
          ≡ done root (record m { world = w }))
  unfolding base_path_of
  base_path_of-done none fuel m = ([], m.world, refl)
  base_path_of-done (some path) fuel m = (
    path ++ b'/' ∷ [],
    (p.malloc (length path + 2) m.world).1,
    rw (granted (length path + 2) m.world) refl,
  )

  -- The start of a binary, by what its relocation does to host memory.
  module _ (binary : List ℕ) (args : List (List ℕ)) (fuel : ℕ) (m : State)
      (header : header_size ≤ length binary)
      (enough : copied_size (segments (exec_header binary)) ≤ length (drop header_size binary))
      (few : length m.areas < fuel) where
    -- The buffers that are allocated.
    abbrev pub env_buffers : Buffers
    env_buffers = buffers m.world (host.buffer 0x100 (allocated m.world)).0

    pub started_by :
        (h : ℕ → ℕ)
        → ((q : State)
            → q.areas ≡ tos_areas env_buffers
            → q.host_mem ≡ image binary args m.host_mem env_buffers
            → relocate_file
                (segments (exec_header binary))
                (exec_header binary).absflag
                binary
                fuel
                q
              ≡ done tt (record q { host_mem = h }))
        → (te : TosEnvironment) × (s : State) × (init_tos_environment binary args fuel m
            ≡ done (some te) s)
          × (te.buffers ≡ env_buffers)
          × Loaded binary te s h
    unfolding init_tos_environment start_execution gemdos_init gemdos_file_init
    started_by h relocates =
        let whole : ltb (length binary) header_size ≡ false = ground arith in
        let s = segments (exec_header binary) in
        let m0 : State = record m { world = allocated m.world } in
        let app = (buffers m.world 0).appmem in
        let m1 : State = record m0 {
          host_mem = store_bytes m.host_mem app (take (copied_size s) (drop header_size binary));
        } in
        let w1 = host.buffer 0x100 m1.world in
        let page = basepage_bytes (init_basepage s args) in
        let m2 : State = record m1 { world = w1.1; host_mem = store_bytes m1.host_mem w1.0 page } in
        let b = env_buffers in
        let set_up = register_areas-tos_areas (granted 48) b fuel m2 few in
        let m3 = set_up.0 in
        let relocated = relocates m3 (ap (λ x. x.areas) set_up.2) (ap (λ x. x.host_mem) set_up.2) in
        let m4 : State = record m3 { host_mem = h } in
        let root = base_path_of-done (host.getenv tos_base_path m4.world) fuel m4 in
        let te : TosEnvironment = record {
          size = user_ram_size;
          buffers = b;
          segments = s;
          base_path = root.0;
        } in
        let t : State = record m4 {
          world = root.1;
          keepongoing = true;
          memory = gemdos_mem_init user_ram_size;
          files = record m3.files {
            handles = init_handles host.stdin host.stdout;
            dta_addr = 0x830;
            base_path = root.0;
          };
        } in
        let run : init_tos_environment binary args fuel m ≡ done (some te) t = rw whole (
          rw (copy_segments-done app s binary fuel m0 (allotted user_ram_size _) enough) (
            rw
              (store_host-done w1.0 page fuel (record m1 { world = w1.1 })
                (allotted 0x100 m1.world))
              (rw set_up.1 (rw relocated (rw root.2 refl))))) in
        (te, t, run, refl, (refl, ap (λ x. x.areas) set_up.2, refl, refl))

    -- Without relocation host memory is the image.
    pub init_tos_environment-Loaded :
        (exec_header binary).absflag ≢ 0
        → (te : TosEnvironment) × (s : State) × (init_tos_environment binary args fuel m
            ≡ done (some te) s)
          × (te.buffers ≡ env_buffers)
          × Loaded binary te s (image binary args m.host_mem env_buffers)
    init_tos_environment-Loaded fixed =
        started_by (image binary args m.host_mem env_buffers) λ q map loaded.
          relocate_file-none (segments (exec_header binary)) (exec_header binary).absflag binary
            fuel q fixed
          ∙ ap (λ x. done tt (record q { host_mem = x })) loaded
