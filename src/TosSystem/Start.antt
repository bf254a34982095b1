-- ===== src/TosSystem/Start.antt =====
-- tossystem.c: init_tos_environment and free_tos_environment. `gemdos_init` is that of gemdos.c, with
-- gemdos_file_init.
use tosemu.Base.{
  ℕ, ◌+◌, ◌-◌, true, List, [], ◌∷◌, ◌++◌, Option, none, some, ltb, ◌==◌, not, if◌then◌else◌, length,
  take, drop,
}
use tosemu.Platform.{Platform}
use tosemu.Platform.Host.{Host}
use tosemu.Machine.{M, done, exited, fault, pure, ◌>>=◌, ◌>>◌, ask, act}
use tosemu.Memory.{reset_memory}
use tosemu.GemdosMem.{gemdos_mem_init, gemdos_mem_free}
use tosemu.GemdosFile.Handles.{init_handles}
use tosemu.GemdosFile.Access.{set_files}
use tosemu.GemdosFile.Search.{store_bytes, load_le}
use tosemu.TosSystem.Layout.{Buffers, register_areas, user_ram_size, supermemsize}
use tosemu.TosSystem.Loader.{relocate_binary}
use tosemu.TosSystem.Header.{
  Segments, header_size, byte_at, exec_header, swap, segments, copied_size, init_basepage,
  basepage_bytes,
}

-- `struct tos_environment`
pub record TosEnvironment : Type 0 where
  pub size : ℕ
  pub buffers : Buffers
  pub segments : Segments
  pub base_path : List ℕ

module _ ⦃p : Platform⦄ ⦃host : Host p⦄ where
  -- `memcpy` and `memset` to NULL are a fault, and so is reading behind the file.
  unfoldable pub store_host : (address : ℕ) → List ℕ → M (Unit {0})
  unfolding store_bytes
  store_host address bytes fuel m =
      if address == 0
      then fault
      else done tt (record m { host_mem = store_bytes m.host_mem address bytes })

  unfoldable pub copy_segments : (appmem : ℕ) → Segments → (binary : List ℕ) → M (Unit {0})
  unfolding store_host
  copy_segments appmem s binary =
      if ltb (length (drop header_size binary)) (copied_size s)
      then (λ fuel m. fault)
      else store_host appmem (take (copied_size s) (drop header_size binary))

  -- The relocation data behind the segments: the first offset and the bytes after it. No relocation takes
  -- place if `absflag` is set.
  unfoldable pub relocate_file : Segments → (absflag : ℕ) → (binary : List ℕ) → M (Unit {0})
  unfolding relocate_binary byte_at load_le
  relocate_file s absflag binary =
      let table = drop (header_size + s.tsize + s.dsize + s.ssize) binary in
      if not (absflag == 0)
      then pure tt
      else if ltb (length table) 4
      then (λ fuel m. fault)
      else relocate_binary (swap (load_le (byte_at table) 0 4)) (drop 4 table)

  -- The result of `getenv("TOS_BASE_PATH")` with a slash behind it.
  unfoldable pub base_path_of : Option (List ℕ) → M (List ℕ)
  base_path_of none = pure []
  base_path_of (some path) = do
    room ← act (p.malloc (length path + 2))
    if room then pure (path ++ b'/' ∷ []) else (λ fuel m. exited 1)

  -- The static variables `globhead` and `sid` are not touched.
  unfoldable pub gemdos_file_init : TosEnvironment → M (Unit {0})
  unfolding init_handles
  gemdos_file_init te = set_files λ f. record f {
    handles = init_handles host.stdin host.stdout;
    dta_addr = 0x000830;
    base_path = te.base_path;
  }

  unfoldable pub gemdos_init : TosEnvironment → M (Unit {0})
  unfolding gemdos_mem_init gemdos_file_init
  gemdos_init te =
      (λ fuel m. done tt (record m { memory = gemdos_mem_init te.size })) >> gemdos_file_init te

  unfoldable pub gemdos_free : M (Unit {0})
  unfolding gemdos_mem_free
  gemdos_free fuel m = done tt (record m { memory = gemdos_mem_free m.memory })

  unfoldable pub start_execution : M (Unit {0})
  start_execution fuel m = done tt (record m { keepongoing = true })

  -- "TOS_BASE_PATH"
  abbrev pub tos_base_path : List ℕ
  tos_base_path =
      b'T' ∷ b'O' ∷ b'S' ∷ b'_' ∷ b'B' ∷ b'A' ∷ b'S' ∷ b'E' ∷ b'_' ∷ b'P' ∷ b'A' ∷ b'T' ∷ b'H' ∷ []

  -- `none` is the result -1, with which `te` is left alone.
  unfoldable pub init_tos_environment :
      (binary : List ℕ) → (args : List (List ℕ)) → M (Option TosEnvironment)
  unfolding exec_header segments copy_segments store_host init_basepage basepage_bytes
      register_areas relocate_file base_path_of start_execution gemdos_init
  init_tos_environment binary args = if ltb (length binary) header_size then pure none else (do
    staticmem0 ← act (host.buffer 0x200)
    staticmem1 ← act (host.buffer (0x600 - 0x380))
    supermem ← act (host.buffer supermemsize)
    appmem ← act (host.buffer user_ram_size)
    let header = exec_header binary
    let s = segments header
    copy_segments appmem s binary
    bp ← act (host.buffer 0x100)
    store_host bp (basepage_bytes (init_basepage s args))
    let buffers : Buffers = record {
      staticmem0 = staticmem0;
      staticmem1 = staticmem1;
      supermem = supermem;
      appmem = appmem;
      bp = bp;
    }
    register_areas buffers
    relocate_file s header.absflag binary
    path ← ask (host.getenv tos_base_path)
    base_path ← base_path_of path
    let te : TosEnvironment = record {
      size = user_ram_size;
      buffers = buffers;
      segments = s;
      base_path = base_path;
    }
    start_execution
    gemdos_init te
    pure (some te))

  unfoldable pub free_buffer : ℕ → M (Unit {0})
  free_buffer address fuel m = done tt (record m { world = host.free address m.world })

  -- `staticmem0` and `staticmem1` are not freed. The pointers that are set to 0 are not used again.
  unfoldable pub free_tos_environment : TosEnvironment → M (Unit {0})
  unfolding gemdos_free free_buffer
  free_tos_environment te = do
    gemdos_free
    free_buffer te.buffers.bp
    free_buffer te.buffers.appmem
    free_buffer te.buffers.supermem
    reset_memory
