-- ===== src/System/Relocating.antt =====
-- tossystem.c: a start of a binary with relocation.
use mathlib.Core.Path.{subst}
use tosemu.Base.{
  ℕ, suc, ◌+◌, ◌≤◌, ◌<◌, ◌≡◌, ◌≢◌, refl, ap, sym, ◌∙◌, true, false, List, ◌++◌, some, arith, ltb,
  All, length, take, drop, u32_mod,
}
use tosemu.Platform.{Platform}
use tosemu.Platform.Host.{Host}
use tosemu.Machine.{State, done}
use tosemu.Memory.Words.{IsBytes}
use tosemu.Utils.Reversal.{reversed_32}
use tosemu.GemdosFile.Search.{store_bytes, load_le}
use tosemu.TosSystem.Layout.{Buffers, user_ram_size}
use tosemu.TosSystem.Header.{
  header_size, byte_at, swap, segments, copied_size, exec_header, init_basepage, basepage_bytes,
}
use tosemu.TosSystem.Executable.{long_bytes}
use tosemu.TosSystem.Loader.{relocate_binary}
use tosemu.TosSystem.ImageBytes.{
  AreBytes, All-take, All-drop, store_bytes-IsBytes, basepage_bytes-AreBytes,
}
use tosemu.TosSystem.Relocation.{Distance, IsDistance, encode}
use tosemu.TosSystem.Relocated.{InRam, rebased, rebased_all, relocate_binary-rebased}
use tosemu.TosSystem.Start.{TosEnvironment, relocate_file, init_tos_environment}
use tosemu.System.Loading.{Loaded, image, started_by, env_buffers}

swap-long_bytes :
    (n : ℕ) (rest : List ℕ) → n < u32_mod → swap (load_le (byte_at (long_bytes n ++ rest)) 0 4) ≡ n
unfolding load_le byte_at
swap-long_bytes n rest w = rw (reversed_32 0 _) (omega arith)

-- Where in the file the relocation data are.
abbrev pub relocation_data : List ℕ → List ℕ
relocation_data binary =
    let s = segments (exec_header binary) in drop (header_size + s.tsize + s.dsize + s.ssize) binary

module _ ⦃p : Platform⦄ where
  relocate_file-binary :
      (binary : List ℕ) (first : ℕ) (table : List ℕ) (fuel : ℕ) (m : State)
      → first < u32_mod
      → relocation_data binary ≡ long_bytes first ++ table
      → ⦃host : Host p⦄
      → relocate_file (segments (exec_header binary)) 0 binary fuel m
        ≡ relocate_binary first table fuel m
  unfolding relocate_file
  relocate_file-binary binary first table fuel m w e =
      let few : ltb (length (long_bytes first ++ table)) 4 ≡ false = ground arith in
      rw (e, few, swap-long_bytes first table w) refl

  image-IsBytes :
      (binary : List ℕ) (args : List (List ℕ)) (h : ℕ → ℕ) (b : Buffers)
      → IsBytes h
      → AreBytes binary
      → All AreBytes args
      → IsBytes (image binary args h b)
  image-IsBytes binary args h b k a c =
      let s = segments (exec_header binary) in
      let loaded = take (copied_size s) (drop header_size binary) in
      store_bytes-IsBytes (store_bytes h b.appmem loaded) b.bp
        (basepage_bytes (init_basepage s args))
        (store_bytes-IsBytes h b.appmem loaded k
          (All-take (copied_size s) (drop header_size binary) (All-drop header_size binary a)))
        (basepage_bytes-AreBytes s args c)

-- The long words of the user RAM at the offset `first` and at the distances from it are moved on.
abbrev pub relocated : (first : ℕ) → List Distance → Buffers → (ℕ → ℕ) → ℕ → ℕ
relocated first ds b h = rebased_all (rebased h (b.appmem + first)) (b.appmem + first) ds

module _ ⦃p : Platform⦄ ⦃host : Host p⦄ (granted : (n : ℕ) (w : p.World) → (p.malloc n w).0 ≡ true)
    (allotted : (n : ℕ) (w : p.World) → (host.buffer n w).0 ≢ 0) where
  -- A binary that is to be relocated is loaded, too, if its header is whole, as many bytes stand behind it as
  -- it says, and the relocation data are a first offset and the table of a list of distances, which stay
  -- inside the user RAM: init_tos_environment returns, and host memory is the image of the file and the
  -- base page, in which the long words at exactly these places, one after the other, are moved on by the
  -- start of the user RAM. The host grants the memory, the file and the arguments are bytes, and the fuel is more
  -- than the number of areas before.
  pub init_tos_environment-Relocated :
      (binary : List ℕ) (args : List (List ℕ)) (fuel : ℕ) (m : State) (first : ℕ)
      (ds : List Distance)
      → header_size ≤ length binary
      → copied_size (segments (exec_header binary)) ≤ length (drop header_size binary)
      → length m.areas < suc fuel
      → (exec_header binary).absflag ≡ 0
      → relocation_data binary ≡ long_bytes first ++ encode ds
      → 0 < first
      → first + 4 ≤ user_ram_size
      → All IsDistance ds
      → InRam first ds
      → IsBytes m.host_mem
      → AreBytes binary
      → All AreBytes args
      → (te : TosEnvironment) × (s : State) × (init_tos_environment binary args (suc fuel) m
          ≡ done (some te) s)
        × Loaded binary te s
            (relocated first ds te.buffers (image binary args m.host_mem te.buffers))
  init_tos_environment-Relocated binary args fuel m first ds header enough few moved stored
        some_first fits are inside bytes file_bytes arg_bytes =
      let b = env_buffers granted allotted binary args (suc fuel) m header enough few in
      let im = image binary args m.host_mem b in
      let im_bytes : IsBytes im =
        image-IsBytes binary args m.host_mem b bytes file_bytes arg_bytes in
      let start =
        started_by granted allotted binary args (suc fuel) m header enough few
          (relocated first ds b im)
          (λ q map loaded.
            ap (λ a. relocate_file (segments (exec_header binary)) a binary (suc fuel) q) moved
            ∙ relocate_file-binary binary first (encode ds) (suc fuel) q (omega arith) stored
            ∙ relocate_binary-rebased b first ds fuel q some_first fits are inside map
                (subst IsBytes (sym loaded) im_bytes)
            ∙ ap (λ x. done tt (record q { host_mem = relocated first ds b x })) loaded) in
      (
        start.0,
        start.1,
        start.2,
        (
          start.4.0,
          start.4.1,
          start.4.2,
          start.4.3 ∙ ap (λ x. relocated first ds x (image binary args m.host_mem x)) (sym start.3),
        ),
      )
