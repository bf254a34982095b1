-- ===== src/GemdosFile/Streams.antt =====
-- gemdosfile.c: the functions that open, close, read and write files.
use tosemu.Base.{
  ℕ, ◌%◌, List, [], ◌∷◌, Option, none, some, ◌==◌, if◌then◌else◌, bit_and, get_elem?, length,
  u32_mod,
}
use tosemu.Platform.{Platform}
use tosemu.Errors.{
  gemdos_e_ok, gemdos_einval, gemdos_efilnf, gemdos_enhndl, gemdos_eaccdn, gemdos_eihndl,
  gemdos_ensmem, gemdos_eintrn,
}
use tosemu.Machine.{M, done, fault, pure, ◌>>=◌, ◌>>◌, ask, act}
use tosemu.Cpu.{peek_u16, peek_u32}
use tosemu.GemdosFile.Handles.{get_handle, invalid_handle, release_handle}
use tosemu.GemdosFile.Access.{files, set_files, host_path_at, write_bytes, read_bytes}
use tosemu.GemdosFile.Calls.{make_dirs}

module _ ⦃p : Platform⦄ where
  -- get_handle: the index, or -1.
  unfoldable pub take_handle : ℕ → M ℕ
  take_handle f = do
    handles ← files (λ s. s.handles)
    elim (get_handle f 0 handles) [
      | none ↦ pure 0xffff_ffff
      | some (h, table) ↦ set_files (λ s. record s { handles = table }) >> pure h
    ]

  unfoldable pub fcreate : M ℕ
  unfolding make_dirs take_handle
  fcreate = do
    addr ← peek_u32 2
    path ← host_path_at addr
    elim path [
      | none ↦ pure gemdos_efilnf
      | some ubuf ↦ (do
        make_dirs [] ubuf
        fd ← act (p.creat ubuf)
        elim fd [ none ↦ pure gemdos_eaccdn | some n ↦ (do f ← act (p.fdopen n); take_handle f) ])
    ]

  abbrev pub open_mode : ℕ → Option (List ℕ)
  open_mode mode =
      if bit_and mode 0x3 == 0
      then some (b'r' ∷ [])
      else if bit_and mode 0x3 == 1
      then some (b'w' ∷ [])
      else if bit_and mode 0x3 == 2
      then some (b'r' ∷ b'+' ∷ [])
      else none

  -- Fopen behind `path_from_tos`.
  abbrev pub open_path : Option (List ℕ) → ℕ → M ℕ
  open_path path mode = elim path [
    | none ↦ pure gemdos_efilnf
    | some ubuf ↦ elim (open_mode mode) [
      | none ↦ pure gemdos_einval
      | some how ↦ (do
        f ← act (p.fopen ubuf how)
        if f == 0
            then pure gemdos_efilnf
            else (do h ← take_handle f; if h == 0xffff_ffff then pure gemdos_enhndl else pure h))
    ]
  ]

  unfoldable pub fopen : M ℕ
  unfolding take_handle
  fopen = do
    filename ← peek_u32 2
    mode ← peek_u16 6
    path ← host_path_at filename
    open_path path mode

  -- `handles[h].f`, where the host faults on NULL.
  unfoldable pub file_of : ℕ → M ℕ
  file_of h fuel m = elim (get_elem? m.files.handles h) [
    | none ↦ fault
    | some e ↦ if e.f == 0 then fault else done e.f m
  ]

  unfoldable pub close_file : ℕ → M (Unit {0})
  close_file f fuel m = done tt (record m { world = p.fclose f m.world })

  unfoldable pub fclose : M ℕ
  unfolding file_of close_file
  fclose = do
    h ← peek_u16 2
    handles ← files (λ s. s.handles)
    if invalid_handle handles h then pure gemdos_eihndl else (do
      set_files (λ s. record s { handles = release_handle s.handles h })
      f ← file_of h
      close_file f
      pure gemdos_e_ok)

  unfoldable pub fread : M ℕ
  unfolding file_of
  fread = do
    h ← peek_u16 2
    len ← peek_u32 4
    buf ← peek_u32 8
    handles ← files (λ s. s.handles)
    if invalid_handle handles h then pure gemdos_eihndl else (do
      room ← act (p.malloc len)
      if room
          then (do
            f ← file_of h
            tmp ← act (p.fread f len)
            failed ← ask (p.ferror f)
            if failed
                then pure gemdos_eintrn
                else write_bytes buf tmp >> pure (length tmp % u32_mod))
          else pure gemdos_ensmem)

  unfoldable pub fwrite : M ℕ
  unfolding file_of
  fwrite = do
    h ← peek_u16 2
    len ← peek_u32 4
    buf ← peek_u32 8
    handles ← files (λ s. s.handles)
    if invalid_handle handles h then pure gemdos_eihndl else (do
      room ← act (p.malloc len)
      if room
          then (do
            tmp ← read_bytes buf len
            f ← file_of h
            n ← act (p.fwrite tmp f)
            failed ← ask (p.ferror f)
            if failed then pure gemdos_eintrn else pure (n % u32_mod))
          else pure gemdos_ensmem)
