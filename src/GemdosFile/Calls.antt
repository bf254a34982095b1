-- ===== src/GemdosFile/Calls.antt =====
-- gemdosfile.c: the functions on paths, on file handles and on times.
use tosemu.Base.{
  ℕ, ◌%◌, List, [], ◌∷◌, ◌++◌, none, some, ◌==◌, ◌||◌, if◌then◌else◌, bit_and, bit_or, take,
  u32_mod,
}
use tosemu.Platform.{
  Platform, Errno, ebadf, espipe, einval, eoverflow, enxio, eother, sought, seek_failed,
}
use tosemu.Errors.{gemdos_einval, gemdos_efilnf, gemdos_eaccdn, gemdos_eihndl, gemdos_eintrn}
use tosemu.Machine.{M, pure, ◌>>=◌, ◌>>◌, ask, act}
use tosemu.Memory.{m68k_write_memory_32}
use tosemu.Cpu.{peek_u16, peek_u32, peek_s32}
use tosemu.DosTime.{pack_datime}
use tosemu.GemdosFile.Path.{path_max}
use tosemu.GemdosFile.Access.{files, set_files, host_path_at, write_bytes}

abbrev attr_directory : ℕ
attr_directory = 0x10

-- `S_ISDIR` of sys/stat.h tests the file type bits.
unfoldable pub mode_to_attrib : ℕ → ℕ
mode_to_attrib mode = if bit_and mode 0xf000 == 0x4000 then bit_or 0 attr_directory else 0

-- The GEMDOS code for the `errno` of a failed seek.
unfoldable pub seek_error : Errno → ℕ
seek_error ebadf = gemdos_eihndl
seek_error espipe = gemdos_eaccdn
seek_error einval = gemdos_einval
seek_error eoverflow = gemdos_eintrn
seek_error enxio = gemdos_eintrn
seek_error eother = gemdos_eintrn

module _ ⦃p : Platform⦄ where
  -- The modes 0, 1 and 2 are SEEK_SET, SEEK_CUR and SEEK_END. The handle is passed to the host as it is.
  unfoldable pub fseek : M ℕ
  unfolding seek_error
  fseek = do
    seekmode ← peek_u16 8
    handle ← peek_u16 6
    offset ← peek_s32 2
    if seekmode == 0 || seekmode == 1 || seekmode == 2
        then (do
          ret ← act (p.lseek handle offset seekmode)
          elim ret [ seek_failed e ↦ pure (seek_error e) | sought pos ↦ pure (pos % u32_mod) ])
        else pure gemdos_einval

  -- `fstat` returns 0 or -1, and never the value EBADF that is tested for.
  unfoldable pub fdatime : M ℕ
  fdatime = do
    wflag ← peek_u16 8
    handle ← peek_u16 6
    ptr ← peek_u32 2
    if wflag == 0
        then (do
          buf ← ask (p.fstat handle)
          elim buf [
            | none ↦ pure gemdos_eintrn
            | some st ↦ (do
              lt ← ask (p.localtime st.st_mtime)
              m68k_write_memory_32 ptr (pack_datime lt)
              pure 0)
          ])
        else pure gemdos_einval

  unfoldable pub dgetdrv : M ℕ
  dgetdrv = pure 2

  unfoldable pub fgetdta : M ℕ
  fgetdta = files (λ f. f.dta_addr)

  unfoldable pub fsetdta : M ℕ
  fsetdta = do addr ← peek_u32 2; set_files (λ f. record f { dta_addr = addr }); pure 0

  -- At most `path_max` bytes are written, the terminator included.
  unfoldable pub dgetpath : M ℕ
  dgetpath = do
    addr ← peek_u32 2
    drive ← peek_u32 6
    ubuf ← ask p.getcwd
    write_bytes addr (take path_max (ubuf ++ 0 ∷ []))
    pure 0

  unfoldable pub dsetpath : M ℕ
  dsetpath = do
    addr ← peek_u32 2
    path ← host_path_at addr
    elim path [ none ↦ pure gemdos_efilnf | some ubuf ↦ act (p.chdir ubuf) >> pure 0 ]

  unfoldable pub dcreate : M ℕ
  dcreate = do
    addr ← peek_u32 2
    path ← host_path_at addr
    elim path [
      | none ↦ pure gemdos_efilnf
      | some ubuf ↦ (do ok ← act (p.mkdir ubuf); if ok then pure 0 else pure gemdos_eaccdn)
    ]

  unfoldable pub fdelete : M ℕ
  fdelete = do
    addr ← peek_u32 2
    path ← host_path_at addr
    elim path [
      | none ↦ pure gemdos_efilnf
      | some ubuf ↦ (do ok ← act (p.unlink ubuf); if ok then pure 0 else pure gemdos_efilnf)
    ]

  -- A directory is made for each slash of the path, from the bytes before it.
  unfoldable pub make_dirs : (before path : List ℕ) → M (Unit {0})
  make_dirs before [] = pure tt
  make_dirs before (c ∷ rest) =
      if c == b'/'
      then act (p.mkdir before) >> make_dirs (before ++ c ∷ []) rest
      else make_dirs (before ++ c ∷ []) rest

  unfoldable pub fattrib : M ℕ
  unfolding mode_to_attrib
  fattrib = do
    filename ← peek_u32 2
    wflag ← peek_u16 6
    attr ← peek_u16 8
    path ← host_path_at filename
    elim path [
      | none ↦ pure gemdos_efilnf
      | some ubuf ↦ (do
        st ← ask (p.stat ubuf)
        elim st [ none ↦ pure gemdos_efilnf | some s ↦ pure (mode_to_attrib s.st_mode) ])
    ]
