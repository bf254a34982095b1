-- ===== src/System/Files.antt =====
-- gemdosfile.c: the handlers that leave the file variables alone.
use tosemu.Base.{
  ℕ, ◌%◌, ◌||◌, u32_mod, zero, suc, List, [], ◌∷◌, ◌++◌, none, some, add32, ◌+◌, ◌==◌, get_elem?,
}
use tosemu.Platform.{Platform, Seek, Errno, sought, seek_failed}
use tosemu.Machine.{State, M, done, pure, ◌>>=◌}
use tosemu.Machine.Keeps.{
  Frame, Keeps, Leaves, Leaves-done, Leaves-fault, Leaves-bind, Leaves-if, Leaves-if_run,
  Leaves-option, Leaves-option_run,
}
use tosemu.System.Access.{
  access_rules, m68k_write_memory_32-Keeps, peek_u16-Keeps, peek_u32-Keeps, peek_s32-Keeps,
}
use tosemu.Errors.{gemdos_efilnf, gemdos_e_ok}
use tosemu.GemdosFile.Access.{get_path_loop, get_path, host_path_at, write_bytes, read_bytes}
use tosemu.GemdosFile.Path.{path_max}
use tosemu.GemdosFile.Calls.{
  seek_error, fseek, fdatime, dgetdrv, fgetdta, dgetpath, dsetpath, dcreate, fdelete, make_dirs,
  fattrib,
}
use tosemu.GemdosFile.Streams.{file_of, fread, fwrite}
use tosemu.GemdosFile.Search.{load_le, fill_dta, host_dta, first_entry, fsnext}
use tosemu.GemdosFile.Globs.{gemdos_find_dta}

module _ ⦃p : Platform⦄ {P : Frame} where
  get_path_loop-Keeps : (rounds address : ℕ) → Keeps P (get_path_loop rounds address)
  unfolding get_path_loop
  get_path_loop-Keeps zero address = search access_rules
  get_path_loop-Keeps (suc rounds) address =
      search (access_rules, get_path_loop-Keeps rounds (add32 address 1))

  get_path-Keeps : (address : ℕ) → Keeps P (get_path address)
  unfolding get_path
  get_path-Keeps address = get_path_loop-Keeps path_max address

  pub host_path_at-Keeps : (address : ℕ) → Keeps P (host_path_at address)
  unfolding host_path_at
  host_path_at-Keeps address = search (access_rules, get_path_loop-Keeps)

  write_bytes-Keeps : (address : ℕ) (bs : List ℕ) → Keeps P (write_bytes address bs)
  unfolding write_bytes
  write_bytes-Keeps address [] = search access_rules
  write_bytes-Keeps address (b ∷ bs) = search (access_rules, write_bytes-Keeps (add32 address 1) bs)

  read_bytes-Keeps : (address n : ℕ) → Keeps P (read_bytes address n)
  unfolding read_bytes
  read_bytes-Keeps address zero = search access_rules
  read_bytes-Keeps address (suc n) = search (access_rules, read_bytes-Keeps (add32 address 1) n)

  pub make_dirs-Keeps : (before path : List ℕ) → Keeps P (make_dirs before path)
  unfolding make_dirs
  make_dirs-Keeps before [] = search access_rules
  make_dirs-Keeps before (c ∷ rest) = search (access_rules, make_dirs-Keeps (before ++ c ∷ []) rest)

  -- A handler that takes a path: what it does with the path, or an error code.
  pub with_path-Keeps :
      (address e : ℕ) (f : List ℕ → M ℕ)
      → ((path : List ℕ) → Keeps P (f path))
      → Keeps P (
          host_path_at address >>= λ path. elim path as (λ _. M ℕ) [
            | none ↦ (λ fuel m. done e m)
            | some ubuf ↦ f ubuf
          ])
  with_path-Keeps address e f k fuel m h =
      Leaves-bind _ _ (host_path_at-Keeps address fuel m h) λ path m' h'.
        Leaves-option path _ _ fuel m' (Leaves-done e m' h') (λ ubuf. k ubuf fuel m' h')

  pub dsetpath-Keeps : Keeps P dsetpath
  unfolding dsetpath
  dsetpath-Keeps fuel m h =
      Leaves-bind _ _ (peek_u32-Keeps 2 fuel m h)
        λ addr m' h'. with_path-Keeps addr gemdos_efilnf _ (λ path. search access_rules) fuel m' h'

  pub dcreate-Keeps : Keeps P dcreate
  unfolding dcreate
  dcreate-Keeps fuel m h =
      Leaves-bind _ _ (peek_u32-Keeps 2 fuel m h)
        λ addr m' h'. with_path-Keeps addr gemdos_efilnf _ (λ path. search access_rules) fuel m' h'

  pub fdelete-Keeps : Keeps P fdelete
  unfolding fdelete
  fdelete-Keeps fuel m h =
      Leaves-bind _ _ (peek_u32-Keeps 2 fuel m h)
        λ addr m' h'. with_path-Keeps addr gemdos_efilnf _ (λ path. search access_rules) fuel m' h'

  pub fattrib-Keeps : Keeps P fattrib
  unfolding fattrib
  fattrib-Keeps fuel m h = Leaves-bind _ _ (peek_u32-Keeps 2 fuel m h) λ addr m1 h1.
      Leaves-bind _ _ (peek_u16-Keeps 6 fuel m1 h1) λ wflag m2 h2.
        Leaves-bind _ _ (peek_u16-Keeps 8 fuel m2 h2) λ attr m3 h3.
          with_path-Keeps addr gemdos_efilnf _
            (λ path fuel m h.
              Leaves-option (p.stat path m.world) _ _ fuel m (Leaves-done _ m h)
                (λ st. Leaves-done _ m h))
            fuel m3 h3

  Leaves-seek :
      (r : Seek) (x : Errno → M ℕ) (f : ℕ → M ℕ) (fuel : ℕ) (m : State)
      → ((e : Errno) → Leaves P (x e fuel m))
      → ((pos : ℕ) → Leaves P (f pos fuel m))
      → Leaves P ((elim r as (λ _. M ℕ) [ seek_failed e ↦ x e | sought pos ↦ f pos ]) fuel m)
  Leaves-seek (sought pos) x f fuel m kx kf = kf pos
  Leaves-seek (seek_failed e) x f fuel m kx kf = kx e

  pub fseek-Keeps : Keeps P fseek
  unfolding fseek
  fseek-Keeps fuel m h = Leaves-bind _ _ (peek_u16-Keeps 8 fuel m h) λ seekmode m1 h1.
      Leaves-bind _ _ (peek_u16-Keeps 6 fuel m1 h1) λ handle m2 h2.
        Leaves-bind _ _ (peek_s32-Keeps 2 fuel m2 h2) λ offset m3 h3.
          let r = p.lseek handle offset seekmode m3.world in
          let m4 : State = record m3 { world = r.1 } in
          Leaves-if (seekmode == 0 || seekmode == 1 || seekmode == 2) _ _ fuel m3
            (Leaves-seek r.0 (λ e. pure (seek_error e)) (λ pos. pure (pos % u32_mod)) fuel m4
              (λ e. Leaves-done (seek_error e) m4 h3) (λ pos. Leaves-done (pos % u32_mod) m4 h3))
            (Leaves-done _ m3 h3)

  pub fdatime-Keeps : Keeps P fdatime
  unfolding fdatime
  fdatime-Keeps fuel m h = Leaves-bind _ _ (peek_u16-Keeps 8 fuel m h) λ wflag m1 h1.
      Leaves-bind _ _ (peek_u16-Keeps 6 fuel m1 h1) λ handle m2 h2.
        Leaves-bind _ _ (peek_u32-Keeps 2 fuel m2 h2) λ ptr m3 h3.
          Leaves-if (wflag == 0) _ _ fuel m3
            (Leaves-option (p.fstat handle m3.world) _ _ fuel m3 (Leaves-done _ m3 h3) (λ st.
              Leaves-bind _ _ (m68k_write_memory_32-Keeps ptr _ fuel m3 h3)
                (λ _ m4 h4. Leaves-done 0 m4 h4)))
            (Leaves-done _ m3 h3)

  pub dgetdrv-Keeps : Keeps P dgetdrv
  unfolding dgetdrv
  dgetdrv-Keeps = search access_rules

  pub fgetdta-Keeps : Keeps P fgetdta
  unfolding fgetdta
  fgetdta-Keeps = search access_rules

  pub dgetpath-Keeps : Keeps P dgetpath
  unfolding dgetpath
  dgetpath-Keeps = search (access_rules, write_bytes-Keeps) depth 20

  pub file_of-Keeps : (h : ℕ) → Keeps P (file_of h)
  unfolding file_of
  file_of-Keeps i fuel m h =
      Leaves-option_run (get_elem? m.files.handles i) _ _ Leaves-fault
        (λ e. Leaves-if_run _ _ _ Leaves-fault (Leaves-done _ m h))

  pub fread-Keeps : Keeps P fread
  unfolding fread
  fread-Keeps = search (access_rules, file_of-Keeps, write_bytes-Keeps) depth 20

  pub fwrite-Keeps : Keeps P fwrite
  unfolding fwrite
  fwrite-Keeps = search (access_rules, file_of-Keeps, read_bytes-Keeps) depth 20

  fill_dta-Keeps : (dta : ℕ) (path : List ℕ) → Keeps P (fill_dta dta path)
  unfolding fill_dta
  fill_dta-Keeps dta path fuel m h =
      Leaves-option (p.stat path m.world) _ _ fuel m Leaves-fault (λ st. Leaves-done _ _ h)

  pub host_dta-Keeps : Keeps P host_dta
  unfolding host_dta
  host_dta-Keeps = search access_rules

  pub first_entry-Keeps : (id dta : ℕ) (paths : List (List ℕ)) → Keeps P (first_entry id dta paths)
  unfolding first_entry
  first_entry-Keeps id dta [] = search access_rules
  first_entry-Keeps id dta (path ∷ rest) = search (access_rules, fill_dta-Keeps)

  pub fsnext-Keeps : Keeps P fsnext
  unfolding fsnext
  fsnext-Keeps fuel m h = Leaves-bind _ _ (host_dta-Keeps fuel m h) λ dta m1 h1.
      Leaves-option (gemdos_find_dta (load_le m1.host_mem dta 4) m1.files) _ _ fuel _ Leaves-fault
        λ paths.
          Leaves-option (get_elem? paths (add32 (load_le m1.host_mem (dta + 4) 4) 1)) _ _ fuel _
            (Leaves-done _ _ h1)
            λ path.
              Leaves-bind _ _ (fill_dta-Keeps dta path fuel _ h1)
                (λ _ m2 h2. Leaves-done gemdos_e_ok m2 h2)
