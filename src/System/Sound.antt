-- ===== src/System/Sound.antt =====
-- What every part of the program keeps: the memory map and the root of the host paths stay as they
-- were set up, the table of handles keeps its size, and the list of memory areas stays well-formed.
-- The handlers here are those that change the variables of gemdosmem.c and gemdosfile.c.
use tosemu.Base.{
  ℕ, ◌≡◌, refl, ◌∙◌, List, [], ◌∷◌, Option, none, some, length, Option-cases, inl, inr, Bool, true,
  false, arith, ◌+◌,
}
use tosemu.Platform.{Platform}
use tosemu.Machine.{State, M, pure, ◌>>=◌, ◌>>◌}
use tosemu.Machine.Keeps.{
  Frame, Holds, Keeps, Leaves, Leaves-done, Leaves-bind, Leaves-if, Leaves-option,
}
use tosemu.Memory.Area.{MemoryArea}
use tosemu.GemdosMem.{MemState}
use tosemu.GemdosMem
use tosemu.GemdosMem.Invariant.{IsManaged}
use tosemu.GemdosMem.Calls.{malloc-IsManaged, mfree-IsManaged, mshrink-IsManaged}
use tosemu.Gemdos.MemCalls.{on_memory, malloc, mfree, mshrink}
use tosemu.GemdosFile.State.{FHandle, FileState}
use tosemu.GemdosFile.Handles.{get_handle, release_handle, invalid_handle}
use tosemu.GemdosFile.OpenFiles.{length-release_handle}
use tosemu.GemdosFile.Globs.{gemdos_prepare_dta, set_paths}
use tosemu.GemdosFile.Access.{set_files}
use tosemu.GemdosFile.Calls.{fsetdta}
use tosemu.GemdosFile.Streams.{take_handle, fcreate, open_mode, fopen, fclose}
use tosemu.GemdosFile.Search.{new_search, host_dta, first_entry, fsfirst}
use tosemu.Errors.{gemdos_e_ok, gemdos_efilnf, gemdos_einval, gemdos_eaccdn, gemdos_eihndl}
use tosemu.System.Access.{access_rules, peek_u16-Keeps, peek_u32-Keeps, peek_s32-Keeps}
use tosemu.System.Files.{
  host_path_at-Keeps, make_dirs-Keeps, file_of-Keeps, host_dta-Keeps, first_entry-Keeps,
}

abbrev pub SoundFiles : ℕ → List ℕ → FileState → Type 0
SoundFiles n base files = (length files.handles ≡ n) × (files.base_path ≡ base)

-- `managed` says that the list of memory areas was well-formed before, and `halted` that the execution
-- was stopped.
abbrev pub Sound : (managed halted : Bool) → List MemoryArea → ℕ → List ℕ → Frame
Sound managed halted map n base = record {
  pred = λ keepongoing areas files memory.
      (areas ≡ map)
      × SoundFiles n base files
      × (managed ≡ true → IsManaged memory)
      × (halted ≡ true → keepongoing ≡ false);
  on_halt = λ keepongoing areas files memory h. (h.0, h.1, h.2, λ e. refl);
}

length-get_handle :
    (f i : ℕ) (hs : List FHandle) (q : ℕ × List FHandle)
    → get_handle f i hs ≡ some q
    → length q.1 ≡ length hs
unfolding get_handle
length-get_handle f i [] q e = ground arith
length-get_handle f i (h ∷ hs) q e = elim (Option-cases (get_handle f (i + 1) hs)) [
  | inl missing ↦ ground arith
  | inr (q', found) ↦ let rest = length-get_handle f (i + 1) hs q' found in ground arith
]

module _ ⦃p : Platform⦄ {managed halted : Bool} {map : List MemoryArea} {n : ℕ}
    {base : List ℕ} where
  on_memory-Keeps :
      (f : MemState → ℕ × MemState)
      → ((s : MemState) → IsManaged s → IsManaged (f s).1)
      → Keeps (Sound managed halted map n base) (on_memory f)
  unfolding on_memory
  on_memory-Keeps f k fuel m h =
      Leaves-done (f m.memory).0 (record m { memory = (f m.memory).1 })
        (h.0, h.1, λ e. k m.memory (h.2 e), h.3)

  pub malloc-Keeps : Keeps (Sound managed halted map n base) malloc
  unfolding malloc
  malloc-Keeps fuel m h =
      Leaves-bind _ _ (peek_s32-Keeps 2 fuel m h)
        λ newsiz. on_memory-Keeps (GemdosMem.malloc newsiz) (malloc-IsManaged newsiz) fuel

  pub mfree-Keeps : Keeps (Sound managed halted map n base) mfree
  unfolding mfree
  mfree-Keeps fuel m h =
      Leaves-bind _ _ (peek_u32-Keeps 2 fuel m h)
        λ block. on_memory-Keeps (GemdosMem.mfree block) (mfree-IsManaged block) fuel

  pub mshrink-Keeps : Keeps (Sound managed halted map n base) mshrink
  unfolding mshrink
  mshrink-Keeps fuel m h = Leaves-bind _ _ (peek_u32-Keeps 8 fuel m h) λ newsiz m1 h1.
      Leaves-bind _ _ (peek_u32-Keeps 4 fuel m1 h1) λ block.
        on_memory-Keeps (GemdosMem.mshrink block newsiz) (mshrink-IsManaged block newsiz) fuel

  pub fsetdta-Keeps : Keeps (Sound managed halted map n base) fsetdta
  unfolding fsetdta
  fsetdta-Keeps = search access_rules

  -- What take_handle does with the result of get_handle, on the table `hs`.
  taken-Keeps :
      (fuel : ℕ) (m : State) (r : Option (ℕ × List FHandle))
      → ((q : ℕ × List FHandle) → r ≡ some q → length q.1 ≡ length m.files.handles)
      → Holds (Sound managed halted map n base) m
      → Leaves (Sound managed halted map n base) (
          (elim r as (λ _. M ℕ) [
            | none ↦ pure 0xffff_ffff
            | some (h, table) ↦ set_files (λ s. record s { handles = table }) >> pure h
          ])
            fuel m)
  taken-Keeps fuel m none k h = Leaves-done 0xffff_ffff m h
  taken-Keeps fuel m (some (i, table)) k h =
      Leaves-done i (record m { files = record m.files { handles = table } })
        (h.0, (k (i, table) refl ∙ h.1.0, h.1.1), h.2, h.3)

  take_handle-Keeps : (f : ℕ) → Keeps (Sound managed halted map n base) (take_handle f)
  unfolding take_handle
  take_handle-Keeps f fuel m h =
      taken-Keeps fuel m (get_handle f 0 m.files.handles) (length-get_handle f 0 m.files.handles) h

  pub fcreate-Keeps : Keeps (Sound managed halted map n base) fcreate
  unfolding fcreate
  fcreate-Keeps fuel m h = Leaves-bind _ _ (peek_u32-Keeps 2 fuel m h) λ addr m1 h1.
      Leaves-bind _ _ (host_path_at-Keeps addr fuel m1 h1) λ path m2 h2.
        Leaves-option path _ _ fuel m2 (Leaves-done gemdos_efilnf m2 h2) λ ubuf.
          Leaves-bind _ _ (make_dirs-Keeps [] ubuf fuel m2 h2) λ _ m3 h3.
            Leaves-option (p.creat ubuf m3.world).0 _ _ fuel _ (Leaves-done gemdos_eaccdn _ h3)
              λ fd. take_handle-Keeps _ fuel _ h3

  pub fopen-Keeps : Keeps (Sound managed halted map n base) fopen
  unfolding fopen
  fopen-Keeps fuel m h = Leaves-bind _ _ (peek_u32-Keeps 2 fuel m h) λ filename m1 h1.
      Leaves-bind _ _ (peek_u16-Keeps 6 fuel m1 h1) λ mode m2 h2.
        Leaves-bind _ _ (host_path_at-Keeps filename fuel m2 h2) λ path m3 h3.
          Leaves-option path _ _ fuel m3 (Leaves-done gemdos_efilnf m3 h3) λ ubuf.
            Leaves-option (open_mode mode) _ _ fuel m3 (Leaves-done gemdos_einval m3 h3)
              λ how. search (access_rules, take_handle-Keeps)

  pub fclose-Keeps : Keeps (Sound managed halted map n base) fclose
  unfolding fclose
  fclose-Keeps fuel m h = Leaves-bind _ _ (peek_u16-Keeps 2 fuel m h) λ i m1 h1.
      Leaves-if (invalid_handle m1.files.handles i) _ _ fuel m1 (Leaves-done gemdos_eihndl m1 h1) (
        let m2 : State = record m1 {
          files = record m1.files { handles = release_handle m1.files.handles i };
        } in
        Leaves-bind _ _
          (file_of-Keeps i fuel m2
            (h1.0, (length-release_handle m1.files.handles i ∙ h1.1.0, h1.1.1), h1.2, h1.3))
          λ f m3 h3. search access_rules)

  -- What Fsfirst does with the result of `glob`.
  search_found-Keeps :
      (id : ℕ) (found : Option (List (List ℕ)))
      → Keeps (Sound managed halted map n base) (elim found as (λ _. M ℕ) [
        | none ↦ pure gemdos_efilnf
        | some [] ↦ pure gemdos_e_ok
        | some (first ∷ rest) ↦ (do
          set_files (λ f. record f { globhead = set_paths id (first ∷ rest) f.globhead })
          dta ← host_dta
          first_entry id dta (first ∷ rest))
      ])
  search_found-Keeps id none fuel m h = Leaves-done gemdos_efilnf m h
  search_found-Keeps id (some []) fuel m h = Leaves-done gemdos_e_ok m h
  search_found-Keeps id (some (first ∷ rest)) fuel m h =
      search (access_rules, host_dta-Keeps, first_entry-Keeps)

  pub fsfirst-Keeps : Keeps (Sound managed halted map n base) fsfirst
  unfolding fsfirst new_search gemdos_prepare_dta
  fsfirst-Keeps fuel m h = Leaves-bind _ _ (peek_u32-Keeps 2 fuel m h) λ filename m1 h1.
      Leaves-bind _ _ (peek_u16-Keeps 6 fuel m1 h1) λ attr m2 h2.
        let m3 : State = record m2 { files = (gemdos_prepare_dta m2.files).1 } in
        Leaves-bind _ _ (host_path_at-Keeps filename fuel m3 h2) λ path m4 h4.
          Leaves-option path _ _ fuel m4 (Leaves-done gemdos_efilnf m4 h4) λ ubuf.
            search_found-Keeps (gemdos_prepare_dta m2.files).0 (p.glob ubuf m4.world) fuel m4 h4
