-- ===== src/GemdosFile/Listing.antt =====
-- gemdosfile.c: Fsfirst and Fsnext list what the host's `glob` finds, one file at a time.
use mathlib.Core.Path.{ap₂}
use tosemu.Base.{
  ℕ, zero, suc, ◌+◌, ◌%◌, ◌<◌, ◌≡◌, ◌≢◌, inl, refl, ◌∙◌, ap, sym, true, false, List, [], ◌∷◌,
  Option, none, some, ◌==◌, arith, All, add32, sub32, length, get_elem?, u16_mod, u32_mod,
}
use tosemu.Platform.{Platform, Stat}
use tosemu.Errors.{gemdos_e_ok, gemdos_enmfil}
use tosemu.Machine.{State, M, done, out_of_fuel, fault, pure, ◌>>=◌, ◌>>◌}
use tosemu.Memory.Area.{MemoryArea, ptr_read, ptr_write, find_memarea}
use tosemu.Memory.{tos_mem_to_host_mem}
use tosemu.DosTime.{pack_time, pack_date}
use tosemu.GemdosFile.Globs.{gemdos_find_dta, find_glob}
use tosemu.GemdosFile.Calls.{mode_to_attrib}
use tosemu.GemdosFile.Search.{store_le, load_le, file_name, fill_dta, host_dta, fsnext}
use tosemu.GemdosFile.Dta.{
  Entry, IsEntry, shown_entry, filled, filled_before, shown_entry-filled, length-file_name,
  store_le_outside, load_le-store_le, load_le-within,
}

-- The DTA lies at the host address `d`.
pub record IsDta (areas : List MemoryArea) (dta_addr d : ℕ) : Type 0 where
  pub area : MemoryArea
  pub found : find_memarea dta_addr areas ≡ some area
  pub reads_memory : area.read ≡ ptr_read
  pub writes_memory : area.write ≡ ptr_write
  pub at_d : area.ptr + sub32 dta_addr area.base ≡ d
  pub not_null : d ≢ 0

module _ ⦃p : Platform⦄ where
  -- What a file is shown as.
  abbrev pub entry : p.World → List ℕ → Stat → Entry
  entry w path st = record {
    attrib = mode_to_attrib st.st_mode;
    time = pack_time (p.localtime st.st_mtime w) % u16_mod;
    date = pack_date (p.localtime st.st_mtime w) % u16_mod;
    size = st.st_size % u32_mod;
    name = file_name (p.basename path);
  }

  -- The host knows the file as `st`.
  pub record IsFile (w : p.World) (path : List ℕ) : Type 0 where
    pub st : Stat
    pub known : p.stat path w ≡ some st

  pub host_dta-found :
      (d fuel : ℕ) (m : State) → IsDta m.areas m.files.dta_addr d → host_dta fuel m ≡ done d m
  unfolding host_dta tos_mem_to_host_mem
  host_dta-found d fuel m i = ground (arith, i.found, i.reads_memory, i.writes_memory)

  pub fill_dta-filled :
      (d fuel : ℕ) (m : State) (path : List ℕ) (st : Stat)
      → p.stat path m.world ≡ some st
      → fill_dta d path fuel m
        ≡ done tt (record m { host_mem = filled m.host_mem d (entry m.world path st) })
  unfolding fill_dta
  fill_dta-filled d fuel m path st e = rw e refl

  -- A search is on: its number and the index of its current file stand in the DTA.
  pub record IsSearch (d id i : ℕ) (paths : List (List ℕ)) (m : State) : Type 0 where
    pub there : IsDta m.areas m.files.dta_addr d
    pub id_stored : load_le m.host_mem d 4 ≡ id
    pub index_stored : load_le m.host_mem (d + 4) 4 ≡ i
    pub listed : find_glob id m.files.globhead ≡ some paths

  abbrev moved_on : ℕ → ℕ → State → State
  moved_on d i m = record m { host_mem = store_le m.host_mem (d + 4) 4 (add32 i 1) }

  -- Fsnext behind its reads of the DTA, and then behind its search in the list.
  abbrev show_file : ℕ → Option (List ℕ) → M ℕ
  show_file d none = pure gemdos_enmfil
  show_file d (some path) = do fill_dta d path; pure gemdos_e_ok

  abbrev show_next : ℕ → ℕ → Option (List (List ℕ)) → M ℕ
  show_next d i none fuel m = fault
  show_next d i (some paths) fuel m =
      show_file d (get_elem? paths (add32 i 1)) fuel (moved_on d i m)

  fsnext-show_next :
      (d fuel : ℕ) (m : State)
      → IsDta m.areas m.files.dta_addr d
      → fsnext fuel m
        ≡ show_next d
            (load_le m.host_mem (d + 4) 4)
            (find_glob (load_le m.host_mem d 4) m.files.globhead)
            fuel
            m
  unfolding fsnext gemdos_find_dta
  fsnext-show_next d fuel m there = rw (host_dta-found d fuel m there) (ground arith)

  module _ (d id i fuel : ℕ) (paths : List (List ℕ)) (m : State)
      (search : IsSearch d id i paths m) where
    fsnext-show_file :
        fsnext fuel m ≡ show_file d (get_elem? paths (add32 i 1)) fuel (moved_on d i m)
    fsnext-show_file =
        fsnext-show_next d fuel m search.there
        ∙ ap₂ (λ x y. show_next d x (find_glob y m.files.globhead) fuel m) search.index_stored
            search.id_stored
        ∙ ap (λ x. show_next d i x fuel m) search.listed

    fsnext-shows :
        (path : List ℕ) (st : Stat)
        → get_elem? paths (add32 i 1) ≡ some path
        → p.stat path m.world ≡ some st
        → fsnext fuel m
          ≡ done gemdos_e_ok
              (record m { host_mem = filled (moved_on d i m).host_mem d (entry m.world path st) })
    fsnext-shows path st next known =
        fsnext-show_file
        ∙ ap (λ x. show_file d x fuel (moved_on d i m)) next
        ∙ rw (fill_dta-filled d fuel (moved_on d i m) path st known) refl

    fsnext-ends :
        get_elem? paths (add32 i 1) ≡ none → fsnext fuel m ≡ done gemdos_enmfil (moved_on d i m)
    fsnext-ends none_left =
        fsnext-show_file ∙ ap (λ x. show_file d x fuel (moved_on d i m)) none_left

  pub entry-IsEntry : (w : p.World) (path : List ℕ) (st : Stat) → IsEntry (entry w path st)
  entry-IsEntry w path st = record {
    time_fits = omega arith;
    date_fits = omega arith;
    size_fits = omega arith;
    name_fits = length-file_name (p.basename path);
  }

  -- Behind Fsnext the search is at the next file.
  shown-IsSearch :
      (d id i : ℕ) (paths : List (List ℕ)) (m : State) (e : Entry)
      → i + 1 < u32_mod
      → IsSearch d id i paths m
      → IsSearch d id (i + 1) paths (record m { host_mem = filled (moved_on d i m).host_mem d e })
  shown-IsSearch d id i paths m e small search =
      let h = (moved_on d i m).host_mem in
      let next : add32 i 1 ≡ i + 1 = omega arith in
      record {
        there = search.there;
        id_stored =
            load_le-within (filled h d e) m.host_mem d 4 (λ q l r.
              filled_before h d e q (omega arith)
              ∙ store_le_outside m.host_mem (d + 4) 4 (add32 i 1) q (inl (omega arith)))
            ∙ search.id_stored;
        index_stored =
            load_le-within (filled h d e) h (d + 4) 4 (λ q l r. filled_before h d e q (omega arith))
            ∙ load_le-store_le m.host_mem (d + 4) 4 (add32 i 1) (omega arith)
            ∙ next;
        listed = search.listed;
      }

  -- The files of a list, as the DTA shows them.
  abbrev pub entries : (w : p.World) (paths : List (List ℕ)) → All (IsFile w) paths → List Entry
  entries w [] files = []
  entries w (path ∷ paths) files = entry w path files.0.st ∷ entries w paths files.1

  -- A program calls Fsnext until it is told that there are no more files, and looks at the DTA each time.
  unfoldable pub visit : (d rounds : ℕ) → M (List Entry × ℕ)
  visit d zero fuel m = out_of_fuel
  visit d (suc rounds) fuel m =
      (do
        answer ← fsnext
        elim (answer == gemdos_e_ok) [
          | true ↦ (do
            e ← (λ _ m'. done (shown_entry m'.host_mem d) m')
            rest ← visit d rounds
            pure (e ∷ rest.0, rest.1))
          | false ↦ pure ([], answer)
        ])
        fuel m

  -- What stands in the list behind index `i`.
  abbrev pub IsBehind : List (List ℕ) → ℕ → List (List ℕ) → Type 0
  IsBehind paths i rest = (j : ℕ) → get_elem? paths (i + 1 + j) ≡ get_elem? rest j

  pub visit-entries :
      (rest : List (List ℕ)) (rounds d id i fuel : ℕ) (paths : List (List ℕ)) (m : State)
      (files : All (IsFile m.world) rest)
      → IsSearch d id i paths m
      → IsBehind paths i rest
      → i + length rest + 1 < u32_mod
      → length rest < rounds
      → (h : ℕ → ℕ) × (visit d rounds fuel m
          ≡ done (entries m.world rest files, gemdos_enmfil) (record m { host_mem = h }))
  unfolding visit
  visit-entries rest zero d id i fuel paths m files search behind small few = absurd (omega arith)
  visit-entries [] (suc rounds) d id i fuel paths m files search behind small few =
      let e : i + 1 + 0 ≡ add32 i 1 = omega arith in
      let none_left = ap (get_elem? paths) (sym e) ∙ behind 0 in
      ((moved_on d i m).host_mem, rw (fsnext-ends d id i fuel paths m search none_left) refl)
  visit-entries (path ∷ rest) (suc rounds) d id i fuel paths m files search behind small few =
      let e : i + 1 + 0 ≡ add32 i 1 = omega arith in
      let next = ap (get_elem? paths) (sym e) ∙ behind 0 in
      let shown = entry m.world path files.0.st in
      let h1 = (moved_on d i m).host_mem in
      let m1 : State = record m { host_mem = filled h1 d shown } in
      let further : IsBehind paths (i + 1) rest = λ j.
        let e2 : i + 1 + 1 + j ≡ i + 1 + suc j = omega arith in
        ap (get_elem? paths) e2 ∙ behind (suc j) in
      let others =
        visit-entries rest rounds d id (i + 1) fuel paths m1 files.1
          (shown-IsSearch d id i paths m shown (omega arith) search) further (omega arith)
          (omega arith) in
      (
        others.0,
        rw (fsnext-shows d id i fuel paths m search path files.0.st next files.0.known) (
            rw others.1 (
              ap
                (λ x.
                  done (x ∷ entries m.world rest files.1, gemdos_enmfil)
                    (record m { host_mem = others.0 }))
                (shown_entry-filled h1 d shown (entry-IsEntry m.world path files.0.st)))),
      )
