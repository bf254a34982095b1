-- ===== src/GemdosFile/Directory.antt =====
-- gemdosfile.c: a whole directory search, from Fsfirst on.
use tosemu.Base.{
  ℕ, suc, ◌+◌, ◌<◌, ◌≡◌, inl, refl, ◌∙◌, ap, true, false, List, [], ◌∷◌, some, ◌==◌, arith, All,
  add32, length, get_elem?, u32_mod, ==-refl,
}
use tosemu.Platform.{Platform, Register}
use tosemu.Errors.{gemdos_e_ok, gemdos_enmfil}
use tosemu.Machine.{State, M, done, pure, ◌>>=◌, ◌>>◌}
use tosemu.Memory.Cells.{Mapped}
use tosemu.Memory.Words.{IsBytes, fetch}
use tosemu.Cpu.Stack.{reg, peek_u16-fetch, peek_u32-fetch}
use tosemu.GemdosFile.Globs.{gemdos_prepare_dta, find_glob, set_paths}
use tosemu.GemdosFile.GlobLaws.{begun}
use tosemu.GemdosFile.Access.{host_path_at}
use tosemu.GemdosFile.Search.{store_le, fill_dta, first_entry, fsfirst}
use tosemu.GemdosFile.Dta.{
  Entry, shown_entry, filled, filled_before, shown_entry-filled, store_le_outside, load_le-store_le,
  load_le-within,
}
use tosemu.GemdosFile.Listing.{
  IsBehind, IsDta, IsFile, IsSearch, entry, entries, entry-IsEntry, fill_dta-filled, host_dta-found,
  visit, visit-entries,
}

module _ ⦃p : Platform⦄ where
  -- A program that lists a directory: Fsfirst, then Fsnext until there are no more files.
  unfoldable pub list_directory : (d rounds : ℕ) → M (List Entry × ℕ)
  list_directory d rounds = do
    answer ← fsfirst
    elim (answer == gemdos_e_ok) [
      | true ↦ (do
        e ← (λ _ m'. done (shown_entry m'.host_mem d) m')
        rest ← visit d rounds
        pure (e ∷ rest.0, rest.1))
      | false ↦ pure ([], answer)
    ]

  abbrev numbered : ℕ → ℕ → (ℕ → ℕ) → ℕ → ℕ
  numbered id d h = store_le (store_le h d 4 id) (d + 4) 4 0

  -- The first file is shown behind the number of the search.
  abbrev show_first : ℕ → List ℕ → M ℕ
  show_first d path = do fill_dta d path; pure gemdos_e_ok

  first_entry-show_first :
      (id d fuel : ℕ) (m : State) (path : List ℕ) (rest : List (List ℕ))
      → first_entry id d (path ∷ rest) fuel m
        ≡ show_first d path fuel (record m { host_mem = numbered id d m.host_mem })
  unfolding first_entry
  first_entry-show_first id d fuel m path rest = refl

  first_entry-filled :
      (id d fuel : ℕ) (m : State) (path : List ℕ) (rest : List (List ℕ))
      (file : IsFile m.world path)
      → first_entry id d (path ∷ rest) fuel m
        ≡ done gemdos_e_ok (record m {
          host_mem = filled (numbered id d m.host_mem) d (entry m.world path file.st);
        })
  first_entry-filled id d fuel m path rest file =
      let m1 : State = record m { host_mem = numbered id d m.host_mem } in
      first_entry-show_first id d fuel m path rest
      ∙ rw (fill_dta-filled d fuel m1 path file.st file.known) refl

  -- Fsfirst with a path that becomes the host path `ubuf`, where `glob` finds `first` and the others.
  module _ (cf ca d fuel : ℕ) (m : State) (ubuf first : List ℕ) (rest : List (List ℕ))
      (bytes : IsBytes m.host_mem) (filename_there : Mapped m (add32 (reg m Register.a7) 2) 4 cf)
      (attr_there : Mapped m (add32 (reg m Register.a7) 6) 2 ca)
      (admitted : host_path_at
          (fetch m.host_mem cf 4 0)
          (suc fuel)
          (record m { files = (gemdos_prepare_dta m.files).1 })
        ≡ done (some ubuf) (record m { files = (gemdos_prepare_dta m.files).1 }))
      (globbed : p.glob ubuf m.world ≡ some (first ∷ rest))
      (dta_there : IsDta m.areas m.files.dta_addr d)
      (files : All (IsFile m.world) (first ∷ rest)) where
    abbrev id : ℕ
    id = (gemdos_prepare_dta m.files).0

    abbrev first_shown : Entry
    first_shown = entry m.world first files.0.st

    abbrev searching : State
    searching = record m {
      files = begun (first ∷ rest) m.files;
      host_mem = filled (numbered id d m.host_mem) d first_shown;
    }

    fsfirst-searching : fsfirst (suc fuel) m ≡ done gemdos_e_ok searching
    unfolding fsfirst gemdos_prepare_dta
    fsfirst-searching =
        let m1 : State = record m { files = (gemdos_prepare_dta m.files).1 } in
        let m2 : State = record m { files = begun (first ∷ rest) m.files } in
        rw (peek_u32-fetch 2 cf fuel m bytes filename_there) (
          rw (peek_u16-fetch 6 ca fuel m bytes attr_there) (
            rw admitted (
              rw globbed (
                rw (host_dta-found d (suc fuel) m2 dta_there)
                  (first_entry-filled id d (suc fuel) m2 first rest files.0)))))

    searching-IsSearch : IsSearch d id 0 (first ∷ rest) searching
    unfolding gemdos_prepare_dta find_glob set_paths
    searching-IsSearch = record {
      there = dta_there;
      id_stored =
          load_le-within searching.host_mem (store_le m.host_mem d 4 id) d 4 (λ q l r.
            filled_before (numbered id d m.host_mem) d first_shown q (omega arith)
            ∙ store_le_outside (store_le m.host_mem d 4 id) (d + 4) 4 0 q (inl (omega arith)))
          ∙ load_le-store_le m.host_mem d 4 id (omega arith);
      index_stored =
          load_le-within searching.host_mem (numbered id d m.host_mem) (d + 4) 4
            (λ q l r. filled_before (numbered id d m.host_mem) d first_shown q (omega arith))
          ∙ load_le-store_le (store_le m.host_mem d 4 id) (d + 4) 4 0 (omega arith);
      listed = rw (==-refl id) (rw (==-refl id) refl);
    }

    -- When Fsfirst is given a path that passes the test of path_from_tos, and `glob` finds files for it that the
    -- host knows, a program that then calls Fsnext until it is told that there are no more files gets to see
    -- exactly these files in the DTA, each once and in their order, with their attributes, times, dates, sizes
    -- and the first 13 bytes of their names, and the last answer is ENMFIL.
    pub list_directory-entries :
        (rounds : ℕ)
        → length (first ∷ rest) < u32_mod
        → length rest < rounds
        → (t : State) × (list_directory d rounds (suc fuel) m
            ≡ done (entries m.world (first ∷ rest) files, gemdos_enmfil) t)
          × (t ≡ record m { files = begun (first ∷ rest) m.files; host_mem = t.host_mem })
    unfolding list_directory
    list_directory-entries rounds small few =
        let behind : IsBehind (first ∷ rest) 0 rest =
          λ j. let e : 0 + 1 + j ≡ suc j = omega arith in ap (get_elem? (first ∷ rest)) e in
        let others =
          visit-entries rest rounds d id 0 (suc fuel) (first ∷ rest) searching files.1
            searching-IsSearch behind (omega arith) few in
        let shown =
          shown_entry-filled (numbered id d m.host_mem) d first_shown
            (entry-IsEntry m.world first files.0.st) in
        (
          record searching { host_mem = others.0 },
          rw fsfirst-searching (
              rw others.1 (
                ap
                  (λ x.
                    done (x ∷ entries m.world rest files.1, gemdos_enmfil)
                      (record searching { host_mem = others.0 }))
                  shown)),
          refl,
        )
