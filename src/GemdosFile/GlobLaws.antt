-- ===== src/GemdosFile/GlobLaws.antt =====
-- gemdosfile.c: a directory search in the list of searches, from its start to its end.
use tosemu.Base.{ℕ, ◌≡◌, ◌≢◌, refl, List, some, ==-refl, ne→==}
use tosemu.GemdosFile.State.{FileState}
use tosemu.GemdosFile.Globs.{
  gemdos_prepare_dta, gemdos_find_dta, find_glob, set_paths, clear_glob, gemdos_clear_dta,
}

-- The state in which a search with these paths has begun.
abbrev pub begun : List (List ℕ) → FileState → FileState
begun paths s =
    let q = gemdos_prepare_dta s in record q.1 { globhead = set_paths q.0 paths q.1.globhead }

-- A search that has begun is found by its number with its own paths, searches with other numbers are
-- found as before, and clearing it by its number leaves the list as it was before the search.
pub search-begun :
    (s : FileState) (paths : List (List ℕ)) (other : ℕ)
    → (gemdos_prepare_dta s).0 ≢ other
    → (gemdos_find_dta (gemdos_prepare_dta s).0 (begun paths s) ≡ some paths)
      × (gemdos_find_dta other (begun paths s) ≡ gemdos_find_dta other s)
      × ((gemdos_clear_dta (gemdos_prepare_dta s).0 (begun paths s)).globhead ≡ s.globhead)
unfolding gemdos_prepare_dta gemdos_find_dta find_glob set_paths clear_glob gemdos_clear_dta
search-begun s paths other new =
    let id = (gemdos_prepare_dta s).0 in
    (
      rw (==-refl id) (rw (==-refl id) refl),
      rw (==-refl id) (rw (ne→== id other new) refl),
      rw (==-refl id) (rw (==-refl id) refl),
    )
