-- ===== src/GemdosFile/Globs.antt =====
-- gemdosfile.c: the list of directory searches, by the number that the DTA holds.
use tosemu.Base.{ℕ, List, [], ◌∷◌, Option, none, some, ◌==◌, if◌then◌else◌, add32}
use tosemu.GemdosFile.State.{FileState, GlobItem}

-- A new number, and an item for it at the head of the list, with no paths yet.
unfoldable pub gemdos_prepare_dta : FileState → ℕ × FileState
gemdos_prepare_dta s =
    let sid = add32 s.sid 1 in
    (sid, record s { sid = sid; globhead = record { gl_pathv = []; id = sid } ∷ s.globhead })

unfoldable pub find_glob : ℕ → List GlobItem → Option (List (List ℕ))
find_glob id [] = none
find_glob id (item ∷ rest) = if item.id == id then some item.gl_pathv else find_glob id rest

unfoldable pub gemdos_find_dta : ℕ → FileState → Option (List (List ℕ))
unfolding find_glob
gemdos_find_dta id s = find_glob id s.globhead

-- What `glob` stores through the pointer that gemdos_prepare_dta returned: the newest item's paths.
unfoldable pub set_paths : ℕ → List (List ℕ) → List GlobItem → List GlobItem
set_paths id paths [] = []
set_paths id paths (item ∷ rest) =
    if item.id == id
    then record item { gl_pathv = paths } ∷ rest
    else item ∷ set_paths id paths rest

unfoldable pub clear_glob : ℕ → List GlobItem → List GlobItem
clear_glob id [] = []
clear_glob id (item ∷ rest) = if item.id == id then rest else item ∷ clear_glob id rest

unfoldable pub gemdos_clear_dta : ℕ → FileState → FileState
unfolding clear_glob
gemdos_clear_dta id s = record s { globhead = clear_glob id s.globhead }
