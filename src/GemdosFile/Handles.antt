-- ===== src/GemdosFile/Handles.antt =====
-- gemdosfile.c: the table of file handles.
use tosemu.Base.{
  ℕ, ◌+◌, Bool, true, List, [], ◌∷◌, ◌++◌, Option, none, some, ◌==◌, ◌||◌, leb, not, if◌then◌else◌,
  bit_and, get_elem?, set, replicate,
}
use tosemu.GemdosFile.State.{FHandle}
use mathlib.Core.Option

abbrev pub handles_count : ℕ
handles_count = 10

abbrev pub handle_allocated : ℕ
handle_allocated = 0x001

abbrev pub allocated : FHandle → Bool
allocated h = not (bit_and h.flags handle_allocated == 0)

-- The loop of get_handle from index `i`: the index of the first handle that is not allocated, and the
-- table with that handle taken; `none` is the result -1.
unfoldable pub get_handle : ℕ → ℕ → List FHandle → Option (ℕ × List FHandle)
get_handle f i [] = none
get_handle f i (h ∷ rest) =
    if allocated h
    then Option.map (λ (j, hs). (j, h ∷ hs)) (get_handle f (i + 1) rest)
    else some (i, record { f = f; flags = handle_allocated } ∷ rest)

unfoldable pub invalid_handle : List FHandle → ℕ → Bool
invalid_handle handles h =
    leb handles_count h || elim (get_elem? handles h) [ none ↦ true | some e ↦ not (allocated e) ]

-- `handles[h].flags = 0`.
unfoldable pub release_handle : List FHandle → ℕ → List FHandle
release_handle handles h = elim (get_elem? handles h) [
  | none ↦ handles
  | some e ↦ set handles h (record e { flags = 0 })
]

abbrev reserved : ℕ → FHandle
reserved f = record { f = f; flags = handle_allocated }

-- gemdos_file_init: handles 0 to 5 are reserved, the first two with the host's `stdin` and `stdout`.
unfoldable pub init_handles : (stdin stdout : ℕ) → List FHandle
init_handles stdin stdout =
    reserved stdin ∷ reserved stdout ∷ replicate 4 (reserved 0)
    ++ replicate 4 (record { f = 0; flags = 0 })
