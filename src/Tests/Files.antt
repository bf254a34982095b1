-- ===== src/Tests/Files.antt =====
-- Paths, handles, byte orders and packed times at concrete inputs.
use tosemu.Base.{
  ℕ, ◌+◌, ◌*◌, ◌^◌, ◌≤◌, ◌≡◌, refl, List, [], ◌∷◌, ◌++◌, none, some, arith, length, take, true,
  replicate,
}
use tosemu.Platform.{Tm}
use tosemu.GemdosFile.State.{FHandle, FileState}
use tosemu.GemdosFile.Globs.{gemdos_prepare_dta, gemdos_find_dta, gemdos_clear_dta}
use tosemu.GemdosFile.GlobLaws.{begun, search-begun}
use tosemu.GemdosFile.Path.{
  path_max, host_path, convert, path_from_tos, within_base, bytes_eq, is_empty,
}
use tosemu.GemdosFile.PathLaws.{
  translate, host_path_bound, convert-translate, path_from_tos-confined, path_from_tos-sibling,
}
use tosemu.Errors.{gemdos_eihndl}
use tosemu.GemdosFile.Handles.{handles_count, get_handle, invalid_handle, release_handle}
use tosemu.GemdosFile.OpenFiles.{open_files}
use tosemu.GemdosFile.FileCalls.{opens, closes, ServesAll, handle_calls, handle_calls-refines}
use tosemu.GemdosFile.HandleLaws.{get_handle-lowest, get_handle-full}
use tosemu.DosTime.{pack_time, pack_date, pack_datime}
use tosemu.DosTime.Fields.{IsDosTime, pack_datime-halves}

-- "/u" and "\\A.B"
abbrev dir : List ℕ
dir = b'/' ∷ b'u' ∷ []

abbrev tos_path : List ℕ
tos_path = b'\\' ∷ b'A' ∷ b'\\' ∷ b'\\' ∷ b'B' ∷ []

host_path_bound_example : length (host_path dir tos_path) ≤ path_max
host_path_bound_example = host_path_bound dir tos_path

convert-translate_example : convert 2 true tos_path ≡ translate true tos_path
convert-translate_example = convert-translate 2 true tos_path (omega arith)

path_from_tos-confined_example : take 2 (b'/' ∷ b'u' ∷ b'/' ∷ b'A' ∷ []) ≡ dir
unfolding path_from_tos within_base host_path convert bytes_eq is_empty
path_from_tos-confined_example =
    path_from_tos-confined dir (b'A' ∷ []) (b'/' ∷ b'u' ∷ b'/' ∷ b'A' ∷ []) (omega arith)
      (λ e. omega arith)

path_from_tos-sibling_example :
    path_from_tos (dir ++ b'/' ∷ []) tos_path (dir ++ b'2' ∷ [])
    ≡ length (host_path (dir ++ b'/' ∷ []) tos_path)
path_from_tos-sibling_example = path_from_tos-sibling dir tos_path (b'2' ∷ []) (omega arith)

abbrev used : FHandle
used = record { f = 5; flags = 1 }

abbrev free : FHandle
free = record { f = 6; flags = 0 }

get_handle-lowest_example :
    get_handle 7 0 (used ∷ free ∷ used ∷ [])
    ≡ some (1, used ∷ record { f = 7; flags = 1 } ∷ used ∷ [])
get_handle-lowest_example = get_handle-lowest 7 0 (used ∷ []) free (used ∷ []) (refl, tt) refl

get_handle-full_example : get_handle 7 0 (used ∷ used ∷ []) ≡ none
get_handle-full_example = get_handle-full 7 0 (used ∷ used ∷ []) (refl, (refl, tt))

-- 24 December 2014, 12:30:58
abbrev evening : Tm
evening = record {
  tm_sec = 58;
  tm_min = 30;
  tm_hour = 12;
  tm_mday = 24;
  tm_mon = 11;
  tm_year = 114;
}

evening-IsDosTime : IsDosTime evening
evening-IsDosTime = record {
  sec = omega arith;
  min = omega arith;
  hour = omega arith;
  mday = (omega arith, omega arith);
  mon = omega arith;
  year = (omega arith, omega arith);
}

pack_datime-halves_example : pack_datime evening ≡ pack_date evening * 2 ^ 16 + pack_time evening
pack_datime-halves_example = pack_datime-halves evening evening-IsDosTime

abbrev searching : FileState
searching = record {
  handles = [];
  dta_addr = 0x830;
  globhead = record { gl_pathv = dir ∷ []; id = 43 } ∷ [];
  sid = 43;
  base_path = [];
}

search-begun_example :
    (gemdos_find_dta 44 (begun (tos_path ∷ []) searching) ≡ some (tos_path ∷ []))
    × (gemdos_find_dta 43 (begun (tos_path ∷ []) searching) ≡ gemdos_find_dta 43 searching)
    × ((gemdos_clear_dta 44 (begun (tos_path ∷ []) searching)).globhead ≡ searching.globhead)
unfolding gemdos_prepare_dta
search-begun_example = search-begun searching (tos_path ∷ []) 43 (λ e. omega arith)

abbrev nine_used : List FHandle
nine_used = replicate 9 used ++ free ∷ []

-- A stream is opened, another does not fit, the first handle is closed twice, and there is room again.
handle_calls-refines_example :
    ServesAll handles_count
      (open_files nine_used)
      (opens 7 ∷ opens 8 ∷ closes 0 ∷ closes 0 ∷ opens 9 ∷ [])
      (9 ∷ 0xffff_ffff ∷ 0 ∷ gemdos_eihndl ∷ 0 ∷ [])
      (open_files
        (handle_calls (opens 7 ∷ opens 8 ∷ closes 0 ∷ closes 0 ∷ opens 9 ∷ []) nine_used).1)
unfolding handle_calls get_handle invalid_handle release_handle
handle_calls-refines_example =
    handle_calls-refines (opens 7 ∷ opens 8 ∷ closes 0 ∷ closes 0 ∷ opens 9 ∷ []) nine_used refl
