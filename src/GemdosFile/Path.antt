-- ===== src/GemdosFile/Path.antt =====
-- gemdosfile.c: the conversion of TOS paths. A C string is the list of its bytes without the final 0.
use tosemu.Base.{
  ℕ, ◌+◌, ◌-◌, Bool, true, false, List, [], ◌∷◌, ◌++◌, ◌==◌, ◌&&◌, ltb, if◌then◌else◌, length, take,
}

-- linux/limits.h
abbrev pub path_max : ℕ
path_max = 4096

unfoldable pub bytes_eq : List ℕ → List ℕ → Bool
bytes_eq [] [] = true
bytes_eq [] (y ∷ ys) = false
bytes_eq (x ∷ xs) [] = false
bytes_eq (x ∷ xs) (y ∷ ys) = (x == y) && bytes_eq xs ys

-- What one source byte becomes: a backslash is a slash, or nothing behind another backslash.
abbrev pub convert_byte : Bool → ℕ → List ℕ
convert_byte prev_slash c = if c == b'\\' then (if prev_slash then [] else b'/' ∷ []) else c ∷ []

-- The loop of path_from_tos: `len` counts the prefix and the source bytes that are read.
unfoldable pub convert : (len : ℕ) → (prev_slash : Bool) → List ℕ → List ℕ
convert len prev_slash [] = []
convert len prev_slash (c ∷ src) =
    let rest = convert (len + 1) (c == b'\\') src in
    if ltb len path_max then convert_byte prev_slash c ++ rest else []

-- The host path `up` for a TOS path.
unfoldable pub host_path : (base_path tp : List ℕ) → List ℕ
unfolding convert
host_path base_path tp =
    let prefix = take path_max base_path in prefix ++ convert (length prefix) true tp

unfoldable pub is_empty : List ℕ → Bool
is_empty [] = true
is_empty (_ ∷ _) = false

-- The test behind `realpath`: with a base path, the host path and the canonical one agree in as many
-- bytes as the base path has without its final slash.
unfoldable pub within_base : (base_path up canonical : List ℕ) → Bool
unfolding bytes_eq is_empty
within_base base_path up canonical =
    if is_empty base_path
    then true
    else (let n = length base_path - 1 in bytes_eq (take n up) (take n canonical))

-- The length that path_from_tos returns, 0 for failure.
unfoldable pub path_from_tos : (base_path tp canonical : List ℕ) → ℕ
unfolding host_path within_base
path_from_tos base_path tp canonical =
    let up = host_path base_path tp in if within_base base_path up canonical then length up else 0
