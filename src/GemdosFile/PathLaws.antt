-- ===== src/GemdosFile/PathLaws.antt =====
-- gemdosfile.c: what path_from_tos makes of a path, and which paths it lets pass.
use mathlib.Core.Path.{◌∙◌}
use tosemu.Base.{
  ℕ, zero, suc, ◌+◌, ◌-◌, ◌≤◌, ◌<◌, ◌≡◌, ◌≢◌, inl, inr, refl, sym, ap, Bool, true, false, List, [],
  ◌∷◌, ◌++◌, arith, ◌==◌, ltb, if◌then◌else◌, length, length-take-le, take, All, length-append,
  Bool-cases, ==-refl,
}
use tosemu.GemdosFile.Path.{
  path_max, bytes_eq, convert, convert_byte, host_path, within_base, is_empty, path_from_tos,
}

length-convert :
    (len : ℕ) (ps : Bool) (src : List ℕ)
    → len ≤ path_max
    → len + length (convert len ps src) ≤ path_max
unfolding convert
length-convert len ps [] h = omega arith
length-convert len ps (c ∷ src) h = elim (Bool-cases (ltb len path_max)) [
  | inl more ↦ let rest = length-convert (len + 1) (c == b'\\') src (ground arith) in ground arith
  | inr full ↦ ground arith
]

-- The host path never grows beyond PATH_MAX bytes, whatever the base path and the TOS path are, so that
-- it fits with its terminator into the callers' buffers of PATH_MAX + 1 bytes.
pub host_path_bound : (base_path tp : List ℕ) → length (host_path base_path tp) ≤ path_max
unfolding host_path
host_path_bound base_path tp =
    let prefix = take path_max base_path in
    omega (
      arith,
      length-append prefix (convert (length prefix) true tp),
      length-convert (length prefix) true tp (length-take-le path_max base_path),
    )

-- The path that a TOS path means: single slashes for runs of backslashes, none at the start.
unfoldable pub translate : Bool → List ℕ → List ℕ
translate ps [] = []
translate ps (c ∷ src) = convert_byte ps c ++ translate (c == b'\\') src

-- A path that is short enough is translated whole.
pub convert-translate :
    (len : ℕ) (ps : Bool) (src : List ℕ)
    → len + length src ≤ path_max
    → convert len ps src ≡ translate ps src
unfolding convert translate
convert-translate len ps [] h = refl
convert-translate len ps (c ∷ src) h = ground (arith, convert-translate (len + 1) (c == b'\\') src)

-- No backslash is left of a TOS path, of any length.
pub convert-no_backslash :
    (len : ℕ) (ps : Bool) (src : List ℕ) → All (λ c. c ≢ b'\\') (convert len ps src)
unfolding convert
convert-no_backslash len true [] = tt
convert-no_backslash len false [] = tt
convert-no_backslash len true (c ∷ src) =
    ground (arith, convert-no_backslash (len + 1) (c == b'\\') src)
convert-no_backslash len false (c ∷ src) =
    ground (arith, convert-no_backslash (len + 1) (c == b'\\') src)

bytes_eq→eq : (xs ys : List ℕ) → bytes_eq xs ys ≡ true → xs ≡ ys
unfolding bytes_eq
bytes_eq→eq [] [] h = refl
bytes_eq→eq [] (y ∷ ys) h = absurd (ground arith)
bytes_eq→eq (x ∷ xs) [] h = absurd (ground arith)
bytes_eq→eq (x ∷ xs) (y ∷ ys) h = ground (arith, bytes_eq→eq xs ys)

bytes_eq_refl : (xs : List ℕ) → bytes_eq xs xs ≡ true
unfolding bytes_eq
bytes_eq_refl [] = refl
bytes_eq_refl (x ∷ xs) = rw (==-refl x) (bytes_eq_refl xs)

take-front : (xs ys : List ℕ) → take (length xs) (xs ++ ys) ≡ xs
take-front [] ys = refl
take-front (x ∷ xs) ys = ap (◌∷◌ x) (take-front xs ys)

take-all : (n : ℕ) (xs : List ℕ) → length xs ≤ n → take n xs ≡ xs
take-all zero [] h = refl
take-all zero (x ∷ xs) h = absurd (omega arith)
take-all (suc n) [] h = refl
take-all (suc n) (x ∷ xs) h = ap (◌∷◌ x) (take-all n xs (omega arith))

length-front : (dir : List ℕ) (c : ℕ) → length (dir ++ c ∷ []) - 1 ≡ length dir
length-front dir c = omega (arith, length-append dir (c ∷ []))

front_nonempty : (dir : List ℕ) (c : ℕ) → is_empty (dir ++ c ∷ []) ≡ false
unfolding is_empty
front_nonempty [] c = refl
front_nonempty (x ∷ d) c = refl

append_one : (dir : List ℕ) (c : ℕ) (rest : List ℕ) → (dir ++ c ∷ []) ++ rest ≡ dir ++ c ∷ rest
append_one [] c rest = refl
append_one (x ∷ dir) c rest = ap (◌∷◌ x) (append_one dir c rest)

-- A base path that ends in a slash stands at the front of every host path under it.
host_path-front :
    (dir tp : List ℕ)
    → length dir < path_max
    → take (length dir) (host_path (dir ++ b'/' ∷ []) tp) ≡ dir
unfolding host_path
host_path-front dir tp short =
    ap (λ p. take (length dir) (p ++ convert (length p) true tp))
      (take-all path_max (dir ++ b'/' ∷ []) (omega (arith, length-append dir (b'/' ∷ []))))
    ∙ ap (take (length dir)) (append_one dir b'/' (convert (length (dir ++ b'/' ∷ [])) true tp))
    ∙ take-front dir (b'/' ∷ convert (length (dir ++ b'/' ∷ [])) true tp)

within_base-front :
    (dir tp canonical : List ℕ)
    → length dir < path_max
    → within_base (dir ++ b'/' ∷ []) (host_path (dir ++ b'/' ∷ []) tp) canonical
      ≡ bytes_eq dir (take (length dir) canonical)
unfolding within_base
within_base-front dir tp canonical short =
    ap
      (λ e.
        if e
        then true
        else (let n = length (dir ++ b'/' ∷ []) - 1 in
            bytes_eq (take n (host_path (dir ++ b'/' ∷ []) tp)) (take n canonical)))
      (front_nonempty dir b'/')
    ∙ ap (λ n. bytes_eq (take n (host_path (dir ++ b'/' ∷ []) tp)) (take n canonical))
        (length-front dir b'/')
    ∙ ap (λ xs. bytes_eq xs (take (length dir) canonical)) (host_path-front dir tp short)

accepted : (b : Bool) (n : ℕ) → (if b then n else 0) ≢ 0 → b ≡ true
accepted true n h = refl
accepted false n h = absurd (h refl)

-- Under a base path of a directory `dir`, shorter than PATH_MAX, and a slash, a path is let
-- through only if its canonical form starts with the bytes of `dir`.
pub path_from_tos-confined :
    (dir tp canonical : List ℕ)
    → length dir < path_max
    → path_from_tos (dir ++ b'/' ∷ []) tp canonical ≢ 0
    → take (length dir) canonical ≡ dir
unfolding path_from_tos
path_from_tos-confined dir tp canonical short h = sym (
    bytes_eq→eq dir (take (length dir) canonical) (
      sym (within_base-front dir tp canonical short)
      ∙ accepted (within_base (dir ++ b'/' ∷ []) (host_path (dir ++ b'/' ∷ []) tp) canonical)
          (length (host_path (dir ++ b'/' ∷ []) tp)) h))

-- Under a base path of a directory `dir`, shorter than PATH_MAX, and a slash, the byte behind
-- `dir` in the canonical form is not looked at: a canonical form that starts with `dir` and goes
-- on in any way, as that of a directory beside `dir` does, passes, and the length of the host path
-- is returned.
pub path_from_tos-sibling :
    (dir tp more : List ℕ)
    → length dir < path_max
    → path_from_tos (dir ++ b'/' ∷ []) tp (dir ++ more) ≡ length (host_path (dir ++ b'/' ∷ []) tp)
unfolding path_from_tos
path_from_tos-sibling dir tp more short =
    ap (λ b. if b then length (host_path (dir ++ b'/' ∷ []) tp) else 0)
      (within_base-front dir tp (dir ++ more) short
        ∙ ap (bytes_eq dir) (take-front dir more)
        ∙ bytes_eq_refl dir)
