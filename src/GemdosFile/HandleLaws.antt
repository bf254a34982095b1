-- ===== src/GemdosFile/HandleLaws.antt =====
-- gemdosfile.c: which handle get_handle gives, and which handles invalid_handle refuses.
use tosemu.Base.{
  ℕ, ◌+◌, ◌<◌, ◌≡◌, refl, ap, true, false, List, [], ◌∷◌, ◌++◌, none, some, arith, get_elem?, set,
  length, All,
}
use tosemu.GemdosFile.State.{FHandle}
use tosemu.GemdosFile.Handles.{
  handles_count, handle_allocated, allocated, get_handle, invalid_handle, release_handle,
}

-- The entry that get_handle writes.
abbrev taken : ℕ → FHandle
taken f = record { f = f; flags = handle_allocated }

-- If the entries before an entry are all allocated and it is free, get_handle takes it: it gives
-- the index of that entry, and only this entry changes.
pub get_handle-lowest :
    (f i : ℕ) (used : List FHandle) (h : FHandle) (rest : List FHandle)
    → All (λ e. allocated e ≡ true) used
    → allocated h ≡ false
    → get_handle f i (used ++ h ∷ rest) ≡ some (i + length used, used ++ taken f ∷ rest)
unfolding get_handle
get_handle-lowest f i [] h rest a free = ground arith
get_handle-lowest f i (e ∷ used) h rest a free =
    ground (arith, get_handle-lowest f (i + 1) used h rest)

-- get_handle fails when every entry is allocated.
pub get_handle-full :
    (f i : ℕ) (hs : List FHandle) → All (λ e. allocated e ≡ true) hs → get_handle f i hs ≡ none
unfolding get_handle
get_handle-full f i [] a = refl
get_handle-full f i (e ∷ hs) a = ground (arith, get_handle-full f (i + 1) hs)

get_elem?-middle :
    {A : Type 0}
    → (xs : List A) (x : A) (ys : List A) → get_elem? (xs ++ x ∷ ys) (length xs) ≡ some x
get_elem?-middle [] x ys = refl
get_elem?-middle (y ∷ xs) x ys = get_elem?-middle xs x ys

set-middle :
    {A : Type 0}
    → (xs : List A) (x z : A) (ys : List A) → set (xs ++ x ∷ ys) (length xs) z ≡ xs ++ z ∷ ys
set-middle [] x z ys = refl
set-middle (y ∷ xs) x z ys = ap (◌∷◌ y) (set-middle xs x z ys)

-- An entry of the table that get_handle has written is a valid handle until it is released, and
-- invalid then.
pub get_handle-release_handle :
    (f i : ℕ) (used : List FHandle) (h : FHandle) (rest : List FHandle)
    → length used < handles_count
    → invalid_handle (used ++ taken f ∷ rest) (length used) ≡ false
      × invalid_handle (release_handle (used ++ taken f ∷ rest) (length used)) (length used) ≡ true
unfolding invalid_handle release_handle
get_handle-release_handle f i used h rest few = ground (
  arith,
  get_elem?-middle used (taken f) rest,
  set-middle used (taken f) (record (taken f) { flags = 0 }) rest,
  get_elem?-middle used (record (taken f) { flags = 0 }) rest,
)
