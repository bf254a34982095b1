-- ===== src/GemdosFile/OpenFiles.antt =====
-- gemdosfile.c: the table of handles as a partial map from numbers to streams, which is what the functions
-- that open and close files promise.
use tosemu.Base.{
  ℕ, zero, suc, ◌+◌, ◌≤◌, ◌<◌, ◌≡◌, ◌≢◌, ◌⊎◌, inl, inr, refl, ap, true, false, List, [], ◌∷◌,
  Option, none, some, ◌==◌, length-set, leb, if◌then◌else◌, arith, get_elem?, set, length,
  Option-cases, Bool-cases,
}
use mathlib.Core.Option
use tosemu.GemdosFile.State.{FHandle}
use tosemu.GemdosFile.Handles.{
  handles_count, handle_allocated, allocated, get_handle, invalid_handle, release_handle,
}

-- The stream behind each number.
unfoldable pub open_files : List FHandle → ℕ → Option ℕ
open_files [] j = none
open_files (h ∷ hs) zero = if allocated h then some h.f else none
open_files (h ∷ hs) (suc j) = open_files hs j

-- The number that was taken, from index `k` on, and what became of the map.
abbrev pub Taken : (f k : ℕ) → List FHandle → Option (ℕ × List FHandle) → Type 0
Taken f k hs none = (j : ℕ) → j < length hs → open_files hs j ≢ none
Taken f k hs (some (q, t)) =
    (i : ℕ) × (q ≡ k + i)
    × (i < length hs)
    × (open_files hs i ≡ none)
    × ((j : ℕ) → j < i → open_files hs j ≢ none)
    × ((j : ℕ) → open_files t j ≡ (if i == j then some f else open_files hs j))
    × (length t ≡ length hs)

-- An entry that is allocated is passed over.
passed :
    (f k : ℕ) (h : FHandle) (rest : List FHandle) (r : Option (ℕ × List FHandle))
    → allocated h ≡ true
    → Taken f (k + 1) rest r
    → Taken f k (h ∷ rest) (Option.map (λ (j, hs). (j, h ∷ hs)) r)
unfolding open_files
passed f k h rest none busy all_taken = λ j l. first_taken j l
  where
    first_taken : (j : ℕ) → j < suc (length rest) → open_files (h ∷ rest) j ≢ none
    first_taken zero l = ground arith
    first_taken (suc j) l = all_taken j (omega arith)
passed f k h rest (some (q, t)) busy (i, e, l, free, lower, others, same) = (
  suc i,
  omega arith,
  omega arith,
  free,
  (λ j l. lower_taken j l),
  (λ j. others_stay j),
  ap suc same,
)
  where
    lower_taken : (j : ℕ) → j < suc i → open_files (h ∷ rest) j ≢ none
    lower_taken zero l = ground arith
    lower_taken (suc j) l = lower j (omega arith)

    others_stay :
        (j : ℕ) → open_files (h ∷ t) j ≡ (if suc i == j then some f else open_files (h ∷ rest) j)
    others_stay zero = ground arith
    others_stay (suc j) = ground (arith, others j)

found_free :
    (f k : ℕ) (h : FHandle) (rest : List FHandle)
    → allocated h ≡ false
    → Taken f k (h ∷ rest) (some (k, record { f = f; flags = handle_allocated } ∷ rest))
unfolding open_files
found_free f k h rest free =
    (0, omega arith, omega arith, ground arith, (λ j l. absurd (omega arith)), (λ j. entry j), refl)
  where
    entry :
        (j : ℕ)
        → open_files (record { f = f; flags = handle_allocated } ∷ rest) j
          ≡ (if 0 == j then some f else open_files (h ∷ rest) j)
    entry zero = refl
    entry (suc j) = ground arith

pub get_handle-Taken : (f k : ℕ) (hs : List FHandle) → Taken f k hs (get_handle f k hs)
unfolding get_handle
get_handle-Taken f k [] = λ j l. absurd (omega arith)
get_handle-Taken f k (h ∷ rest) = elim (Bool-cases (allocated h)) [
  | inl busy ↦
      rw busy (passed f k h rest (get_handle f (k + 1) rest) busy (get_handle-Taken f (k + 1) rest))
  | inr free ↦ rw free (found_free f k h rest free)
]

-- The entry at an index decides.
shown : Option FHandle → Option ℕ
shown none = none
shown (some h) = if allocated h then some h.f else none

open_files-get : (hs : List FHandle) (i : ℕ) → open_files hs i ≡ shown (get_elem? hs i)
unfolding open_files shown
open_files-get [] i = refl
open_files-get (h ∷ hs) zero = refl
open_files-get (h ∷ hs) (suc i) = open_files-get hs i

open_files-set :
    (hs : List FHandle) (i j : ℕ) (h : FHandle)
    → i < length hs
    → open_files (set hs i h) j ≡ (if i == j then shown (some h) else open_files hs j)
unfolding open_files shown
open_files-set [] i j h l = absurd (omega arith)
open_files-set (x ∷ hs) zero zero h l = refl
open_files-set (x ∷ hs) zero (suc j) h l = ground arith
open_files-set (x ∷ hs) (suc i) zero h l = ground arith
open_files-set (x ∷ hs) (suc i) (suc j) h l = ground (arith, open_files-set hs i j h (omega arith))

within : (hs : List FHandle) (i : ℕ) (h : FHandle) → get_elem? hs i ≡ some h → i < length hs
within [] i h e = absurd (ground arith)
within (x ∷ hs) zero h e = omega arith
within (x ∷ hs) (suc i) h e = omega (arith, within hs i h e)

pub open_files-release_handle :
    (hs : List FHandle) (i j : ℕ)
    → open_files (release_handle hs i) j ≡ (if i == j then none else open_files hs j)
unfolding release_handle shown
open_files-release_handle hs i j = elim (Option-cases (get_elem? hs i)) [
  | inl missing ↦ ground (arith, open_files-get hs i)
  | inr (h, found) ↦
      let closed : FHandle = record h { flags = 0 } in
      rw (found, release_handle) (open_files-set hs i j closed (within hs i h found))
]

-- A handle is invalid if its number is too large or has no stream.
pub invalid_handle-free :
    (hs : List FHandle) (i : ℕ)
    → invalid_handle hs i ≡ true
    → (handles_count ≤ i) ⊎ (open_files hs i ≡ none)
unfolding invalid_handle shown
invalid_handle-free hs i e = elim (Option-cases (get_elem? hs i)) [
  | inl missing ↦ inr (ground (arith, open_files-get hs i))
  | inr (h, found) ↦ elim (Bool-cases (leb handles_count i)) [
    | inl large ↦ inl (ground arith)
    | inr small ↦ inr (ground (arith, open_files-get hs i))
  ]
]

pub valid_handle-open :
    (hs : List FHandle) (i : ℕ)
    → invalid_handle hs i ≡ false
    → (i < handles_count) × (open_files hs i ≢ none)
unfolding invalid_handle shown
valid_handle-open hs i e = elim (Option-cases (get_elem? hs i)) [
  | inl missing ↦ ground arith
  | inr (h, found) ↦ (ground arith, ground (arith, open_files-get hs i))
]

-- Closing a handle keeps the size of the table.
pub length-release_handle : (hs : List FHandle) (h : ℕ) → length (release_handle hs h) ≡ length hs
unfolding release_handle
length-release_handle hs h = elim (Option-cases (get_elem? hs h)) [
  | inl missing ↦ ground arith
  | inr (e, found) ↦ ground (arith, length-set hs h (record e { flags = 0 }))
]
