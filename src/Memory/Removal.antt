-- ===== src/Memory/Removal.antt =====
-- memory.c: what remove_memory_area and reset_memory do to the list, and when they return.
use tosemu.Base.{
  ℕ, zero, suc, ◌<◌, ◌≡◌, ◌≢◌, refl, Bool, true, false, List, [], ◌∷◌, none, some, arith, length,
  Option-cases, inl, inr, ==-refl, ne→==,
}
use tosemu.Memory.Area.{MemoryArea, remove_loop, remove_memory_area, reset_memory}

remove_loop-stuck :
    (fuel base : ℕ) (prev : Bool) (area : MemoryArea) (next : List MemoryArea)
    → area.base ≢ base
    → remove_loop fuel base prev (area ∷ next) ≡ none
unfolding remove_loop
remove_loop-stuck zero base prev area next h = refl
remove_loop-stuck (suc fuel) base prev area next h =
    rw (ne→== area.base base h) (remove_loop-stuck fuel base true area next h)

-- remove_memory_area does not return, however long it runs, when the list is not empty and its first
-- area has another base, even if the area that is asked for stands further down in the list.
pub remove_memory_area-stuck :
    (fuel base : ℕ) (area : MemoryArea) (next : List MemoryArea)
    → area.base ≢ base
    → remove_memory_area fuel base (area ∷ next) ≡ none
unfolding remove_memory_area
remove_memory_area-stuck fuel base area next h = remove_loop-stuck fuel base false area next h

remove_memory_area-head :
    (fuel : ℕ) (area : MemoryArea) (next : List MemoryArea)
    → remove_memory_area (suc fuel) area.base (area ∷ next) ≡ some (0, next)
unfolding remove_memory_area remove_loop
remove_memory_area-head fuel area next = rw (==-refl area.base)

-- reset_memory returns, and leaves no area, whatever the list is: fuel for one round more than there
-- are areas is enough, since each round removes the first area.
pub reset_memory-empties :
    (fuel : ℕ) (l : List MemoryArea) → length l < fuel → reset_memory fuel l ≡ some []
unfolding reset_memory
reset_memory-empties zero l h = absurd (omega arith)
reset_memory-empties (suc fuel) [] h = refl
reset_memory-empties (suc fuel) (area ∷ next) h =
    rw (remove_memory_area-head fuel area next, reset_memory)
      (reset_memory-empties fuel next (omega arith))

-- Whenever reset_memory returns, no area is left.
pub reset_memory-left : (fuel : ℕ) (l r : List MemoryArea) → reset_memory fuel l ≡ some r → r ≡ []
unfolding reset_memory
reset_memory-left zero l r e = absurd (ground arith)
reset_memory-left (suc fuel) [] r e = ground arith
reset_memory-left (suc fuel) (area ∷ next) r e =
    elim (Option-cases (remove_memory_area (suc fuel) area.base (area ∷ next))) [
      | inl missing ↦ absurd (ground arith)
      | inr ((c, head), found) ↦ reset_memory-left fuel head r (ground arith)
    ]
