-- ===== src/GemdosMem/Blocks.antt =====
-- gemdosmem.c: what Mfree and Mshrink answer, and a block that is allocated and freed again.
use mathlib.Core.Path.{subst, sym}
use tosemu.Base.{
  ℕ, ◌+◌, ◌≤◌, ◌<◌, ◌≡◌, ◌≢◌, inl, inr, List, [], ◌∷◌, ◌++◌, none, some, arith, ltb, All,
  Option-cases, Bool-cases, ==-refl, ne→==,
}
use tosemu.Errors.{gemdos_eimba, gemdos_egsbf}
use tosemu.GemdosMem.{MemArea, MemState, find_mem_area, malloc, mfree, mshrink}
use tosemu.GemdosMem.Invariant.{Fits, IsManaged, find-split, malloc-Inserted, malloc-top}

-- No area starts at the address.
abbrev pub NoArea : ℕ → List MemArea → Type 0
NoArea block = All (λ a. a.base ≢ block)

pub find-none : (block : ℕ) (l : List MemArea) → find_mem_area block l ≡ none → NoArea block l
unfolding find_mem_area
find-none block [] e = tt
find-none block (a ∷ l) e = elim (Option-cases (find_mem_area block l)) [
  | inl missing ↦ (ground arith, find-none block l missing)
  | inr (q, found) ↦ absurd (ground arith)
]

-- The outcomes of Mfree: no area has this base, and nothing changes; or the area leaves the list.
pub data Freed (block : ℕ) (s t : MemState) (r : ℕ) : Type 0 where
  unknown : NoArea block s.mem_list → r ≡ gemdos_eimba → t ≡ s → Freed block s t r
  freed :
      (p : List MemArea) (a : MemArea) (q : List MemArea)
      → s.mem_list ≡ p ++ a ∷ q
      → a.base ≡ block
      → r ≡ 0
      → t ≡ record s { mem_list = p ++ q }
      → Freed block s t r

-- Mfree either answers EIMBA because no area has the given base, and changes nothing, or answers 0
-- and takes exactly one area, which has that base, out of the list.
pub mfree-Freed : (block : ℕ) (s : MemState) → Freed block s (mfree block s).1 (mfree block s).0
unfolding mfree
mfree-Freed block s = elim (Option-cases (find_mem_area block s.mem_list)) [
  | inl missing ↦ unknown (find-none block s.mem_list missing) (ground arith) (ground arith)
  | inr ((p, a, q), found) ↦
      let split = find-split block s.mem_list (p, a, q) found in
      freed p a q split.0 split.1 (ground arith) (ground arith)
]

-- The outcomes of Mshrink.
pub data Shrunk (block n : ℕ) (s t : MemState) (r : ℕ) : Type 0 where
  unknown : NoArea block s.mem_list → r ≡ gemdos_eimba → t ≡ s → Shrunk block n s t r
  grows :
      (p : List MemArea) (a : MemArea) (q : List MemArea)
      → s.mem_list ≡ p ++ a ∷ q
      → a.base ≡ block
      → a.len < n
      → r ≡ gemdos_egsbf
      → t ≡ s
      → Shrunk block n s t r
  shrunk :
      (p : List MemArea) (a : MemArea) (q : List MemArea)
      → s.mem_list ≡ p ++ a ∷ q
      → a.base ≡ block
      → n ≤ a.len
      → r ≡ 0
      → t ≡ record s { mem_list = p ++ record a { len = n } ∷ q }
      → Shrunk block n s t r

-- Mshrink answers EIMBA if no area has the given base and EGSBF if the new size is larger than the
-- area, and then changes nothing; otherwise it answers 0 and sets the length of that area alone.
pub mshrink-Shrunk :
    (block n : ℕ) (s : MemState) → Shrunk block n s (mshrink block n s).1 (mshrink block n s).0
unfolding mshrink
mshrink-Shrunk block n s = elim (Option-cases (find_mem_area block s.mem_list)) [
  | inl missing ↦ unknown (find-none block s.mem_list missing) (ground arith) (ground arith)
  | inr ((p, a, q), found) ↦
      let split = find-split block s.mem_list (p, a, q) found in
      elim (Bool-cases (ltb a.len n)) [
        | inl more ↦ grows p a q split.0 split.1 (ground arith) (ground arith) (ground arith)
        | inr fits ↦ shrunk p a q split.0 split.1 (ground arith) (ground arith) (ground arith)
      ]
]

abbrev pub IsNonempty : MemArea → Type 0
IsNonempty a = 0 < a.len

Fits-le_base :
    (lo : ℕ) (p : List MemArea) (a : MemArea) (r : List MemArea) (top : ℕ)
    → Fits lo (p ++ a ∷ r) top
    → lo ≤ a.base
Fits-le_base lo [] a r top f = f.0
Fits-le_base lo (b ∷ p) a r top f = omega (arith, Fits-le_base (b.base + b.len) p a r top f.1)

-- Behind areas that are not empty, a search by base finds the area itself.
find-behind :
    (lo : ℕ) (p : List MemArea) (a : MemArea) (r : List MemArea) (top : ℕ)
    → Fits lo (p ++ a ∷ r) top
    → All IsNonempty p
    → find_mem_area a.base (p ++ a ∷ r) ≡ some (p, a, r)
unfolding find_mem_area
find-behind lo [] a r top f h = rw (==-refl a.base)
find-behind lo (b ∷ p) a r top f h =
    let below = Fits-le_base (b.base + b.len) p a r top f.1 in
    rw (ne→== b.base a.base (omega arith), find-behind (b.base + b.len) p a r top f.1 h.1)

All-front : (p r : List MemArea) → All IsNonempty (p ++ r) → All IsNonempty p
All-front [] r h = tt
All-front (a ∷ p) r h = (h.0, All-front p r h.1)

-- A block that Malloc grants, on a well-formed list without areas of length 0, can be freed again
-- by its address, and that restores the memory exactly.
pub mfree-malloc :
    (n : ℕ) (s : MemState)
    → IsManaged s
    → All IsNonempty s.mem_list
    → n < 0xffff_ffff
    → (malloc n s).0 ≢ 0
    → mfree (malloc n s).0 (malloc n s).1 ≡ (0, s)
unfolding mfree
mfree-malloc n s v h w e =
    let i = malloc-Inserted n s v w e in
    let top = s.mem_allocatable_top in
    let area : MemArea = record { base = (malloc n s).0; len = n } in
    let fits : Fits 0x800 (i.before ++ area ∷ i.behind) top =
      subst (λ l. Fits 0x800 l top) i.new i.fits in
    let front : All IsNonempty i.before =
      All-front i.before i.behind (subst (All IsNonempty) i.old h) in
    let found = find-behind 0x800 i.before area i.behind top fits front in
    let found' : find_mem_area (malloc n s).0 (malloc n s).1.mem_list
        ≡ some (i.before, area, i.behind) =
      subst (λ l. find_mem_area (malloc n s).0 l ≡ some (i.before, area, i.behind)) (sym i.new)
        found in
    rw (found', mfree) (ground (arith, malloc-top n s, i.old))
