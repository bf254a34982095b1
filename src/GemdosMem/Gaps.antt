-- ===== src/GemdosMem/Gaps.antt =====
-- gemdosmem.c: what Malloc(-1) answers, against what Malloc grants and against the free memory.
use tosemu.Base.{
  ℕ, ◌+◌, ◌≤◌, ◌<◌, ◌≡◌, ◌≢◌, ◌↔◌, ◌⊎◌, inl, inr, List, [], ◌∷◌, none, some, arith, u32_mod, All,
  Option-cases, sub32,
}
use tosemu.GemdosMem.{
  MemArea, MemState, malloc, allocate_list, allocate, available, largest_gap, prev_top,
}
use tosemu.GemdosMem.Invariant.{Fits, IsManaged, Fits-le, allocate_list-Inserted}

le-largest_gap :
    (top : ℕ) (prev : MemArea) (rest : List MemArea) (m : ℕ) → m ≤ largest_gap top prev rest m
unfolding largest_gap
le-largest_gap top prev [] m = ground arith
le-largest_gap top prev (a ∷ rest) m =
    ground
      (arith, le-largest_gap top a rest m, le-largest_gap top a rest (sub32 a.base (prev_top prev)))

-- A size is refused by the search exactly if no gap is larger.
allocate-none :
    (top n : ℕ) (prev : MemArea) (rest : List MemArea) (m : ℕ)
    → m ≤ n
    → allocate top n prev rest ≡ none
    → largest_gap top prev rest m ≤ n
unfolding allocate largest_gap
allocate-none top n prev [] m h e = ground arith
allocate-none top n prev (a ∷ rest) m h e = ground (
  arith,
  allocate-none top n a rest m h,
  allocate-none top n a rest (sub32 a.base (prev_top prev)),
)

allocate-some :
    (top n : ℕ) (prev : MemArea) (rest : List MemArea) (m : ℕ) (q : ℕ × List MemArea)
    → allocate top n prev rest ≡ some q
    → n < largest_gap top prev rest m
unfolding allocate largest_gap
allocate-some top n prev [] m q e = ground arith
allocate-some top n prev (a ∷ rest) m q e = elim (Option-cases (allocate top n a rest)) [
  | inl missing ↦
      ground (
        arith,
        le-largest_gap top a rest m,
        le-largest_gap top a rest (sub32 a.base (prev_top prev)),
      )
  | inr (q', found) ↦ ground (
    arith,
    le-largest_gap top a rest m,
    le-largest_gap top a rest (sub32 a.base (prev_top prev)),
    allocate-some top n a rest m q' found,
    allocate-some top n a rest (sub32 a.base (prev_top prev)) q' found,
  )
]

granted :
    (s : MemState) (n : ℕ) (q : ℕ × List MemArea)
    → allocate_list s.mem_allocatable_top n s.mem_list ≡ some q
    → n < available s
granted s n q e = cases s.mem_allocatable_top n s.mem_list q e
  where
    cases :
        (top n : ℕ) (l : List MemArea) (q : ℕ × List MemArea)
        → allocate_list top n l ≡ some q
        → n < available (record { mem_list = l; mem_allocatable_top = top })
    cases top n [] q e = unfold allocate_list available in ground arith
    cases top n (a ∷ l) q e = unfold allocate_list available in allocate-some top n a l 0 q e

refused :
    (s : MemState) (n : ℕ)
    → allocate_list s.mem_allocatable_top n s.mem_list ≡ none
    → available s ≤ n
refused s n e = cases s.mem_allocatable_top n s.mem_list e
  where
    cases :
        (top n : ℕ) (l : List MemArea)
        → allocate_list top n l ≡ none
        → available (record { mem_list = l; mem_allocatable_top = top }) ≤ n
    cases top n [] e = unfold allocate_list available in ground arith
    cases top n (a ∷ l) e =
        unfold allocate_list available in allocate-none top n a l 0 (omega arith) e

-- On a well-formed list of areas Malloc(n), with n other than -1, is granted exactly for the sizes
-- below the answer of Malloc(-1). So a request for the very size that Malloc(-1) reports is
-- refused.
pub malloc-iff-lt :
    (n : ℕ) (s : MemState)
    → IsManaged s
    → n < 0xffff_ffff
    → ((malloc n s).0 ≢ 0) ↔ (n < (malloc 0xffff_ffff s).0)
unfolding malloc
malloc-iff-lt n s v w = elim (Option-cases (allocate_list s.mem_allocatable_top n s.mem_list)) [
  | inl missing ↦ (λ h. absurd (ground arith), λ h. absurd (ground (arith, refused s n missing)))
  | inr (q, found) ↦
      let i =
        allocate_list-Inserted s.mem_allocatable_top n s.mem_list q v.is_word v.has_room
          (omega arith) v.fits found in
      (λ h. granted s n q found, λ h. ground (arith, i.above))
]

-- The block of `m` bytes at `b` shares no byte with the area.
abbrev pub Apart : ℕ → ℕ → MemArea → Type 0
Apart b m a = (b + m ≤ a.base) ⊎ (a.base + a.len ≤ b)

-- The search starts behind the first area, and at 0x900 if there is none.
abbrev pub StartsBelow : ℕ → List MemArea → Type 0
StartsBelow b [] = 0x900 ≤ b
StartsBelow b (a ∷ rest) = a.base ≤ b

gap_covers :
    (lo top : ℕ) (prev : MemArea) (rest : List MemArea) (g b m : ℕ)
    → top < u32_mod
    → Fits lo (prev ∷ rest) top
    → prev.base + prev.len ≤ b
    → b + m ≤ top
    → All (Apart b m) rest
    → m ≤ largest_gap top prev rest g
unfolding largest_gap
gap_covers lo top prev [] g b m w f h k apart = ground arith
gap_covers lo top prev (a ∷ rest) g b m w f h k (inl left, apart) = ground (
  arith,
  Fits-le (a.base + a.len) rest top f.1.1,
  le-largest_gap top a rest g,
  le-largest_gap top a rest (sub32 a.base (prev_top prev)),
)
gap_covers lo top prev (a ∷ rest) g b m w f h k (inr right, apart) =
    gap_covers (prev.base + prev.len) top a rest _ b m w f.1 right k apart

-- Malloc(-1) overlooks nothing: on a well-formed list of areas, a block of free bytes between the
-- start of the first area (or 0x900) and the top of the managed memory is never larger than its
-- answer.
pub free-le-available :
    (s : MemState) (b m : ℕ)
    → IsManaged s
    → StartsBelow b s.mem_list
    → b + m ≤ s.mem_allocatable_top
    → All (Apart b m) s.mem_list
    → m ≤ (malloc 0xffff_ffff s).0
unfolding malloc
free-le-available s b m v = cases s.mem_allocatable_top s.mem_list v.is_word v.fits
  where
    cases :
        (top : ℕ) (l : List MemArea)
        → top < u32_mod
        → Fits 0x800 l top
        → StartsBelow b l
        → b + m ≤ top
        → All (Apart b m) l
        → m ≤ available (record { mem_list = l; mem_allocatable_top = top })
    cases top [] w f h k apart = unfold available in ground arith
    cases top (a ∷ l) w f h k (inl left, apart) = omega arith
    cases top (a ∷ l) w f h k (inr right, apart) =
        unfold available in gap_covers 0x800 top a l 0 b m w f right k apart
