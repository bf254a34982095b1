-- ===== src/GemdosMem/Invariant.antt =====
-- gemdosmem.c: the areas stay sorted, disjoint and within the managed memory.
use tosemu.Base.{
  ℕ, ◌+◌, ◌≤◌, ◌<◌, ◌≡◌, ◌≢◌, ◌⊎◌, refl, inl, inr, false, List, [], ◌∷◌, ◌++◌, some, arith, ltb,
  ◌==◌, u32_mod, Option-cases, Bool-cases, sub32,
}
use tosemu.GemdosMem.{MemArea, MemState, find_mem_area, malloc, allocate, allocate_list, prev_top}

-- The areas lie between two addresses, each at or above the end of the one before it.
abbrev pub Fits : ℕ → List MemArea → ℕ → Type 0
Fits lo [] top = lo ≤ top
Fits lo (a ∷ rest) top = (lo ≤ a.base) × Fits (a.base + a.len) rest top

pub record IsManaged (s : MemState) : Type 0 where
  pub fits : Fits 0x800 s.mem_list s.mem_allocatable_top
  pub has_room : 0x900 ≤ s.mem_allocatable_top
  pub is_word : s.mem_allocatable_top < u32_mod

pub Fits-le : (lo : ℕ) (l : List MemArea) (top : ℕ) → Fits lo l top → lo ≤ top
Fits-le lo [] top f = f
Fits-le lo (a ∷ l) top f = omega (arith, Fits-le (a.base + a.len) l top f.1)

Fits-mono : (lo lo' : ℕ) (l : List MemArea) (top : ℕ) → lo' ≤ lo → Fits lo l top → Fits lo' l top
Fits-mono lo lo' [] top h f = omega arith
Fits-mono lo lo' (a ∷ l) top h f = (omega arith, f.1)

pub Fits-remove :
    (lo : ℕ) (p : List MemArea) (a : MemArea) (r : List MemArea) (top : ℕ)
    → Fits lo (p ++ a ∷ r) top
    → Fits lo (p ++ r) top
Fits-remove lo [] a r top f = Fits-mono (a.base + a.len) lo r top (omega arith) f.1
Fits-remove lo (b ∷ p) a r top f = (f.0, Fits-remove (b.base + b.len) p a r top f.1)

pub Fits-shrink :
    (lo : ℕ) (p : List MemArea) (a : MemArea) (n : ℕ) (r : List MemArea) (top : ℕ)
    → n ≤ a.len
    → Fits lo (p ++ a ∷ r) top
    → Fits lo (p ++ record a { len = n } ∷ r) top
Fits-shrink lo [] a n r top h f =
    (f.0, Fits-mono (a.base + a.len) (a.base + n) r top (omega arith) f.1)
Fits-shrink lo (b ∷ p) a n r top h f = (f.0, Fits-shrink (b.base + b.len) p a n r top h f.1)

-- A successful search splits the list at an area with the wanted base.
abbrev pub Found : Type 0
Found = List MemArea × MemArea × List MemArea

pub find-split :
    (block : ℕ) (l : List MemArea) (q : Found)
    → find_mem_area block l ≡ some q
    → (l ≡ q.0 ++ q.1 ∷ q.2) × (q.1.base ≡ block)
unfolding find_mem_area
find-split block [] q e = ground arith
find-split block (x ∷ l) q e = elim (Option-cases (find_mem_area block l)) [
  | inl missing ↦ ground arith
  | inr (q', found) ↦ let rest = find-split block l q' found in ground arith
]

-- What a successful allocation does to the list: it links one new area in, between `lo` and `top`.
pub record Inserted (lo top n : ℕ) (l : List MemArea) (q : ℕ × List MemArea) : Type 0 where
  pub before : List MemArea
  pub behind : List MemArea
  pub old : l ≡ before ++ behind
  pub new : q.1 ≡ before ++ record { base = q.0; len = n } ∷ behind
  pub fits : Fits lo q.1 top
  pub above : lo ≤ q.0
  pub below : q.0 + n < top

Inserted-cons :
    (lo top n : ℕ) (prev : MemArea) (q : ℕ × List MemArea) (l : List MemArea)
    (q' : ℕ × List MemArea)
    → lo ≤ prev.base
    → q.0 ≡ q'.0
    → q.1 ≡ prev ∷ q'.1
    → Inserted (prev.base + prev.len) top n l q'
    → Inserted lo top n (prev ∷ l) q
Inserted-cons lo top n prev q l q' h e d i = record {
  before = prev ∷ i.before;
  behind = i.behind;
  old = ground (arith, i.old);
  new = ground (arith, i.new);
  fits = rw d (h, i.fits);
  above = omega (arith, i.above);
  below = omega (arith, i.below);
}

allocate-Inserted :
    (lo top n : ℕ) (prev : MemArea) (rest : List MemArea) (q : ℕ × List MemArea)
    → top < u32_mod
    → n < u32_mod
    → Fits lo (prev ∷ rest) top
    → allocate top n prev rest ≡ some q
    → Inserted lo top n (prev ∷ rest) q
unfolding allocate
allocate-Inserted lo top n prev [] q w h f e = record {
  before = prev ∷ [];
  behind = [];
  old = refl;
  new = ground arith;
  fits = ground arith;
  above = ground arith;
  below = ground arith;
}
allocate-Inserted lo top n prev (a ∷ rest) q w h f e =
    elim (Bool-cases (ltb n (sub32 a.base (prev_top prev)))) [
      | inl fits ↦ record {
        before = prev ∷ [];
        behind = a ∷ rest;
        old = refl;
        new = ground arith;
        fits = ground (arith, Fits-le (a.base + a.len) rest top f.1.1);
        above = ground (arith, Fits-le (a.base + a.len) rest top f.1.1);
        below = ground (arith, Fits-le (a.base + a.len) rest top f.1.1);
      }
      | inr small ↦ elim (Option-cases (allocate top n a rest)) [
        | inl missing ↦ absurd (ground arith)
        | inr (q', found) ↦
            Inserted-cons lo top n prev q (a ∷ rest) q' f.0 (ground arith) (ground arith)
              (allocate-Inserted (prev.base + prev.len) top n a rest q' w h f.1 found)
      ]
    ]

pub allocate_list-Inserted :
    (top n : ℕ) (l : List MemArea) (q : ℕ × List MemArea)
    → top < u32_mod
    → 0x900 ≤ top
    → n < u32_mod
    → Fits 0x800 l top
    → allocate_list top n l ≡ some q
    → Inserted 0x800 top n l q
unfolding allocate_list
allocate_list-Inserted top n [] q w r h f e = record {
  before = [];
  behind = [];
  old = refl;
  new = ground arith;
  fits = ground arith;
  above = ground arith;
  below = ground arith;
}
allocate_list-Inserted top n (a ∷ rest) q w r h f e = allocate-Inserted 0x800 top n a rest q w h f e

-- On a well-formed list of areas, a request for memory, other than Malloc(-1), that is answered
-- with an address adds exactly one area, of the size that was asked for, at that address: the
-- other areas stay as they were, and the new one lies inside the managed memory and apart from
-- them.
pub malloc-Inserted :
    (n : ℕ) (s : MemState)
    → IsManaged s
    → n < 0xffff_ffff
    → (malloc n s).0 ≢ 0
    → Inserted 0x800 s.mem_allocatable_top n s.mem_list ((malloc n s).0, (malloc n s).1.mem_list)
unfolding malloc
malloc-Inserted n s v h e = elim (Option-cases (allocate_list s.mem_allocatable_top n s.mem_list)) [
  | inl missing ↦ absurd (ground arith)
  | inr (q, found) ↦
      let word : (n == 0xffff_ffff) ≡ false = ground arith in
      rw (word, found)
        (allocate_list-Inserted s.mem_allocatable_top n s.mem_list q v.is_word v.has_room
          (omega arith) v.fits found)
]

-- On a well-formed list of areas, a failed request, and a query for the largest free block, change
-- nothing.
pub malloc-same :
    (n : ℕ) (s : MemState)
    → IsManaged s
    → n < u32_mod
    → ((malloc n s).0 ≡ 0) ⊎ (n ≡ 0xffff_ffff)
    → (malloc n s).1 ≡ s
unfolding malloc
malloc-same n s v w h = elim (Option-cases (allocate_list s.mem_allocatable_top n s.mem_list)) [
  | inl missing ↦ ground arith
  | inr (q, found) ↦
      let i =
        allocate_list-Inserted s.mem_allocatable_top n s.mem_list q v.is_word v.has_room w v.fits
          found in
      ground (arith, i.above)
]

pub malloc-top : (n : ℕ) (s : MemState) → (malloc n s).1.mem_allocatable_top ≡ s.mem_allocatable_top
unfolding malloc
malloc-top n s = ground arith
