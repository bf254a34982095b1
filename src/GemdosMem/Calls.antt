-- ===== src/GemdosMem/Calls.antt =====
-- gemdosmem.c: sequences of Malloc, Mfree and Mshrink calls, and the start from gemdos_mem_init.
use tosemu.Base.{
  some, ℕ, ◌+◌, ◌≤◌, ◌<◌, ◌≡◌, inl, inr, List, [], ◌∷◌, ◌++◌, arith, u32_mod, All, Option-cases,
  Bool-cases, ltb, sub32,
}
use tosemu.GemdosMem.{
  MemArea, prev_top, allocate_list, allocate, MemState, find_mem_area, mshrink, malloc, mfree,
  gemdos_mem_init,
}
use tosemu.GemdosMem.Invariant.{
  allocate_list-Inserted, Fits, IsManaged, Fits-remove, Fits-shrink, find-split,
}

-- A call that a program makes, with its arguments.
pub data MemCall : Type 0 where
  mallocs mfrees : ℕ → MemCall
  mshrinks : (block newsiz : ℕ) → MemCall

abbrev pub IsWordCall : MemCall → Type 0
IsWordCall (mallocs n) = n < u32_mod
IsWordCall (mfrees block) = block < u32_mod
IsWordCall (mshrinks block n) = n < u32_mod

unfoldable pub mem_call : MemCall → MemState → ℕ × MemState
mem_call (mallocs n) s = malloc n s
mem_call (mfrees block) s = mfree block s
mem_call (mshrinks block n) s = mshrink block n s

unfoldable pub mem_calls : List MemCall → MemState → MemState
mem_calls [] s = s
mem_calls (c ∷ cs) s = mem_calls cs (mem_call c s).1

-- A request that is granted is smaller than 2 ^ 32, since it is smaller than a gap.
allocate-below :
    (top n : ℕ) (prev : MemArea) (rest : List MemArea) (q : ℕ × List MemArea)
    → allocate top n prev rest ≡ some q
    → n < u32_mod
unfolding allocate
allocate-below top n prev [] q e = ground arith
allocate-below top n prev (a ∷ rest) q e =
    elim (Bool-cases (ltb n (sub32 a.base (prev_top prev)))) [
      | inl fits ↦ ground arith
      | inr small ↦ elim (Option-cases (allocate top n a rest)) [
        | inl missing ↦ absurd (ground arith)
        | inr (q', found) ↦ allocate-below top n a rest q' found
      ]
    ]

allocate_list-below :
    (top n : ℕ) (l : List MemArea) (q : ℕ × List MemArea)
    → allocate_list top n l ≡ some q
    → n < u32_mod
unfolding allocate_list
allocate_list-below top n [] q e = ground arith
allocate_list-below top n (a ∷ rest) q e = allocate-below top n a rest q e

pub malloc-IsManaged : (n : ℕ) (s : MemState) → IsManaged s → IsManaged (malloc n s).1
unfolding malloc
malloc-IsManaged n s v = elim (Option-cases (allocate_list s.mem_allocatable_top n s.mem_list)) [
  | inl missing ↦ ground arith
  | inr (q, found) ↦
      let i =
        allocate_list-Inserted s.mem_allocatable_top n s.mem_list q v.is_word v.has_room
          (allocate_list-below s.mem_allocatable_top n s.mem_list q found) v.fits found in
      ground (arith, i.fits)
]

pub mfree-IsManaged : (block : ℕ) (s : MemState) → IsManaged s → IsManaged (mfree block s).1
unfolding mfree
mfree-IsManaged block s v = elim (Option-cases (find_mem_area block s.mem_list)) [
  | inl missing ↦ ground arith
  | inr ((p, a, r), found) ↦
      let split = find-split block s.mem_list (p, a, r) found in
      let fits : Fits 0x800 (p ++ a ∷ r) s.mem_allocatable_top = rw (← split.0) v.fits in
      ground (arith, Fits-remove 0x800 p a r s.mem_allocatable_top fits)
]

pub mshrink-IsManaged : (block n : ℕ) (s : MemState) → IsManaged s → IsManaged (mshrink block n s).1
unfolding mshrink
mshrink-IsManaged block n s v = elim (Option-cases (find_mem_area block s.mem_list)) [
  | inl missing ↦ ground arith
  | inr ((p, a, r), found) ↦
      let split = find-split block s.mem_list (p, a, r) found in
      let fits : Fits 0x800 (p ++ a ∷ r) s.mem_allocatable_top = rw (← split.0) v.fits in
      ground (arith, Fits-shrink 0x800 p a n r s.mem_allocatable_top)
]

pub mem_call-IsManaged :
    (c : MemCall) (s : MemState) → IsWordCall c → IsManaged s → IsManaged (mem_call c s).1
unfolding mem_call
mem_call-IsManaged (mallocs n) s w v = malloc-IsManaged n s v
mem_call-IsManaged (mfrees block) s w v = mfree-IsManaged block s v
mem_call-IsManaged (mshrinks block n) s w v = mshrink-IsManaged block n s v

pub mem_call-top :
    (c : MemCall) (s : MemState) → (mem_call c s).1.mem_allocatable_top ≡ s.mem_allocatable_top
unfolding mem_call malloc mfree mshrink
mem_call-top (mallocs n) s = ground arith
mem_call-top (mfrees block) s = ground arith
mem_call-top (mshrinks block n) s = ground arith

-- Whatever Malloc, Mfree and Mshrink calls a program makes, with arguments of 32 bits and failing
-- ones included: if the areas are sorted, apart and inside the managed memory, they stay so.
pub mem_calls-IsManaged :
    (cs : List MemCall) (s : MemState)
    → All IsWordCall cs
    → IsManaged s
    → IsManaged (mem_calls cs s)
unfolding mem_calls
mem_calls-IsManaged [] s w v = v
mem_calls-IsManaged (c ∷ cs) s w v =
    mem_calls-IsManaged cs (mem_call c s).1 w.1 (mem_call-IsManaged c s w.0 v)

-- The start of a program: gemdos_mem_init with a user RAM of at least 0x800 bytes, and then a
-- Mshrink of the first area to a size that leaves it below `mem_allocatable_top`, succeeds and
-- gives a well-formed list.
pub mshrink-init-IsManaged :
    (size n : ℕ)
    → size + 0x900 < u32_mod
    → 0x800 ≤ size
    → n + 0x700 ≤ size
    → ((mshrink 0x800 n (gemdos_mem_init size)).0 ≡ 0)
      × IsManaged (mshrink 0x800 n (gemdos_mem_init size)).1
unfolding mshrink gemdos_mem_init find_mem_area
mshrink-init-IsManaged size n w h le = ground arith

-- Right after gemdos_mem_init, before any Mshrink, a request of any size below 2 ^ 32 - 0x800 is
-- granted, at the address 0x900 + size, which is the first one behind the user RAM.
pub malloc-init-overruns :
    (size n : ℕ)
    → size + 0x900 < u32_mod
    → n + 0x800 < u32_mod
    → (malloc n (gemdos_mem_init size)).0 ≡ 0x900 + size
unfolding malloc gemdos_mem_init allocate_list allocate
malloc-init-overruns size n w h = ground arith
