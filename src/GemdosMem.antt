-- ===== src/GemdosMem.antt =====
-- gemdosmem.c: the list of memory areas and the functions Malloc, Mfree and Mshrink on it. The
-- arguments that the handlers peek from the stack are arguments here (`Gemdos.MemCalls` peeks them). The
-- host's `malloc` of a list node is taken to succeed, since the source does not check it either.
pub mod Invariant
pub mod Blocks
pub mod Calls
pub mod Gaps
pub mod Bag
use tosemu.Base.{
  ℕ, ◌+◌, ◌%◌, List, [], ◌∷◌, ◌++◌, Option, none, some, ltb, ◌==◌, if◌then◌else◌, add32, sub32,
  u32_mod,
}
use tosemu.Errors.{gemdos_eimba, gemdos_egsbf}
use mathlib.Core.Option

pub record MemArea : Type 0 where
  pub base : ℕ
  pub len : ℕ

pub record MemState : Type 0 where
  pub mem_list : List MemArea
  pub mem_allocatable_top : ℕ

-- The address behind an area, in `uint32_t`.
abbrev pub prev_top : MemArea → ℕ
prev_top a = add32 a.base a.len

-- The areas before the one found, that area, and those behind it: what the pointers `*prevptr`,
-- `ptr` and `ptr->next` give the callers.
unfoldable pub find_mem_area : ℕ → List MemArea → Option (List MemArea × MemArea × List MemArea)
find_mem_area base [] = none
find_mem_area base (a ∷ rest) =
    if a.base == base
    then some ([], a, rest)
    else Option.map (λ (p, m, r). (a ∷ p, m, r)) (find_mem_area base rest)

unfoldable pub mshrink : (block newsiz : ℕ) → MemState → ℕ × MemState
mshrink block newsiz s = elim (find_mem_area block s.mem_list) [
  | none ↦ (gemdos_eimba, s)
  | some (p, ma, r) ↦
      if ltb ma.len newsiz
      then (gemdos_egsbf, s)
      else (0, record s { mem_list = p ++ record ma { len = newsiz } ∷ r })
]

-- The loop of Malloc(-1): the largest gap so far, and the gap at the end behind the last area.
unfoldable pub largest_gap : ℕ → MemArea → List MemArea → ℕ → ℕ
largest_gap top prev [] max_free =
    let gap = sub32 top (prev_top prev) in if ltb max_free gap then gap else max_free
largest_gap top prev (ptr ∷ rest) max_free =
    let gap = sub32 ptr.base (prev_top prev) in
    largest_gap top ptr rest (if ltb max_free gap then gap else max_free)

unfoldable pub available : MemState → ℕ
available s = elim s.mem_list [
  | [] ↦ let gap = sub32 s.mem_allocatable_top 0x900 in if ltb 0 gap then gap else 0
  | prev ∷ rest ↦ largest_gap s.mem_allocatable_top prev rest 0
]

-- The loop of Malloc(n): the first gap that is larger than `n`, or else the gap at the end. The
-- `int32_t` size is compared with a `uint32_t`, so as its bit pattern. The result is the new
-- area's base and the list with the area linked in.
unfoldable pub allocate : (top newsiz : ℕ) → MemArea → List MemArea → Option (ℕ × List MemArea)
allocate top newsiz prev [] =
    let new : MemArea = record { base = prev_top prev; len = newsiz } in
    if ltb newsiz (sub32 top (prev_top prev)) then some (prev_top prev, prev ∷ new ∷ []) else none
allocate top newsiz prev (ptr ∷ rest) =
    let new : MemArea = record { base = prev_top prev; len = newsiz } in
    if ltb newsiz (sub32 ptr.base (prev_top prev))
    then some (prev_top prev, prev ∷ new ∷ ptr ∷ rest)
    else Option.map (λ (b, l). (b, prev ∷ l)) (allocate top newsiz ptr rest)

-- The same when the list is empty, where the gap at the end starts at 0x900.
unfoldable pub allocate_list : (top newsiz : ℕ) → List MemArea → Option (ℕ × List MemArea)
allocate_list top newsiz [] =
    if ltb newsiz (sub32 top 0x900)
    then some (0x900, record { base = 0x900; len = newsiz } ∷ [])
    else none
allocate_list top newsiz (prev ∷ rest) = allocate top newsiz prev rest

unfoldable pub malloc : ℕ → MemState → ℕ × MemState
malloc newsiz s =
    if newsiz == 0xffff_ffff
    then (available s, s)
    else elim (allocate_list s.mem_allocatable_top newsiz s.mem_list) [
      | none ↦ (0, s)
      | some (base, l) ↦ (base, record s { mem_list = l })
    ]

unfoldable pub mfree : ℕ → MemState → ℕ × MemState
mfree block s = elim (find_mem_area block s.mem_list) [
  | none ↦ (gemdos_eimba, s)
  | some (p, ma, r) ↦ (0, record s { mem_list = p ++ r })
]

-- `size` is `te->size`: the areas start with one for the base page and the whole user RAM.
unfoldable pub gemdos_mem_init : ℕ → MemState
gemdos_mem_init size =
    let len = (size + 0x100) % u32_mod in
    record { mem_list = record { base = 0x800; len = len } ∷ []; mem_allocatable_top = len }

unfoldable pub gemdos_mem_free : MemState → MemState
gemdos_mem_free s = record s { mem_list = [] }
