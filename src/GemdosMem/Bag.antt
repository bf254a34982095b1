-- ===== src/GemdosMem/Bag.antt =====
-- gemdosmem.c: what Malloc, Mfree and Mshrink promise, on a bag of blocks: the order of the list is
-- forgotten, and where a new block goes, and whether there is room for it, are left open.
use mathlib.Core.Path.{subst, subst₂}
use mathlib.Core.List.{Perm, perm_middle}
use mathlib.Core.List.Perm
use tosemu.Base.{
  ℕ, ◌<◌, ◌≤◌, ◌≡◌, ◌≢◌, sym, inl, inr, List, [], ◌∷◌, ◌++◌, Bool-cases, ◌==◌, All, u32_mod, arith,
}
use tosemu.Errors.{gemdos_eimba, gemdos_egsbf}
use tosemu.GemdosMem.{MemArea, MemState, malloc, mfree, mshrink}
use tosemu.GemdosMem.Invariant.{Fits, IsManaged, malloc-Inserted, malloc-same}
use tosemu.GemdosMem.Blocks.{
  NoArea, Freed, mfree-Freed, Shrunk, mshrink-Shrunk, freed, grows, shrunk,
}
use tosemu.GemdosMem.Calls.{
  MemCall, mallocs, mfrees, mshrinks, IsWordCall, mem_call, mem_calls, mem_call-IsManaged,
  mem_call-top,
}

-- One call on a bag of blocks below `top`, with its answer and the bag behind it.
pub data Serves (top : ℕ) (l : List MemArea) : MemCall → ℕ → List MemArea → Type 0 where
  -- A new block is granted, if it can be laid out together with the others.
  grants :
      (n base : ℕ) (before behind : List MemArea)
      → Perm l (before ++ behind)
      → Fits 0x800 (before ++ record { base = base; len = n } ∷ behind) top
      → base ≢ 0
      → Serves top l (mallocs n) base (record { base = base; len = n } ∷ l)
  declines : (n : ℕ) → Serves top l (mallocs n) 0 l
  reports : (size : ℕ) → Serves top l (mallocs 0xffff_ffff) size l
  frees :
      (a : MemArea) (rest : List MemArea) → Perm l (a ∷ rest) → Serves top l (mfrees a.base) 0 rest
  shrinks :
      (a : MemArea) (n : ℕ) (rest : List MemArea)
      → Perm l (a ∷ rest)
      → n ≤ a.len
      → Serves top l (mshrinks a.base n) 0 (record a { len = n } ∷ rest)
  -- The errors: no block starts there, or it is smaller than wanted.
  frees_nothing :
      (block : ℕ) (l' : List MemArea)
      → Perm l l'
      → NoArea block l'
      → Serves top l (mfrees block) gemdos_eimba l
  shrinks_nothing :
      (block n : ℕ) (l' : List MemArea)
      → Perm l l'
      → NoArea block l'
      → Serves top l (mshrinks block n) gemdos_eimba l
  refuses_growth :
      (a : MemArea) (n : ℕ) (rest : List MemArea)
      → Perm l (a ∷ rest)
      → a.len < n
      → Serves top l (mshrinks a.base n) gemdos_egsbf l

-- A sequence of calls.
pub data ServesAll (top : ℕ) : List MemArea → List MemCall → List ℕ → List MemArea → Type 0 where
  served : (l : List MemArea) → ServesAll top l [] [] l
  serves :
      (l l' l'' : List MemArea) (c : MemCall) (r : ℕ) (cs : List MemCall) (rs : List ℕ)
      → Serves top l c r l'
      → ServesAll top l' cs rs l''
      → ServesAll top l (c ∷ cs) (r ∷ rs) l''

-- The bag makes a step with the same answer, and is the list behind the call again.
abbrev Refines : ℕ → List MemArea → MemCall → ℕ → MemState → Type 0
Refines top l c r t = (l' : List MemArea) × Serves top l c r l' × Perm l' t.mem_list

module _ (l : List MemArea) (s : MemState) (same : Perm l s.mem_list) where
  -- A list that is split at a block.
  at_block :
      (p : List MemArea) (a : MemArea) (q : List MemArea)
      → s.mem_list ≡ p ++ a ∷ q
      → Perm l (a ∷ p ++ q)
  at_block p a q split = Perm.trans (subst (Perm l) split same) (perm_middle p q)

  unchanged : (t : MemState) → t ≡ s → Perm l t.mem_list
  unchanged t et = subst (λ t. Perm l t.mem_list) (sym et) same

  malloc-Refines :
      (n : ℕ)
      → n < u32_mod
      → IsManaged s
      → Refines s.mem_allocatable_top l (mallocs n) (malloc n s).0 (malloc n s).1
  malloc-Refines n w v = elim (Bool-cases ((malloc n s).0 == 0)) [
    | inl no_block ↦
        let r0 : (malloc n s).0 ≡ 0 = ground arith in
        (
          l,
          subst (λ r. Serves s.mem_allocatable_top l (mallocs n) r l) (sym r0) (declines n),
          unchanged (malloc n s).1 (malloc-same n s v w (inl r0)),
        )
    | inr some_answer ↦
        let r0 : (malloc n s).0 ≢ 0 = ground arith in
        elim (Bool-cases (n == 0xffff_ffff)) [
          | inl query ↦
              let en : n ≡ 0xffff_ffff = ground arith in
              (
                l,
                subst (λ k. Serves s.mem_allocatable_top l (mallocs k) (malloc n s).0 l) (sym en)
                    (reports (malloc n s).0),
                unchanged (malloc n s).1 (malloc-same n s v w (inr en)),
              )
          | inr small ↦
              let i = malloc-Inserted n s v (ground arith) r0 in
              let block : MemArea = record { base = (malloc n s).0; len = n } in
              (
                block ∷ l,
                grants n (malloc n s).0 i.before i.behind (subst (Perm l) i.old same)
                    (subst (λ k. Fits 0x800 k s.mem_allocatable_top) i.new i.fits) r0,
                Perm.trans (Perm.cons block (subst (Perm l) i.old same)) (
                    subst (Perm (block ∷ i.before ++ i.behind)) (sym i.new)
                      (Perm.symm (perm_middle i.before i.behind))),
              )
        ]
  ]

  mfree-Refines :
      (block r : ℕ) (t : MemState)
      → Freed block s t r
      → Refines s.mem_allocatable_top l (mfrees block) r t
  mfree-Refines block r t (Freed.unknown none_there er et) = (
    l,
    subst (λ r. Serves s.mem_allocatable_top l (mfrees block) r l) (sym er)
        (frees_nothing block s.mem_list same none_there),
    unchanged t et,
  )
  mfree-Refines block r t (freed p a q split eb er et) = (
    p ++ q,
    subst₂ (λ b r. Serves s.mem_allocatable_top l (mfrees b) r (p ++ q)) eb (sym er)
        (frees a (p ++ q) (at_block p a q split)),
    subst (λ t. Perm (p ++ q) t.mem_list) (sym et) Perm.rfl,
  )

  mshrink-Refines :
      (block n r : ℕ) (t : MemState)
      → Shrunk block n s t r
      → Refines s.mem_allocatable_top l (mshrinks block n) r t
  mshrink-Refines block n r t (Shrunk.unknown none_there er et) = (
    l,
    subst (λ r. Serves s.mem_allocatable_top l (mshrinks block n) r l) (sym er)
        (shrinks_nothing block n s.mem_list same none_there),
    unchanged t et,
  )
  mshrink-Refines block n r t (grows p a q split eb more er et) = (
    l,
    subst₂ (λ b r. Serves s.mem_allocatable_top l (mshrinks b n) r l) eb (sym er)
        (refuses_growth a n (p ++ q) (at_block p a q split) more),
    unchanged t et,
  )
  mshrink-Refines block n r t (shrunk p a q split eb fits er et) =
      let smaller : MemArea = record a { len = n } in
      (
        smaller ∷ p ++ q,
        subst₂ (λ b r. Serves s.mem_allocatable_top l (mshrinks b n) r (smaller ∷ p ++ q)) eb
            (sym er) (shrinks a n (p ++ q) (at_block p a q split) fits),
        subst (λ t. Perm (smaller ∷ p ++ q) t.mem_list) (sym et) (Perm.symm (perm_middle p q)),
      )

  mem_call-Refines :
      (c : MemCall)
      → IsWordCall c
      → IsManaged s
      → Refines s.mem_allocatable_top l c (mem_call c s).0 (mem_call c s).1
  unfolding mem_call
  mem_call-Refines (mallocs n) w v = malloc-Refines n w v
  mem_call-Refines (mfrees block) w v =
      mfree-Refines block (mfree block s).0 (mfree block s).1 (mfree-Freed block s)
  mem_call-Refines (mshrinks block n) w v =
      mshrink-Refines block n (mshrink block n s).0 (mshrink block n s).1 (mshrink-Shrunk block n s)

-- The answers of a sequence of calls.
unfoldable pub answers : List MemCall → MemState → List ℕ
unfolding mem_call
answers [] s = []
answers (c ∷ cs) s = (mem_call c s).0 ∷ answers cs (mem_call c s).1

-- The list of areas is a correct manager of a bag of blocks: whatever Malloc, Mfree and Mshrink calls with
-- 32-bit arguments a program makes on a well-formed list, the answers are those of a run of the abstract
-- manager, from any order of the blocks, and the bag behind it has the same blocks as the list.
pub mem_calls-refines :
    (cs : List MemCall) (l : List MemArea) (s : MemState)
    → All IsWordCall cs
    → IsManaged s
    → Perm l s.mem_list
    → (l' : List MemArea) × ServesAll s.mem_allocatable_top l cs (answers cs s) l'
      × Perm l' (mem_calls cs s).mem_list
unfolding answers mem_calls
mem_calls-refines [] l s w v same = (l, served l, same)
mem_calls-refines (c ∷ cs) l s w v same =
    let step = mem_call-Refines l s same c w.0 v in
    let t = (mem_call c s).1 in
    let rest = mem_calls-refines cs step.0 t w.1 (mem_call-IsManaged c s w.0 v) step.2 in
    let run =
      subst (λ top. ServesAll top step.0 cs (answers cs t) rest.0) (mem_call-top c s) rest.1 in
    (rest.0, serves l step.0 rest.0 c (mem_call c s).0 cs (answers cs t) step.1 run, rest.2)
