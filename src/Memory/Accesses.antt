-- ===== src/Memory/Accesses.antt =====
-- memory.c: what the CPU core's accesses to memory return, by their widths, over any list of areas.
use mathlib.Core.Path.{subst}
use tosemu.Base.{
  ℕ, zero, suc, ◌+◌, ◌*◌, ◌/◌, ◌%◌, ◌^◌, ◌≤◌, ◌<◌, ◌≡◌, refl, sym, ◌⊎◌, sub32, List, [], ◌∷◌, some,
  arith, add32, u32_mod, bit_and, bit_or, ◌==◌, Option-cases, Bool-cases, inl, inr,
}
use tosemu.Base.Bits.{shifted-bit_or, bit_and_byte}
use tosemu.Platform.{Platform}
use tosemu.Machine.{State, M, Run, done, and_then, pure, ◌>>=◌, ◌>>◌, update, halt_execution}
use tosemu.Memory.Area.{MemoryArea, ptr_read, find_memarea}
use tosemu.Memory.Access.{
  supervisor, read_mask, tos_read, tos_read_by, call_read, tos_write, read_loop, write_loop,
}
use tosemu.Memory.Cells.{write_cell}
use tosemu.Memory.Words.{IsBytes}
use tosemu.Memory.Laws.{halted, written, tos_write-written}
use tosemu.Memory.Flat.{Access, reads_8, reads_16, reads_32, writes_8, writes_16, writes_32}
use tosemu.Memory.{
  m68k_read_memory_8, m68k_read_memory_16, m68k_read_memory_32, m68k_read_disassembler_8,
  m68k_read_disassembler_16, m68k_read_disassembler_32, m68k_write_memory_8, m68k_write_memory_16,
  m68k_write_memory_32,
}

-- The address is not one of the magic bytes of Supexec, and so are `n` addresses.
abbrev pub IsPlain : List MemoryArea → ℕ → Type 0
IsPlain areas a = (area : MemoryArea) → find_memarea a areas ≡ some area → area.read ≡ ptr_read

abbrev pub IsPlainFrom : List MemoryArea → ℕ → ℕ → Type 0
IsPlainFrom areas zero a = Unit {0}
IsPlainFrom areas (suc n) a = IsPlain areas a × IsPlainFrom areas n (add32 a 1)

-- A write may go to any address.
abbrev pub Avoids : List MemoryArea → Access → Type 0
Avoids areas (reads_8 a) = IsPlainFrom areas 1 a
Avoids areas (reads_16 a) = IsPlainFrom areas 2 a
Avoids areas (reads_32 a) = IsPlainFrom areas 4 a
Avoids areas (writes_8 a v) = Unit {0}
Avoids areas (writes_16 a v) = Unit {0}
Avoids areas (writes_32 a v) = Unit {0}

abbrev pub AllAvoid : List MemoryArea → List Access → Type 0
AllAvoid areas [] = Unit {0}
AllAvoid areas (x ∷ xs) = Avoids areas x × AllAvoid areas xs

-- The number of values that an access may answer, and whether each answer is one of them.
abbrev pub values : Access → ℕ
values (reads_8 a) = 2 ^ 8
values (reads_16 a) = 2 ^ 16
values (reads_32 a) = 2 ^ 32
values (writes_8 a v) = 1
values (writes_16 a v) = 1
values (writes_32 a v) = 1

pub data AnswersFit : List Access → List ℕ → Type 0 where
  no_answers : AnswersFit [] []
  fits :
      (x : Access) (xs : List Access) (r : ℕ) (rs : List ℕ)
      → r < values x
      → AnswersFit xs rs
      → AnswersFit (x ∷ xs) (r ∷ rs)

-- The bound of a number behind which `n` bytes are appended.
scaled : ℕ → ℕ → ℕ
scaled lim zero = lim
scaled lim (suc n) = scaled (lim * 256) n

scaled-le : (lim n : ℕ) → lim ≤ scaled lim n
unfolding scaled
scaled-le lim zero = omega arith
scaled-le lim (suc n) = omega (arith, scaled-le (lim * 256) n)

updated-IsBytes : (h : ℕ → ℕ) (c v : ℕ) → v < 256 → IsBytes h → IsBytes (update h c v)
unfolding update
updated-IsBytes h c v small bytes q = ground (arith, bytes q)

module _ ⦃p : Platform⦄ where
  -- The calls that the CPU core makes for a program's accesses.
  unfoldable pub run_access : Access → M ℕ
  unfolding m68k_read_memory_8 m68k_read_memory_16 m68k_read_memory_32 m68k_write_memory_8
      m68k_write_memory_16 m68k_write_memory_32
  run_access (reads_8 a) = m68k_read_memory_8 a
  run_access (reads_16 a) = m68k_read_memory_16 a
  run_access (reads_32 a) = m68k_read_memory_32 a
  run_access (writes_8 a v) = m68k_write_memory_8 a v >> pure 0
  run_access (writes_16 a v) = m68k_write_memory_16 a v >> pure 0
  run_access (writes_32 a v) = m68k_write_memory_32 a v >> pure 0

  unfoldable pub run_accesses : List Access → M (List ℕ)
  run_accesses [] = pure []
  run_accesses (x ∷ xs) = do r ← run_access x; rs ← run_accesses xs; pure (r ∷ rs)

  -- The call returns a value with `Q`, host memory holds bytes, and the areas are the same.
  abbrev pub Typed : {A : Type 0} → (A → Type 0) → List MemoryArea → Run State A → Type 0
  Typed {A = A} Q areas r =
      (a : A) × (t : State) × (r ≡ done a t) × Q a × IsBytes t.host_mem × (t.areas ≡ areas)

  Typed-bind :
      {A B : Type 0} {Q : A → Type 0} {R : B → Type 0} {areas : List MemoryArea}
      → (r : Run State A) (f : A → State → Run State B) → Typed Q areas r
      → ((a : A) (t : State) → Q a → IsBytes t.host_mem → t.areas ≡ areas → Typed R areas (f a t))
      → Typed R areas (and_then r f)
  Typed-bind {R = R} {areas = areas} r f (a, t, e, q, bytes, same) k = rw e (k a t q bytes same)

  read_cases :
      (a fuel : ℕ) (m : State)
      → IsPlain m.areas a
      → (tos_read a (suc fuel) m ≡ done 0 (halted m))
        ⊎ ((c : ℕ) × (tos_read a (suc fuel) m ≡ done (m.host_mem c) m))
  unfolding tos_read tos_read_by call_read halt_execution
  read_cases a fuel m plain = elim (Option-cases (find_memarea a m.areas)) [
    | inl missing ↦ inl (ground arith)
    | inr (area, found) ↦ elim (Bool-cases (bit_and area.flags (read_mask (supervisor m)) == 0)) [
      | inl closed ↦ inl (ground arith)
      | inr opened ↦ inr (area.ptr + sub32 a area.base, ground (arith, plain area found))
    ]
  ]

  tos_read-Typed :
      (a fuel : ℕ) (m : State)
      → IsBytes m.host_mem
      → IsPlain m.areas a
      → Typed (λ v. v < 256) m.areas (tos_read a (suc fuel) m)
  tos_read-Typed a fuel m bytes plain = elim (read_cases a fuel m plain) [
    | inl e ↦ (0, halted m, e, omega arith, bytes, refl)
    | inr (c, e) ↦ (m.host_mem c, m, e, bytes c, bytes, refl)
  ]

  read_loop-Typed :
      (n a acc lim fuel : ℕ) (m : State) (areas : List MemoryArea)
      → m.areas ≡ areas
      → IsBytes m.host_mem
      → IsPlainFrom areas n a
      → acc < lim
      → scaled lim n ≤ u32_mod
      → Typed (λ v. v < scaled lim n) areas (read_loop tos_read n a acc (suc fuel) m)
  unfolding read_loop scaled
  read_loop-Typed zero a acc lim fuel m areas same bytes plain below fit =
      (acc, m, refl, below, bytes, same)
  read_loop-Typed (suc n) a acc lim fuel m areas same bytes plain below fit =
      let one : Typed (λ v. v < 256) areas (tos_read a (suc fuel) m) =
        subst (λ l. Typed (λ v. v < 256) l (tos_read a (suc fuel) m)) same
          (tos_read-Typed a fuel m bytes (subst (λ l. IsPlain l a) (sym same) plain.0)) in
      Typed-bind _ _ one λ b t small bytes' same'.
        let low : (acc * 256) % u32_mod ≡ acc * 256 = omega (arith, scaled-le (lim * 256) n) in
        let digit : bit_or (acc * 256) b ≡ acc * 256 + b = shifted-bit_or 8 acc b small in
        rw (low, digit)
          (read_loop-Typed n (add32 a 1) (acc * 256 + b) (lim * 256) fuel t areas same' bytes'
            plain.1 (omega arith) fit)

  tos_write-Typed :
      (a v fuel : ℕ) (m : State) (areas : List MemoryArea)
      → m.areas ≡ areas
      → IsBytes m.host_mem
      → v < 256
      → Typed (λ _. Unit {0}) areas (tos_write a v fuel m)
  tos_write-Typed a v fuel m areas same bytes small =
      rw (tos_write-written a v fuel m) (elim (Option-cases (write_cell m.areas (supervisor m) a)) [
        | inl closed ↦ rw closed (tt, halted m, refl, tt, bytes, same)
        | inr (c, there) ↦
            rw there
              (tt, written m v (some c), refl, tt, updated-IsBytes m.host_mem c v small bytes, same)
      ])

  write_loop-Typed :
      (n a v fuel : ℕ) (m : State) (areas : List MemoryArea)
      → m.areas ≡ areas
      → IsBytes m.host_mem
      → Typed (λ _. Unit {0}) areas (write_loop n a v fuel m)
  unfolding write_loop
  write_loop-Typed zero a v fuel m areas same bytes = (tt, m, refl, tt, bytes, same)
  write_loop-Typed (suc n) a v fuel m areas same bytes =
      Typed-bind _ _
        (tos_write-Typed (add32 a n) (bit_and v 0xff) fuel m areas same bytes
          (omega (arith, bit_and_byte v)))
        λ _ t _ bytes' same'. write_loop-Typed n a (v / 2 ^ 8) fuel t areas same' bytes'

  Typed-answer :
      {areas : List MemoryArea}
      → (r : Run State (Unit {0})) → Typed (λ _. Unit {0}) areas r
      → Typed (λ v. v < 1) areas (and_then r (λ _ t. done 0 t))
  Typed-answer r h = Typed-bind r _ h λ _ t _ bytes same. (0, t, refl, omega arith, bytes, same)

  access-Typed :
      (x : Access) (fuel : ℕ) (m : State) (areas : List MemoryArea)
      → m.areas ≡ areas
      → IsBytes m.host_mem
      → Avoids areas x
      → Typed (λ v. v < values x) areas (run_access x (suc fuel) m)
  unfolding run_access scaled m68k_read_disassembler_8 m68k_read_disassembler_16
      m68k_read_disassembler_32
  access-Typed (reads_8 a) fuel m areas same bytes plain =
      subst (λ l. Typed (λ v. v < 256) l (tos_read a (suc fuel) m)) same
        (tos_read-Typed a fuel m bytes (subst (λ l. IsPlain l a) (sym same) plain.0))
  access-Typed (reads_16 a) fuel m areas same bytes plain =
      read_loop-Typed 2 a 0 1 fuel m areas same bytes plain (omega arith) (omega arith)
  access-Typed (reads_32 a) fuel m areas same bytes plain =
      read_loop-Typed 4 a 0 1 fuel m areas same bytes plain (omega arith) (omega arith)
  access-Typed (writes_8 a v) fuel m areas same bytes plain =
      Typed-answer _ (tos_write-Typed a (v % 256) (suc fuel) m areas same bytes (omega arith))
  access-Typed (writes_16 a v) fuel m areas same bytes plain =
      Typed-answer _ (write_loop-Typed 2 a v (suc fuel) m areas same bytes)
  access-Typed (writes_32 a v) fuel m areas same bytes plain =
      Typed-answer _ (write_loop-Typed 4 a v (suc fuel) m areas same bytes)

  accesses-Typed :
      (xs : List Access) (fuel : ℕ) (m : State) (areas : List MemoryArea)
      → m.areas ≡ areas
      → IsBytes m.host_mem
      → AllAvoid areas xs
      → Typed (AnswersFit xs) areas (run_accesses xs (suc fuel) m)
  unfolding run_accesses
  accesses-Typed [] fuel m areas same bytes avoid = ([], m, refl, no_answers, bytes, same)
  accesses-Typed (x ∷ xs) fuel m areas same bytes avoid =
      Typed-bind _ _ (access-Typed x fuel m areas same bytes avoid.0) λ r t small bytes' same'.
        Typed-bind _ _ (accesses-Typed xs fuel t areas same' bytes' avoid.1)
          λ rs u fit bytes'' same''. (r ∷ rs, u, refl, fits x xs r rs small fit, bytes'', same'')

  -- Whatever bytes, words and long words the CPU core reads and writes, over any list of areas, in either
  -- mode, with any values written: the calls return, each answer fits the width that was read, host memory
  -- holds bytes afterwards as before, and the areas are the same. The reads avoid the magic bytes of
  -- Supexec.
  pub run_accesses-Typed :
      (xs : List Access) (fuel : ℕ) (m : State)
      → IsBytes m.host_mem
      → AllAvoid m.areas xs
      → Typed (AnswersFit xs) m.areas (run_accesses xs (suc fuel) m)
  run_accesses-Typed xs fuel m bytes avoid = accesses-Typed xs fuel m m.areas refl bytes avoid
