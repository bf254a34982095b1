-- ===== src/Memory/Flat.antt =====
-- What the memory functions of memory.c promise to a program, without areas, pointers and host memory:
-- one byte for each address that is open to the program. An access to any other address reads 0 or
-- writes nothing, and stops the execution. Words and long words are big-endian.
use tosemu.Base.{ℕ, zero, suc, ◌+◌, ◌*◌, ◌/◌, ◌%◌, Bool, false, List, [], ◌∷◌, if◌then◌else◌, add32}
use tosemu.Machine.{update}

pub record Flat : Type 0 where
  pub bytes : ℕ → ℕ
  pub running : Bool

-- A program's access, of 1, 2 or 4 bytes.
pub data Access : Type 0 where
  reads_8 reads_16 reads_32 : ℕ → Access
  writes_8 writes_16 writes_32 : ℕ → ℕ → Access

module _ (open_at : ℕ → Bool) where
  abbrev pub stop : Flat → Flat
  stop f = record f { running = false }

  unfoldable pub read_byte : ℕ → Flat → ℕ × Flat
  read_byte a f = if open_at a then (f.bytes a, f) else (0, stop f)

  -- `n` bytes from an address, behind the digits of `acc`.
  unfoldable pub read : ℕ → ℕ → ℕ → Flat → ℕ × Flat
  unfolding read_byte
  read zero a acc f = (acc, f)
  read (suc n) a acc f = let r = read_byte a f in read n (add32 a 1) (acc * 256 + r.0) r.1

  unfoldable pub write_byte : ℕ → ℕ → Flat → Flat
  write_byte a v f = if open_at a then record f { bytes = update f.bytes a v } else stop f

  -- The last of the `n` bytes is stored first.
  unfoldable pub write : ℕ → ℕ → ℕ → Flat → Flat
  unfolding write_byte
  write zero a v f = f
  write (suc n) a v f = write n a (v / 256) (write_byte (add32 a n) (v % 256) f)

  -- The answer of a write is 0.
  unfoldable pub access : Access → Flat → ℕ × Flat
  unfolding read write
  access (reads_8 a) f = read_byte a f
  access (reads_16 a) f = read 2 a 0 f
  access (reads_32 a) f = read 4 a 0 f
  access (writes_8 a v) f = (0, write_byte a (v % 256) f)
  access (writes_16 a v) f = (0, write 2 a v f)
  access (writes_32 a v) f = (0, write 4 a v f)

  unfoldable pub accesses : List Access → Flat → List ℕ × Flat
  unfolding access
  accesses [] f = ([], f)
  accesses (x ∷ xs) f = let r = access x f in let rest = accesses xs r.1 in (r.0 ∷ rest.0, rest.1)
