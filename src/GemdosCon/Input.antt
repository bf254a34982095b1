-- ===== src/GemdosCon/Input.antt =====
-- gemdoscon.c: Cconrs puts a line of the console into the program's line buffer.
use mathlib.Core.Path.{subst₂}
use tosemu.Base.{
  ℕ, suc, ◌+◌, ◌%◌, ◌≤◌, ◌<◌, ◌≡◌, ◌≢◌, refl, ◌∙◌, ap, Bool, true, false, List, [], ◌∷◌, ◌++◌, some,
  arith, add32, All, length, length-append, le→ltb, ne→==, if◌then◌else◌, u8_mod,
}
use tosemu.Platform.{Platform, Register}
use tosemu.Machine.{State, M, done, pure, ◌>>◌, update}
use tosemu.Memory.Cells.{Mapped, write_cell, tos_write-cell, tos_read-cell}
use tosemu.Memory.Access.{supervisor}
use tosemu.Memory.Words.{IsBytes, fetch}
use tosemu.Memory.{m68k_write_memory_8, m68k_read_memory_8, m68k_read_disassembler_8}
use tosemu.Cpu.Stack.{reg, peek_u32-fetch}
use tosemu.GemdosFile.Access.{write_bytes}
use tosemu.GemdosFile.Reading.{write_bytes-stored}
use tosemu.GemdosFile.Search.{store_bytes}
use tosemu.GemdosCon.{chomp, write_chars, write_line, store_line, cconrs}

-- What `fgets` reads of a line: it ends with a newline, unless the space or the input has ended.
abbrev pub read_line : List ℕ → Bool → List ℕ
read_line text ended = text ++ (if ended then b'\n' ∷ [] else [])

-- What stands in the buffer behind the two length bytes: the line, or a 0 if it is empty.
abbrev pub in_buffer : List ℕ → List ℕ
in_buffer [] = 0 ∷ []
in_buffer (b ∷ bs) = b ∷ bs

-- A line is not empty, or ends with a newline: `fgets` has read something.
abbrev pub IsRead : List ℕ → Bool → Type 0
IsRead [] false = ⊥
IsRead _ _ = Unit

read_some : (text : List ℕ) (ended : Bool) → IsRead text ended → 0 < length (read_line text ended)
read_some [] true h = omega arith
read_some [] false h = absurd h
read_some (b ∷ bs) ended h = omega arith

chomp-read_line :
    ⦃p : Platform⦄ (text : List ℕ) (ended : Bool)
    → All (λ b. b ≢ b'\n') text
    → chomp (read_line text ended) ≡ text
unfolding chomp
chomp-read_line [] true h = refl
chomp-read_line [] false h = refl
chomp-read_line (c ∷ []) true h = refl
chomp-read_line (c ∷ []) false h = rw (ne→== c b'\n' h.0) refl
chomp-read_line (c ∷ d ∷ rest) ended h = ap (λ l. c ∷ l) (chomp-read_line (d ∷ rest) ended h.1)

module _ ⦃p : Platform⦄ where
  -- What is done with the line when its newline is off.
  abbrev store_text : (lineptr : ℕ) → List ℕ → M ℕ
  store_text lineptr text = do
    m68k_write_memory_8 (add32 lineptr 1) (length text)
    write_line text (add32 lineptr 2)
    pure 0

  store_line-store_text :
      (lineptr maxlen : ℕ) (r text : List ℕ) (fuel : ℕ) (m : State)
      → 0 < length r
      → chomp r ≡ text
      → length text ≤ maxlen
      → store_line lineptr maxlen (some r) fuel m ≡ store_text lineptr text fuel m
  unfolding store_line
  store_line-store_text lineptr maxlen [] text fuel m some_read e few = elim some_read [ ]
  store_line-store_text lineptr maxlen (b ∷ bs) text fuel m some_read e few =
      rw e (rw (le→ltb maxlen (length text) few) refl)

  write_memory_8-cell :
      (a v c fuel : ℕ) (m : State)
      → v < 256
      → write_cell m.areas (supervisor m) a ≡ some c
      → m68k_write_memory_8 a v fuel m ≡ done tt (record m { host_mem = update m.host_mem c v })
  unfolding m68k_write_memory_8
  write_memory_8-cell a v c fuel m small there =
      let low : v % u8_mod ≡ v = omega arith in rw low (tos_write-cell a v c fuel m there)

  write_line-stored :
      (text : List ℕ) (a c fuel : ℕ) (m : State)
      → All (λ b. b < 256) text
      → Mapped m a (length (in_buffer text)) c
      → write_line text a fuel m
        ≡ done tt (record m { host_mem = store_bytes m.host_mem c (in_buffer text) })
  unfolding write_line write_chars write_bytes store_bytes
  write_line-stored [] a c fuel m small there =
      write_memory_8-cell a 0 c fuel m (omega arith) there.1
  write_line-stored (b ∷ bs) a c fuel m small there =
      write_bytes-stored (b ∷ bs) a c fuel m small there

  store_text-stored :
      (lineptr : ℕ) (text : List ℕ) (c fuel : ℕ) (m : State)
      → length text < 256
      → All (λ b. b < 256) text
      → Mapped m lineptr (suc (suc (length (in_buffer text)))) c
      → store_text lineptr text fuel m
        ≡ done 0 (record m {
          host_mem = store_bytes (update m.host_mem (c + 1) (length text)) (c + 2) (in_buffer text);
        })
  store_text-stored lineptr text c fuel m few small there =
      let m1 : State = record m { host_mem = update m.host_mem (c + 1) (length text) } in
      let e2 : add32 (add32 lineptr 1) 1 ≡ add32 lineptr 2 = omega arith in
      let ec : c + 1 + 1 ≡ c + 2 = omega arith in
      let text_there : Mapped m1 (add32 lineptr 2) (length (in_buffer text)) (c + 2) =
        subst₂ (λ x y. Mapped m1 x (length (in_buffer text)) y) e2 ec there.2.2 in
      rw (write_memory_8-cell (add32 lineptr 1) (length text) (c + 1) fuel m few there.2.1)
        (rw (write_line-stored text (add32 lineptr 2) (c + 2) fuel m1 small text_there) refl)

  -- A call of Cconrs: the address of the line buffer is on the stack, and the buffer starts at the host
  -- address `c`. `fgets` reads a line of at most one byte less than the buffer's first byte says.
  module _ (cs c fuel : ℕ) (m : State) (text : List ℕ) (ended : Bool) (bytes : IsBytes m.host_mem)
      (argument_there : Mapped m (add32 (reg m Register.a7) 2) 4 cs)
      (is_text : All (λ b. b ≢ b'\n') text) (is_bytes : All (λ b. b < 256) text)
      (is_read : IsRead text ended)
      (reads : (p.fgets (m.host_mem c) m.world).0 ≡ some (read_line text ended))
      (short : length (read_line text ended) < m.host_mem c) where
    abbrev pub lineptr : ℕ
    lineptr = fetch m.host_mem cs 4 0

    -- Cconrs, when `fgets` reads a line of bytes without another newline, and fewer of them than
    -- the first byte of the buffer says, stores the number of the line's characters, without its
    -- newline, in the second byte of the buffer and the characters behind it, or a 0 there for
    -- an empty line. It returns 0 and changes nothing else but the outside world. The argument
    -- and these bytes of the buffer are mapped.
    pub cconrs-stored :
        Mapped m lineptr (suc (suc (length (in_buffer text)))) c
        → cconrs (suc fuel) m
          ≡ done 0 (record m {
            world = (p.fgets (m.host_mem c) m.world).1;
            host_mem =
                store_bytes (update m.host_mem (c + 1) (length text)) (c + 2) (in_buffer text);
          })
    unfolding cconrs m68k_read_memory_8 m68k_read_disassembler_8
    cconrs-stored there =
        let w = (p.fgets (m.host_mem c) m.world).1 in
        let m1 : State = record m { world = w } in
        let longer : length text ≤ length (read_line text ended) =
          omega (arith, length-append {0} text (if ended then b'\n' ∷ [] else [])) in
        let maxlen = m.host_mem c in
        rw (peek_u32-fetch 2 cs fuel m bytes argument_there) (
          rw (tos_read-cell lineptr c fuel m there.0) (
            rw reads (
              store_line-store_text lineptr maxlen (read_line text ended) text (suc fuel) m1
                (read_some text ended is_read) (chomp-read_line text ended is_text) (omega arith)
              ∙ store_text-stored lineptr text c (suc fuel) m1 (omega (arith, bytes c)) is_bytes
                  there)))
