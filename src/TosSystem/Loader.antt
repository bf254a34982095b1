-- ===== src/TosSystem/Loader.antt =====
-- tossystem.c: the command line in the base page, and the relocation of a loaded binary.
use tosemu.Base.{
  ℕ, ◌%◌, true, false, List, [], ◌∷◌, ◌++◌, ◌==◌, if◌then◌else◌, add32, u8_mod, length,
}
use tosemu.Platform.{Platform}
use tosemu.Machine.{M, fault, pure, ◌>>=◌, ◌>>◌}
use tosemu.Memory.{m68k_read_memory_32, m68k_write_memory_32}

-- The bytes that the loop of copy_cmdlin stores before the terminator of the last `strcpy`: a space
-- before each argument.
unfoldable pub cmdlin_bytes : List (List ℕ) → List ℕ
cmdlin_bytes [] = []
cmdlin_bytes (arg ∷ rest) = b' ' ∷ arg ++ cmdlin_bytes rest

-- All the bytes that copy_cmdlin stores, the terminator included if there is an argument. The number of
-- bytes before the terminator less one, in a `char`, takes the place of the first byte.
unfoldable pub copy_cmdlin : List (List ℕ) → List ℕ
unfolding cmdlin_bytes
copy_cmdlin args = elim (cmdlin_bytes args) [
  | [] ↦ 0xff ∷ []
  | _ ∷ rest ↦ (length rest % u8_mod) ∷ rest ++ 0 ∷ []
]

module _ ⦃p : Platform⦄ where
  unfoldable pub relocate : ℕ → M (Unit {0})
  relocate adr = do old ← m68k_read_memory_32 adr; m68k_write_memory_32 adr (add32 old 0x900)

  -- The loop over the relocation bytes: 0 ends it, 1 moves on by 0xfe, and any other byte moves on by
  -- its value to an address that is relocated. The list is the file from the first of these bytes
  -- on. Where the file ends before a 0, the host reads behind it: a fault.
  unfoldable pub relocate_loop : ℕ → List ℕ → M (Unit {0})
  unfolding relocate
  relocate_loop adr [] = λ fuel m. fault
  relocate_loop adr (b ∷ rest) = elim (b == 0) [
    | true ↦ pure tt
    | false ↦ elim (b == 1) [
      | true ↦ relocate_loop (add32 adr 0xfe) rest
      | false ↦ relocate (add32 adr b) >> relocate_loop (add32 adr b) rest
    ]
  ]

  -- `first` is the offset before the relocation bytes; no relocation takes place if it is 0.
  unfoldable pub relocate_binary : (first : ℕ) → List ℕ → M (Unit {0})
  unfolding relocate relocate_loop
  relocate_binary first table =
      if add32 0x900 first == 0x900
      then pure tt
      else relocate (add32 0x900 first) >> relocate_loop (add32 0x900 first) table
