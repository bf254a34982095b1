-- ===== src/GemdosFile/Access.antt =====
-- gemdosfile.c: the file functions' variables in the state, and paths that a program passes.
use tosemu.Base.{ℕ, zero, suc, List, [], ◌∷◌, Option, none, some, ◌==◌, if◌then◌else◌, add32}
use tosemu.Platform.{Platform}
use tosemu.Machine.{M, done, pure, ◌>>=◌, ◌>>◌, ask}
use tosemu.Memory.{m68k_read_disassembler_8, m68k_write_memory_8}
use tosemu.GemdosFile.State.{FileState}
use tosemu.GemdosFile.Path.{path_max, host_path, path_from_tos}

module _ ⦃p : Platform⦄ where
  abbrev pub files : {A : Type 0} → (FileState → A) → M A
  files f fuel m = done (f m.files) m

  abbrev pub set_files : (FileState → FileState) → M (Unit {0})
  set_files f fuel m = done tt (record m { files = f m.files })

  -- The loop of get_path, for the rounds that are left: the bytes before the first 0.
  unfoldable pub get_path_loop : ℕ → ℕ → M (List ℕ)
  get_path_loop zero address = pure []
  get_path_loop (suc rounds) address = do
    ch ← m68k_read_disassembler_8 address
    if ch == 0
        then pure []
        else (do rest ← get_path_loop rounds (add32 address 1); pure (ch ∷ rest))

  unfoldable pub get_path : ℕ → M (List ℕ)
  unfolding get_path_loop
  get_path address = get_path_loop path_max address

  -- get_path and then path_from_tos with its `realpath`: the host path, or `none` for the result 0.
  unfoldable pub host_path_at : ℕ → M (Option (List ℕ))
  unfolding get_path
  host_path_at address = do
    buf ← get_path address
    base_path ← files (λ f. f.base_path)
    let ubuf = host_path base_path buf
    canonical ← ask (p.realpath ubuf)
    if path_from_tos base_path buf canonical == 0 then pure none else pure (some ubuf)

  -- Bytes are written one after the other from an address.
  unfoldable pub write_bytes : ℕ → List ℕ → M (Unit {0})
  write_bytes address [] = pure tt
  write_bytes address (b ∷ bs) = m68k_write_memory_8 address b >> write_bytes (add32 address 1) bs

  -- `n` bytes are read one after the other from an address.
  unfoldable pub read_bytes : ℕ → ℕ → M (List ℕ)
  read_bytes address zero = pure []
  read_bytes address (suc n) = do
    b ← m68k_read_disassembler_8 address
    bs ← read_bytes (add32 address 1) n
    pure (b ∷ bs)
