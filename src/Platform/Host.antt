-- ===== src/Platform/Host.antt =====
-- What the start of the program uses of the C library and the host system besides `Platform`. The
-- definitions take it as an instance.
use tosemu.Base.{ℕ, List, Option}
use tosemu.Platform.{Platform}

pub record Host (p : Platform) : Type 0 where
  -- `malloc` with the address of the block, 0 for NULL, and `free`.
  pub buffer : ℕ → p.World → ℕ × p.World
  pub free : ℕ → p.World → p.World
  pub getenv : List ℕ → p.World → Option (List ℕ)
  pub stdin : ℕ
  pub stdout : ℕ
  -- `open` with O_RDONLY: the file descriptor, or `none` for -1.
  pub open_rdonly : List ℕ → p.World → Option ℕ × p.World
  pub close : ℕ → p.World → p.World
  -- The bytes of a private mapping of so many bytes of a file; `none` is MAP_FAILED.
  pub mmap : (length fd : ℕ) → p.World → Option (List ℕ) × p.World
