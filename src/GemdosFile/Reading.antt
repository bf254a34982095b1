-- ===== src/GemdosFile/Reading.antt =====
-- gemdosfile.c: bytes that are copied into emulated memory or out of it, and the stream of a handle.
use tosemu.Base.{
  ℕ, zero, suc, ◌+◌, ◌%◌, ◌<◌, ◌≡◌, ◌≢◌, refl, List, [], ◌∷◌, some, arith, add32, All, length,
  get_elem?, u8_mod, ne→==,
}
use tosemu.Platform.{Platform}
use tosemu.Machine.{State, done, update}
use tosemu.Memory.Cells.{Mapped, tos_write-cell, tos_read-cell}
use tosemu.Memory.{m68k_write_memory_8, m68k_read_disassembler_8}
use tosemu.GemdosFile.State.{FHandle}
use tosemu.GemdosFile.Access.{write_bytes, read_bytes}
use tosemu.GemdosFile.Search.{store_bytes}
use tosemu.GemdosFile.Streams.{file_of}

-- The bytes of host memory from an address.
unfoldable pub bytes_from : (ℕ → ℕ) → ℕ → ℕ → List ℕ
bytes_from h c zero = []
bytes_from h c (suc n) = h c ∷ bytes_from h (c + 1) n

module _ ⦃p : Platform⦄ where
  pub write_bytes-stored :
      (bs : List ℕ) (a c fuel : ℕ) (m : State)
      → All (λ b. b < 256) bs
      → Mapped m a (length bs) c
      → write_bytes a bs fuel m ≡ done tt (record m { host_mem = store_bytes m.host_mem c bs })
  unfolding write_bytes store_bytes m68k_write_memory_8
  write_bytes-stored [] a c fuel m w h = refl
  write_bytes-stored (b ∷ bs) a c fuel m w h =
      let low : b % u8_mod ≡ b = omega arith in
      rw (low, tos_write-cell a b c fuel m h.1)
        (write_bytes-stored bs (add32 a 1) (c + 1) fuel
          (record m { host_mem = update m.host_mem c b }) w.1 h.2)

  pub read_bytes-taken :
      (n a c fuel : ℕ) (m : State)
      → Mapped m a n c
      → read_bytes a n (suc fuel) m ≡ done (bytes_from m.host_mem c n) m
  unfolding read_bytes bytes_from m68k_read_disassembler_8
  read_bytes-taken zero a c fuel m h = refl
  read_bytes-taken (suc n) a c fuel m h =
      rw (tos_read-cell a c fuel m h.0, read_bytes-taken n (add32 a 1) (c + 1) fuel m h.2) refl

  pub file_of-done :
      (i fuel : ℕ) (e : FHandle) (m : State)
      → get_elem? m.files.handles i ≡ some e
      → e.f ≢ 0
      → file_of i fuel m ≡ done e.f m
  unfolding file_of
  file_of-done i fuel e m found h = rw (found, file_of) (rw (ne→== e.f 0 h) refl)
