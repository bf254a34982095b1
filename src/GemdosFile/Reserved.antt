-- ===== src/GemdosFile/Reserved.antt =====
-- gemdosfile.c: the handles that gemdos_file_init reserves without a stream.
use tosemu.Base.{
  ℕ, zero, suc, ◌%◌, ◌≤◌, ◌<◌, ◌≡◌, refl, true, false, some, arith, add32, get_elem?, u16_mod,
}
use tosemu.Platform.{Platform, Register}
use tosemu.Machine.{State, fault}
use tosemu.Memory.Cells.{Mapped}
use tosemu.Memory.Words.{IsBytes, fetch}
use tosemu.Cpu.Stack.{reg, peek_u16-fetch, peek_u32-fetch}
use tosemu.GemdosFile.State.{FHandle}
use tosemu.GemdosFile.Handles.{init_handles, invalid_handle, release_handle}
use tosemu.GemdosFile.Reading.{read_bytes-taken}
use tosemu.GemdosFile.Streams.{file_of, fclose, fread, fwrite}

-- An entry of the table without a stream.
abbrev no_stream : ℕ → FHandle
no_stream flags = record { f = 0; flags = flags }

-- The handles 2 to 5 are valid and have no stream, also when their flags have just been reset.
reserved_entry :
    (i stdin stdout : ℕ)
    → 2 ≤ i
    → i < 6
    → (invalid_handle (init_handles stdin stdout) i ≡ false)
      × (get_elem? (init_handles stdin stdout) i ≡ some (no_stream 1))
      × (get_elem? (release_handle (init_handles stdin stdout) i) i ≡ some (no_stream 0))
unfolding invalid_handle init_handles release_handle
reserved_entry zero stdin stdout l r = absurd (omega arith)
reserved_entry (suc zero) stdin stdout l r = absurd (omega arith)
reserved_entry (suc (suc zero)) stdin stdout l r = (refl, refl, refl)
reserved_entry (suc (suc (suc zero))) stdin stdout l r = (refl, refl, refl)
reserved_entry (suc (suc (suc (suc zero)))) stdin stdout l r = (refl, refl, refl)
reserved_entry (suc (suc (suc (suc (suc zero))))) stdin stdout l r = (refl, refl, refl)
reserved_entry (suc (suc (suc (suc (suc (suc i)))))) stdin stdout l r = absurd (omega arith)

module _ ⦃p : Platform⦄ where
  file_of-null :
      (i flags fuel : ℕ) (m : State)
      → get_elem? m.files.handles i ≡ some (no_stream flags)
      → file_of i fuel m ≡ fault
  unfolding file_of
  file_of-null i flags fuel m e = rw (e, file_of) refl

  module _ (c2 c4 c8 c fuel stdin stdout : ℕ) (m : State) (bytes : IsBytes m.host_mem)
      (handle_there : Mapped m (add32 (reg m Register.a7) 2) 2 c2)
      (len_there : Mapped m (add32 (reg m Register.a7) 4) 4 c4)
      (buf_there : Mapped m (add32 (reg m Register.a7) 8) 4 c8)
      (initial : m.files.handles ≡ init_handles stdin stdout)
      (from_2 : 2 ≤ fetch m.host_mem c2 2 0 % u16_mod)
      (to_5 : fetch m.host_mem c2 2 0 % u16_mod < 6) where
    abbrev handle : ℕ
    handle = fetch m.host_mem c2 2 0 % u16_mod

    abbrev len : ℕ
    len = fetch m.host_mem c4 4 0

    abbrev buf : ℕ
    buf = fetch m.host_mem c8 4 0

    valid : invalid_handle m.files.handles handle ≡ false
    valid = rw initial (reserved_entry handle stdin stdout from_2 to_5).0

    entry : get_elem? m.files.handles handle ≡ some (no_stream 1)
    entry = rw initial (reserved_entry handle stdin stdout from_2 to_5).1

    released : get_elem? (release_handle m.files.handles handle) handle ≡ some (no_stream 0)
    released = rw initial (reserved_entry handle stdin stdout from_2 to_5).2

    fclose-faults : fclose (suc fuel) m ≡ fault
    unfolding fclose
    fclose-faults =
        let m1 : State = record m {
          files = record m.files { handles = release_handle m.files.handles handle };
        } in
        rw (peek_u16-fetch 2 c2 fuel m bytes handle_there)
          (rw valid (rw (file_of-null handle 0 (suc fuel) m1 released) refl))

    fread-faults : (p.malloc len m.world).0 ≡ true → fread (suc fuel) m ≡ fault
    unfolding fread
    fread-faults room =
        let m1 : State = record m { world = (p.malloc len m.world).1 } in
        rw (peek_u16-fetch 2 c2 fuel m bytes handle_there) (
          rw (peek_u32-fetch 4 c4 fuel m bytes len_there) (
            rw (peek_u32-fetch 8 c8 fuel m bytes buf_there)
              (rw (valid, room) (rw (file_of-null handle 1 (suc fuel) m1 entry) refl))))

    fwrite-faults :
        (p.malloc len m.world).0 ≡ true → Mapped m buf len c → fwrite (suc fuel) m ≡ fault
    unfolding fwrite
    fwrite-faults room there =
        let m1 : State = record m { world = (p.malloc len m.world).1 } in
        rw (peek_u16-fetch 2 c2 fuel m bytes handle_there) (
          rw (peek_u32-fetch 4 c4 fuel m bytes len_there) (
            rw (peek_u32-fetch 8 c8 fuel m bytes buf_there) (
              rw (valid, room)
                (rw (read_bytes-taken len buf c fuel m1 there)
                  (rw (file_of-null handle 1 (suc fuel) m1 entry) refl)))))

    -- With the table of handles as gemdos_file_init sets it up, Fclose, Fread and Fwrite on a handle from 2 to
    -- 5, of which 2 is the standard error, pass the test of the handle and then use a NULL pointer as the
    -- stream: the host faults. The host grants the copy of the buffer, and for Fwrite the buffer is mapped.
    pub reserved-fault :
        (p.malloc len m.world).0 ≡ true
        → Mapped m buf len c
        → (fclose (suc fuel) m ≡ fault)
          × (fread (suc fuel) m ≡ fault)
          × (fwrite (suc fuel) m ≡ fault)
    reserved-fault room there = (fclose-faults, fread-faults room, fwrite-faults room there)
