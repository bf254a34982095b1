-- ===== src/GemdosFile/Transfers.antt =====
-- gemdosfile.c: how Fread and Fwrite end, on every branch.
use tosemu.Base.{
  ℕ, zero, suc, ◌+◌, ◌%◌, ◌≤◌, ◌<◌, ◌≡◌, ◌≢◌, refl, true, false, List, some, ◌==◌, arith, add32,
  All, length, get_elem?, u16_mod, u32_mod, if◌then◌else◌, Bool, Bool-cases, Option-cases, inl, inr,
}
use tosemu.Platform.{Platform, Register}
use tosemu.Machine.{State, Run, done, fault}
use tosemu.Errors.{gemdos_eihndl, gemdos_ensmem, gemdos_eintrn}
use tosemu.Memory.Area.{MemoryArea}
use tosemu.Memory.Cells.{MapsTo, Mapped}
use tosemu.Memory.Words.{IsBytes, fetch}
use tosemu.Cpu.Stack.{reg, peek_u16-fetch, peek_u32-fetch}
use tosemu.GemdosFile.State.{FHandle}
use tosemu.GemdosFile.Handles.{invalid_handle}
use tosemu.GemdosFile.Search.{store_bytes}
use tosemu.GemdosFile.Streams.{file_of, fread, fwrite}
use tosemu.GemdosFile.Reading.{bytes_from, write_bytes-stored, read_bytes-taken, file_of-done}

-- The first addresses of a mapped range are mapped.
MapsTo-le :
    (areas : List MemoryArea) (super : Bool) (a n k c : ℕ)
    → k ≤ n
    → MapsTo areas super a n c
    → MapsTo areas super a k c
MapsTo-le areas super a n zero c few h = tt
MapsTo-le areas super a zero (suc k) c few h = absurd (omega arith)
MapsTo-le areas super a (suc n) (suc k) c few h =
    (h.0, h.1, MapsTo-le areas super (add32 a 1) n k (c + 1) (omega arith) h.2)

module _ ⦃p : Platform⦄ where
  -- How a call with handle `i` ends that copies `len` bytes: the handle is refused, there is no memory for
  -- the copy, the handle has no stream, or the call goes on with the handle's stream.
  pub data StreamEnds (i len : ℕ) (m : State) (on_stream : FHandle → Run State ℕ)
      : Run State ℕ → Type 0 where
    refused :
        invalid_handle m.files.handles i ≡ true
        → StreamEnds i len m on_stream (done gemdos_eihndl m)
    no_memory :
        invalid_handle m.files.handles i ≡ false
        → (p.malloc len m.world).0 ≡ false
        → StreamEnds i len m on_stream
            (done gemdos_ensmem (record m { world = (p.malloc len m.world).1 }))
    no_stream :
        (e : FHandle)
        → invalid_handle m.files.handles i ≡ false
        → (p.malloc len m.world).0 ≡ true
        → get_elem? m.files.handles i ≡ some e
        → e.f ≡ 0
        → StreamEnds i len m on_stream fault
    goes_on :
        (e : FHandle)
        → invalid_handle m.files.handles i ≡ false
        → (p.malloc len m.world).0 ≡ true
        → get_elem? m.files.handles i ≡ some e
        → e.f ≢ 0
        → StreamEnds i len m on_stream (on_stream e)

  -- What the host's `fread` brings, and what Fread makes of it.
  abbrev pub bytes_read : ℕ → State → FHandle → List ℕ
  bytes_read len m e = (p.fread e.f len (p.malloc len m.world).1).0

  abbrev pub read_end : (len c : ℕ) → State → FHandle → Run State ℕ
  read_end len c m e =
      let w = (p.fread e.f len (p.malloc len m.world).1).1 in
      if p.ferror e.f w
      then done gemdos_eintrn (record m { world = w })
      else done (length (bytes_read len m e) % u32_mod)
          (record m { world = w; host_mem = store_bytes m.host_mem c (bytes_read len m e) })

  -- What Fwrite makes of the result of the host's `fwrite`, which is given the bytes of the buffer.
  abbrev pub write_end : (len c : ℕ) → State → FHandle → Run State ℕ
  write_end len c m e =
      let r = p.fwrite (bytes_from m.host_mem c len) e.f (p.malloc len m.world).1 in
      if p.ferror e.f r.1
      then done gemdos_eintrn (record m { world = r.1 })
      else done (r.0 % u32_mod) (record m { world = r.1 })

  file_of-null :
      (i fuel : ℕ) (e : FHandle) (m : State)
      → get_elem? m.files.handles i ≡ some e
      → e.f ≡ 0
      → file_of i fuel m ≡ fault
  unfolding file_of
  file_of-null i fuel e m found null = ground arith

  valid_entry :
      (i : ℕ) (hs : List FHandle)
      → invalid_handle hs i ≡ false
      → (e : FHandle) × (get_elem? hs i ≡ some e)
  unfolding invalid_handle
  valid_entry i hs valid = elim (Option-cases (get_elem? hs i)) [
    | inl missing ↦ absurd (ground arith)
    | inr q ↦ q
  ]

  -- A call of Fread or Fwrite: the handle, the length and the address of the buffer are on the stack, and the
  -- buffer is mapped.
  module _ (c2 c4 c8 c fuel : ℕ) (m : State) (bytes : IsBytes m.host_mem)
      (handle_there : Mapped m (add32 (reg m Register.a7) 2) 2 c2)
      (len_there : Mapped m (add32 (reg m Register.a7) 4) 4 c4)
      (buf_there : Mapped m (add32 (reg m Register.a7) 8) 4 c8)
      (there : Mapped m (fetch m.host_mem c8 4 0) (fetch m.host_mem c4 4 0) c) where
    abbrev pub handle : ℕ
    handle = fetch m.host_mem c2 2 0 % u16_mod

    abbrev pub len : ℕ
    len = fetch m.host_mem c4 4 0

    abbrev pub buf : ℕ
    buf = fetch m.host_mem c8 4 0

    abbrev copied : State
    copied = record m { world = (p.malloc len m.world).1 }

    -- A run that ends in these ways.
    ends :
        (r : Run State ℕ) (on_stream : FHandle → Run State ℕ)
        → (invalid_handle m.files.handles handle ≡ true → r ≡ done gemdos_eihndl m)
        → (invalid_handle m.files.handles handle ≡ false
            → (p.malloc len m.world).0 ≡ false
            → r ≡ done gemdos_ensmem copied)
        → ((e : FHandle)
            → invalid_handle m.files.handles handle ≡ false
            → (p.malloc len m.world).0 ≡ true
            → get_elem? m.files.handles handle ≡ some e
            → (e.f ≡ 0 → r ≡ fault) × (e.f ≢ 0 → r ≡ on_stream e))
        → StreamEnds handle len m on_stream r
    ends r on_stream bad full found = elim (Bool-cases (invalid_handle m.files.handles handle)) [
      | inl invalid ↦ rw (bad invalid) (refused invalid)
      | inr valid ↦ elim (Bool-cases (p.malloc len m.world).0) [
        | inr none_left ↦ rw (full valid none_left) (no_memory valid none_left)
        | inl room ↦
            let (e, at) = valid_entry handle m.files.handles valid in
            let on = found e valid room at in
            elim (Bool-cases (e.f == 0)) [
              | inl null ↦
                  let is_null : e.f ≡ 0 = ground arith in
                  rw (on.0 is_null) (no_stream e valid room at is_null)
              | inr stream ↦
                  let has_stream : e.f ≢ 0 = ground arith in
                  rw (on.1 has_stream) (goes_on e valid room at has_stream)
            ]
      ]
    ]

    -- Fread returns EIHNDL for a handle that is not valid, ENSMEM without memory for a copy of `len` bytes,
    -- and EINTRN after an error of the stream; the state is otherwise as the host's calls leave the
    -- outside world. The host faults for a handle without a stream. In every other case exactly the bytes
    -- that the host read are stored, one after the other from the buffer's address, and their number is
    -- returned. The arguments and the buffer are mapped, and the host reads at most `len` bytes.
    pub fread-StreamEnds :
        ((e : FHandle)
          → get_elem? m.files.handles handle ≡ some e
          → (length (bytes_read len m e) ≤ len) × All (λ b. b < 256) (bytes_read len m e))
        → StreamEnds handle len m (read_end len c m) (fread (suc fuel) m)
    unfolding fread
    fread-StreamEnds reads =
        rw
          (
            peek_u16-fetch 2 c2 fuel m bytes handle_there,
            peek_u32-fetch 4 c4 fuel m bytes len_there,
            peek_u32-fetch 8 c8 fuel m bytes buf_there,
          )
          (ends _ (read_end len c m) (λ invalid. rw invalid refl)
            (λ valid full. rw (valid, full) refl)
            λ e valid room found. (
              (λ null. rw (valid, room, file_of-null handle (suc fuel) e copied found null) refl),
              λ has_stream.
                  let bs = bytes_read len m e in
                  let w = (p.fread e.f len copied.world).1 in
                  let (few, small) = reads e found in
                  let stored : Mapped m buf (length bs) c =
                    MapsTo-le _ _ buf len (length bs) c few there in
                  rw (valid, room, file_of-done handle (suc fuel) e copied found has_stream)
                    (elim (Bool-cases (p.ferror e.f w)) [
                      | inl failed ↦ rw failed refl
                      | inr good ↦
                          rw
                            (
                              good,
                              write_bytes-stored bs buf c (suc fuel) (record m { world = w }) small
                                  stored,
                            )
                            refl
                    ]),
            ))

    -- Fwrite returns EIHNDL for a handle that is not valid, ENSMEM without memory for a copy of `len` bytes,
    -- and EINTRN after an error of the stream. The host faults for a handle without a stream. In every
    -- other case the host is given exactly the bytes of the buffer, and the number that it reports is
    -- returned. Nothing but the outside world is changed. The arguments and the buffer are mapped.
    pub fwrite-StreamEnds : StreamEnds handle len m (write_end len c m) (fwrite (suc fuel) m)
    unfolding fwrite
    fwrite-StreamEnds =
        rw
          (
            peek_u16-fetch 2 c2 fuel m bytes handle_there,
            peek_u32-fetch 4 c4 fuel m bytes len_there,
            peek_u32-fetch 8 c8 fuel m bytes buf_there,
          )
          (ends _ (write_end len c m) (λ invalid. rw invalid refl)
            (λ valid full. rw (valid, full) refl)
            λ e valid room found. (
              (λ null.
                  rw
                    (
                      valid,
                      room,
                      read_bytes-taken len buf c fuel copied there,
                      file_of-null handle (suc fuel) e copied found null,
                    )
                    refl),
              λ has_stream.
                  let r = p.fwrite (bytes_from m.host_mem c len) e.f copied.world in
                  rw
                    (
                      valid,
                      room,
                      read_bytes-taken len buf c fuel copied there,
                      file_of-done handle (suc fuel) e copied found has_stream,
                    )
                    (elim (Bool-cases (p.ferror e.f r.1)) [
                      | inl failed ↦ rw failed refl
                      | inr good ↦ rw good refl
                    ]),
            ))
