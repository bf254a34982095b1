-- ===== src/System/Ready.antt =====
-- tossystem.c: a start of an executable file, from the file format to what the program finds in memory.
use tosemu.Base.{
  ℕ, ◌+◌, ◌*◌, ◌≤◌, ◌<◌, ◌≡◌, ◌≢◌, ◌⊎◌, refl, ap, sym, ◌∙◌, true, List, ◌∷◌, ◌++◌, some, arith,
  length, length-append, take, get_elem?, u16_mod, u32_mod, add32,
}
use mathlib.Core.Path.{subst}
use tosemu.Platform.{Platform}
use tosemu.Platform.Host.{Host}
use tosemu.Machine.{State, done}
use tosemu.Memory.Words.{fetch}
use tosemu.GemdosFile.Search.{store_bytes}
use tosemu.GemdosFile.Reading.{bytes_from}
use tosemu.GemdosFile.Dta.{store_bytes_outside, bytes_from-within, bytes_from-store_bytes}
use tosemu.TosSystem.Layout.{Buffers, tos_areas, user_ram_size}
use tosemu.TosSystem.Header.{
  segments, copied_size, exec_header, init_basepage, words_bytes, basepage_bytes,
}
use tosemu.TosSystem.BasePage.{shown_words, base_page-shown}
use tosemu.TosSystem.Start.{TosEnvironment, init_tos_environment}
use tosemu.System.Started.{buffers, allocated}
use tosemu.System.Loading.{image, init_tos_environment-Loaded}
use tosemu.TosSystem.Executable.{
  Executable, contents, file_bytes, page_words, joined, command_line, take-append, sizes,
  segments-file_bytes, absflag-file_bytes, stored_part, page_head, page_tail, basepage_bytes-parts,
  length-basepage_bytes,
}

-- What the program finds when it starts. Host memory was `h`.
pub record Ready ⦃p : Platform⦄ (e : Executable) (line : List ℕ) (h : ℕ → ℕ) (te : TosEnvironment)
    (s : State) : Type 0 where
  pub text_size : te.segments.tsize ≡ length e.text_bytes
  pub data_size : te.segments.dsize ≡ length e.data_bytes
  pub bss_size : te.segments.bsize ≡ e.bss
  pub symbols_size : te.segments.ssize ≡ length e.symbol_bytes
  pub mapped : s.areas ≡ tos_areas te.buffers
  pub runs : s.keepongoing ≡ true
  pub in_ram : bytes_from s.host_mem te.buffers.appmem (length (contents e)) ≡ contents e
  pub page :
      (i w : ℕ)
      → get_elem? (page_words e) i ≡ some w
      → fetch s.host_mem (te.buffers.bp + 4 * i) 4 0 ≡ w
  pub arguments : bytes_from s.host_mem (te.buffers.bp + 128) (length line) ≡ line
  pub elsewhere :
      (q : ℕ)
      → (q < te.buffers.appmem) ⊎ (te.buffers.appmem + length (contents e) ≤ q)
      → (q < te.buffers.bp) ⊎ (te.buffers.bp + 0x100 ≤ q)
      → s.host_mem q ≡ h q

module _ ⦃p : Platform⦄ ⦃host : Host p⦄ (granted : (n : ℕ) (w : p.World) → (p.malloc n w).0 ≡ true)
    (allotted : (n : ℕ) (w : p.World) → (host.buffer n w).0 ≢ 0) where
  module _ (e : Executable) (behind : List ℕ) (fits : length (contents e) ≤ user_ram_size)
      (bss_fits : e.bss < u32_mod) where
    total : length (contents e) ≡ length e.text_bytes + length e.data_bytes + length e.symbol_bytes
    total = omega (
      arith,
      length-append (e.text_bytes ++ e.data_bytes) e.symbol_bytes,
      length-append e.text_bytes e.data_bytes,
    )

    decoded : segments (exec_header (file_bytes e behind)) ≡ sizes e behind
    decoded =
        segments-file_bytes e behind (omega (arith, total)) (omega (arith, total)) bss_fits
          (omega (arith, total))

    copied : take (copied_size (sizes e behind)) (contents e ++ behind) ≡ contents e
    copied = take-append (contents e) behind (copied_size (sizes e behind)) (omega (arith, total))

    shown : shown_words (sizes e behind) ≡ page_words e
    shown =
        let dbase : add32 0x900 (length e.text_bytes) ≡ 0x900 + length e.text_bytes =
          omega (arith, total) in
        let bbase : add32 (0x900 + length e.text_bytes) (length e.data_bytes)
            ≡ 0x900 + length e.text_bytes + length e.data_bytes =
          omega (arith, total) in
        rw (dbase, bbase) refl

    -- Host memory after the start, from the contents of the file and its base page.
    ready_memory : (ℕ → ℕ) → Buffers → List ℕ → List (List ℕ) → ℕ → ℕ
    ready_memory h b arg args =
        store_bytes (store_bytes h b.appmem (contents e)) b.bp
          (basepage_bytes (init_basepage (sizes e behind) (arg ∷ args)))

    image-ready_memory :
        (h : ℕ → ℕ) (b : Buffers) (arg : List ℕ) (args : List (List ℕ))
        → image (file_bytes e behind) (arg ∷ args) h b ≡ ready_memory h b arg args
    unfolding ready_memory
    image-ready_memory h b arg args =
        ap
          (λ s.
            store_bytes (store_bytes h b.appmem (take (copied_size s) (contents e ++ behind))) b.bp
              (basepage_bytes (init_basepage s (arg ∷ args))))
          decoded
        ∙ ap
            (λ l.
              store_bytes (store_bytes h b.appmem l) b.bp
                (basepage_bytes (init_basepage (sizes e behind) (arg ∷ args))))
            copied

    -- What stands where, in buffers that do not overlap.
    module _ (h : ℕ → ℕ) (b : Buffers) (arg : List ℕ) (args : List (List ℕ))
        (short : length (joined arg args) + 2 ≤ 128)
        (apart : (b.bp + 0x100 ≤ b.appmem) ⊎ (b.appmem + user_ram_size ≤ b.bp)) where
      abbrev the_page : List ℕ
      the_page = basepage_bytes (init_basepage (sizes e behind) (arg ∷ args))

      abbrev segments_loaded : ℕ → ℕ
      segments_loaded = store_bytes h b.appmem (contents e)

      page_size : length the_page ≡ 256
      page_size = length-basepage_bytes (sizes e behind) arg args short

      ready_ram : bytes_from (ready_memory h b arg args) b.appmem (length (contents e)) ≡ contents e
      unfolding ready_memory
      ready_ram =
          bytes_from-within (ready_memory h b arg args) segments_loaded b.appmem
            (length (contents e))
            (λ q l r. store_bytes_outside segments_loaded b.bp the_page q (outside q l r))
          ∙ bytes_from-store_bytes h b.appmem (contents e)
        where
          outside :
              (q : ℕ)
              → b.appmem ≤ q
              → q < b.appmem + length (contents e)
              → (q < b.bp) ⊎ (b.bp + length the_page ≤ q)
          outside q l r = ground (arith, page_size)

      ready_words :
          (i w : ℕ)
          → get_elem? (page_words e) i ≡ some w
          → fetch (ready_memory h b arg args) (b.bp + 4 * i) 4 0 ≡ w
      unfolding ready_memory
      ready_words i w at =
          base_page-shown segments_loaded b.bp (sizes e behind) (arg ∷ args) i w
            (omega (arith, total)) (omega (arith, total)) bss_fits
            (ap (λ ws. get_elem? ws i) shown ∙ at)

      ready_arguments :
          bytes_from (ready_memory h b arg args) (b.bp + 128) (length (command_line arg args))
          ≡ command_line arg args
      unfolding ready_memory store_bytes words_bytes
      ready_arguments =
          ap
            (λ l.
              bytes_from (store_bytes segments_loaded b.bp l) (b.bp + 128)
                (length (command_line arg args)))
            (basepage_bytes-parts (sizes e behind) arg args short)
          ∙ stored_part segments_loaded b.bp (page_head (sizes e behind) arg args short)
              (command_line arg args) (page_tail (sizes e behind) arg args short)

      ready_elsewhere :
          (q : ℕ)
          → (q < b.appmem) ⊎ (b.appmem + length (contents e) ≤ q)
          → (q < b.bp) ⊎ (b.bp + 0x100 ≤ q)
          → ready_memory h b arg args q ≡ h q
      unfolding ready_memory
      ready_elsewhere q not_ram not_page =
          store_bytes_outside segments_loaded b.bp the_page q (ground (arith, page_size))
          ∙ store_bytes_outside h b.appmem (contents e) q not_ram

    -- An executable without relocation, in a file with a header that gives the sizes of its parts, is
    -- started: init_tos_environment returns, with these sizes, and with the memory map set up and the
    -- execution going on. Text, data and symbols then stand in the user RAM, one behind the other. The
    -- base page shows the program, which is big-endian, the bounds of its memory and the address and
    -- length of text, data and bss, with the address of the DTA as 0x80080000 instead of 0x880, and holds
    -- the command line. No byte of host memory outside of these is changed. The segments fit into the user
    -- RAM, bss has a 32-bit size, the flag against relocation is set and has 16 bits, there is at least
    -- one argument, and the command line fits into the base page. The host grants the memory, with the
    -- base page apart from the user RAM, and the fuel is more than the number of areas before.
    pub init_tos_environment-Ready :
        (arg : List ℕ) (args : List (List ℕ)) (fuel : ℕ) (m : State)
        → e.absflag < u16_mod
        → e.absflag ≢ 0
        → length (joined arg args) + 2 ≤ 128
        → length m.areas < fuel
        → (let b = buffers m.world (host.buffer 0x100 (allocated m.world)).0 in
            (b.bp + 0x100 ≤ b.appmem) ⊎ (b.appmem + user_ram_size ≤ b.bp))
        → (te : TosEnvironment) × (s : State) × (init_tos_environment
              (file_bytes e behind)
              (arg ∷ args)
              fuel
              m
            ≡ done (some te) s)
          × Ready e (command_line arg args) m.host_mem te s
    init_tos_environment-Ready arg args fuel m flag_fits fixed short few apart =
        let b : Buffers = buffers m.world (host.buffer 0x100 (allocated m.world)).0 in
        let enough : copied_size (segments (exec_header (file_bytes e behind)))
            ≤ length (contents e ++ behind) =
          rw decoded (omega (arith, total, length-append (contents e) behind)) in
        let start =
          init_tos_environment-Loaded granted allotted (file_bytes e behind) (arg ∷ args) fuel m
            (omega arith) enough few (absflag-file_bytes e behind flag_fits fixed) in
        let same = sym start.3 in
        let h : start.1.host_mem ≡ ready_memory m.host_mem start.0.buffers arg args =
          start.4.3
          ∙ image-ready_memory m.host_mem b arg args
          ∙ ap (λ x. ready_memory m.host_mem x arg args) same in
        let apart' =
          subst (λ x. (x.bp + 0x100 ≤ x.appmem) ⊎ (x.appmem + user_ram_size ≤ x.bp)) same apart in
        let sized = start.4.0 ∙ decoded in
        (
          start.0,
          start.1,
          start.2,
          record {
            text_size = ap (λ x. x.tsize) sized;
            data_size = ap (λ x. x.dsize) sized;
            bss_size = ap (λ x. x.bsize) sized;
            symbols_size = ap (λ x. x.ssize) sized;
            mapped = start.4.1;
            runs = start.4.2;
            in_ram = rw h (ready_ram m.host_mem start.0.buffers arg args short apart');
            page = rw h (ready_words m.host_mem start.0.buffers arg args short apart');
            arguments = rw h (ready_arguments m.host_mem start.0.buffers arg args short apart');
            elsewhere = rw h (ready_elsewhere m.host_mem start.0.buffers arg args short apart');
          },
        )
