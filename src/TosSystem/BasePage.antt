-- ===== src/TosSystem/BasePage.antt =====
-- tossystem.c: the base page as the emulated program reads it.
use tosemu.Base.{
  ℕ, zero, suc, ◌+◌, ◌*◌, ◌/◌, ◌%◌, ◌<◌, ◌≡◌, refl, ap, ◌∙◌, List, [], ◌∷◌, ◌++◌, map, some, arith,
  get_elem?, add32, u32_mod,
}
use mathlib.Core.Option.{some-injective}
use tosemu.Machine.{update}
use tosemu.Utils.{endianize_32, endianize_loop}
use tosemu.Utils.Reversal.{reversed_32, endianize-endianize}
use tosemu.Memory.Words.{fetch}
use tosemu.GemdosFile.Search.{store_bytes}
use tosemu.TosSystem.Header.{
  Segments, swap, le_bytes, words_bytes, basepage_words, basepage_bytes, init_basepage,
}

store_bytes_before : (h : ℕ → ℕ) (c : ℕ) (bs : List ℕ) (q : ℕ) → q < c → store_bytes h c bs q ≡ h q
unfolding store_bytes update
store_bytes_before h c [] q l = refl
store_bytes_before h c (b ∷ bs) q l = ground (arith, store_bytes_before (update h c b) (c + 1) bs q)

-- Host memory with the four bytes of a word stored.
abbrev with_word : (ℕ → ℕ) → ℕ → ℕ → ℕ → ℕ
with_word h c w =
    update
      (update (update (update h c (w % 256)) (c + 1) (w / 256 % 256)) (c + 1 + 1)
        (w / 256 / 256 % 256))
      (c + 1 + 1 + 1) (w / 256 / 256 / 256 % 256)

with_word-bytes :
    (h : ℕ → ℕ) (c w : ℕ)
    → (with_word h c w c ≡ w % 256)
      × (with_word h c w (c + 1) ≡ w / 256 % 256)
      × (with_word h c w (c + 1 + 1) ≡ w / 256 / 256 % 256)
      × (with_word h c w (c + 1 + 1 + 1) ≡ w / 256 / 256 / 256 % 256)
unfolding update
with_word-bytes h c w = (ground arith, ground arith, ground arith, ground arith)

-- The first word of the stored bytes, read as a big-endian number.
fetch-first :
    (h : ℕ → ℕ) (c w : ℕ) (rest : List ℕ)
    → fetch (store_bytes h c (le_bytes 4 w ++ rest)) c 4 0 ≡ swap w
unfolding fetch store_bytes le_bytes
fetch-first h c w rest =
    let h' = with_word h c w in
    let bytes = with_word-bytes h c w in
    let before : (q : ℕ)
        → q < c + 1 + 1 + 1 + 1
        → store_bytes h' (c + 1 + 1 + 1 + 1) rest q ≡ h' q =
      store_bytes_before h' (c + 1 + 1 + 1 + 1) rest in
    omega (
      arith,
      before c (omega arith),
      before (c + 1) (omega arith),
      before (c + 1 + 1) (omega arith),
      before (c + 1 + 1 + 1) (omega arith),
      bytes.0,
      bytes.1,
      bytes.2,
      bytes.3,
      reversed_32 0 w,
    )

-- Each of the words.
fetch-word :
    (h : ℕ → ℕ) (c i w : ℕ) (ws rest : List ℕ)
    → get_elem? ws i ≡ some w
    → fetch (store_bytes h c (words_bytes ws ++ rest)) (c + 4 * i) 4 0 ≡ swap w
unfolding words_bytes store_bytes le_bytes
fetch-word h c i w [] rest e = absurd (ground arith)
fetch-word h c zero w (v ∷ ws) rest e =
    let ec : c + 4 * 0 ≡ c = omega arith in
    rw ec (fetch-first h c v (words_bytes ws ++ rest) ∙ ap swap (some-injective v w e))
fetch-word h c (suc i) w (v ∷ ws) rest e =
    let ec : c + 4 * suc i ≡ c + 1 + 1 + 1 + 1 + 4 * i = omega arith in
    rw ec (fetch-word (with_word h c v) (c + 1 + 1 + 1 + 1) i w ws rest e)

-- The numbers of the base page, in the order of its fields: the bounds of the program's memory, the address
-- and the length of text, data and bss, the DTA, the parent, a reserved word and the environment.
abbrev pub shown_words : Segments → List ℕ
shown_words s =
    0x800
    ∷ 0xf9ffff
    ∷ 0x900
    ∷ s.tsize
    ∷ add32 0x900 s.tsize
    ∷ s.dsize
    ∷ add32 (add32 0x900 s.tsize) s.dsize
    ∷ s.bsize
    ∷ 0x80080000
    ∷ 0
    ∷ 0
    ∷ 0x830
    ∷ []

swap-swap : (v : ℕ) → v < u32_mod → swap (swap v) ≡ v
swap-swap v w = (endianize-endianize 0 0 0 v (omega arith) w).1

swapped_constants : (swap 0x880 ≡ 0x80080000) × (swap 0 ≡ 0)
unfolding endianize_32 endianize_loop
swapped_constants = (refl, refl)

basepage_words-shown :
    (s : Segments) (args : List (List ℕ))
    → s.tsize < u32_mod
    → s.dsize < u32_mod
    → s.bsize < u32_mod
    → map swap (basepage_words (init_basepage s args)) ≡ shown_words s
unfolding init_basepage
basepage_words-shown s args wt wd wb =
    let dta : swap 0x880 ≡ 0x80080000 = swapped_constants.0 in
    let none_set : swap 0 ≡ 0 = swapped_constants.1 in
    rw
      (
        swap-swap 0x900 (omega arith),
        swap-swap s.tsize wt,
        swap-swap s.dsize wd,
        swap-swap s.bsize wb,
        dta,
        none_set,
      )
      (rw (swap-swap (add32 0x900 s.tsize) (omega arith)) (
        rw
          (
            swap-swap (add32 (add32 0x900 s.tsize) s.dsize) (omega arith),
            swap-swap 0x800 (omega arith),
            swap-swap 0xf9ffff (omega arith),
            swap-swap 0x830 (omega arith),
          )
          refl))

get_elem?-map :
    (f : ℕ → ℕ) (xs : List ℕ) (i w : ℕ)
    → get_elem? (map f xs) i ≡ some w
    → (v : ℕ) × (get_elem? xs i ≡ some v) × (f v ≡ w)
get_elem?-map f [] i w e = absurd (ground arith)
get_elem?-map f (x ∷ xs) zero w e = (x, refl, some-injective (f x) w e)
get_elem?-map f (x ∷ xs) (suc i) w e = get_elem?-map f xs i w e

-- The base page that init_tos_environment stores shows the program, which reads big-endian words, the
-- bounds of its memory and the addresses and lengths of its segments, each segment behind the one before.
-- The word for the DTA is the exception: it is stored in the host's byte order, and reads as 0x80080000
-- instead of 0x880.
pub base_page-shown :
    (h : ℕ → ℕ) (bp : ℕ) (s : Segments) (args : List (List ℕ)) (i w : ℕ)
    → s.tsize < u32_mod
    → s.dsize < u32_mod
    → s.bsize < u32_mod
    → get_elem? (shown_words s) i ≡ some w
    → fetch (store_bytes h bp (basepage_bytes (init_basepage s args))) (bp + 4 * i) 4 0 ≡ w
unfolding basepage_bytes
base_page-shown h bp s args i w wt wd wb e =
    let page = init_basepage s args in
    let stored =
      get_elem?-map swap (basepage_words page) i w
        (ap (λ ws. get_elem? ws i) (basepage_words-shown s args wt wd wb) ∙ e) in
    fetch-word h bp i stored.0 (basepage_words page) (page.p_undef ++ page.p_cmdlin) stored.1
    ∙ stored.2
