-- ===== src/TosSystem/ImageBytes.antt =====
-- tossystem.c: what init_tos_environment stores are bytes.
use tosemu.Base.{
  ℕ, zero, suc, ◌+◌, ◌-◌, ◌/◌, ◌%◌, ◌<◌, List, [], ◌∷◌, ◌++◌, arith, All, length, take, drop,
  replicate, u8_mod,
}
use tosemu.Machine.{update}
use tosemu.Memory.Words.{IsBytes}
use tosemu.GemdosFile.Search.{store_bytes}
use tosemu.TosSystem.Header.{
  Segments, init_basepage, le_bytes, words_bytes, basepage_words, basepage_bytes,
}
use tosemu.TosSystem.Loader.{copy_cmdlin, cmdlin_bytes}

abbrev pub AreBytes : List ℕ → Type 0
AreBytes l = All (λ b. b < 256) l

All-append : (xs ys : List ℕ) → AreBytes xs → AreBytes ys → AreBytes (xs ++ ys)
All-append [] ys h k = k
All-append (x ∷ xs) ys h k = (h.0, All-append xs ys h.1 k)

pub All-take : (n : ℕ) (xs : List ℕ) → AreBytes xs → AreBytes (take n xs)
All-take zero xs h = tt
All-take (suc n) [] h = tt
All-take (suc n) (x ∷ xs) h = (h.0, All-take n xs h.1)

pub All-drop : (n : ℕ) (xs : List ℕ) → AreBytes xs → AreBytes (drop n xs)
All-drop zero xs h = h
All-drop (suc n) [] h = tt
All-drop (suc n) (x ∷ xs) h = All-drop n xs h.1

All-replicate : (n : ℕ) → AreBytes (replicate n 0)
All-replicate zero = tt
All-replicate (suc n) = (omega arith, All-replicate n)

pub store_bytes-IsBytes :
    (h : ℕ → ℕ) (c : ℕ) (bs : List ℕ) → IsBytes h → AreBytes bs → IsBytes (store_bytes h c bs)
unfolding store_bytes
store_bytes-IsBytes h c [] k a = k
store_bytes-IsBytes h c (b ∷ bs) k a =
    store_bytes-IsBytes (update h c b) (c + 1) bs (λ q. unfold update in ground (arith, k q)) a.1

le_bytes-AreBytes : (n v : ℕ) → AreBytes (le_bytes n v)
unfolding le_bytes
le_bytes-AreBytes zero v = tt
le_bytes-AreBytes (suc n) v = (omega arith, le_bytes-AreBytes n (v / 256))

words_bytes-AreBytes : (ws : List ℕ) → AreBytes (words_bytes ws)
unfolding words_bytes
words_bytes-AreBytes [] = tt
words_bytes-AreBytes (w ∷ ws) =
    All-append (le_bytes 4 w) (words_bytes ws) (le_bytes-AreBytes 4 w) (words_bytes-AreBytes ws)

cmdlin_bytes-AreBytes : (args : List (List ℕ)) → All AreBytes args → AreBytes (cmdlin_bytes args)
unfolding cmdlin_bytes
cmdlin_bytes-AreBytes [] h = tt
cmdlin_bytes-AreBytes (arg ∷ rest) h =
    (omega arith, All-append arg (cmdlin_bytes rest) h.0 (cmdlin_bytes-AreBytes rest h.1))

-- The count takes the place of the first byte.
counted-AreBytes :
    (bs : List ℕ)
    → AreBytes bs
    → AreBytes (elim bs as (λ _. List ℕ) [
      | [] ↦ 0xff ∷ []
      | _ ∷ rest ↦ (length rest % u8_mod) ∷ rest ++ 0 ∷ []
    ])
counted-AreBytes [] h = (omega arith, tt)
counted-AreBytes (b ∷ rest) h = (omega arith, All-append rest (0 ∷ []) h.1 (omega arith, tt))

copy_cmdlin-AreBytes : (args : List (List ℕ)) → All AreBytes args → AreBytes (copy_cmdlin args)
unfolding copy_cmdlin
copy_cmdlin-AreBytes args h = counted-AreBytes (cmdlin_bytes args) (cmdlin_bytes-AreBytes args h)

pub basepage_bytes-AreBytes :
    (s : Segments) (args : List (List ℕ))
    → All AreBytes args
    → AreBytes (basepage_bytes (init_basepage s args))
unfolding basepage_bytes init_basepage
basepage_bytes-AreBytes s args h =
    let bp = init_basepage s args in
    let line = copy_cmdlin args in
    All-append (words_bytes (basepage_words bp)) (bp.p_undef ++ bp.p_cmdlin)
      (words_bytes-AreBytes (basepage_words bp))
      (All-append (replicate 80 0) bp.p_cmdlin (All-replicate 80) (
        All-append line (replicate (128 - length line) 0) (copy_cmdlin-AreBytes args h)
          (All-replicate (128 - length line))))
