-- ===== src/GemdosFile/Dta.antt =====
-- gemdosfile.c: the DTA as the host stores it and as the program, which is big-endian, reads it.
use mathlib.Core.Path.{ap₂}
use tosemu.Base.{
  ℕ, zero, suc, ◌+◌, ◌-◌, ◌*◌, ◌/◌, ◌%◌, ◌^◌, ◌≤◌, ◌<◌, ◌≡◌, ◌⊎◌, inl, refl, ◌∙◌, ap, sym, List, [],
  ◌∷◌, arith, length, length-append, length-take-le, length-replicate, take, replicate, u16_mod,
  u32_mod,
}
use native.Mathlib.Nat.{pow-suc}
use tosemu.Machine.{update}
use tosemu.Memory.Words.{fetch}
use tosemu.Utils.{endianize_16, endianize_32}
use tosemu.Utils.Reversal.{reversed_16, reversed_32}
use tosemu.GemdosFile.Search.{store_le, load_le, store_bytes, file_name}
use tosemu.GemdosFile.Reading.{bytes_from}

pub store_le_outside : (h : ℕ → ℕ) (c n v q : ℕ) → (q < c) ⊎ (c + n ≤ q) → store_le h c n v q ≡ h q
unfolding store_le update
store_le_outside h c zero v q o = refl
store_le_outside h c (suc n) v q o =
    ground (arith, store_le_outside (update h c (v % 256)) (c + 1) n (v / 256) q)

pub store_bytes_outside :
    (h : ℕ → ℕ) (c : ℕ) (bs : List ℕ) (q : ℕ)
    → (q < c) ⊎ (c + length bs ≤ q)
    → store_bytes h c bs q ≡ h q
unfolding store_bytes update
store_bytes_outside h c [] q o = refl
store_bytes_outside h c (b ∷ bs) q o =
    ground (arith, store_bytes_outside (update h c b) (c + 1) bs q)

pub load_le-store_le : (h : ℕ → ℕ) (c n v : ℕ) → v < 256 ^ n → load_le (store_le h c n v) c n ≡ v
unfolding store_le load_le update
load_le-store_le h c zero v w = omega arith
load_le-store_le h c (suc n) v w = ground (
  arith,
  pow-suc 256 n,
  store_le_outside (update h c (v % 256)) (c + 1) n (v / 256) c,
  load_le-store_le (update h c (v % 256)) (c + 1) n (v / 256),
)

pub load_le-within :
    (h k : ℕ → ℕ) (c n : ℕ)
    → ((q : ℕ) → c ≤ q → q < c + n → h q ≡ k q)
    → load_le h c n ≡ load_le k c n
unfolding load_le
load_le-within h k c zero e = refl
load_le-within h k c (suc n) e = omega (
  arith,
  e c (omega arith) (omega arith),
  load_le-within h k (c + 1) n (λ q l r. e q (omega arith) (omega arith)),
)

fetch-within :
    (h k : ℕ → ℕ) (c n acc : ℕ)
    → ((q : ℕ) → c ≤ q → q < c + n → h q ≡ k q)
    → fetch h c n acc ≡ fetch k c n acc
unfolding fetch
fetch-within h k c zero acc e = refl
fetch-within h k c (suc n) acc e =
    rw (e c (omega arith) (omega arith))
      (fetch-within h k (c + 1) n (acc * 256 + k c) (λ q l r. e q (omega arith) (omega arith)))

pub bytes_from-within :
    (h k : ℕ → ℕ) (c n : ℕ)
    → ((q : ℕ) → c ≤ q → q < c + n → h q ≡ k q)
    → bytes_from h c n ≡ bytes_from k c n
unfolding bytes_from
bytes_from-within h k c zero e = refl
bytes_from-within h k c (suc n) e =
    rw (e c (omega arith) (omega arith)) (
      ap (λ l. k c ∷ l)
        (bytes_from-within h k (c + 1) n (λ q l r. e q (omega arith) (omega arith))))

pub update_at : (h : ℕ → ℕ) (c b : ℕ) → update h c b c ≡ b
unfolding update
update_at h c b = ground arith

pub bytes_from-store_bytes :
    (h : ℕ → ℕ) (c : ℕ) (bs : List ℕ) → bytes_from (store_bytes h c bs) c (length bs) ≡ bs
unfolding bytes_from store_bytes
bytes_from-store_bytes h c [] = refl
bytes_from-store_bytes h c (b ∷ bs) =
    ap₂ ◌∷◌ (store_bytes_outside (update h c b) (c + 1) bs c (inl (omega arith)) ∙ update_at h c b)
      (bytes_from-store_bytes (update h c b) (c + 1) bs)

-- A swapped number that is stored lowest byte first is read by a big-endian program as it was.
fetch-swapped_16 :
    (h : ℕ → ℕ) (c x : ℕ) → x < u16_mod → fetch (store_le h c 2 (endianize_16 0 x)) c 2 0 ≡ x
unfolding fetch store_le update
fetch-swapped_16 h c x w = rw (reversed_16 0 x) (ground arith)

fetch-swapped_32 :
    (h : ℕ → ℕ) (c x : ℕ) → x < u32_mod → fetch (store_le h c 4 (endianize_32 0 x)) c 4 0 ≡ x
unfolding fetch store_le update
fetch-swapped_32 h c x w = rw (reversed_32 0 x) (ground arith)

-- What a program learns of a file from the DTA.
pub record Entry : Type 0 where
  pub attrib : ℕ
  pub time : ℕ
  pub date : ℕ
  pub size : ℕ
  pub name : List ℕ

-- The fields of `struct DTA` as a program reads them, from the DTA's first byte.
abbrev pub shown_entry : (ℕ → ℕ) → ℕ → Entry
shown_entry h d = record {
  attrib = h (d + 21);
  time = fetch h (d + 22) 2 0;
  date = fetch h (d + 24) 2 0;
  size = fetch h (d + 26) 4 0;
  name = bytes_from h (d + 30) 14;
}

-- Host memory behind the fields.
abbrev pub filled : (ℕ → ℕ) → ℕ → Entry → ℕ → ℕ
filled h d e =
    let h1 = update h (d + 21) e.attrib in
    let h2 = store_le h1 (d + 22) 2 (endianize_16 0 e.time) in
    let h3 = store_le h2 (d + 24) 2 (endianize_16 0 e.date) in
    let h4 = store_le h3 (d + 26) 4 (endianize_32 0 e.size) in store_bytes h4 (d + 30) e.name

pub record IsEntry (e : Entry) : Type 0 where
  pub time_fits : e.time < u16_mod
  pub date_fits : e.date < u16_mod
  pub size_fits : e.size < u32_mod
  pub name_fits : length e.name ≡ 14

pub length-file_name : (bn : List ℕ) → length (file_name bn) ≡ 14
length-file_name bn =
    let short = length-take-le {0} 13 bn in
    omega (
      arith,
      short,
      length-append {0} (take 13 bn) (replicate (14 - length (take 13 bn)) 0),
      length-replicate {0} (14 - length (take 13 bn)) (let z : ℕ = 0 in z),
    )

module _ (h : ℕ → ℕ) (d : ℕ) (e : Entry) where
  abbrev with_attrib : ℕ → ℕ
  with_attrib = update h (d + 21) e.attrib

  abbrev with_time : ℕ → ℕ
  with_time = store_le with_attrib (d + 22) 2 (endianize_16 0 e.time)

  abbrev with_date : ℕ → ℕ
  with_date = store_le with_time (d + 24) 2 (endianize_16 0 e.date)

  abbrev with_size : ℕ → ℕ
  with_size = store_le with_date (d + 26) 4 (endianize_32 0 e.size)

  -- Each field is stored behind the ones before.
  filled-with_size : (q : ℕ) → q < d + 30 → filled h d e q ≡ with_size q
  filled-with_size q l = store_bytes_outside with_size (d + 30) e.name q (inl l)

  filled-with_date : (q : ℕ) → q < d + 26 → filled h d e q ≡ with_date q
  filled-with_date q l =
      filled-with_size q (omega arith)
      ∙ store_le_outside with_date (d + 26) 4 (endianize_32 0 e.size) q (inl l)

  filled-with_time : (q : ℕ) → q < d + 24 → filled h d e q ≡ with_time q
  filled-with_time q l =
      filled-with_date q (omega arith)
      ∙ store_le_outside with_time (d + 24) 2 (endianize_16 0 e.date) q (inl l)

  filled-with_attrib : (q : ℕ) → q < d + 22 → filled h d e q ≡ with_attrib q
  filled-with_attrib q l =
      filled-with_time q (omega arith)
      ∙ store_le_outside with_attrib (d + 22) 2 (endianize_16 0 e.time) q (inl l)

  -- The fields begin behind the reserved bytes.
  pub filled_before : (q : ℕ) → q < d + 21 → filled h d e q ≡ h q
  unfolding update
  filled_before q l = filled-with_attrib q (omega arith) ∙ ground arith

  pub shown_entry-filled : IsEntry e → shown_entry (filled h d e) d ≡ e
  shown_entry-filled fits =
      let attrib : filled h d e (d + 21) ≡ e.attrib =
        filled-with_attrib (d + 21) (omega arith) ∙ update_at h (d + 21) e.attrib in
      let time : fetch (filled h d e) (d + 22) 2 0 ≡ e.time =
        fetch-within (filled h d e) with_time (d + 22) 2 0
          (λ q l r. filled-with_time q (omega arith))
        ∙ fetch-swapped_16 with_attrib (d + 22) e.time fits.time_fits in
      let date : fetch (filled h d e) (d + 24) 2 0 ≡ e.date =
        fetch-within (filled h d e) with_date (d + 24) 2 0
          (λ q l r. filled-with_date q (omega arith))
        ∙ fetch-swapped_16 with_time (d + 24) e.date fits.date_fits in
      let size : fetch (filled h d e) (d + 26) 4 0 ≡ e.size =
        fetch-within (filled h d e) with_size (d + 26) 4 0
          (λ q l r. filled-with_size q (omega arith))
        ∙ fetch-swapped_32 with_date (d + 26) e.size fits.size_fits in
      let name : bytes_from (filled h d e) (d + 30) 14 ≡ e.name =
        ap (bytes_from (filled h d e) (d + 30)) (sym fits.name_fits)
        ∙ bytes_from-store_bytes with_size (d + 30) e.name in
      λ i. record { attrib = attrib i; time = time i; date = date i; size = size i; name = name i }
