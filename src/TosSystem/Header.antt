-- ===== src/TosSystem/Header.antt =====
-- tossystem.c: the header of an executable, and the base page that the program finds at 0x800.
use tosemu.Base.{
  ℕ, zero, suc, ◌+◌, ◌-◌, ◌/◌, ◌%◌, List, [], ◌∷◌, ◌++◌, none, some, add32, get_elem?, length,
  replicate,
}
use tosemu.Utils.{endianize_32}
use tosemu.GemdosFile.Search.{load_le}
use tosemu.TosSystem.Loader.{copy_cmdlin}
use tosemu.TosSystem.Layout.{user_ram_size}

-- `struct exec_header`, with the words as the little-endian host reads them.
pub record ExecHeader : Type 0 where
  pub magic : ℕ
  pub tsize : ℕ
  pub dsize : ℕ
  pub bsize : ℕ
  pub ssize : ℕ
  pub res : ℕ
  pub flags : ℕ
  pub absflag : ℕ

-- `sizeof(struct exec_header)`
abbrev pub header_size : ℕ
header_size = 28

unfoldable pub byte_at : List ℕ → ℕ → ℕ
byte_at binary i = elim (get_elem? binary i) [ none ↦ 0 | some b ↦ b ]

-- The cast of the file's first bytes to the packed struct.
unfoldable pub exec_header : List ℕ → ExecHeader
unfolding byte_at load_le
exec_header binary = record {
  magic = load_le (byte_at binary) 0 2;
  tsize = load_le (byte_at binary) 2 4;
  dsize = load_le (byte_at binary) 6 4;
  bsize = load_le (byte_at binary) 10 4;
  ssize = load_le (byte_at binary) 14 4;
  res = load_le (byte_at binary) 18 4;
  flags = load_le (byte_at binary) 22 4;
  absflag = load_le (byte_at binary) 26 2;
}

-- The sizes of the segments, in `te`.
pub record Segments : Type 0 where
  pub tsize : ℕ
  pub dsize : ℕ
  pub bsize : ℕ
  pub ssize : ℕ

-- The variable `out` of endianize_32 starts as 0 here; its value makes no difference.
abbrev pub swap : ℕ → ℕ
swap v = endianize_32 0 v

unfoldable pub segments : ExecHeader → Segments
segments header = record {
  tsize = swap header.tsize;
  dsize = swap header.dsize;
  bsize = swap header.bsize;
  ssize = swap header.ssize;
}

-- `te->tsize + te->dsize + te->ssize`, in `uint32_t`.
abbrev pub copied_size : Segments → ℕ
copied_size s = add32 (add32 s.tsize s.dsize) s.ssize

-- `struct basepage`, with the words as the host stores them.
pub record Basepage : Type 0 where
  pub p_lowtpa : ℕ
  pub p_hitpa : ℕ
  pub p_tbase : ℕ
  pub p_tlen : ℕ
  pub p_dbase : ℕ
  pub p_dlen : ℕ
  pub p_bbase : ℕ
  pub p_blen : ℕ
  pub p_dta : ℕ
  pub p_parent : ℕ
  pub p_reserved : ℕ
  pub p_env : ℕ
  pub p_undef : List ℕ
  pub p_cmdlin : List ℕ

-- What init_tos_environment assigns. The address of the DTA is the one word that is not swapped.
unfoldable pub init_basepage : Segments → (args : List (List ℕ)) → Basepage
unfolding copy_cmdlin
init_basepage s args =
    let p_tbase = swap 0x000900 in
    let p_tlen = swap s.tsize in
    let p_dbase = swap (add32 (swap p_tbase) (swap p_tlen)) in
    let p_dlen = swap s.dsize in
    let p_cmdlin = copy_cmdlin args in
    record {
      p_lowtpa = swap 0x000800;
      p_hitpa = swap (add32 user_ram_size 0x900);
      p_tbase = p_tbase;
      p_tlen = p_tlen;
      p_dbase = p_dbase;
      p_dlen = p_dlen;
      p_bbase = swap (add32 (swap p_dbase) (swap p_dlen));
      p_blen = swap s.bsize;
      p_dta = 0x800 + 128;
      p_parent = 0;
      p_reserved = 0;
      p_env = swap 0x000830;
      p_undef = replicate 80 0;
      p_cmdlin = p_cmdlin ++ replicate (128 - length p_cmdlin) 0;
    }

abbrev pub basepage_words : Basepage → List ℕ
basepage_words bp =
    bp.p_lowtpa ∷ bp.p_hitpa ∷ bp.p_tbase ∷ bp.p_tlen ∷ bp.p_dbase ∷ bp.p_dlen ∷ bp.p_bbase
    ∷ bp.p_blen ∷ bp.p_dta ∷ bp.p_parent ∷ bp.p_reserved ∷ bp.p_env ∷ []

-- The bytes of words on a little-endian host.
unfoldable pub le_bytes : (n v : ℕ) → List ℕ
le_bytes zero v = []
le_bytes (suc n) v = v % 256 ∷ le_bytes n (v / 256)

unfoldable pub words_bytes : List ℕ → List ℕ
unfolding le_bytes
words_bytes [] = []
words_bytes (w ∷ ws) = le_bytes 4 w ++ words_bytes ws

-- The packed struct in host memory. What copy_cmdlin stores goes on behind it if it has more than 128 bytes.
unfoldable pub basepage_bytes : Basepage → List ℕ
unfolding words_bytes
basepage_bytes bp = words_bytes (basepage_words bp) ++ bp.p_undef ++ bp.p_cmdlin
