-- ===== src/GemdosFile/Search.antt =====
-- gemdosfile.c: Fsfirst and Fsnext. The DTA is written in host memory, on a little-endian host. A
-- call that uses a NULL pointer, or a `struct stat` that `stat` has not filled in, is a fault.
use tosemu.Base.{
  ℕ, zero, suc, ◌+◌, ◌-◌, ◌*◌, ◌/◌, ◌%◌, List, [], ◌∷◌, ◌++◌, none, some, ◌==◌, if◌then◌else◌,
  add32, u16_mod, u32_mod, length, take, replicate, get_elem?,
}
use tosemu.Platform.{Platform}
use tosemu.Errors.{gemdos_e_ok, gemdos_efilnf, gemdos_enmfil}
use tosemu.Machine.{M, done, fault, pure, ◌>>=◌, ◌>>◌, ask, update}
use tosemu.Memory.{tos_mem_to_host_mem}
use tosemu.Cpu.{peek_u16, peek_u32}
use tosemu.DosTime.{pack_time, pack_date}
use tosemu.Utils.{endianize_16, endianize_32}
use tosemu.GemdosFile.Access.{files, set_files, host_path_at}
use tosemu.GemdosFile.Calls.{mode_to_attrib}
use tosemu.GemdosFile.Globs.{gemdos_prepare_dta, gemdos_find_dta, set_paths}

-- `n` bytes at a host address, lowest first.
unfoldable pub store_le : (ℕ → ℕ) → ℕ → ℕ → ℕ → ℕ → ℕ
store_le h c zero v = h
store_le h c (suc n) v = store_le (update h c (v % 256)) (c + 1) n (v / 256)

unfoldable pub load_le : (ℕ → ℕ) → ℕ → ℕ → ℕ
load_le h c zero = 0
load_le h c (suc n) = h c + 256 * load_le h (c + 1) n

unfoldable pub store_bytes : (ℕ → ℕ) → ℕ → List ℕ → ℕ → ℕ
store_bytes h c [] = h
store_bytes h c (b ∷ bs) = store_bytes (update h c b) (c + 1) bs

-- `memset(dta->d_fname, 0, 14)` and `strncpy(dta->d_fname, bn, 13)`.
abbrev pub file_name : List ℕ → List ℕ
file_name bn = let name = take 13 bn in name ++ replicate (14 - length name) 0

module _ ⦃p : Platform⦄ where
  write_host : ((ℕ → ℕ) → ℕ → ℕ) → M (Unit {0})
  write_host f fuel m = done tt (record m { host_mem = f m.host_mem })

  unfoldable pub read_host : ℕ → ℕ → M ℕ
  unfolding load_le
  read_host c n fuel m = done (load_le m.host_mem c n) m

  -- The part of the DTA that a program reads: attributes, time, date, length and name. The offsets
  -- are those of the packed `struct DTA`.
  unfoldable pub fill_dta : ℕ → List ℕ → M (Unit {0})
  unfolding write_host store_le store_bytes mode_to_attrib
  fill_dta dta path = do
    st ← ask (p.stat path)
    elim st [
      | none ↦ λ fuel m. fault
      | some sres ↦ (do
        lt ← ask (p.localtime sres.st_mtime)
        write_host (λ h. update h (dta + 21) (mode_to_attrib sres.st_mode))
        write_host (λ h. store_le h (dta + 22) 2 (endianize_16 0 (pack_time lt % u16_mod)))
        write_host (λ h. store_le h (dta + 24) 2 (endianize_16 0 (pack_date lt % u16_mod)))
        write_host (λ h. store_le h (dta + 26) 4 (endianize_32 0 (sres.st_size % u32_mod)))
        write_host (λ h. store_bytes h (dta + 30) (file_name (p.basename path))))
    ]

  -- The DTA in host memory, where the host faults on NULL.
  unfoldable pub host_dta : M ℕ
  host_dta = do
    dta_addr ← files (λ f. f.dta_addr)
    dta ← tos_mem_to_host_mem dta_addr
    if dta == 0 then (λ fuel m. fault) else pure dta

  unfoldable pub new_search : M ℕ
  new_search fuel m = let r = gemdos_prepare_dta m.files in done r.0 (record m { files = r.1 })

  -- The search number and the index of the entry, in the DTA's reserved bytes.
  unfoldable pub first_entry : ℕ → ℕ → List (List ℕ) → M ℕ
  unfolding write_host store_le fill_dta
  first_entry gres_id dta [] = pure gemdos_e_ok
  first_entry gres_id dta (path ∷ rest) = do
    write_host (λ h. store_le h dta 4 gres_id)
    write_host (λ h. store_le h (dta + 4) 4 0)
    fill_dta dta path
    pure gemdos_e_ok

  unfoldable pub fsfirst : M ℕ
  unfolding new_search first_entry host_dta
  fsfirst = do
    filename ← peek_u32 2
    attr ← peek_u16 6
    gres_id ← new_search
    path ← host_path_at filename
    elim path [
      | none ↦ pure gemdos_efilnf
      | some ubuf ↦ (do
        found ← ask (p.glob ubuf)
        elim found [
          | none ↦ pure gemdos_efilnf
          | some [] ↦ pure gemdos_e_ok
          | some (first ∷ rest) ↦ (do
            set_files (λ f. record f { globhead = set_paths gres_id (first ∷ rest) f.globhead })
            dta ← host_dta
            first_entry gres_id dta (first ∷ rest))
        ])
    ]

  unfoldable pub fsnext : M ℕ
  unfolding write_host store_le read_host fill_dta host_dta
  fsnext = do
    dta ← host_dta
    gres_id ← read_host dta 4
    gres ← files (gemdos_find_dta gres_id)
    last ← read_host (dta + 4) 4
    let i = add32 last 1
    write_host (λ h. store_le h (dta + 4) 4 i)
    elim gres [
      | none ↦ λ fuel m. fault
      | some paths ↦ elim (get_elem? paths i) [
        | none ↦ pure gemdos_enmfil
        | some path ↦ fill_dta dta path >> pure gemdos_e_ok
      ]
    ]
