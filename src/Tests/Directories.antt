-- ===== src/Tests/Directories.antt =====
-- A directory with two files at a concrete machine.
use tosemu.Base.{ℕ, ◌≡◌, refl, false, [], ◌∷◌, arith, List, ◌++◌, replicate}
use tosemu.Platform.Example.{example, get}
use tosemu.Machine.{Machine, done}
use tosemu.Errors.{gemdos_enmfil}
use tosemu.Memory.Words.{fetch}
use tosemu.Memory.Area.{ptr_read, ptr_write, find_memarea}
use tosemu.Memory.Access.{tos_read}
use tosemu.Memory.{m68k_read_disassembler_8}
use tosemu.TosSystem.Layout.{tos_areas}
use tosemu.TosSystem.Areas.{user_ram-MapsTo}
use tosemu.GemdosFile.Path.{path_from_tos}
use tosemu.GemdosFile.Access.{host_path_at, get_path, get_path_loop}
use tosemu.GemdosFile.Globs.{gemdos_prepare_dta}
use tosemu.GemdosFile.GlobLaws.{begun}
use tosemu.GemdosFile.Listing.{IsDta, IsFile, entries}
use tosemu.GemdosFile.Directory.{list_directory, list_directory-entries}
use tosemu.Tests.Machines.{buffers, user_machine}

-- "/u/"
abbrev dir : List ℕ
dir = b'/' ∷ b'u' ∷ b'/' ∷ []

-- The file name at address 0 is empty, and the DTA is at 0x830.
abbrev lister : Machine example
lister = record user_machine {
  files = record user_machine.files { base_path = dir; dta_addr = 0x830 };
}

IsDta-there : IsDta lister.areas 0x830 0x4030
unfolding tos_areas find_memarea
IsDta-there = record {
  area = record {
    base = 0x800;
    len = 0x100;
    read = ptr_read;
    write = ptr_write;
    ptr = 0x4000;
    flags = 3;
  };
  found = refl;
  reads_memory = refl;
  writes_memory = refl;
  at_d = refl;
  not_null = λ e. omega arith;
}

is_file : (path : List ℕ) → IsFile lister.world path
is_file path = record { st = record { st_mode = 0; st_mtime = 0; st_size = 0 }; known = refl }

list_directory-entries_example :
    (t : Machine example) × (list_directory 0x4030 5 9 lister
      ≡ done
          (
            entries lister.world
                (dir ∷ (dir ++ b'2' ∷ []) ∷ [])
                (is_file dir, (is_file (dir ++ b'2' ∷ []), tt)),
            gemdos_enmfil,
          )
          t)
    × (t ≡ record lister {
      files = begun (dir ∷ (dir ++ b'2' ∷ []) ∷ []) lister.files;
      host_mem = t.host_mem;
    })
unfolding get fetch tos_areas find_memarea host_path_at get_path get_path_loop
    m68k_read_disassembler_8 tos_read path_from_tos gemdos_prepare_dta
list_directory-entries_example =
    list_directory-entries 0x2f702 0x2f706 0x4030 8 lister dir dir ((dir ++ b'2' ∷ []) ∷ [])
      (λ q. omega arith) (user_ram-MapsTo buffers false 4 0x20002 (omega arith) (omega arith))
      (user_ram-MapsTo buffers false 2 0x20006 (omega arith) (omega arith)) refl refl IsDta-there
      (is_file dir, (is_file (dir ++ b'2' ∷ []), tt)) 5 (omega arith) (omega arith)

-- The same name on the stack, the mode 0, and ten free handles.
abbrev opener : Machine example
opener = record lister {
  files = record lister.files { handles = replicate 10 (record { f = 0; flags = 0 }) };
}
