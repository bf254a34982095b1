-- ===== src/GemdosFile/Opening.antt =====
-- gemdosfile.c: how Fopen ends, on every branch.
use tosemu.Base.{
  ℕ, suc, ◌%◌, ◌<◌, ◌≡◌, ◌≢◌, List, Option, some, none, ◌==◌, add32, length, u16_mod, if◌then◌else◌,
}
use tosemu.Platform.{Platform, Register}
use tosemu.Machine.{State, Run, done}
use tosemu.Errors.{gemdos_efilnf, gemdos_einval, gemdos_enhndl}
use tosemu.Memory.Cells.{Mapped}
use tosemu.Memory.Words.{IsBytes, fetch}
use tosemu.Cpu.Stack.{reg}
use tosemu.GemdosFile.State.{FHandle}
use tosemu.GemdosFile.Handles.{handles_count}
use tosemu.GemdosFile.OpenFiles.{open_files}
use tosemu.GemdosFile.Access.{host_path_at}
use tosemu.GemdosFile.Streams.{open_mode, fopen}

module _ ⦃p : Platform⦄ where
  abbrev behind_fopen : List ℕ → List ℕ → State → State
  behind_fopen ubuf how m = record m { world = (p.fopen ubuf how m.world).1 }

  -- How Fopen ends with a path and a mode.
  pub data FopenEnds (path : Option (List ℕ)) (mode : ℕ) (m : State) : Run State ℕ → Type 0 where
    outside : path ≡ none → FopenEnds path mode m (done gemdos_efilnf m)
    no_mode :
        (ubuf : List ℕ)
        → path ≡ some ubuf
        → open_mode mode ≡ none
        → FopenEnds path mode m (done gemdos_einval m)
    missing :
        (ubuf how : List ℕ)
        → path ≡ some ubuf
        → open_mode mode ≡ some how
        → (p.fopen ubuf how m.world).0 ≡ 0
        → FopenEnds path mode m (done gemdos_efilnf (behind_fopen ubuf how m))
    all_taken :
        (ubuf how : List ℕ)
        → path ≡ some ubuf
        → open_mode mode ≡ some how
        → (p.fopen ubuf how m.world).0 ≢ 0
        → ((j : ℕ) → j < handles_count → open_files m.files.handles j ≢ none)
        → FopenEnds path mode m (done gemdos_enhndl (behind_fopen ubuf how m))
    opened :
        (ubuf how : List ℕ) (i : ℕ) (table : List FHandle)
        → path ≡ some ubuf
        → open_mode mode ≡ some how
        → (p.fopen ubuf how m.world).0 ≢ 0
        → i < handles_count
        → open_files m.files.handles i ≡ none
        → ((j : ℕ) → j < i → open_files m.files.handles j ≢ none)
        → ((j : ℕ)
            → open_files table j ≡ (
                if i == j then some (p.fopen ubuf how m.world).0 else open_files m.files.handles j))
        → FopenEnds path mode m (
            done i
              (record (behind_fopen ubuf how m) { files = record m.files { handles = table } }))

  module _ (c2 c6 fuel : ℕ) (m : State) (bytes : IsBytes m.host_mem)
      (filename_there : Mapped m (add32 (reg m Register.a7) 2) 4 c2)
      (mode_there : Mapped m (add32 (reg m Register.a7) 6) 2 c6) (path : Option (List ℕ))
      (path_there : host_path_at (fetch m.host_mem c2 4 0) (suc fuel) m ≡ done path m)
      (size : length m.files.handles ≡ handles_count) where
    abbrev pub mode : ℕ
    mode = fetch m.host_mem c6 2 0 % u16_mod
