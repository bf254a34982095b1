-- ===== src/Tests/Loads.antt =====
-- A binary that is loaded and run at a concrete machine.
use tosemu.Base.{ℕ, ◌*◌, ◌+◌, ◌≡◌, refl, List, [], ◌∷◌, ◌++◌, some, replicate, arith, inl}
use tosemu.Platform.Example.{example}
use tosemu.Machine.{State, done}
use tosemu.Memory.Words.{fetch}
use tosemu.GemdosFile.Search.{store_bytes}
use tosemu.TosSystem.Layout.{tos_areas}
use tosemu.TosSystem.Header.{init_basepage, basepage_bytes}
use tosemu.TosSystem.BasePage.{base_page-shown}
use tosemu.TosSystem.Start.{TosEnvironment, init_tos_environment}
use tosemu.TosSystem.Executable.{Executable, file_bytes}
use tosemu.System.Ready.{Ready, init_tos_environment-Ready}
use tosemu.Tests.Machines.{user_machine}
use tosemu.Tests.Runs.{host, core}

-- The magic number, a text segment of 4 bytes, no other segment, and the flag against relocation.
abbrev pub binary : List ℕ
binary = 0x60 ∷ 0x1a ∷ 0 ∷ 0 ∷ 0 ∷ 4 ∷ replicate 20 0 ++ 0 ∷ 1 ∷ 0x4e ∷ 0x42 ∷ 0x4e ∷ 0x75 ∷ []

abbrev pub args : List (List ℕ)
args = (b'x' ∷ []) ∷ []

base_page-shown_example :
    fetch
      (store_bytes
        (λ q. 0)
        0x4000
        (basepage_bytes
          (init_basepage (record { tsize = 4; dsize = 2; bsize = 8; ssize = 0 }) args)))
      (0x4000 + 4 * 6)
      4
      0
    ≡ 0x906
base_page-shown_example =
    base_page-shown (λ q. 0) 0x4000 (record { tsize = 4; dsize = 2; bsize = 8; ssize = 0 }) args 6
      0x906 (omega arith) (omega arith) (omega arith) refl

-- Four bytes of text, two of data, one of symbols, and eight of bss.
abbrev small : Executable
small = record {
  text_bytes = 0x4e ∷ 0x42 ∷ 0x4e ∷ 0x75 ∷ [];
  data_bytes = 1 ∷ 2 ∷ [];
  symbol_bytes = 3 ∷ [];
  bss = 8;
  reserved = 0;
  flags = 0;
  absflag = 1;
}

init_tos_environment-Ready_example :
    (te : TosEnvironment) × (s : State) × (init_tos_environment
        (file_bytes small [])
        args
        9
        user_machine
      ≡ done (some te) s)
    × Ready small (1 ∷ b'x' ∷ 0 ∷ []) user_machine.host_mem te s
unfolding tos_areas
init_tos_environment-Ready_example =
    init_tos_environment-Ready (λ n w. refl) (λ n w e. omega arith) small [] (omega arith)
      (omega arith) (b'x' ∷ []) [] 9 user_machine (omega arith) (λ e. omega arith) (omega arith)
      (omega arith) (inl (omega arith))
