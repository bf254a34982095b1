-- ===== src/Tests/Moves.antt =====
-- A binary that is relocated, and calls of Super, at concrete machines.
use tosemu.Base.{ℕ, ◌≡◌, refl, List, [], ◌∷◌, ◌++◌, some, replicate, arith, false}
use tosemu.Platform.Example.{example, get}
use tosemu.Platform.Example.Laws.{example-CpuLaws}
use tosemu.Machine.{State, done}
use tosemu.Utils.{endianize_32, endianize_loop}
use tosemu.GemdosFile.Search.{load_le}
use tosemu.TosSystem.Areas.{user_ram-MapsTo}
use tosemu.TosSystem.Layout.{tos_areas}
use tosemu.TosSystem.Header.{byte_at, exec_header, segments}
use tosemu.TosSystem.Start.{TosEnvironment, init_tos_environment}
use tosemu.TosSystem.Relocation.{Distance, encode}
use tosemu.System.Loading.{Loaded, image}
use tosemu.System.Relocating.{relocated, init_tos_environment-Relocated}
use tosemu.Gemdos.{super}
use tosemu.Gemdos.Modes.{SuperAnswers, super-SuperAnswers}
use tosemu.Memory.Words.{fetch}
use tosemu.Tests.Machines.{buffers, user_machine}
use tosemu.Tests.Runs.{host}

-- A text segment of 12 bytes, with long words at the offsets 4 and 8 that are to be relocated.
abbrev moving : List ℕ
moving =
    0x60 ∷ 0x1a ∷ 0 ∷ 0 ∷ 0 ∷ 12 ∷ replicate 22 0
    ++ (0x4e ∷ 0x71 ∷ 0x4e ∷ 0x71 ∷ 0 ∷ 0 ∷ 0 ∷ 2 ∷ 0 ∷ 0 ∷ 0 ∷ 4 ∷ 0 ∷ 0 ∷ 0 ∷ 4 ∷ 4 ∷ 0 ∷ [])

abbrev places : List Distance
places = record { steps = 0; last = 4 } ∷ []

init_tos_environment-Relocated_example :
    (te : TosEnvironment) × (s : State) × (init_tos_environment moving [] 9 user_machine
      ≡ done (some te) s)
    × Loaded moving te s
        (relocated 4 places te.buffers (image moving [] user_machine.host_mem te.buffers))
unfolding exec_header segments byte_at load_le endianize_32 endianize_loop encode tos_areas
init_tos_environment-Relocated_example =
    init_tos_environment-Relocated (λ n w. refl) (λ n w e. omega arith) moving [] 8 user_machine 4
      places (omega arith) (omega arith) (omega arith) refl refl (omega arith) (omega arith)
      (ground arith) (ground arith) (λ q. omega arith) (ground arith) tt

super-SuperAnswers_example : SuperAnswers 0 user_machine (super 9 user_machine)
unfolding get fetch
super-SuperAnswers_example =
    super-SuperAnswers example-CpuLaws 0x2f702 8 user_machine (λ q. omega arith)
      (user_ram-MapsTo buffers false 4 0x20002 (omega arith) (omega arith))
