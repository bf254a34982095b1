-- ===== src/Tests/Terminals.antt =====
-- Raw characters and reserved handles at concrete machines.
use tosemu.Base.{◌≡◌, refl, false, [], ◌==◌, if◌then◌else◌, arith}
use tosemu.Platform.Example.{example, get, getc, is_empty}
use tosemu.Platform.Example.Laws.{example-TerminalLaws}
use tosemu.Machine.{Machine, fault}
use tosemu.Memory.Words.{fetch}
use tosemu.TosSystem.Areas.{user_ram-MapsTo}
use tosemu.GemdosCon.{crawcin, crawio}
use tosemu.GemdosCon.Raw.{Restores, raw-Restores}
use tosemu.GemdosFile.Handles.{init_handles}
use tosemu.GemdosFile.Streams.{fclose, fread, fwrite}
use tosemu.GemdosFile.Reserved.{reserved-fault}
use tosemu.Tests.Machines.{buffers, console, user_machine}

-- The word 0xff is on the stack, and "a" waits.
abbrev raw : Machine example
raw = record user_machine { host_mem = λ q. if q == 0x2f703 then 0xff else 0 }

raw-Restores_example :
    Restores b'a' (record console { input = [] }) raw (crawcin 9 raw)
    × Restores b'a' (record console { input = [] }) raw (crawio 9 raw)
unfolding get fetch getc is_empty
raw-Restores_example =
    raw-Restores example-TerminalLaws 0x2f702 8 raw (λ q. ground arith)
      (user_ram-MapsTo buffers false 2 0x20002 (omega arith) (omega arith))

-- The handle 2, the length 1 and the buffer at 0x900 on the stack.
abbrev stderr_user : Machine example
stderr_user = record user_machine {
  host_mem = λ q.
      if q == 0x2f703 then 2 else (if q == 0x2f707 then 1 else (if q == 0x2f70a then 9 else 0));
  files = record user_machine.files { handles = init_handles 5 6 };
}

reserved-fault_example :
    (fclose 9 stderr_user ≡ fault) × (fread 9 stderr_user ≡ fault) × (fwrite 9 stderr_user ≡ fault)
unfolding get fetch
reserved-fault_example =
    reserved-fault 0x2f702 0x2f704 0x2f708 0x10000 8 5 6 stderr_user (λ q. ground arith)
      (user_ram-MapsTo buffers false 2 0x20002 (omega arith) (omega arith))
      (user_ram-MapsTo buffers false 4 0x20004 (omega arith) (omega arith))
      (user_ram-MapsTo buffers false 4 0x20008 (omega arith) (omega arith)) refl (omega arith)
      (omega arith) refl (user_ram-MapsTo buffers false 1 0x900 (omega arith) (omega arith))
