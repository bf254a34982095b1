-- ===== src/Tests/Streams.antt =====
-- Fread and Fwrite at a concrete machine.
use tosemu.Base.{◌≡◌, refl, false, true, [], ◌∷◌, arith, ◌==◌, if◌then◌else◌}
use tosemu.Platform.Example.{example, get, gets}
use tosemu.Machine.{Machine, done, update}
use tosemu.Memory.Words.{fetch}
use tosemu.TosSystem.Areas.{user_ram-MapsTo}
use tosemu.GemdosCon.{cconrs}
use tosemu.GemdosCon.Input.{cconrs-stored}
use tosemu.GemdosFile.State.{FHandle}
use tosemu.GemdosFile.Search.{store_bytes}
use tosemu.GemdosFile.Streams.{fread, fwrite}
use tosemu.GemdosFile.Transfers.{
  StreamEnds, read_end, write_end, fread-StreamEnds, fwrite-StreamEnds,
}
use tosemu.Tests.Machines.{buffers, user_machine}

abbrev stream : FHandle
stream = record { f = 77; flags = 1 }

-- The handle 0, the length 2 and the buffer at 0x900 on the stack, and a file of three bytes.
abbrev reader : Machine example
reader = record user_machine {
  host_mem = λ q. if q == 0x2f707 then 2 else (if q == 0x2f70a then 9 else 0);
  world = record user_machine.world { file = 65 ∷ 66 ∷ 67 ∷ [] };
  files = record user_machine.files { handles = stream ∷ [] };
}

fread-StreamEnds_example : StreamEnds 0 2 reader (read_end 2 0x10000 reader) (fread 9 reader)
unfolding get fetch
fread-StreamEnds_example =
    fread-StreamEnds 0x2f702 0x2f704 0x2f708 0x10000 8 reader (λ q. ground arith)
      (user_ram-MapsTo buffers false 2 0x20002 (omega arith) (omega arith))
      (user_ram-MapsTo buffers false 4 0x20004 (omega arith) (omega arith))
      (user_ram-MapsTo buffers false 4 0x20008 (omega arith) (omega arith))
      (user_ram-MapsTo buffers false 2 0x900 (omega arith) (omega arith))
      (λ e found. (omega arith, (omega arith, (omega arith, tt))))

fwrite-StreamEnds_example : StreamEnds 0 2 reader (write_end 2 0x10000 reader) (fwrite 9 reader)
unfolding get fetch
fwrite-StreamEnds_example =
    fwrite-StreamEnds 0x2f702 0x2f704 0x2f708 0x10000 8 reader (λ q. ground arith)
      (user_ram-MapsTo buffers false 2 0x20002 (omega arith) (omega arith))
      (user_ram-MapsTo buffers false 4 0x20004 (omega arith) (omega arith))
      (user_ram-MapsTo buffers false 4 0x20008 (omega arith) (omega arith))
      (user_ram-MapsTo buffers false 2 0x900 (omega arith) (omega arith))

-- The line buffer at 0x900 has room for 9 bytes, and the console holds "hi" with a newline.
abbrev typist : Machine example
typist = record user_machine {
  host_mem = λ q. if q == 0x2f704 then 9 else (if q == 0x10000 then 9 else 0);
  world = record user_machine.world { input = b'h' ∷ b'i' ∷ b'\n' ∷ [] };
}

cconrs-stored_example :
    cconrs 9 typist
    ≡ done 0 (record typist {
      world = record typist.world { input = [] };
      host_mem = store_bytes (update typist.host_mem 0x10001 2) 0x10002 (b'h' ∷ b'i' ∷ []);
    })
unfolding get fetch gets
cconrs-stored_example =
    cconrs-stored 0x2f702 0x10000 8 typist (b'h' ∷ b'i' ∷ []) true (λ q. ground arith)
      (user_ram-MapsTo buffers false 4 0x20002 (omega arith) (omega arith))
      ((λ e. omega arith), ((λ e. omega arith), tt)) (omega arith, (omega arith, tt)) tt refl
      (omega arith) (user_ram-MapsTo buffers false 4 0x900 (omega arith) (omega arith))
