-- ===== src/Tests/Machines.antt =====
-- Concrete machines: the memory map of init_tos_environment, in user and in supervisor mode.
use tosemu.Base.{ℕ, [], ◌∷◌, true}
use tosemu.Platform.Example.{example, Registers, Console}
use tosemu.Machine.{Machine}
use tosemu.TosSystem.Layout.{Buffers, tos_areas}

abbrev pub buffers : Buffers
buffers = record {
  staticmem0 = 0x1000;
  staticmem1 = 0x2000;
  supermem = 0x3000;
  bp = 0x4000;
  appmem = 0x10000;
}

abbrev pub console : Console
console = record { input = b'a' ∷ []; output = []; file = []; modes = 0xa }

-- All registers but the stack pointers are 0x1234.
abbrev pub registers : ℕ → Registers
registers status = record { status = status; user = 0x20000; super = 0x780; other = λ i. 0x1234 }

-- Every host byte is `byte`.
abbrev pub machine : (status byte : ℕ) → Machine example
machine status byte = record {
  cpu = registers status;
  world = console;
  host_mem = λ q. byte;
  areas = tos_areas buffers;
  keepongoing = true;
  dreg = 1 ∷ 2 ∷ 3 ∷ 4 ∷ 5 ∷ [];
  areg = 6 ∷ 7 ∷ 8 ∷ 9 ∷ [];
  memory = record { mem_list = []; mem_allocatable_top = 0x10000 };
  files = record { handles = []; dta_addr = 0; globhead = []; sid = 0; base_path = [] };
}

abbrev pub user_machine : Machine example
user_machine = machine 0 0

abbrev pub super_machine : Machine example
super_machine = machine 0x2000 0
