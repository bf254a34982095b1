-- ===== src/Tests/Ends.antt =====
-- A whole run at a concrete machine: the binary is loaded, and its only instruction stops the execution.
use tosemu.Base.{◌≡◌, refl, false, [], length, Option, some, arith}
use tosemu.Platform.Example.{example, get, set, put}
use tosemu.Machine.{State, Run, done, update, halt_execution, m68k_get_reg, m68k_set_reg}
use tosemu.Utils.{endianize_32, endianize_loop}
use tosemu.Memory.Area.{find_memarea, reset_memory, remove_memory_area, remove_loop}
use tosemu.Memory.Access.{write_loop, tos_write, call_write, disable_supervisor_mode}
use tosemu.Memory
use tosemu.Memory.{m68k_write_memory_32, add_ptr_memory_area, add_fnct_memory_area}
use tosemu.GemdosFile.Search.{load_le, store_bytes}
use tosemu.GemdosFile.Handles.{handles_count, init_handles}
use tosemu.GemdosMem.{gemdos_mem_init}
use tosemu.TosSystem.{m68k_trap}
use tosemu.TosSystem.Layout.{register_areas, tos_areas}
use tosemu.TosSystem.Header.{byte_at, exec_header, segments}
use tosemu.TosSystem.Start.{
  TosEnvironment, init_tos_environment, copy_segments, store_host, relocate_file, base_path_of,
  start_execution, gemdos_init, gemdos_file_init,
}
use tosemu.System.Steps.{callback, steps, stays, calls, traps}
use tosemu.System.Started.{started-stays}
use tosemu.Main.{start_cpu, run_binary, cpu_instr_callback}
use tosemu.Main.Ending.{instructions, run_binary-ends}
use tosemu.Tests.Machines.{buffers, user_machine}
use tosemu.Tests.Runs.{host, core, ends, core-CoreLaws}
use tosemu.Tests.Loads.{binary, args}

abbrev state_or : {A : Type 0} → State → Run State A → State
state_or m (done a t) = t
state_or m _ = m

abbrev initial : State
initial = state_or user_machine (init_tos_environment binary args 9 user_machine)

abbrev environment_or : TosEnvironment → Run State (Option TosEnvironment) → TosEnvironment
environment_or te (done (some t) s) = t
environment_or te _ = te

abbrev none_yet : TosEnvironment
none_yet = record {
  size = 0;
  buffers = buffers;
  segments = record { tsize = 0; dsize = 0; bsize = 0; ssize = 0 };
  base_path = [];
}

abbrev environment : TosEnvironment
environment = environment_or none_yet (init_tos_environment binary args 9 user_machine)

abbrev ready : State
ready = state_or initial (start_cpu environment.size 9 initial)

abbrev trapped : State
trapped = record initial { keepongoing = false }

started-stays_example :
    (trapped.areas ≡ tos_areas environment.buffers)
    × (trapped.files.base_path ≡ environment.base_path)
    × (length trapped.files.handles ≡ handles_count)
unfolding init_tos_environment register_areas copy_segments store_host store_bytes relocate_file
    base_path_of start_execution gemdos_init gemdos_file_init init_handles gemdos_mem_init
    exec_header segments byte_at load_le endianize_32 endianize_loop Memory.reset_memory
    reset_memory remove_memory_area remove_loop add_ptr_memory_area add_fnct_memory_area start_cpu
    m68k_write_memory_32 write_loop tos_write call_write find_memarea disable_supervisor_mode
    m68k_get_reg m68k_set_reg update callback cpu_instr_callback m68k_trap halt_execution get set
    put tos_areas
started-stays_example =
    started-stays (λ w. refl) binary args 9 user_machine initial trapped environment ends
      (omega arith) refl (tt, tt, tt)
      (steps initial trapped trapped (calls (traps 0x22) 9 initial trapped refl) (stays trapped))

run_binary-ends_example : (t : State) × (run_binary false 5 binary args 9 user_machine ≡ done 0 t)
unfolding init_tos_environment register_areas copy_segments store_host store_bytes relocate_file
    base_path_of start_execution gemdos_init gemdos_file_init init_handles gemdos_mem_init
    exec_header segments byte_at load_le endianize_32 endianize_loop Memory.reset_memory
    reset_memory remove_memory_area remove_loop add_ptr_memory_area add_fnct_memory_area start_cpu
    m68k_write_memory_32 write_loop tos_write call_write find_memarea disable_supervisor_mode
    m68k_get_reg m68k_set_reg update instructions cpu_instr_callback m68k_trap halt_execution get
    set put tos_areas
run_binary-ends_example =
    run_binary-ends (λ w. refl) ends core-CoreLaws false 5 1 9 binary args user_machine initial
      ready (record ready { keepongoing = false }) environment (tt, tt, tt) (omega arith)
      (omega arith) (omega arith) refl refl refl refl
