-- ===== src/Main.antt =====
-- main.c: the start of the program and the execution of instructions. The CPU core is the parameter
-- `Core`; `argv` is the whole list of arguments, the program's name first.
pub mod Loop
pub mod Outcome
pub mod Ending
use tosemu.Base.{
  ℕ, zero, suc, ◌-◌, Bool, true, false, List, [], ◌∷◌, Option, none, some, ◌==◌, ◌||◌, not,
  if◌then◌else◌,
}
use tosemu.Platform.{Platform, Register}
use tosemu.Platform.Host.{Host}
use tosemu.Machine.{
  M, done, fault, out_of_fuel, pure, ◌>>=◌, ◌>>◌, ask, act, m68k_get_reg, m68k_set_reg,
}
use tosemu.Memory.{m68k_write_memory_32}
use tosemu.Memory.Access.{disable_supervisor_mode}
use tosemu.GemdosFile.Path.{bytes_eq}
use tosemu.TosSystem.Header.{byte_at}
use tosemu.TosSystem.Start.{TosEnvironment, init_tos_environment, free_tos_environment}

-- m68k.h: the functions of the core that main.c calls. They call back into the program, so each is
-- a function on the whole state. `m68k_execute` gets the function that it calls before each
-- instruction, and the number of cycles.
pub record Core (p : Platform) : Type 0 where
  pub m68k_init : M ⦃p = p⦄ (Unit {0})
  pub m68k_set_cpu_type : ℕ → M ⦃p = p⦄ (Unit {0})
  pub m68k_pulse_reset : M ⦃p = p⦄ (Unit {0})
  pub m68k_execute : M ⦃p = p⦄ (Unit {0}) → ℕ → M ⦃p = p⦄ (Unit {0})
  pub m68k_disassemble : (pc cpu_type : ℕ) → M ⦃p = p⦄ (Unit {0})

-- `M68K_CPU_TYPE_68000`
abbrev m68k_cpu_type_68000 : ℕ
m68k_cpu_type_68000 = 1

-- The `int` -1.
abbrev pub failure : ℕ
failure = 0xffff_ffff

-- Whether `-v` is given, the binary, and the arguments that are left. `none` is the message on usage.
unfoldable pub parse_args : List (List ℕ) → Option (Bool × List ℕ × List (List ℕ))
unfolding bytes_eq
parse_args [] = none
parse_args (_ ∷ []) = none
parse_args (_ ∷ binary ∷ []) = some (false, binary, [])
parse_args (_ ∷ first ∷ second ∷ rest) =
    if bytes_eq first (b'-' ∷ b'v' ∷ [])
    then some (true, second, rest)
    else some (false, first, second ∷ rest)

module _ ⦃p : Platform⦄ ⦃core : Core p⦄ where
  -- The disassembled text is printed.
  unfoldable pub cpu_instr_callback : (verbose : Bool) → M (Unit {0})
  unfolding m68k_get_reg
  cpu_instr_callback verbose =
      if verbose
      then (do pc ← m68k_get_reg Register.pc; core.m68k_disassemble pc m68k_cpu_type_68000)
      else pure tt

  -- `while (keepongoing)`, for the rounds that are left.
  unfoldable pub execution_loop : (verbose : Bool) → (rounds : ℕ) → M (Unit {0})
  unfolding cpu_instr_callback
  execution_loop verbose zero fuel m = out_of_fuel
  execution_loop verbose (suc rounds) fuel m =
      if m.keepongoing
      then (core.m68k_execute (cpu_instr_callback verbose) 1 >> execution_loop verbose rounds) fuel
          m
      else done tt m

  unfoldable pub start_cpu : (size : ℕ) → M (Unit {0})
  unfolding m68k_set_reg m68k_write_memory_32 disable_supervisor_mode
  start_cpu size = do
    core.m68k_init
    core.m68k_set_cpu_type m68k_cpu_type_68000
    core.m68k_pulse_reset
    m68k_set_reg Register.isp 0x600
    m68k_set_reg Register.usp (size - 4)
    m68k_write_memory_32 size 0x800
    m68k_set_reg Register.pc 0x900
    disable_supervisor_mode

  module _ ⦃host : Host p⦄ where
    unfoldable pub close_binary : ℕ → M (Unit {0})
    close_binary fd fuel m = done tt (record m { world = host.close fd m.world })

    -- From the call of init_tos_environment on. The fuel bounds the instructions, too.
    unfoldable pub run_binary :
        (verbose : Bool) → (fd : ℕ) → (binary : List ℕ) → (args : List (List ℕ)) → M ℕ
    unfolding close_binary start_cpu execution_loop init_tos_environment free_tos_environment
    run_binary verbose fd binary args = do
      ret ← init_tos_environment binary args
      elim ret [
        | none ↦ close_binary fd >> pure failure
        | some te ↦ (do
          close_binary fd
          start_cpu te.size
          (λ fuel m. execution_loop verbose fuel fuel m)
          free_tos_environment te
          pure 0)
      ]

    -- `mmap` is tested for NULL, so that a failed mapping is used. Without a result of `fstat` the size is
    -- indeterminate.
    unfoldable pub map_binary : (fd : ℕ) → M (List ℕ)
    map_binary fd = do
      sb ← ask (p.fstat fd)
      elim sb [
        | none ↦ λ fuel m. fault
        | some st ↦ (do
          binary_data ← act (host.mmap st.st_size fd)
          elim binary_data [ none ↦ λ fuel m. fault | some binary ↦ pure binary ])
      ]

    unfoldable pub main : (argv : List (List ℕ)) → M ℕ
    unfolding parse_args map_binary close_binary run_binary byte_at
    main argv = elim (parse_args argv) [
      | none ↦ pure failure
      | some (verbose, path, args) ↦ (do
        binary_file ← act (host.open_rdonly path)
        elim binary_file [
          | none ↦ pure failure
          | some fd ↦ (do
            binary ← map_binary fd
            if not (byte_at binary 0 == 0x60) || not (byte_at binary 1 == 0x1a)
                then close_binary fd >> pure failure
                else run_binary verbose fd binary args)
        ])
    ]
