-- ===== src/System/Traps.antt =====
-- gemdos.c, bios.c, xbios.c, tossystem.c: what each trap keeps, function by function of the tables.
use tosemu.Base.{Bool, ℕ, ◌==◌, ◌++◌, List, [], ◌∷◌, Option, none, some, All}
use tosemu.Platform.{Platform}
use tosemu.Machine.{M, m68k_set_reg, halt_execution}
use tosemu.Machine.Keeps.{Frame, Keeps, Leaves-bind, Leaves-if, leaves_rules}
use tosemu.Memory.Area.{MemoryArea}
use tosemu.Trap.{Function, call_function, dispatch, trap_loop}
use tosemu.Gemdos.{gemdos_functions, gemdos_trap}
use tosemu.Bios.{bios_functions, bios_trap}
use tosemu.Xbios.{xbios_functions, xbios_trap}
use tosemu.TosSystem.{m68k_trap}
use tosemu.System.Access.{peek_u16-Keeps}
use tosemu.System.Console.{
  cconin-Keeps, cnecin-Keeps, cconout-Keeps, cconis-Keeps, cconos-Keeps, cconws-Keeps, cconrs-Keeps,
  crawio-Keeps, crawcin-Keeps, setexc-Keeps, bconin-Keeps, bconout-Keeps, bconstat-Keeps,
  bcostat-Keeps, getrez-Keeps, supexec-Keeps, keytbl-Keeps, bioskeys-Keeps, pterm-Keeps,
  pterm0-Keeps, tgetdate-Keeps, tgettime-Keeps, super-Keeps, sversion-Keeps, gemdos_unknown-Keeps,
}
use tosemu.System.Files.{
  dcreate-Keeps, dgetdrv-Keeps, dgetpath-Keeps, dsetpath-Keeps, fattrib-Keeps, fdatime-Keeps,
  fdelete-Keeps, fgetdta-Keeps, fread-Keeps, fseek-Keeps, fsnext-Keeps, fwrite-Keeps,
}
use tosemu.System.Sound.{
  Sound, malloc-Keeps, mfree-Keeps, mshrink-Keeps, fsetdta-Keeps, fcreate-Keeps, fopen-Keeps,
  fclose-Keeps, fsfirst-Keeps,
}

module _ ⦃p : Platform⦄ where
  -- The functions that a table points to, without its NULL rows.
  abbrev implemented : List (Function p) → List (M ℕ)
  implemented [] = []
  implemented (f ∷ rest) = elim f.fnct [ none ↦ implemented rest | some g ↦ g ∷ implemented rest ]

  abbrev pub AllKeep : Frame → List (Function p) → Type 0
  AllKeep P table = All (λ g. Keeps P g) (implemented table)

  module _ {P : Frame} where
    halt_execution-Keeps : Keeps P halt_execution
    unfolding halt_execution
    halt_execution-Keeps = search leaves_rules

    call_some-Keeps : (f : M ℕ) → Keeps P f → Keeps P (call_function (some f))
    unfolding call_function m68k_set_reg
    call_some-Keeps f k = search (leaves_rules, k)

    call_none-Keeps : Keeps P (call_function none)
    unfolding call_function halt_execution
    call_none-Keeps = search leaves_rules

    first_row-Keeps :
        (o : Option (M ℕ)) (rest : List (M ℕ))
        → All (λ g. Keeps P g) (elim o [ none ↦ rest | some g ↦ g ∷ rest ])
        → Keeps P (call_function o) × All (λ g. Keeps P g) rest
    first_row-Keeps none rest k = (call_none-Keeps, k)
    first_row-Keeps (some g) rest k = (call_some-Keeps g k.0, k.1)

    dispatch-Keeps :
        (table : List (Function p)) (fnct : ℕ) → AllKeep P table → Keeps P (dispatch table fnct)
    unfolding dispatch
    dispatch-Keeps [] fnct k fuel m h = halt_execution-Keeps fuel m h
    dispatch-Keeps (f ∷ rest) fnct k fuel m h =
        let ks = first_row-Keeps f.fnct (implemented rest) k in
        Leaves-if (f.id == fnct) _ _ fuel m (ks.0 fuel m h) (dispatch-Keeps rest fnct ks.1 fuel m h)

  -- One more row behind the others.
  module _ (P : Frame) where
    add_row :
        (o : Option (M ℕ)) (rest more : List (M ℕ))
        → All (λ g. Keeps P g) (elim o [ none ↦ rest | some g ↦ g ∷ rest ])
        → (All (λ g. Keeps P g) rest → All (λ g. Keeps P g) more)
        → All (λ g. Keeps P g) (elim o [ none ↦ more | some g ↦ g ∷ more ])
    add_row none rest more k f = f k
    add_row (some g) rest more k f = (k.0, f k.1)

    AllKeep-behind :
        (table : List (Function p)) (e : Function p)
        → AllKeep P table
        → AllKeep P (e ∷ [])
        → AllKeep P (table ++ e ∷ [])
    AllKeep-behind [] e k ke = ke
    AllKeep-behind (f ∷ rest) e k ke =
        add_row f.fnct (implemented rest) (implemented (rest ++ e ∷ [])) k
          (λ k'. AllKeep-behind rest e k' ke)

    trap_loop-Keeps :
        (table : List (Function p)) (e : Function p) (fnct : ℕ)
        → AllKeep P table
        → AllKeep P (e ∷ [])
        → Keeps P (trap_loop table e fnct)
    unfolding trap_loop
    trap_loop-Keeps table e fnct k ke =
        dispatch-Keeps (table ++ e ∷ []) fnct (AllKeep-behind table e k ke)

  infixr 4 ◌⊗◌
  abbrev ◌⊗◌ : {A B : Type 0} → A → B → A × B
  ◌⊗◌ a b = (a, b)

  -- What lies behind a table in host memory is no function, or one that keeps `P` too.
  module _ (managed halted : Bool) (map : List MemoryArea) (n : ℕ) (base : List ℕ) where
    gemdos_functions-Keeps : AllKeep (Sound managed halted map n base) gemdos_functions
    unfolding gemdos_functions
    gemdos_functions-Keeps =
        cconin-Keeps ⊗ cconis-Keeps ⊗ cconos-Keeps ⊗ cconout-Keeps ⊗ cconrs-Keeps ⊗ cconws-Keeps
        ⊗ cnecin-Keeps ⊗ crawcin-Keeps ⊗ crawio-Keeps ⊗ dcreate-Keeps ⊗ dgetdrv-Keeps
        ⊗ dgetpath-Keeps ⊗ dsetpath-Keeps ⊗ fattrib-Keeps ⊗ fclose-Keeps ⊗ gemdos_unknown-Keeps
        ⊗ fcreate-Keeps ⊗ fdatime-Keeps ⊗ fdelete-Keeps ⊗ fgetdta-Keeps ⊗ fopen-Keeps ⊗ fread-Keeps
        ⊗ fseek-Keeps ⊗ fsetdta-Keeps ⊗ fsfirst-Keeps ⊗ fsnext-Keeps ⊗ fwrite-Keeps
        ⊗ gemdos_unknown-Keeps ⊗ malloc-Keeps ⊗ mfree-Keeps ⊗ mshrink-Keeps ⊗ gemdos_unknown-Keeps
        ⊗ gemdos_unknown-Keeps ⊗ gemdos_unknown-Keeps ⊗ gemdos_unknown-Keeps ⊗ gemdos_unknown-Keeps
        ⊗ pterm-Keeps ⊗ pterm0-Keeps ⊗ gemdos_unknown-Keeps ⊗ super-Keeps ⊗ sversion-Keeps
        ⊗ tgetdate-Keeps ⊗ tgettime-Keeps ⊗ gemdos_unknown-Keeps ⊗ gemdos_unknown-Keeps
        ⊗ gemdos_unknown-Keeps ⊗ gemdos_unknown-Keeps ⊗ gemdos_unknown-Keeps ⊗ tt

    bios_functions-Keeps : AllKeep (Sound managed halted map n base) bios_functions
    unfolding bios_functions
    bios_functions-Keeps =
        bconin-Keeps ⊗ bconout-Keeps ⊗ bconstat-Keeps ⊗ bcostat-Keeps ⊗ setexc-Keeps ⊗ tt

    xbios_functions-Keeps : AllKeep (Sound managed halted map n base) xbios_functions
    unfolding xbios_functions
    xbios_functions-Keeps = bioskeys-Keeps ⊗ getrez-Keeps ⊗ keytbl-Keeps ⊗ supexec-Keeps ⊗ tt

    gemdos_trap-Keeps :
        (e : Function p)
        → AllKeep (Sound managed halted map n base) (e ∷ [])
        → Keeps (Sound managed halted map n base) (gemdos_trap e)
    unfolding gemdos_trap
    gemdos_trap-Keeps e ke fuel m h = Leaves-bind _ _ (peek_u16-Keeps 0 fuel m h) λ fnct.
        trap_loop-Keeps (Sound managed halted map n base) gemdos_functions e fnct
          gemdos_functions-Keeps ke fuel

    bios_trap-Keeps :
        (e : Function p)
        → AllKeep (Sound managed halted map n base) (e ∷ [])
        → Keeps (Sound managed halted map n base) (bios_trap e)
    unfolding bios_trap
    bios_trap-Keeps e ke fuel m h = Leaves-bind _ _ (peek_u16-Keeps 0 fuel m h) λ fnct.
        trap_loop-Keeps (Sound managed halted map n base) bios_functions e fnct bios_functions-Keeps
          ke fuel

    xbios_trap-Keeps :
        (e : Function p)
        → AllKeep (Sound managed halted map n base) (e ∷ [])
        → Keeps (Sound managed halted map n base) (xbios_trap e)
    unfolding xbios_trap
    xbios_trap-Keeps e ke fuel m h = Leaves-bind _ _ (peek_u16-Keeps 0 fuel m h) λ fnct.
        trap_loop-Keeps (Sound managed halted map n base) xbios_functions e fnct
          xbios_functions-Keeps ke fuel

    pub m68k_trap-Keeps :
        (gemdos_end bios_end xbios_end : Function p) (vector : ℕ)
        → AllKeep (Sound managed halted map n base) (gemdos_end ∷ [])
        → AllKeep (Sound managed halted map n base) (bios_end ∷ [])
        → AllKeep (Sound managed halted map n base) (xbios_end ∷ [])
        → Keeps (Sound managed halted map n base) (m68k_trap gemdos_end bios_end xbios_end vector)
    unfolding m68k_trap
    m68k_trap-Keeps g b x vector kg kb kx fuel m h =
        Leaves-if (vector == 0x21) _ _ fuel m (gemdos_trap-Keeps g kg fuel m h) (
          Leaves-if (vector == 0x22) _ _ fuel m (halt_execution-Keeps fuel m h) (
            Leaves-if (vector == 0x2d) _ _ fuel m (bios_trap-Keeps b kb fuel m h) (
              Leaves-if (vector == 0x2e) _ _ fuel m (xbios_trap-Keeps x kx fuel m h)
                (halt_execution-Keeps fuel m h))))
