-- ===== src/Machine/Keeps.antt =====
-- What the program's functions leave alone: one rule for each way in which a run is built. The
-- predicates are those on `keepongoing`, on the memory areas and on the variables of gemdosmem.c and
-- gemdosfile.c, so that a change of any other part of the state keeps them.
use tosemu.Base.{ℕ, Bool, true, false, Option, none, some, List, if◌then◌else◌}
use tosemu.Platform.{Platform}
use tosemu.Memory.Area.{MemoryArea}
use tosemu.GemdosMem.{MemState}
use tosemu.GemdosFile.State.{FileState}
use tosemu.Machine.{State, M, Run, done, exited, fault, out_of_fuel, and_then}

-- A predicate that a halt keeps.
pub record Frame : Type 1 where
  pub pred : Bool → List MemoryArea → FileState → MemState → Type 0
  pub on_halt :
      (b : Bool) (areas : List MemoryArea) (files : FileState) (memory : MemState)
      → pred b areas files memory
      → pred false areas files memory

module _ ⦃p : Platform⦄ where
  abbrev pub Holds : Frame → State → Type 0
  Holds P m = P.pred m.keepongoing m.areas m.files m.memory

  -- If the call returns, then `P` holds of the state that it leaves.
  pub data Leaves {A : Type 0} (P : Frame) : Run State A → Type 0 where
    Leaves-done : (a : A) (m : State) → Holds P m → Leaves P (done a m)
    Leaves-exited : (c : ℕ) → Leaves P (exited c)
    Leaves-fault : Leaves P fault
    Leaves-out_of_fuel : Leaves P out_of_fuel

  -- Whenever the function returns, `P` holds after it if it held before.
  abbrev pub Keeps : {A : Type 0} → Frame → M A → Type 0
  Keeps P x = (fuel : ℕ) (m : State) → Holds P m → Leaves P (x fuel m)

  pub Leaves-halted :
      {A : Type 0} {P : Frame}
      → (a : A) (m : State) → Holds P m
      → Leaves P (done a (record m { keepongoing = false }))
  Leaves-halted {P = P} a m h =
      Leaves-done a (record m { keepongoing = false })
        (P.on_halt m.keepongoing m.areas m.files m.memory h)

  module _ {A : Type 0} {P : Frame} where
    pub Leaves-if :
        (b : Bool) (x y : M A) (fuel : ℕ) (m : State)
        → Leaves P (x fuel m)
        → Leaves P (y fuel m)
        → Leaves P ((if b then x else y) fuel m)
    Leaves-if true x y fuel m kx ky = kx
    Leaves-if false x y fuel m kx ky = ky

    pub Leaves-if_run :
        (b : Bool) (x y : Run State A) → Leaves P x → Leaves P y → Leaves P (if b then x else y)
    Leaves-if_run true x y kx ky = kx
    Leaves-if_run false x y kx ky = ky

    pub Leaves-returned : {a : A} {m : State} → Leaves P (done a m) → Holds P m
    Leaves-returned (Leaves-done a m h) = h

  module _ {A C : Type 0} {P : Frame} where
    pub Leaves-option :
        (o : Option C) (x : M A) (f : C → M A) (fuel : ℕ) (m : State)
        → Leaves P (x fuel m)
        → ((c : C) → Leaves P (f c fuel m))
        → Leaves P ((elim o as (λ _. M A) [ none ↦ x | some c ↦ f c ]) fuel m)
    Leaves-option none x f fuel m kx kf = kx
    Leaves-option (some c) x f fuel m kx kf = kf c

    pub Leaves-option_run :
        (o : Option C) (x : Run State A) (f : C → Run State A)
        → Leaves P x
        → ((c : C) → Leaves P (f c))
        → Leaves P (elim o [ none ↦ x | some c ↦ f c ])
    Leaves-option_run none x f kx kf = kx
    Leaves-option_run (some c) x f kx kf = kf c

  module _ {A B : Type 0} {P : Frame} where
    pub Leaves-bind :
        (r : Run State A) (f : A → State → Run State B)
        → Leaves P r
        → ((a : A) (m : State) → Holds P m → Leaves P (f a m))
        → Leaves P (and_then r f)
    Leaves-bind (done a m) f h k = k a m (Leaves-returned h)
    Leaves-bind (exited c) f h k = Leaves-exited c
    Leaves-bind fault f h k = Leaves-fault
    Leaves-bind out_of_fuel f h k = Leaves-out_of_fuel

pub ruleset leaves_rules = (
  Leaves-done, Leaves-halted, Leaves-exited, Leaves-fault, Leaves-out_of_fuel, Leaves-if,
  Leaves-if_run, Leaves-bind,
)
