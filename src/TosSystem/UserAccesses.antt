-- ===== src/TosSystem/UserAccesses.antt =====
-- memory.c: the calls that the CPU core makes for the accesses of a user program, against the flat memory.
use mathlib.Core.Path.{subst}
use tosemu.Base.{
  ℕ, suc, ◌%◌, ◌≡◌, refl, ap, sym, Bool, false, List, [], ◌∷◌, Option, none, some, arith,
}
use tosemu.Platform.{Platform}
use tosemu.Machine.{State, done}
use tosemu.Memory.Access.{supervisor}
use tosemu.Memory.Words.{IsBytes}
use tosemu.Memory.Flat
use tosemu.Memory.Flat.{Flat, Access, reads_8, reads_16, reads_32, writes_8, writes_16, writes_32}
use tosemu.Memory.Accesses.{run_access, run_accesses}
use tosemu.TosSystem.Layout.{Buffers, tos_areas}
use tosemu.TosSystem.UserMemory.{
  user_cell, user_open, IsApart, Shows, with_memory, tos_read-flat, read_loop-flat, tos_write-flat,
  write_loop-flat,
}

abbrev pub byte_at : (ℕ → ℕ) → Option ℕ → ℕ
byte_at h none = 0
byte_at h (some c) = h c

module _ ⦃p : Platform⦄ where
  -- The flat memory that a machine shows to a user program.
  abbrev pub flat_view : Buffers → State → Flat
  flat_view b m = record {
    bytes = λ a. byte_at m.host_mem (user_cell b a);
    running = m.keepongoing;
  }

  module _ (b : Buffers) (apart : IsApart b) (m : State) (map : m.areas ≡ tos_areas b)
      (user : supervisor m ≡ false) where
    -- One access, and a sequence of them.
    access-flat :
        (x : Access) (fuel : ℕ) (f : Flat) (h : ℕ → ℕ) (k : Bool)
        → Shows b f h k
        → (h' : ℕ → ℕ) × (run_access x (suc fuel) (with_memory m h k)
            ≡ done
                (Flat.access user_open x f).0
                (with_memory m h' (Flat.access user_open x f).1.running))
          × Shows b (Flat.access user_open x f).1 h' (Flat.access user_open x f).1.running
    unfolding run_access Flat.access
    access-flat (reads_8 a) fuel f h k s =
        let r = tos_read-flat b apart m map user a fuel f h k s in (h, r.0, r.1)
    access-flat (reads_16 a) fuel f h k s =
        let r = read_loop-flat b apart m map user 2 a 0 fuel f h k (omega arith) s in (h, r.0, r.1)
    access-flat (reads_32 a) fuel f h k s =
        let r = read_loop-flat b apart m map user 4 a 0 fuel f h k (omega arith) s in (h, r.0, r.1)
    access-flat (writes_8 a v) fuel f h k s =
        let w = tos_write-flat b apart m map user a (v % 256) (suc fuel) f h k (omega arith) s in
        (w.0, rw w.1 refl, w.2)
    access-flat (writes_16 a v) fuel f h k s =
        let w = write_loop-flat b apart m map user 2 a v (suc fuel) f h k s in
        (w.0, rw w.1 refl, w.2)
    access-flat (writes_32 a v) fuel f h k s =
        let w = write_loop-flat b apart m map user 4 a v (suc fuel) f h k s in
        (w.0, rw w.1 refl, w.2)

    accesses-flat :
        (xs : List Access) (fuel : ℕ) (f : Flat) (h : ℕ → ℕ) (k : Bool)
        → Shows b f h k
        → (h' : ℕ → ℕ) × (run_accesses xs (suc fuel) (with_memory m h k)
            ≡ done
                (Flat.accesses user_open xs f).0
                (with_memory m h' (Flat.accesses user_open xs f).1.running))
          × Shows b (Flat.accesses user_open xs f).1 h' (Flat.accesses user_open xs f).1.running
    unfolding run_accesses Flat.accesses
    accesses-flat [] fuel f h k s =
        let e = s.shown_running in
        (h, ap (λ x. done [] (with_memory m h x)) e, subst (Shows b f h) e s)
    accesses-flat (x ∷ xs) fuel f h k s =
        let one = access-flat x fuel f h k s in
        let f1 = (Flat.access user_open x f).1 in
        let rest = accesses-flat xs fuel f1 one.0 f1.running one.2 in
        (rest.0, rw one.1 (rw rest.1 refl), rest.2)

    flat_view-Shows : IsBytes m.host_mem → Shows b (flat_view b m) m.host_mem m.keepongoing
    flat_view-Shows bytes = record {
      shown_bytes = λ a c here. sym (ap (byte_at m.host_mem) here);
      are_bytes = bytes;
      shown_running = refl;
    }

    -- Whatever bytes, words and long words a program reads and writes in user mode, at any addresses: over
    -- the memory map of init_tos_environment, with buffers that do not overlap, the answers are those of a
    -- flat memory that is open below 0x1ff, in the base page and in the user RAM, where an access anywhere
    -- else reads 0 or writes nothing and stops the execution. Afterwards host memory shows the flat memory
    -- behind the accesses, and of the rest of the machine at most the running has ended.
    pub run_accesses-refines :
        IsBytes m.host_mem
        → (xs : List Access) (fuel : ℕ)
        → (h : ℕ → ℕ) × (run_accesses xs (suc fuel) m
            ≡ done
                (Flat.accesses user_open xs (flat_view b m)).0
                (with_memory m h (Flat.accesses user_open xs (flat_view b m)).1.running))
          × Shows b
              (Flat.accesses user_open xs (flat_view b m)).1
              h
              (Flat.accesses user_open xs (flat_view b m)).1.running
    run_accesses-refines bytes xs fuel =
        accesses-flat xs fuel (flat_view b m) m.host_mem m.keepongoing (flat_view-Shows bytes)
