-- ===== src/TosSystem/UserMemory.antt =====
-- memory.c over the memory map of tossystem.c: in user mode the emulated memory is the flat memory of
-- `Memory.Flat`, with the open addresses that the map gives to a user program.
use mathlib.Core.Path.{ap₂, subst}
use tosemu.Base.{
  ℕ, zero, suc, ◌+◌, ◌-◌, ◌*◌, ◌/◌, ◌%◌, ◌≤◌, ◌<◌, ◌≡◌, ◌⊎◌, inl, inr, refl, ap, ◌∙◌, Bool, true,
  false, Option, none, some, ◌==◌, ltb, leb, ◌&&◌, ◌||◌, if◌then◌else◌, arith, add32, u32_mod,
  bit_or, Bool-cases, Option-cases,
}
use tosemu.Base.Bits.{shifted-bit_or, bit_and_byte}
use tosemu.Platform.{Platform}
use tosemu.Machine.{State, done, update, halt_execution}
use tosemu.Memory.Area.{find_memarea}
use tosemu.Memory.Access.{
  supervisor, tos_read, tos_read_by, tos_write, call_read, read_loop, write_loop,
}
use tosemu.Memory.Cells.{read_cell, write_cell, tos_read-cell, tos_write-cell}
use tosemu.Memory.Words.{IsBytes, room, room-le}
use tosemu.Memory.Laws.{tos_write-written, written}
use tosemu.Memory.Flat
use tosemu.Memory.Flat.{Flat, Access, reads_8, reads_16, reads_32, writes_8, writes_16, writes_32}
use tosemu.TosSystem.Layout.{Buffers, tos_areas, user_ram_size}

-- The host byte of an address in user mode.
abbrev pub user_cell : Buffers → ℕ → Option ℕ
user_cell b a =
    if ltb a 0x1ff
    then some (b.staticmem0 + a)
    else if leb 0x800 a && ltb a 0x900
    then some (b.bp + (a - 0x800))
    else if leb 0x900 a && ltb a (0x900 + user_ram_size)
    then some (b.appmem + (a - 0x900))
    else none

unfoldable pub user_open : ℕ → Bool
user_open a = ltb a 0x1ff || (leb 0x800 a && ltb a (0x900 + user_ram_size))

-- The buffers of the host memory do not overlap.
pub record IsApart (b : Buffers) : Type 0 where
  pub low_bp : (b.staticmem0 + 0x200 ≤ b.bp) ⊎ (b.bp + 0x100 ≤ b.staticmem0)
  pub low_ram : (b.staticmem0 + 0x200 ≤ b.appmem) ⊎ (b.appmem + user_ram_size ≤ b.staticmem0)
  pub bp_ram : (b.bp + 0x100 ≤ b.appmem) ⊎ (b.appmem + user_ram_size ≤ b.bp)

read_cell-user : (b : Buffers) (a : ℕ) → read_cell (tos_areas b) false a ≡ user_cell b a
unfolding tos_areas read_cell find_memarea
read_cell-user b a = ground arith

write_cell-user : (b : Buffers) (a : ℕ) → write_cell (tos_areas b) false a ≡ user_cell b a
unfolding tos_areas write_cell find_memarea
write_cell-user b a = ground arith

user_cell-injective :
    (b : Buffers) (a q c : ℕ) → IsApart b → user_cell b a ≡ some c → user_cell b q ≡ some c → a ≡ q
user_cell-injective b a q c apart e k = ground arith

cell-open :
    (b : Buffers) (a : ℕ)
    → ((user_open a ≡ true) × ((c : ℕ) × (user_cell b a ≡ some c)))
      ⊎ ((user_open a ≡ false) × (user_cell b a ≡ none))
unfolding user_open
cell-open b a = elim (Option-cases (user_cell b a)) [
  | inl closed ↦ inr (ground arith, closed)
  | inr (c, here) ↦ inl (ground arith, (c, here))
]

-- What host memory and `keepongoing` show of the flat memory.
pub record Shows (b : Buffers) (f : Flat) (h : ℕ → ℕ) (k : Bool) : Type 0 where
  pub shown_bytes : (a c : ℕ) → user_cell b a ≡ some c → h c ≡ f.bytes a
  pub are_bytes : IsBytes h
  pub shown_running : k ≡ f.running

Shows-stop :
    (b : Buffers) (f : Flat) (h : ℕ → ℕ) (k : Bool)
    → Shows b f h k
    → Shows b (Flat.stop user_open f) h false
Shows-stop b f h k s = record {
  shown_bytes = s.shown_bytes;
  are_bytes = s.are_bytes;
  shown_running = refl;
}

Shows-update :
    (b : Buffers) (f : Flat) (h : ℕ → ℕ) (k : Bool) (a c v : ℕ)
    → IsApart b
    → user_cell b a ≡ some c
    → v < 256
    → Shows b f h k
    → Shows b (record f { bytes = update f.bytes a v }) (update h c v) k
unfolding update
Shows-update b f h k a c v apart here small s = record {
  shown_bytes = λ q d there. elim (Bool-cases (a == q)) [
    | inl same ↦ ground arith
    | inr other ↦ ground (arith, s.shown_bytes q d there, user_cell-injective b a q c apart here)
  ];
  are_bytes = λ q. ground (arith, s.are_bytes q);
  shown_running = s.shown_running;
}

module _ ⦃p : Platform⦄ where
  abbrev pub with_memory : State → (ℕ → ℕ) → Bool → State
  with_memory m h k = record m { host_mem = h; keepongoing = k }

  module _ (b : Buffers) (apart : IsApart b) (m : State) (map : m.areas ≡ tos_areas b)
      (user : supervisor m ≡ false) where
    tos_read-open :
        (a c fuel : ℕ) (f : Flat) (h : ℕ → ℕ) (k : Bool)
        → user_cell b a ≡ some c
        → Shows b f h k
        → tos_read a (suc fuel) (with_memory m h k) ≡ done (f.bytes a) (with_memory m h k)
    tos_read-open a c fuel f h k here s =
        tos_read-cell a c fuel (with_memory m h k)
          (ap₂ (λ areas super. read_cell areas super a) map user ∙ read_cell-user b a ∙ here)
        ∙ ap (λ v. done v (with_memory m h k)) (s.shown_bytes a c here)

    tos_read-closed :
        (a fuel : ℕ) (h : ℕ → ℕ) (k : Bool)
        → user_cell b a ≡ none
        → tos_read a (suc fuel) (with_memory m h k) ≡ done 0 (with_memory m h false)
    unfolding tos_read tos_read_by call_read halt_execution find_memarea tos_areas
    tos_read-closed a fuel h k closed = ground (arith, map, user)

    write_cell-map :
        (a : ℕ) (h : ℕ → ℕ) (k : Bool)
        → write_cell (with_memory m h k).areas (supervisor (with_memory m h k)) a ≡ user_cell b a
    write_cell-map a h k =
        ap₂ (λ areas super. write_cell areas super a) map user ∙ write_cell-user b a

    tos_write-open :
        (a c v fuel : ℕ) (h : ℕ → ℕ) (k : Bool)
        → user_cell b a ≡ some c
        → tos_write a v fuel (with_memory m h k) ≡ done tt (with_memory m (update h c v) k)
    tos_write-open a c v fuel h k here =
        tos_write-cell a v c fuel (with_memory m h k) (write_cell-map a h k ∙ here)

    tos_write-closed :
        (a v fuel : ℕ) (h : ℕ → ℕ) (k : Bool)
        → user_cell b a ≡ none
        → tos_write a v fuel (with_memory m h k) ≡ done tt (with_memory m h false)
    tos_write-closed a v fuel h k closed =
        tos_write-written a v fuel (with_memory m h k)
        ∙ ap (λ o. done tt (written (with_memory m h k) v o)) (write_cell-map a h k ∙ closed)

    pub tos_read-flat :
        (a fuel : ℕ) (f : Flat) (h : ℕ → ℕ) (k : Bool)
        → Shows b f h k
        → (tos_read a (suc fuel) (with_memory m h k)
            ≡ done
                (Flat.read_byte user_open a f).0
                (with_memory m h (Flat.read_byte user_open a f).1.running))
          × Shows b (Flat.read_byte user_open a f).1 h (Flat.read_byte user_open a f).1.running
          × ((Flat.read_byte user_open a f).0 < 256)
    unfolding Flat.read_byte
    tos_read-flat a fuel f h k s =
        let e = s.shown_running in
        elim (cell-open b a) [
          | inl (opened, (c, here)) ↦ (
            rw (opened, ← e) (tos_read-open a c fuel f h k here s),
            rw opened (subst (Shows b f h) e s),
            rw opened (omega (arith, s.shown_bytes a c here, s.are_bytes c)),
          )
          | inr (shut, closed) ↦ (
            rw shut (tos_read-closed a fuel h k closed),
            rw shut (Shows-stop b f h k s),
            rw shut (omega arith),
          )
        ]

    pub read_loop-flat :
        (n a acc fuel : ℕ) (f : Flat) (h : ℕ → ℕ) (k : Bool)
        → acc < room n
        → Shows b f h k
        → (read_loop tos_read n a acc (suc fuel) (with_memory m h k)
            ≡ done
                (Flat.read user_open n a acc f).0
                (with_memory m h (Flat.read user_open n a acc f).1.running))
          × Shows b (Flat.read user_open n a acc f).1 h (Flat.read user_open n a acc f).1.running
    unfolding read_loop Flat.read
    read_loop-flat zero a acc fuel f h k r s =
        let e = s.shown_running in
        (ap (λ x. done acc (with_memory m h x)) e, subst (Shows b f h) e s)
    read_loop-flat (suc n) a acc fuel f h k r s =
        let byte = tos_read-flat a fuel f h k s in
        let q = Flat.read_byte user_open a f in
        let low : (acc * 256) % u32_mod ≡ acc * 256 = omega (arith, room-le n) in
        let digit : bit_or (acc * 256) q.0 ≡ acc * 256 + q.0 = shifted-bit_or 8 acc q.0 byte.2 in
        let rest =
          read_loop-flat n (add32 a 1) (acc * 256 + q.0) fuel q.1 h q.1.running (omega arith)
            byte.1 in
        (rw (byte.0, low, digit) rest.0, rest.1)

    pub tos_write-flat :
        (a v fuel : ℕ) (f : Flat) (h : ℕ → ℕ) (k : Bool)
        → v < 256
        → Shows b f h k
        → (h' : ℕ → ℕ) × (tos_write a v fuel (with_memory m h k)
            ≡ done tt (with_memory m h' (Flat.write_byte user_open a v f).running))
          × Shows b (Flat.write_byte user_open a v f) h' (Flat.write_byte user_open a v f).running
    unfolding Flat.write_byte
    tos_write-flat a v fuel f h k small s =
        let e = s.shown_running in
        elim (cell-open b a) [
          | inl (opened, (c, here)) ↦ (
            update h c v,
            rw (opened, ← e) (tos_write-open a c v fuel h k here),
            rw opened (
                subst (Shows b (record f { bytes = update f.bytes a v }) (update h c v)) e
                  (Shows-update b f h k a c v apart here small s)),
          )
          | inr (shut, closed) ↦
              (h, rw shut (tos_write-closed a v fuel h k closed), rw shut (Shows-stop b f h k s))
        ]

    pub write_loop-flat :
        (n a v fuel : ℕ) (f : Flat) (h : ℕ → ℕ) (k : Bool)
        → Shows b f h k
        → (h' : ℕ → ℕ) × (write_loop n a v fuel (with_memory m h k)
            ≡ done tt (with_memory m h' (Flat.write user_open n a v f).running))
          × Shows b (Flat.write user_open n a v f) h' (Flat.write user_open n a v f).running
    unfolding write_loop Flat.write
    write_loop-flat zero a v fuel f h k s =
        let e = s.shown_running in
        (h, ap (λ x. done tt (with_memory m h x)) e, subst (Shows b f h) e s)
    write_loop-flat (suc n) a v fuel f h k s =
        let b1 = add32 a n in
        let w = tos_write-flat b1 (v % 256) fuel f h k (omega arith) s in
        let f1 = Flat.write_byte user_open b1 (v % 256) f in
        let rest = write_loop-flat n a (v / 256) fuel f1 w.0 f1.running w.2 in
        (rest.0, rw (bit_and_byte v, w.1) rest.1, rest.2)
