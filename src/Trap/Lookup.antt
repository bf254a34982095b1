-- ===== src/Trap/Lookup.antt =====
-- The table loop of the three traps: which row it calls, and what it does without one.
use mathlib.Core.Path.{subst}
use mathlib.Core.Option.{some-injective}
use tosemu.Base.{
  ℕ, zero, suc, ◌≡◌, ◌≢◌, refl, Bool, true, false, List, [], ◌∷◌, ◌++◌, some, arith, ◌==◌,
  if◌then◌else◌, All, ==-refl, ne→==, get_elem?,
}
use tosemu.Platform.{Platform}
use tosemu.Machine.{halt_execution}
use tosemu.Trap.{Function, dispatch, trap_loop, call_function}

module _ ⦃p : Platform⦄ where
  -- No row has the number.
  abbrev pub NoRow : ℕ → List (Function p) → Type 0
  NoRow fnct = All (λ f. f.id ≢ fnct)

  -- A row is called by its number if no row before it has that number.
  pub dispatch-row :
      (before : List (Function p)) (f : Function p) (behind : List (Function p))
      → NoRow f.id before
      → dispatch (before ++ f ∷ behind) f.id ≡ call_function f.fnct
  unfolding dispatch
  dispatch-row [] f behind h = rw (==-refl f.id)
  dispatch-row (g ∷ before) f behind h = rw (ne→== g.id f.id h.0) (dispatch-row before f behind h.1)

  pub dispatch-past_end :
      (table : List (Function p)) (e : Function p) (fnct : ℕ)
      → NoRow fnct table
      → trap_loop table e fnct ≡ (if e.id == fnct then call_function e.fnct else halt_execution)
  unfolding dispatch trap_loop
  dispatch-past_end [] e fnct h = refl
  dispatch-past_end (g ∷ table) e fnct h =
      rw (ne→== g.id fnct h.0) (dispatch-past_end table e fnct h.1)

  -- A check by computation that no row has the number.
  abbrev pub is_free : ℕ → List (Function p) → Bool
  is_free fnct [] = true
  is_free fnct (f ∷ rest) = if f.id == fnct then false else is_free fnct rest

  abbrev pub are_distinct : List (Function p) → Bool
  are_distinct [] = true
  are_distinct (f ∷ rest) = if is_free f.id rest then are_distinct rest else false

  is_free-NoRow : (fnct : ℕ) (l : List (Function p)) → is_free fnct l ≡ true → NoRow fnct l
  is_free-NoRow fnct [] h = tt
  is_free-NoRow fnct (f ∷ rest) h = (ground arith, is_free-NoRow fnct rest (ground arith))

  -- A row before the others takes no call from rows with other numbers.
  reached_behind :
      (f : Function p) (table l : List (Function p))
      → is_free f.id l ≡ true
      → All (λ g. dispatch table g.id ≡ call_function g.fnct) l
      → All (λ g. dispatch (f ∷ table) g.id ≡ call_function g.fnct) l
  unfolding dispatch
  reached_behind f table [] h k = tt
  reached_behind f table (g ∷ l) h k =
      let other : f.id ≢ g.id = ground arith in
      (rw (ne→== f.id g.id other) k.0, reached_behind f table l (ground arith) k.1)

  pub rows_reached :
      (table : List (Function p)) (e : Function p)
      → are_distinct table ≡ true
      → All (λ f. trap_loop table e f.id ≡ call_function f.fnct) table
  unfolding dispatch trap_loop
  rows_reached [] e h = tt
  rows_reached (f ∷ table) e h = (
    rw (==-refl f.id),
    reached_behind f (table ++ e ∷ []) table (ground arith) (rows_reached table e (ground arith)),
  )

  pub All-at :
      (P : Function p → Type 0) (l : List (Function p)) (i : ℕ) (f : Function p)
      → get_elem? l i ≡ some f
      → All P l
      → P f
  All-at P [] i f e h = absurd (ground arith)
  All-at P (g ∷ l) zero f e h = subst P (some-injective g f e) h.0
  All-at P (g ∷ l) (suc i) f e h = All-at P l i f e h.1
