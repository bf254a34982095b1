-- ===== src/Machine/Post.antt =====
-- What holds when a run returns: one rule for each way in which a run is built.
use mathlib.Core.Path.{subst}
use tosemu.Base.{ℕ, Bool, true, false, Option, none, some, ◌≡◌, refl, sym, if◌then◌else◌}
use tosemu.Platform.{Platform}
use tosemu.Machine.{State, M, Run, done, exited, fault, out_of_fuel, and_then}
use tosemu.Machine.Keeps.{
  Frame, Holds, Leaves, Leaves-done, Leaves-exited, Leaves-fault, Leaves-out_of_fuel,
}

module _ ⦃p : Platform⦄ where
  -- If the call returns, then `Q` holds of its value and of the state that it leaves.
  pub data Post {A : Type 0} (Q : A → State → Type 0) : Run State A → Type 0 where
    Post-done : (a : A) (m : State) → Q a m → Post Q (done a m)
    Post-exited : (c : ℕ) → Post Q (exited c)
    Post-fault : Post Q fault
    Post-out_of_fuel : Post Q out_of_fuel

  module _ {A : Type 0} where
    pub Post-any : (r : Run State A) → Post (λ _ _. Unit {0}) r
    Post-any (done a m) = Post-done a m tt
    Post-any (exited c) = Post-exited c
    Post-any fault = Post-fault
    Post-any out_of_fuel = Post-out_of_fuel

    pub Post-Leaves : {P : Frame} → (r : Run State A) → Leaves P r → Post (λ _ m. Holds P m) r
    Post-Leaves r (Leaves-done a m h) = Post-done a m h
    Post-Leaves r (Leaves-exited c) = Post-exited c
    Post-Leaves r Leaves-fault = Post-fault
    Post-Leaves r Leaves-out_of_fuel = Post-out_of_fuel

    module _ {Q : A → State → Type 0} where
      pub Post-if :
          (b : Bool) (x y : M A) (fuel : ℕ) (m : State)
          → (b ≡ true → Post Q (x fuel m))
          → (b ≡ false → Post Q (y fuel m))
          → Post Q ((if b then x else y) fuel m)
      Post-if true x y fuel m kx ky = kx refl
      Post-if false x y fuel m kx ky = ky refl

      pub Post-if_run :
          (b : Bool) (x y : Run State A)
          → (b ≡ true → Post Q x)
          → (b ≡ false → Post Q y)
          → Post Q (if b then x else y)
      Post-if_run true x y kx ky = kx refl
      Post-if_run false x y kx ky = ky refl

      pub Post-option :
          {C : Type 0}
          → (o : Option C) (x : M A) (f : C → M A) (fuel : ℕ) (m : State)
          → (o ≡ none → Post Q (x fuel m))
          → ((c : C) → o ≡ some c → Post Q (f c fuel m))
          → Post Q ((elim o as (λ _. M A) [ none ↦ x | some c ↦ f c ]) fuel m)
      Post-option none x f fuel m kx kf = kx refl
      Post-option (some c) x f fuel m kx kf = kf c refl

      pub Post-option_run :
          {C : Type 0}
          → (o : Option C) (x : Run State A) (f : C → Run State A) → (o ≡ none → Post Q x)
          → ((c : C) → o ≡ some c → Post Q (f c))
          → Post Q (elim o [ none ↦ x | some c ↦ f c ])
      Post-option_run none x f kx kf = kx refl
      Post-option_run (some c) x f kx kf = kf c refl

      pub Post-returned : {a : A} {m : State} → Post Q (done a m) → Q a m
      Post-returned (Post-done a m h) = h

  pub Post-bind :
      {A B : Type 0} {Q : A → State → Type 0} {R : B → State → Type 0}
      → (r : Run State A) (f : A → State → Run State B) → Post Q r
      → ((a : A) (m : State) → Q a m → Post R (f a m))
      → Post R (and_then r f)
  Post-bind (done a m) f h k = k a m (Post-returned h)
  Post-bind (exited c) f h k = Post-exited c
  Post-bind fault f h k = Post-fault
  Post-bind out_of_fuel f h k = Post-out_of_fuel

  -- What a run that is known to return leaves.
  pub Post-at :
      {A : Type 0} {Q : A → State → Type 0}
      → (r : Run State A) (a : A) (m : State) → r ≡ done a m
      → Post Q r
      → Q a m
  Post-at {Q = Q} r a m e h = Post-returned (subst (Post Q) e h)

  pub Post-run :
      {A : Type 0} {Q : A → State → Type 0}
      → (r : Run State A) (a : A) (m : State) → r ≡ done a m
      → Q a m
      → Post Q r
  Post-run {Q = Q} r a m e h = subst (Post Q) (sym e) (Post-done a m h)
