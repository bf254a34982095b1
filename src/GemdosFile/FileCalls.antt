-- ===== src/GemdosFile/FileCalls.antt =====
-- gemdosfile.c: the table of handles under any calls that open and close files.
use tosemu.Base.{
  ℕ, ◌≤◌, ◌<◌, ◌≡◌, ◌≢◌, ◌⊎◌, inl, inr, refl, ◌∙◌, List, [], ◌∷◌, Option, none, some, ◌==◌,
  if◌then◌else◌, arith, length, get_elem?, Bool-cases,
}
use mathlib.Core.Path.{subst}
use tosemu.Platform.{Platform}
use tosemu.Machine.{State, done}
use tosemu.Errors.{gemdos_e_ok, gemdos_eihndl}
use tosemu.GemdosFile.State.{FHandle}
use tosemu.GemdosFile.Handles.{handles_count, get_handle, invalid_handle, release_handle}
use tosemu.GemdosFile.Streams.{take_handle, file_of, close_file, fclose}
use tosemu.Cpu.{peek_u16}
use tosemu.Machine.Post.{
  Post, Post-done, Post-fault, Post-bind, Post-if, Post-if_run, Post-option_run,
}
use tosemu.GemdosFile.OpenFiles.{
  open_files, Taken, get_handle-Taken, open_files-release_handle, length-release_handle,
  invalid_handle-free, valid_handle-open,
}

-- Calls that open a stream, and calls that close a number.
pub data HandleCall : Type 0 where
  opens closes : ℕ → HandleCall

-- What get_handle and the handler Fclose do with the table, and answer.
unfoldable pub handle_call : HandleCall → List FHandle → ℕ × List FHandle
handle_call (opens f) hs = elim (get_handle f 0 hs) [
  | none ↦ (0xffff_ffff, hs)
  | some (i, t) ↦ (i, t)
]
handle_call (closes i) hs =
    if invalid_handle hs i then (gemdos_eihndl, hs) else (gemdos_e_ok, release_handle hs i)

-- What a call may answer and do to a map with `n` numbers: the least free number is taken, or the call
-- fails if all are taken; a number with a stream is closed, and any other number refused.
pub data Serves (n : ℕ) (before : ℕ → Option ℕ) : HandleCall → ℕ → (ℕ → Option ℕ) → Type 0 where
  opened :
      (f i : ℕ) (behind : ℕ → Option ℕ)
      → i < n
      → before i ≡ none
      → ((j : ℕ) → j < i → before j ≢ none)
      → ((j : ℕ) → behind j ≡ (if i == j then some f else before j))
      → Serves n before (opens f) i behind
  full :
      (f : ℕ) → ((j : ℕ) → j < n → before j ≢ none) → Serves n before (opens f) 0xffff_ffff before
  closed :
      (i : ℕ) (behind : ℕ → Option ℕ)
      → i < n
      → before i ≢ none
      → ((j : ℕ) → behind j ≡ (if i == j then none else before j))
      → Serves n before (closes i) gemdos_e_ok behind
  refused : (i : ℕ) → (n ≤ i) ⊎ (before i ≡ none) → Serves n before (closes i) gemdos_eihndl before

pub data ServesAll (n : ℕ)
    : (ℕ → Option ℕ) → List HandleCall → List ℕ → (ℕ → Option ℕ) → Type 0 where
  served : (o : ℕ → Option ℕ) → ServesAll n o [] [] o
  serves :
      (o o' o'' : ℕ → Option ℕ) (c : HandleCall) (r : ℕ) (cs : List HandleCall) (rs : List ℕ)
      → Serves n o c r o'
      → ServesAll n o' cs rs o''
      → ServesAll n o (c ∷ cs) (r ∷ rs) o''

-- A step of the table is a step of the map.
module _ (hs : List FHandle) (size : length hs ≡ handles_count) where
  opens-Serves :
      (f : ℕ) (r : Option (ℕ × List FHandle))
      → get_handle f 0 hs ≡ r
      → Taken f 0 hs r
      → (Serves handles_count
          (open_files hs)
          (opens f)
          (handle_call (opens f) hs).0
          (open_files (handle_call (opens f) hs).1))
        × (length (handle_call (opens f) hs).1 ≡ handles_count)
  unfolding handle_call
  opens-Serves f none e all_taken =
      (rw (e, handle_call) (full f (λ j l. all_taken j (omega arith))), rw (e, handle_call) size)
  opens-Serves f (some (q, t)) e (i, at, l, free, lower, others, same) =
      let first : i ≡ q = omega arith in
      (
        rw (e, handle_call)
            (subst (λ k. Serves handles_count (open_files hs) (opens f) k (open_files t)) first
              (opened f i (open_files t) (omega arith) free lower others)),
        rw (e, handle_call) (same ∙ size),
      )

  closes-Serves :
      (i : ℕ)
      → (Serves handles_count
          (open_files hs)
          (closes i)
          (handle_call (closes i) hs).0
          (open_files (handle_call (closes i) hs).1))
        × (length (handle_call (closes i) hs).1 ≡ handles_count)
  unfolding handle_call
  closes-Serves i = elim (Bool-cases (invalid_handle hs i)) [
    | inl invalid ↦ (rw invalid (refused i (invalid_handle-free hs i invalid)), rw invalid size)
    | inr valid ↦
        let v = valid_handle-open hs i valid in
        (
          rw valid (
              closed i (open_files (release_handle hs i)) v.0 v.1 (open_files-release_handle hs i)),
          rw valid (length-release_handle hs i ∙ size),
        )
  ]

  handle_call-Serves :
      (c : HandleCall)
      → (Serves handles_count
          (open_files hs)
          c
          (handle_call c hs).0
          (open_files (handle_call c hs).1))
        × (length (handle_call c hs).1 ≡ handles_count)
  handle_call-Serves (opens f) = opens-Serves f (get_handle f 0 hs) refl (get_handle-Taken f 0 hs)
  handle_call-Serves (closes i) = closes-Serves i

unfoldable pub handle_calls : List HandleCall → List FHandle → List ℕ × List FHandle
unfolding handle_call
handle_calls [] hs = ([], hs)
handle_calls (c ∷ cs) hs =
    let r = handle_call c hs in let rest = handle_calls cs r.1 in (r.0 ∷ rest.0, rest.1)

-- The table of handles is a correct map from numbers to open streams: whatever streams are opened and
-- whatever numbers are closed, valid or not, a stream gets the least number that is free, or none if all
-- ten are taken, a number is closed only if it has a stream, and no other number is touched by a call.
pub handle_calls-refines :
    (cs : List HandleCall) (hs : List FHandle)
    → length hs ≡ handles_count
    → ServesAll handles_count
        (open_files hs)
        cs
        (handle_calls cs hs).0
        (open_files (handle_calls cs hs).1)
unfolding handle_calls
handle_calls-refines [] hs size = served (open_files hs)
handle_calls-refines (c ∷ cs) hs size =
    let step = handle_call-Serves hs size c in
    let t = (handle_call c hs).1 in
    serves (open_files hs) (open_files t) (open_files (handle_calls cs t).1) c (handle_call c hs).0
      cs (handle_calls cs t).0 step.0 (handle_calls-refines cs t step.1)

-- The calls are what the functions on the machine do with the table.
module _ ⦃p : Platform⦄ where
  take_handle-handle_call :
      (f fuel : ℕ) (m : State)
      → take_handle f fuel m
        ≡ done (handle_call (opens f) m.files.handles).0 (record m {
          files = record m.files { handles = (handle_call (opens f) m.files.handles).1 };
        })
  unfolding take_handle handle_call
  take_handle-handle_call f fuel m = ground arith

  -- The handle is closed before its stream is looked up.
  fclose-handle_call :
      (i fuel : ℕ) (m : State)
      → peek_u16 2 fuel m ≡ done i m
      → Post (λ r t. (r, t.files.handles) ≡ handle_call (closes i) m.files.handles) (fclose fuel m)
  unfolding fclose file_of close_file handle_call
  fclose-handle_call i fuel m given =
      let hs = m.files.handles in
      let Q : ℕ → State → Type 0 = λ r t. (r, t.files.handles) ≡ handle_call (closes i) hs in
      rw given (
        Post-if {Q = Q} (invalid_handle hs i) _ _ fuel m
          (λ invalid. Post-done gemdos_eihndl m (rw invalid refl))
          λ valid.
            Post-bind {Q = λ _ t. t.files.handles ≡ release_handle hs i} {R = Q} _ _
              (Post-option_run (get_elem? (release_handle hs i) i) _ _ (λ _. Post-fault)
                λ e _. Post-if_run (e.f == 0) _ _ (λ _. Post-fault) λ _. Post-done _ _ refl)
              λ f t e. Post-done gemdos_e_ok _ (rw (valid, e) refl))
