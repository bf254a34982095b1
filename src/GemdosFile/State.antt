-- ===== src/GemdosFile/State.antt =====
-- gemdosfile.c: the variables of the file functions.
use tosemu.Base.{ℕ, List}

-- `struct fhandle`; `f` is a `FILE *`.
pub record FHandle : Type 0 where
  pub f : ℕ
  pub flags : ℕ

-- `struct globitem`, with the paths of its `glob_t`.
pub record GlobItem : Type 0 where
  pub gl_pathv : List (List ℕ)
  pub id : ℕ

-- `base_path` is that of `tos_env`, and `sid` the static counter of gemdos_prepare_dta.
pub record FileState : Type 0 where
  pub handles : List FHandle
  pub dta_addr : ℕ
  pub globhead : List GlobItem
  pub sid : ℕ
  pub base_path : List ℕ
