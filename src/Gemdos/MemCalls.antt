-- ===== src/Gemdos/MemCalls.antt =====
-- gemdosmem.c: the handlers of Malloc, Mfree and Mshrink, which peek their arguments from the stack.
use tosemu.Base.{ℕ}
use tosemu.Platform.{Platform}
use tosemu.Machine.{M, done, ◌>>=◌}
use tosemu.Cpu.{peek_u32, peek_s32}
use tosemu.GemdosMem.{MemState}
use tosemu.GemdosMem

module _ ⦃p : Platform⦄ where
  unfoldable pub on_memory : (MemState → ℕ × MemState) → M ℕ
  on_memory f fuel m = let r = f m.memory in done r.0 (record m { memory = r.1 })

  unfoldable pub mshrink : M ℕ
  unfolding on_memory
  mshrink = do newsiz ← peek_u32 8; block ← peek_u32 4; on_memory (GemdosMem.mshrink block newsiz)

  unfoldable pub malloc : M ℕ
  unfolding on_memory
  malloc = do newsiz ← peek_s32 2; on_memory (GemdosMem.malloc newsiz)

  unfoldable pub mfree : M ℕ
  unfolding on_memory
  mfree = do block ← peek_u32 2; on_memory (GemdosMem.mfree block)
