-- ===== src/Console.antt =====
-- The C library's console calls, and console_input_available of utils.c.
use tosemu.Base.{ℕ, Bool}
use tosemu.Platform.{Platform}
use tosemu.Machine.{M, done, ask, act}

module _ ⦃p : Platform⦄ where
  unfoldable pub console_input_available : M Bool
  console_input_available = ask p.stdin_ready

  unfoldable pub getchar : M ℕ
  getchar = act p.getchar

  unfoldable pub putchar : ℕ → M (Unit {0})
  putchar c fuel m = done tt (record m { world = p.putchar c m.world })
