-- ===== src/GemdosCon/Raw.antt =====
-- gemdoscon.c: Crawio and Crawcin switch the terminal's modes for one character.
use tosemu.Base.{
  ℕ, suc, ◌-◌, ◌%◌, ◌≡◌, refl, add32, bit_and, bit_or, u16_mod, u32_mod, ◌==◌, if◌then◌else◌,
  Bool-cases, inl, inr,
}
use tosemu.Base.Bits.{bit_and_byte}
use tosemu.Platform.{Platform, Register, TerminalLaws}
use tosemu.Machine.{State, Run, done}
use tosemu.Memory.Cells.{Mapped}
use tosemu.Memory.Words.{IsBytes, fetch}
use tosemu.Cpu.Stack.{reg, peek_u16-fetch}
use tosemu.GemdosCon.{getchar_without, crawio, crawcin}
use tosemu.Console.{console_input_available, putchar}

module _ ⦃p : Platform⦄ where
  -- The character that `getchar` gives while the modes are off.
  abbrev pub raw_getchar : ℕ → p.World → ℕ × p.World
  raw_getchar modes w =
      let r = p.getchar (p.tcsetattr (bit_and (p.tcgetattr w) (u32_mod - 1 - modes)) w) in
      (r.0 % 256, p.tcsetattr (p.tcgetattr w) r.1)

  abbrev with_world : State → p.World → State
  with_world m w = record m { world = w }

  getchar_without-raw :
      (modes fuel : ℕ) (m : State)
      → getchar_without modes fuel m
        ≡ done (raw_getchar modes m.world).0 (with_world m (raw_getchar modes m.world).1)
  unfolding getchar_without
  getchar_without-raw modes fuel m = rw (bit_and_byte _) refl

  -- A call answers `r`, changes nothing but the outside world, and leaves the terminal's modes alone.
  abbrev pub Restores : ℕ → p.World → State → Run State ℕ → Type 0
  Restores r w m run = (run ≡ done r (with_world m w)) × (p.tcgetattr w ≡ p.tcgetattr m.world)

  module _ (laws : TerminalLaws p) where
    getchar_without-Restores :
        (modes fuel : ℕ) (m : State)
        → Restores
            (raw_getchar modes m.world).0
            (raw_getchar modes m.world).1
            m
            (getchar_without modes fuel m)
    getchar_without-Restores modes fuel m = (getchar_without-raw modes fuel m, laws.get_set _ _)

    -- What Crawcin answers, and the outside world behind it.
    abbrev pub raw_input : ℕ → p.World → ℕ × p.World
    raw_input modes w = if p.stdin_ready w then raw_getchar modes w else (0, w)

    crawcin-Restores :
        (fuel : ℕ) (m : State)
        → Restores
            (raw_input (bit_or p.icanon p.echo) m.world).0
            (raw_input (bit_or p.icanon p.echo) m.world).1
            m
            (crawcin fuel m)
    unfolding crawcin console_input_available
    crawcin-Restores fuel m = elim (Bool-cases (p.stdin_ready m.world)) [
      | inl ready ↦ rw ready (getchar_without-Restores (bit_or p.icanon p.echo) fuel m)
      | inr waits ↦ rw waits (refl, refl)
    ]

    -- The same for Crawio, by the word that it is given.
    abbrev pub raw_output : ℕ → p.World → ℕ × p.World
    raw_output c w = if c == 0xff then raw_input p.icanon w else (0, p.putchar (c % 256) w)

    crawio-Restores :
        (c fuel : ℕ) (m : State)
        → IsBytes m.host_mem
        → Mapped m (add32 (reg m Register.a7) 2) 2 c
        → Restores
            (raw_output (fetch m.host_mem c 2 0 % u16_mod) m.world).0
            (raw_output (fetch m.host_mem c 2 0 % u16_mod) m.world).1
            m
            (crawio (suc fuel) m)
    unfolding crawio console_input_available putchar
    crawio-Restores c fuel m bytes there =
        let word = fetch m.host_mem c 2 0 % u16_mod in
        rw (peek_u16-fetch 2 c fuel m bytes there) (elim (Bool-cases (word == 0xff)) [
          | inl reads ↦ elim (Bool-cases (p.stdin_ready m.world)) [
            | inl ready ↦ rw (reads, ready) (getchar_without-Restores p.icanon (suc fuel) m)
            | inr waits ↦ rw (reads, waits) (refl, refl)
          ]
          | inr writes ↦ rw (writes, bit_and_byte word) (refl, laws.get_putchar _ _)
        ])

    -- Crawcin, and Crawio with its argument in mapped memory, return and leave the terminal's modes as they
    -- were: Crawcin answers the character that is read while line buffering and echo are off, or 0 if none
    -- waits; Crawio does the same for 0xff, with the echo on, and writes any other character. Nothing but the
    -- outside world is changed. The terminal keeps the modes that are set, as termios.h says.
    pub raw-Restores :
        (c fuel : ℕ) (m : State)
        → IsBytes m.host_mem
        → Mapped m (add32 (reg m Register.a7) 2) 2 c
        → Restores
            (raw_input (bit_or p.icanon p.echo) m.world).0
            (raw_input (bit_or p.icanon p.echo) m.world).1
            m
            (crawcin (suc fuel) m)
          × Restores
              (raw_output (fetch m.host_mem c 2 0 % u16_mod) m.world).0
              (raw_output (fetch m.host_mem c 2 0 % u16_mod) m.world).1
              m
              (crawio (suc fuel) m)
    raw-Restores c fuel m bytes there =
        (crawcin-Restores (suc fuel) m, crawio-Restores c fuel m bytes there)
