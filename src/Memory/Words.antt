-- ===== src/Memory/Words.antt =====
-- memory.c: the byte loops of the 16- and 32-bit accesses store and fetch big-endian numbers.
use native.Mathlib.Nat.{pow-suc}
use tosemu.Base.{
  ℕ, zero, suc, ◌+◌, ◌*◌, ◌/◌, ◌%◌, ◌^◌, ◌≤◌, ◌<◌, ◌≡◌, ◌⊎◌, inr, refl, ◌∙◌, ==-refl, Bool, List,
  some, arith, bit_and, bit_or, add32, u32_mod,
}
use tosemu.Base.Bits.{shifted-bit_or, bit_and_byte}
use tosemu.Platform.{Platform}
use tosemu.Machine.{State, done, update}
use tosemu.Memory.Access.{supervisor, tos_read, read_loop, write_loop}
use tosemu.Memory.Cells.{write_cell, tos_read-cell, tos_write-cell, MapsTo, Mapped}
use tosemu.Memory.Area.{MemoryArea}

-- Host memory holds bytes.
abbrev pub IsBytes : (ℕ → ℕ) → Type 0
IsBytes h = (q : ℕ) → h q < 256

-- `n` bytes at `c` become the big-endian form of `v`.
unfoldable pub poke : (ℕ → ℕ) → ℕ → ℕ → ℕ → ℕ → ℕ
poke h c zero v = h
poke h c (suc n) v = poke (update h (c + n) (v % 256)) c n (v / 256)

-- The big-endian number in the `n` bytes at `c`, behind the digits of `acc`.
unfoldable pub fetch : (ℕ → ℕ) → ℕ → ℕ → ℕ → ℕ
fetch h c zero acc = acc
fetch h c (suc n) acc = fetch h (c + 1) n (acc * 256 + h c)

fetch-last : (h : ℕ → ℕ) (c n acc : ℕ) → fetch h c (suc n) acc ≡ fetch h c n acc * 256 + h (c + n)
unfolding fetch
fetch-last h c zero acc = let e : c + 0 ≡ c = omega arith in rw e
fetch-last h c (suc n) acc =
    let e : c + suc n ≡ c + 1 + n = omega arith in rw e (fetch-last h (c + 1) n (acc * 256 + h c))

update_self : (h : ℕ → ℕ) (q v : ℕ) → update h q v q ≡ v
unfolding update
update_self h q v = rw (==-refl q)

pub poke_outside : (h : ℕ → ℕ) (c n v q : ℕ) → (q < c) ⊎ (c + n ≤ q) → poke h c n v q ≡ h q
unfolding poke update
poke_outside h c zero v q o = refl
poke_outside h c (suc n) v q o =
    ground (arith, poke_outside (update h (c + n) (v % 256)) c n (v / 256) q)

pub poke-IsBytes : (h : ℕ → ℕ) (c n v : ℕ) → IsBytes h → IsBytes (poke h c n v)
unfolding poke
poke-IsBytes h c zero v b = b
poke-IsBytes h c (suc n) v b =
    poke-IsBytes (update h (c + n) (v % 256)) c n (v / 256) (λ q. updated q)
  where
    updated : (q : ℕ) → update h (c + n) (v % 256) q < 256
    updated q = unfold update in ground (arith, b q)

pub fetch-poke : (h : ℕ → ℕ) (c n v : ℕ) → v < 256 ^ n → fetch (poke h c n v) c n 0 ≡ v
unfolding poke
fetch-poke h c zero v w = unfold fetch in omega arith
fetch-poke h c (suc n) v w =
    let h' = update h (c + n) (v % 256) in
    let stays : poke h' c n (v / 256) (c + n) ≡ v % 256 =
      poke_outside h' c n (v / 256) (c + n) (inr (omega arith)) ∙ update_self h (c + n) (v % 256) in
    let high : v / 256 < 256 ^ n = omega (arith, pow-suc 256 n) in
    omega (arith, fetch-last (poke h' c n (v / 256)) c n 0, fetch-poke h' c n (v / 256) high)

pub fetch-lt : (h : ℕ → ℕ) (c : ℕ) → IsBytes h → fetch h c 4 0 < u32_mod
unfolding fetch
fetch-lt h c b = omega (arith, b c, b (c + 1), b (c + 1 + 1), b (c + 1 + 1 + 1))

-- A number depends on its own bytes only.
pub fetch-same :
    (h k : ℕ → ℕ) (c n acc : ℕ) → ((q : ℕ) → c ≤ q → h q ≡ k q) → fetch h c n acc ≡ fetch k c n acc
unfolding fetch
fetch-same h k c zero acc e = refl
fetch-same h k c (suc n) acc e =
    rw (e c (omega arith)) (fetch-same h k (c + 1) n (acc * 256 + k c) (λ q l. e q (omega arith)))

-- What `acc` may be before `n` more bytes are read into 32 bits.
abbrev pub room : ℕ → ℕ
room zero = u32_mod
room (suc n) = room n / 256

pub room-le : (n : ℕ) → room n ≤ u32_mod
room-le zero = omega arith
room-le (suc n) = omega (arith, room-le n)

pub room_left : (n : ℕ) → n ≤ 4 → 0 < room n
room_left zero h = omega arith
room_left (suc zero) h = omega arith
room_left (suc (suc zero)) h = omega arith
room_left (suc (suc (suc zero))) h = omega arith
room_left (suc (suc (suc (suc zero)))) h = omega arith
room_left (suc (suc (suc (suc (suc n))))) h = absurd (omega arith)

MapsTo-at :
    (areas : List MemoryArea) (super : Bool) (a n c i : ℕ)
    → a < u32_mod
    → i < n
    → MapsTo areas super a n c
    → write_cell areas super (add32 a i) ≡ some (c + i)
MapsTo-at areas super a zero c i w l h = absurd (omega arith)
MapsTo-at areas super a (suc n) c zero w l h =
    let ea : add32 a 0 ≡ a = omega arith in let ec : c + 0 ≡ c = omega arith in rw (ea, ec) h.1
MapsTo-at areas super a (suc n) c (suc i) w l h =
    let ea : add32 a (suc i) ≡ add32 (add32 a 1) i = omega arith in
    let ec : c + suc i ≡ c + 1 + i = omega arith in
    rw (ea, ec) (MapsTo-at areas super (add32 a 1) n (c + 1) i (omega arith) (omega arith) h.2)

module _ ⦃p : Platform⦄ where
  pub read_loop-fetch :
      (n a c acc fuel : ℕ) (m : State)
      → IsBytes m.host_mem
      → Mapped m a n c
      → acc < room n
      → read_loop tos_read n a acc (suc fuel) m ≡ done (fetch m.host_mem c n acc) m
  unfolding read_loop fetch
  read_loop-fetch zero a c acc fuel m b h r = refl
  read_loop-fetch (suc n) a c acc fuel m b h r =
      let low : (acc * 256) % u32_mod ≡ acc * 256 = omega (arith, room-le n) in
      let digit : bit_or (acc * 256) (m.host_mem c) ≡ acc * 256 + m.host_mem c =
        shifted-bit_or 8 acc (m.host_mem c) (b c) in
      rw (tos_read-cell a c fuel m h.0, low, digit)
        (read_loop-fetch n (add32 a 1) (c + 1) (acc * 256 + m.host_mem c) fuel m b h.2
          (omega (arith, b c)))

  pub write_loop-poke :
      (n k a c v fuel : ℕ) (m : State)
      → a < u32_mod
      → n ≤ k
      → Mapped m a k c
      → write_loop n a v fuel m ≡ done tt (record m { host_mem = poke m.host_mem c n v })
  unfolding write_loop poke
  write_loop-poke zero k a c v fuel m w l h = refl
  write_loop-poke (suc n) k a c v fuel m w l h =
      let at = MapsTo-at m.areas (supervisor m) a k c n w l h in
      let m' : State = record m { host_mem = update m.host_mem (c + n) (v % 256) } in
      rw (tos_write-cell (add32 a n) (bit_and v 0xff) (c + n) fuel m at, bit_and_byte v)
        (write_loop-poke n k a c (v / 256) fuel m' w (omega arith) h)
