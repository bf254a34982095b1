-- ===== src/Platform/Example/Laws.antt =====
-- The laws of the CPU core and of the terminal hold at the concrete platform.
use mathlib.Core.Path.{◌∙◌}
use tosemu.Base.{
  List, [], ◌∷◌, zero, suc, sym, ℕ, ◌/◌, ◌%◌, ◌^◌, ◌<◌, ◌≡◌, ◌≢◌, refl, ap, false, ◌==◌, arith,
  bit_and, ne→==, Bool-cases, ◌⊎◌, inl, inr,
}
use tosemu.Base.Bits.{bit_and_supervisor}
use tosemu.Platform.{Register, CpuLaws, TerminalLaws, IsPlain, supervisor_bit}
use tosemu.Platform.Example.{Console, getc, code, Registers, get, set, put, example}

low_status : (s : ℕ) → bit_and (s % 2 ^ 16) supervisor_bit ≡ bit_and s supervisor_bit
low_status s = omega (arith, bit_and_supervisor (s % 2 ^ 16), bit_and_supervisor s)

bit_of : (s : ℕ) → (bit_and s supervisor_bit ≡ 0) ⊎ (bit_and s supervisor_bit ≡ supervisor_bit)
bit_of s = elim (Bool-cases (s / 0x2000 % 2 == 0)) [
  | inl even ↦ inl (ground (arith, bit_and_supervisor s))
  | inr odd ↦ inr (ground (arith, bit_and_supervisor s))
]

range : (r : Register) (c : Registers) → get r c < 2 ^ 32
unfolding get
range Register.sr c = omega arith
range _ c = omega arith

same : (r : Register) (v : ℕ) (c : Registers) → IsPlain r → v < 2 ^ 32 → get r (set r v c) ≡ v
unfolding get set put
same Register.sr v c h w = absurd h
same Register.usp v c h w = absurd h
same Register.isp v c h w = absurd h
same _ v c h w = ground arith

decode : ℕ → Register
decode zero = Register.d0
decode (suc zero) = Register.d3
decode (suc (suc zero)) = Register.d4
decode (suc (suc (suc zero))) = Register.d5
decode (suc (suc (suc (suc zero)))) = Register.d6
decode (suc (suc (suc (suc (suc zero))))) = Register.d7
decode (suc (suc (suc (suc (suc (suc zero)))))) = Register.a3
decode (suc (suc (suc (suc (suc (suc (suc zero))))))) = Register.a4
decode (suc (suc (suc (suc (suc (suc (suc (suc zero)))))))) = Register.a5
decode (suc (suc (suc (suc (suc (suc (suc (suc (suc zero))))))))) = Register.a6
decode (suc (suc (suc (suc (suc (suc (suc (suc (suc (suc zero)))))))))) = Register.a7
decode (suc (suc (suc (suc (suc (suc (suc (suc (suc (suc (suc zero))))))))))) = Register.pc
decode (suc (suc (suc (suc (suc (suc (suc (suc (suc (suc (suc (suc zero)))))))))))) = Register.sr
decode (suc (suc (suc (suc (suc (suc (suc (suc (suc (suc (suc (suc (suc zero))))))))))))) =
    Register.usp
decode (suc (suc (suc (suc (suc (suc (suc (suc (suc (suc (suc (suc (suc (suc zero)))))))))))))) =
    Register.isp
decode _ = Register.isp

decode-code : (r : Register) → decode (code r) ≡ r
unfolding decode
decode-code Register.d0 = refl
decode-code _ = refl

code_ne : (r q : Register) → r ≢ q → (code q == code r) ≡ false
code_ne r q n =
    ne→== (code q) (code r) (λ e. n (sym (decode-code r) ∙ ap decode (sym e) ∙ decode-code q))

others :
    (r q : Register) (v : ℕ) (c : Registers)
    → IsPlain r
    → IsPlain q
    → r ≢ q
    → get r (set q v c) ≡ get r c
unfolding get set put
others Register.sr q v c h k n = absurd h
others Register.usp q v c h k n = absurd h
others Register.isp q v c h k n = absurd h
others Register.a7 Register.sr v c h k n = absurd k
others Register.a7 Register.usp v c h k n = absurd k
others Register.a7 Register.isp v c h k n = absurd k
others Register.a7 Register.a7 v c h k n = absurd (n refl)
others Register.a7 _ v c h k n = refl
others _ Register.sr v c h k n = absurd k
others _ Register.usp v c h k n = absurd k
others _ Register.isp v c h k n = absurd k
others _ Register.a7 v c h k n = ground arith
others r q v c h k n = ground (arith, code_ne r q n)

status_kept :
    (q : Register) (v : ℕ) (c : Registers)
    → IsPlain q
    → get Register.sr (set q v c) ≡ get Register.sr c
unfolding get set put
status_kept Register.sr v c k = absurd k
status_kept Register.usp v c k = absurd k
status_kept Register.isp v c k = absurd k
status_kept Register.a7 v c k = ground arith
status_kept _ v c k = refl

status_spares :
    (r : Register) (v : ℕ) (c : Registers)
    → IsPlain r
    → r ≢ Register.a7
    → get r (set Register.sr v c) ≡ get r c
unfolding get set
status_spares Register.sr v c k n = absurd k
status_spares Register.usp v c k n = absurd k
status_spares Register.isp v c k n = absurd k
status_spares Register.a7 v c k n = absurd (n refl)
status_spares _ v c k n = refl

user_kept :
    (q : Register) (v : ℕ) (c : Registers)
    → IsPlain q
    → bit_and (get Register.sr c) supervisor_bit ≡ supervisor_bit
    → get Register.usp (set q v c) ≡ get Register.usp c
unfolding get set
user_kept Register.sr v c k e = absurd k
user_kept Register.usp v c k e = absurd k
user_kept Register.isp v c k e = absurd k
user_kept Register.a7 v c k e = ground (arith, low_status c.status)
user_kept _ v c k e = refl

user_spares :
    (r : Register) (v : ℕ) (c : Registers)
    → IsPlain r
    → r ≢ Register.a7
    → get r (set Register.usp v c) ≡ get r c
unfolding get set
user_spares Register.sr v c k n = absurd k
user_spares Register.usp v c k n = absurd k
user_spares Register.isp v c k n = absurd k
user_spares Register.a7 v c k n = absurd (n refl)
user_spares _ v c k n = refl

pub example-CpuLaws : CpuLaws example
unfolding get set
example-CpuLaws = record {
  reg_range = range;
  get_set = same;
  get_set_ne = others;
  sr_set = status_kept;
  set_sr = λ v c. low_status v;
  get_set_sr = status_spares;
  a7_user = λ v c h. ground arith;
  a7_supervisor = λ v c h. ground arith;
  usp_user = λ c h. ground (arith, low_status c.status);
  usp_set_sr = λ v c. refl;
  usp_supervisor = user_kept;
  usp_set = λ v c w. omega arith;
  get_set_usp = user_spares;
}

getc_modes : (l : List ℕ) (w : Console) → (getc l w).1.modes ≡ w.modes
unfolding getc
getc_modes [] w = refl
getc_modes (c ∷ cs) w = refl

pub example-TerminalLaws : TerminalLaws example
unfolding getc
example-TerminalLaws = record {
  get_set = λ f w. refl;
  get_getchar = λ w. getc_modes w.input w;
  get_putchar = λ c w. refl;
}
