-- ===== src/Errors.antt =====
-- gemdos_p.h: the GEMDOS return values, as the bit patterns of the negative numbers they are.
use tosemu.Base.{ℕ}
use tosemu.Base

abbrev pub gemdos_e_ok : ℕ
gemdos_e_ok = 0

abbrev pub gemdos_einval : ℕ
gemdos_einval = Base.neg32 25

abbrev pub gemdos_einvfn : ℕ
gemdos_einvfn = Base.neg32 32

abbrev pub gemdos_efilnf : ℕ
gemdos_efilnf = Base.neg32 33

abbrev pub gemdos_enhndl : ℕ
gemdos_enhndl = Base.neg32 35

abbrev pub gemdos_eaccdn : ℕ
gemdos_eaccdn = Base.neg32 36

abbrev pub gemdos_eihndl : ℕ
gemdos_eihndl = Base.neg32 37

abbrev pub gemdos_ensmem : ℕ
gemdos_ensmem = Base.neg32 39

abbrev pub gemdos_eimba : ℕ
gemdos_eimba = Base.neg32 40

abbrev pub gemdos_enmfil : ℕ
gemdos_enmfil = Base.neg32 49

abbrev pub gemdos_eintrn : ℕ
gemdos_eintrn = Base.neg32 65

abbrev pub gemdos_egsbf : ℕ
gemdos_egsbf = Base.neg32 67
