-- ===== src/System/Console.antt =====
-- gemdoscon.c, bios.c, xbios.c, gemdos.c: the handlers that use neither files nor the memory lists.
use tosemu.Base.{ℕ, zero, suc, List, [], ◌∷◌, Option, none, some, add32}
use tosemu.Platform.{Platform}
use tosemu.Machine.Keeps.{Frame, Keeps}
use tosemu.System.Access.{access_rules}
use tosemu.GemdosCon.{
  cconin, cnecin, cconout, cconis, cconos, cconws_loop, cconws, write_chars, write_line, store_line,
  cconrs, crawio, crawcin,
}
use tosemu.Bios.{setexc, bconin, bconout, bconstat, bcostat}
use tosemu.Xbios.{getrez, supexec, keytbl, bioskeys}
use tosemu.Gemdos.{pterm, pterm0, tgetdate, tgettime, super, sversion, gemdos_unknown}

module _ ⦃p : Platform⦄ {P : Frame} where
  pub cconin-Keeps : Keeps P cconin
  unfolding cconin
  cconin-Keeps = search access_rules

  pub cnecin-Keeps : Keeps P cnecin
  unfolding cnecin
  cnecin-Keeps = search access_rules

  pub cconout-Keeps : Keeps P cconout
  unfolding cconout
  cconout-Keeps = search access_rules

  pub cconis-Keeps : Keeps P cconis
  unfolding cconis
  cconis-Keeps = search access_rules

  pub cconos-Keeps : Keeps P cconos
  unfolding cconos
  cconos-Keeps = search access_rules

  cconws_loop-Keeps : (rounds adr res : ℕ) → Keeps P (cconws_loop rounds adr res)
  unfolding cconws_loop
  cconws_loop-Keeps zero adr res = search access_rules
  cconws_loop-Keeps (suc rounds) adr res =
      search (access_rules, cconws_loop-Keeps rounds (add32 adr 1) (add32 res 1))

  pub cconws-Keeps : Keeps P cconws
  unfolding cconws
  cconws-Keeps = search (access_rules, cconws_loop-Keeps)

  write_chars-Keeps : (cs : List ℕ) (adr : ℕ) → Keeps P (write_chars cs adr)
  unfolding write_chars
  write_chars-Keeps [] adr = search access_rules
  write_chars-Keeps (c ∷ cs) adr = search (access_rules, write_chars-Keeps cs (add32 adr 1))

  write_line-Keeps : (cs : List ℕ) (adr : ℕ) → Keeps P (write_line cs adr)
  unfolding write_line
  write_line-Keeps [] adr = search access_rules
  write_line-Keeps (c ∷ cs) adr = search (access_rules, write_chars-Keeps)

  store_line-Keeps :
      (lineptr maxlen : ℕ) (line : Option (List ℕ)) → Keeps P (store_line lineptr maxlen line)
  unfolding store_line
  store_line-Keeps lineptr maxlen none = search access_rules
  store_line-Keeps lineptr maxlen (some []) = search access_rules
  store_line-Keeps lineptr maxlen (some (c ∷ cs)) = search (access_rules, write_line-Keeps)

  pub cconrs-Keeps : Keeps P cconrs
  unfolding cconrs
  cconrs-Keeps = search (access_rules, store_line-Keeps)

  pub crawio-Keeps : Keeps P crawio
  unfolding crawio
  crawio-Keeps = search access_rules

  pub crawcin-Keeps : Keeps P crawcin
  unfolding crawcin
  crawcin-Keeps = search access_rules

  pub setexc-Keeps : Keeps P setexc
  unfolding setexc
  setexc-Keeps = search access_rules depth 20

  pub bconin-Keeps : Keeps P bconin
  unfolding bconin
  bconin-Keeps = search access_rules

  pub bconout-Keeps : Keeps P bconout
  unfolding bconout
  bconout-Keeps = search access_rules

  pub bconstat-Keeps : Keeps P bconstat
  unfolding bconstat
  bconstat-Keeps = search access_rules

  pub bcostat-Keeps : Keeps P bcostat
  unfolding bcostat
  bcostat-Keeps = search access_rules

  pub getrez-Keeps : Keeps P getrez
  unfolding getrez
  getrez-Keeps = search access_rules

  pub supexec-Keeps : Keeps P supexec
  unfolding supexec
  supexec-Keeps = search access_rules depth 20

  pub keytbl-Keeps : Keeps P keytbl
  unfolding keytbl
  keytbl-Keeps = search access_rules depth 20

  pub bioskeys-Keeps : Keeps P bioskeys
  unfolding bioskeys
  bioskeys-Keeps = search access_rules

  pub pterm-Keeps : Keeps P pterm
  unfolding pterm
  pterm-Keeps = search access_rules

  pub pterm0-Keeps : Keeps P pterm0
  unfolding pterm0
  pterm0-Keeps = search access_rules

  pub tgetdate-Keeps : Keeps P tgetdate
  unfolding tgetdate
  tgetdate-Keeps = search access_rules

  pub tgettime-Keeps : Keeps P tgettime
  unfolding tgettime
  tgettime-Keeps = search access_rules

  pub super-Keeps : Keeps P super
  unfolding super
  super-Keeps = search access_rules depth 20

  pub sversion-Keeps : Keeps P sversion
  unfolding sversion
  sversion-Keeps = search access_rules

  pub gemdos_unknown-Keeps : Keeps P gemdos_unknown
  unfolding gemdos_unknown
  gemdos_unknown-Keeps = search access_rules
