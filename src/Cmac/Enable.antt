-- ===== src/Cmac/Enable.antt =====
-- How `onic_enable_cmac` of onic_main.c leaves the port.
use onic_driver.Base.{
  ℕ, zero, suc, ne→==, arith, ◌≤◌, ◌+◌, ◌<◌, ◌≡◌, ◌∙◌, refl, sym, subst, Bool, true, false,
  if◌then◌else◌, if-both, Option, some,
}
use onic_driver.Base.Int.{ℤ}
use onic_driver.Kernel.{OnicPriv, Op, Log, Env, World, called, Io, pure}
use onic_driver.Register.{cmac_conf, syscfg_offset}
use onic_driver.Register.Sys.{SysReg, syscfg_reg}
use onic_driver.Register.Conf.{ConfReg, conf_reg}
use onic_driver.Cmac.{conf_writes, rsfec_writes, shell_bit, enable_lanes, onic_enable_cmac}
use onic_driver.Cmac.Writes.{register, conf_writes-register, conf_writes-priv}
use onic_driver.Cmac.Wait.{read_status, polled, shows, wait_shell-returns, polled-priv}
use onic_driver.Cmac.Lanes.{port, Fec, aligns, EnableEnds, enable_lanes-Ends}

module _ (env : Env) where
  -- The world in which the wait for the reset begins.
  abbrev pub reset_asked : World → World
  reset_asked w =
      let i = w.priv.info.port_id in
      let b = w.priv.bar_base in
      called (Op.writel (shell_bit i) (b + syscfg_offset SysReg.shell_reset)) env
        ((if w.priv.info.rsfec_en then conf_writes b i rsfec_writes else pure tt) env w).1

  reset_asked-priv : (w : World) → (reset_asked w).priv ≡ w.priv
  reset_asked-priv w =
      if-both (λ (m : Io (Unit {0})). (m env w).1.priv ≡ w.priv) w.priv.info.rsfec_en
        (conf_writes w.priv.bar_base w.priv.info.port_id rsfec_writes) (pure tt)
        (conf_writes-priv env w.priv.bar_base w.priv.info.port_id ConfReg.conf_rx_1 rsfec_writes w)
        refl

  -- What RS-FEC's registers hold after the writes for it.
  abbrev pub enable_fec : OnicPriv → Log → Option ℕ
  enable_fec p l = if p.info.rsfec_en then some 3 else port p l ConfReg.rsfec_conf_enable

  abbrev pub correct_fec : OnicPriv → Log → Option ℕ
  correct_fec p l = if p.info.rsfec_en then some 7 else port p l ConfReg.rsfec_conf_ind_correction

  rsfec_writes-Fec :
      (on : Bool) (w : World)
      → let b = w.priv.bar_base in
        let i = w.priv.info.port_id in
        Fec w.priv
          ((if on then conf_writes b i rsfec_writes else pure tt) env w).1.log
          (if on then some 3 else port w.priv w.log ConfReg.rsfec_conf_enable)
          (if on then some 7 else port w.priv w.log ConfReg.rsfec_conf_ind_correction)
  unfolding conf_reg
  rsfec_writes-Fec true w =
      let at = λ (r : ConfReg).
        conf_writes-register env w.priv.bar_base w.priv.info.port_id r rsfec_writes w in
      (at ConfReg.rsfec_conf_enable, at ConfReg.rsfec_conf_ind_correction)
  rsfec_writes-Fec false w = (refl, refl)

  -- The register that asks for the reset is none of the port's.
  reset_asked-port :
      (b i v : ℕ) (r : ConfReg) (w : World)
      → register
          (called (Op.writel v (b + syscfg_offset SysReg.shell_reset)) env w).log
          (b + cmac_conf i r)
        ≡ register w.log (b + cmac_conf i r)
  unfolding syscfg_reg
  reset_asked-port b i v r w =
      let other : (b + 12 ≡ b + cmac_conf i r) → ⊥ = λ e. ground (arith, e) in
      rw (ne→== (b + 12) (b + cmac_conf i r) other) refl

  polled-register : (b k a : ℕ) (w : World) → register (polled env b k w).log a ≡ register w.log a
  polled-register b zero a w = refl
  polled-register b (suc k) a w =
      polled-register b k a (called (Op.mdelay 1) env (called (read_status b) env w))

  -- What was written for RS-FEC is still there when the wait is over.
  waited-Fec :
      (k : ℕ) (w : World)
      → Fec w.priv
          (polled env w.priv.bar_base k (reset_asked w)).log
          (enable_fec w.priv w.log)
          (correct_fec w.priv w.log)
  waited-Fec k w =
      let b = w.priv.bar_base in
      let i = w.priv.info.port_id in
      let v = ((if w.priv.info.rsfec_en then conf_writes b i rsfec_writes else pure tt) env w).1 in
      let same = λ (r : ConfReg).
        polled-register b k (b + cmac_conf i r) (reset_asked w)
        ∙ reset_asked-port b i (shell_bit i) r v in
      let (e, f) = rsfec_writes-Fec w.priv.info.rsfec_en w in
      (same ConfReg.rsfec_conf_enable ∙ e, same ConfReg.rsfec_conf_ind_correction ∙ f)

  -- The world in which the wait has seen the reset in its round `k`.
  abbrev pub reset_seen : ℕ → World → World
  reset_seen k w =
      let b = w.priv.bar_base in called (read_status b) env (polled env b k (reset_asked w))

  reset_seen-Ends :
      (k : ℕ) (w : World)
      → let b = w.priv.bar_base in
        let u = reset_seen k w in
        EnableEnds
          (aligns env b w.priv.info.port_id u)
          w.priv
          (enable_lanes env u).0
          (enable_lanes env u).1.log
        × Fec w.priv (enable_lanes env u).1.log (enable_fec w.priv w.log) (correct_fec w.priv w.log)
  reset_seen-Ends k w =
      let u = reset_seen k w in
      let e = polled-priv env w.priv.bar_base k (reset_asked w) ∙ reset_asked-priv w in
      let x = enable_fec w.priv w.log in
      let y = correct_fec w.priv w.log in
      subst
        (λ (p : OnicPriv).
          EnableEnds (aligns env p.bar_base p.info.port_id u) p (enable_lanes env u).0
            (enable_lanes env u).1.log
          × Fec p (enable_lanes env u).1.log x y)
        e
        (enable_lanes-Ends env u x y
          (subst (λ (p : OnicPriv). Fec p u.log x y) (sym e) (waited-Fec k w)))

  -- When the shell's status shows the port's bit in round `k` of the wait and the wait has more than
  -- `k` rounds, `onic_enable_cmac` returns, having waited up to the first round that shows it. Where
  -- the lanes are then found aligned, at once or 100 ms later, it returns 0, and the port receives
  -- and sends, with all thirteen registers of flow control set. Where they are not it returns -EBUSY,
  -- and the port neither receives nor sends. The two registers of RS-FEC hold 3 and 7 where the
  -- platform asks for it, and what they held else.
  pub onic_enable_cmac-Ends :
      (fuel k : ℕ) (w : World)
      → k < fuel
      → let b = w.priv.bar_base in
        let i = w.priv.info.port_id in
        let v = (onic_enable_cmac fuel env w).1 in
        shows env (shell_bit i) b (polled env b k (reset_asked w)) ≡ true
        → (j : ℕ) × (ret : ℤ) × (j ≤ k)
          × ((m : ℕ) → m < j → shows env (shell_bit i) b (polled env b m (reset_asked w)) ≡ false)
          × (shows env (shell_bit i) b (polled env b j (reset_asked w)) ≡ true)
          × ((onic_enable_cmac fuel env w).0 ≡ some ret)
          × EnableEnds (aligns env b i (reset_seen j w)) w.priv ret v.log
          × (port w.priv v.log ConfReg.rsfec_conf_enable ≡ enable_fec w.priv w.log)
          × (port w.priv v.log ConfReg.rsfec_conf_ind_correction ≡ correct_fec w.priv w.log)
  unfolding onic_enable_cmac
  onic_enable_cmac-Ends fuel k w l seen =
      let b = w.priv.bar_base in
      let bit = shell_bit w.priv.info.port_id in
      let (j, m, before, at, e) = wait_shell-returns env bit b fuel k (reset_asked w) l seen in
      let (ends, fec) = reset_seen-Ends j w in
      rw e (j, (enable_lanes env (reset_seen j w)).0, m, before, at, refl, ends, fec.0, fec.1)
