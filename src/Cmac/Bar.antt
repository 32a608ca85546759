-- ===== src/Cmac/Bar.antt =====
-- The register accesses of the port functions (onic_main.c: `onic_enable_cmac`, `onic_disable_cmac`,
-- `onic_init_reta`) and the 64 KB of the shell (onic_register.h: `SHELL_MAXLEN`).
use onic_driver.Base.{
  ℕ, zero, suc, ◌+◌, ◌<◌, ◌≤◌, ◌≡◌, ◌∙◌, refl, subst, inl, inr, Bool-cases, ◌==◌, leb, ltb, ◌&&◌,
  not, if◌then◌else◌, bit_and, some, none, List, [], ◌∷◌, sum_of, arith,
}
use onic_driver.Kernel.{OnicPriv, Op, Event, Log, Env, World, called, pure, ◌>>=◌, ◌>>◌, perform}
use onic_driver.Kernel.Steps.{Frame, Always, done, either}
use onic_driver.Register.{
  shell_maxlen, syscfg_offset, cmac_conf, cmac_stat, qdma_func_offset_qconf,
  qdma_func_offset_indir_table,
}
use onic_driver.Register.Sys.{SysReg, syscfg_reg}
use onic_driver.Register.Conf.{ConfReg}
use onic_driver.Register.Stat.{StatReg}
use onic_driver.Register.Layout.{conf_reg-aligned, stat_reg-aligned}
use onic_driver.Cmac.{
  onic_rx_lane_aligned, conf_writes, disable_writes, onic_disable_cmac, rsfec_writes, start_writes,
  flow_writes, wait_shell, shell_bit, enable_flow, rx_not_aligned, enable_lanes, onic_enable_cmac,
  reta_loop, onic_init_reta,
}

-- An access to a register outside the shell that is mapped at `b`.
abbrev pub outside_at : ℕ → ℕ → ℕ
outside_at b a = if leb b a && ltb a (b + shell_maxlen) then 0 else 1

abbrev pub outside_op : ℕ → Op → ℕ
outside_op b (Op.readl a) = outside_at b a
outside_op b (Op.writel v a) = outside_at b a
outside_op b o = 0

abbrev pub outside : ℕ → Log → ℕ
outside b l = sum_of (λ (e : Event). outside_op b e.op) l

-- No register outside the shell at `b` was touched.
record Inside (b : ℕ) (w v : World) : Type 0 where
  same_priv : v.priv ≡ w.priv
  none_outside : outside b v.log ≡ outside b w.log

Inside-Frame : (b : ℕ) → Frame (Inside b)
Inside-Frame b = record {
  stay = λ w. record { same_priv = refl; none_outside = refl };
  both = λ x y. record {
    same_priv = y.same_priv ∙ x.same_priv;
    none_outside = y.none_outside ∙ x.none_outside;
  };
}

offset-in : (b off : ℕ) → off < 65536 → outside_at b (b + off) ≡ 0
offset-in b off l = ground arith

cmac_conf-in : (i : ℕ) (r : ConfReg) → cmac_conf i r < 65536
cmac_conf-in i r = ground (arith, conf_reg-aligned r)

cmac_stat-in : (i : ℕ) (r : StatReg) → cmac_stat i r < 65536
cmac_stat-in i r = ground (arith, stat_reg-aligned r)

syscfg-in : (r : SysReg) → syscfg_offset r < 65536
unfolding syscfg_reg
syscfg-in r = ground arith

module _ (env : Env) (b : ℕ) where
  write-Inside :
      (v off : ℕ) (w : World) → off < 65536 → Inside b w (called (Op.writel v (b + off)) env w)
  write-Inside v off w l = record {
    same_priv = refl;
    none_outside = omega (arith, offset-in b off l);
  }

  read-Inside : (off : ℕ) (w : World) → off < 65536 → Inside b w (called (Op.readl (b + off)) env w)
  read-Inside off w l = record { same_priv = refl; none_outside = omega (arith, offset-in b off l) }

  delay-Inside : (n : ℕ) (w : World) → Inside b w (called (Op.mdelay n) env w)
  delay-Inside n w = record { same_priv = refl; none_outside = omega arith }

  conf_writes-Inside :
      (i : ℕ) (ws : List (ConfReg × ℕ)) (w : World) → Inside b w (conf_writes b i ws env w).1
  unfolding conf_writes
  conf_writes-Inside i [] w = (Inside-Frame b).stay w
  conf_writes-Inside i ((r, val) ∷ ws) w =
      (Inside-Frame b).both (write-Inside val (cmac_conf i r) w (cmac_conf-in i r))
        (conf_writes-Inside i ws _)

  wait_shell-Inside : (fuel mask : ℕ) (w : World) → Inside b w (wait_shell fuel mask b env w).1
  unfolding wait_shell
  wait_shell-Inside zero mask w = (Inside-Frame b).stay w
  wait_shell-Inside (suc fuel) mask w =
      let op = Op.readl (b + syscfg_offset SysReg.shell_status) in
      let v = called op env w in
      let asked =
        read-Inside (syscfg_offset SysReg.shell_status) w (syscfg-in SysReg.shell_status) in
      elim (Bool-cases (bit_and (env.value w.log op) mask == mask)) [
        | inl seen ↦ rw seen asked
        | inr not_yet ↦ rw not_yet (
            (Inside-Frame b).both asked
              ((Inside-Frame b).both (delay-Inside 1 v) (wait_shell-Inside fuel mask _)))
      ]

  reta_loop-Inside :
      (i num_rx n k : ℕ) (w : World)
      → i < 15
      → k + n ≤ 128
      → Inside b w (reta_loop b i num_rx n k env w).1
  unfolding reta_loop
  reta_loop-Inside i num_rx zero k w l m = (Inside-Frame b).stay w
  reta_loop-Inside i num_rx (suc n) k w l m =
      (Inside-Frame b).both (write-Inside _ (qdma_func_offset_indir_table i k) w (omega arith))
        (reta_loop-Inside i num_rx n (k + 1) _ l (omega arith))

-- The same from the base address that the private part holds.
abbrev InBar : World → World → Type 0
InBar w v = Inside w.priv.bar_base w v

InBar-trans : (w v u : World) → InBar w v → InBar v u → InBar w u
InBar-trans w v u x y =
    (Inside-Frame w.priv.bar_base).both x
      (subst (λ (p : OnicPriv). Inside p.bar_base v u) x.same_priv y)

InBar-Frame : Frame InBar
InBar-Frame = record {
  stay = λ w. (Inside-Frame w.priv.bar_base).stay w;
  both = λ {u} {v} {w} x y. InBar-trans u v w x y;
}

rx_lane_aligned-InBar : (i : ℕ) → Always InBar-Frame (onic_rx_lane_aligned i)
unfolding onic_rx_lane_aligned
rx_lane_aligned-InBar i env w =
    let b = w.priv.bar_base in
    let off = cmac_stat i StatReg.stat_rx_status in
    (Inside-Frame b).both (read-Inside env b off w (cmac_stat-in i StatReg.stat_rx_status))
      (read-Inside env b off _ (cmac_stat-in i StatReg.stat_rx_status))

disable_cmac-InBar : Always InBar-Frame onic_disable_cmac
unfolding onic_disable_cmac
disable_cmac-InBar env w =
    conf_writes-Inside env w.priv.bar_base w.priv.info.port_id disable_writes w

enable_flow-InBar : Always InBar-Frame enable_flow
unfolding enable_flow
enable_flow-InBar env w = conf_writes-Inside env w.priv.bar_base w.priv.info.port_id flow_writes w

rx_not_aligned-InBar : Always InBar-Frame rx_not_aligned
unfolding rx_not_aligned
rx_not_aligned-InBar env w = disable_cmac-InBar env w

enable_lanes-InBar : Always InBar-Frame enable_lanes
unfolding enable_lanes
enable_lanes-InBar env w =
    let i = w.priv.info.port_id in
    let v = (conf_writes w.priv.bar_base i start_writes env w).1 in
    let again =
      perform (Op.mdelay 100)
      >> (do aligned ← onic_rx_lane_aligned i; if aligned then enable_flow else rx_not_aligned) in
    InBar-Frame.both (conf_writes-Inside env w.priv.bar_base i start_writes w) (
      InBar-Frame.both (rx_lane_aligned-InBar i env v) (
        either InBar-Frame (onic_rx_lane_aligned i env v).0 enable_flow again enable_flow-InBar
          (λ e u.
            let u' = called (Op.mdelay 100) e u in
            InBar-Frame.both (delay-Inside e u.priv.bar_base 100 u) (
              InBar-Frame.both (rx_lane_aligned-InBar i e u') (
                either InBar-Frame (onic_rx_lane_aligned i e u').0 enable_flow rx_not_aligned
                  enable_flow-InBar rx_not_aligned-InBar e (onic_rx_lane_aligned i e u').1)))
          env (onic_rx_lane_aligned i env v).1))

enable_cmac-InBar : (fuel : ℕ) → Always InBar-Frame (onic_enable_cmac fuel)
unfolding onic_enable_cmac
enable_cmac-InBar fuel env w =
    let b = w.priv.bar_base in
    let i = w.priv.info.port_id in
    let v = ((if w.priv.info.rsfec_en then conf_writes b i rsfec_writes else pure tt) env w).1 in
    let reset = Op.writel (shell_bit i) (b + syscfg_offset SysReg.shell_reset) in
    let u = called reset env v in
    let r = wait_shell fuel (shell_bit i) b env u in
    let F = Inside-Frame b in
    let lanes = enable_lanes >>= λ ret. pure (some ret) in
    InBar-Frame.both
      (F.both
        (either F w.priv.info.rsfec_en (conf_writes b i rsfec_writes) (pure tt)
          (λ e x. conf_writes-Inside e b i rsfec_writes x) (done F tt) env w)
        (F.both
          (write-Inside env b (shell_bit i) (syscfg_offset SysReg.shell_reset) v
            (syscfg-in SysReg.shell_reset))
          (wait_shell-Inside env b fuel (shell_bit i) u)))
      (either InBar-Frame (not r.0) (pure none) lanes (λ e x. InBar-Frame.stay x)
        (λ e x. enable_lanes-InBar e x) env r.1)

init_reta-InBar :
    (env : Env) (w : World) → w.priv.info.port_id < 15 → InBar w (onic_init_reta env w).1
unfolding onic_init_reta
init_reta-InBar env w l =
    let b = w.priv.bar_base in
    let i = w.priv.info.port_id in
    (Inside-Frame b).both (write-Inside env b _ (qdma_func_offset_qconf i) w (omega arith))
      (reta_loop-Inside env b i w.net.real_num_rx_queues 128 0 _ l (omega arith))

-- Enabling and disabling the port and the set-up of its indirection table touch no register outside the
-- 64 KB of the shell from the base address of the private part on, whatever is read and however long the
-- wait for the reset is, when the number of the port is below 15.
pub onic_enable_cmac-inside :
    (env : Env) (fuel : ℕ) (w : World)
    → w.priv.info.port_id < 15
    → let b = w.priv.bar_base in
      (outside b (onic_enable_cmac fuel env w).1.log ≡ outside b w.log)
      × (outside b (onic_disable_cmac env w).1.log ≡ outside b w.log)
      × (outside b (onic_init_reta env w).1.log ≡ outside b w.log)
onic_enable_cmac-inside env fuel w l = (
  (enable_cmac-InBar fuel env w).none_outside,
  (disable_cmac-InBar env w).none_outside,
  (init_reta-InBar env w l).none_outside,
)
